-- ===== src/Integrations/Email/Delivery.antt =====
-- Every mail of a request is handed to the SMTP server, whatever becomes of the others.
use hotspot_payment_gateway.Base.{◌≡◌, refl, sym, ap, ◌∙◌, List, [], ◌∷◌, ◌++◌, map, arith}
use hotspot_payment_gateway.Auth.Session.{Mail}
use hotspot_payment_gateway.Integrations.Email.{
  Smtp, Outbox, done, message, send_email, safe_send_email, run_tasks,
}

append_assoc :
    {A : Type 0} (xs : List A) (y : A) (ys : List A) → (xs ++ y ∷ []) ++ ys ≡ xs ++ y ∷ ys
append_assoc [] y ys = refl
append_assoc (x ∷ xs) y ys = rw (append_assoc xs y ys) refl

append_nil : {A : Type 0} (xs : List A) → xs ++ [] ≡ xs
append_nil [] = refl
append_nil (x ∷ xs) = rw (append_nil xs) refl

module _ ⦃smtp : Smtp⦄ where
  -- `_safe_send_email` raises nothing, and makes its one call.
  safe_send_email-eq :
      (mail : Mail) (o : Outbox)
      → ((safe_send_email mail o).0 ≡ done)
        × ((safe_send_email mail o).1.calls ≡ o.calls ++ message mail ∷ [])
  unfolding safe_send_email send_email
  safe_send_email-eq mail o = ground arith

  -- However the calls to the SMTP server end, the background tasks of a request raise nothing and
  -- try every queued mail once, in order.
  pub run_tasks-calls :
      (mails : List Mail) (o : Outbox)
      → ((run_tasks mails o).0 ≡ done)
        × ((run_tasks mails o).1.calls ≡ o.calls ++ map message mails)
  unfolding run_tasks
  run_tasks-calls [] o = (refl, sym (append_nil o.calls))
  run_tasks-calls (mail ∷ rest) o =
      let (r, c) = safe_send_email-eq mail o in
      let (s, d) = run_tasks-calls rest (safe_send_email mail o).1 in
      rw r (
        s,
        d
            ∙ ap (λ xs. xs ++ map message rest) c
            ∙ append_assoc o.calls (message mail) (map message rest),
      )
