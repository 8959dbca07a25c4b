-- ===== src/App/Interleaving/Spent.antt =====
-- A token that is revoked or used can be exchanged by those calls only that had read it before.
use text.Mathlib.TextEquality.{eq_iff}
use hotspot_payment_gateway.Base.{
  ℕ, zero, suc, ◌+◌, ◌≤◌, String, ◌≡◌, refl, sym, ◌∙◌, subst, inl, inr, Bool-cases, Option-cases,
  true, false, some, Has, List, [], ◌∷◌, arith, ap,
}
use hotspot_payment_gateway.Runtime.{Env}
use hotspot_payment_gateway.Auth.Models.{VerificationToken, Tables, consistent}
use hotspot_payment_gateway.Auth.Session.{
  Conn, Exn, Result, ok, raised, with_session, opened, invalid_verification_token_error,
  invalid_password_reset_token_error,
}
use hotspot_payment_gateway.Auth.Tokens.{hash_token}
use hotspot_payment_gateway.Auth.Refresh.{read_rotation}
use hotspot_payment_gateway.Auth.Refresh.Validity.{verify_revoked}
use hotspot_payment_gateway.Auth.Mail.{is_used, purpose_email_verify, purpose_password_reset}
use hotspot_payment_gateway.Auth.Mail.Consume.{consume_used}
use hotspot_payment_gateway.Auth.Mail.Reads.{read_verification, read_reset}
use hotspot_payment_gateway.Auth.History.{Evolves}
use hotspot_payment_gateway.App.Revocation.{IsDead, IsDead-Evolves}
use hotspot_payment_gateway.App.Interleaving.{
  Ticket, session, verification, reset, same_ticket, Job, rotate, verify, replace, ticket, Reading,
  Server, Step, begin, finish, whole, taken, point, count_succeeded, count_under_way, begun,
  finished, read_job, write_job, begin_job, finish_job, step, run_steps,
}
use hotspot_payment_gateway.App.Interleaving.Evolving.{
  MayBecome, step-MayBecome, run_steps-MayBecome,
}

-- The calls with a ticket that succeeded or may still.
abbrev pub chances : Ticket → Server → ℕ
chances t s = count_succeeded t s.succeeded + count_under_way t s.under_way

count-taken :
    (t : Ticket) (n : ℕ) (xs others : List (Ticket × Reading)) (x : Ticket) (r : Reading)
    → taken n xs ≡ some ((x, r), others)
    → count_under_way t xs ≡ point (same_ticket x t) + count_under_way t others
count-taken t n [] others x r h = cc
count-taken t zero ((y, q) ∷ xs) others x r h = ground arith
count-taken t (suc n) ((y, q) ∷ xs) others x r h = elim (Option-cases (taken n xs)) [
  | inl e ↦ ground arith
  | inr (((z, p), ys), e) ↦ let k = count-taken t n xs ys z p e in ground arith
]

chances-finished :
    (t x : Ticket) (r : Result (Unit {0})) (s : Server)
    → chances t (finished x r s) ≤ chances t s + point (same_ticket x t)
chances-finished t x (ok _) s = omega arith
chances-finished t x (raised e) s = omega arith

chances-begun :
    (t x : Ticket) (r : Result Reading) (s : Server)
    → same_ticket x t ≡ false
    → chances t (begun x r s) ≤ chances t s
chances-begun t x (ok p) s h = rw h (omega arith)
chances-begun t x (raised e) s h = omega arith

same_ticket-eq : (x y : Ticket) → same_ticket x y ≡ true → x ≡ y
same_ticket-eq (session x) (session y) h = ap session ((eq_iff x y).0 h)
same_ticket-eq (verification x) (verification y) h = ap verification ((eq_iff x y).0 h)
same_ticket-eq (reset x) (reset y) h = ap reset ((eq_iff x y).0 h)
same_ticket-eq (session x) (verification y) h = cc
same_ticket-eq (session x) (reset y) h = cc
same_ticket-eq (verification x) (session y) h = cc
same_ticket-eq (verification x) (reset y) h = cc
same_ticket-eq (reset x) (session y) h = cc
same_ticket-eq (reset x) (verification y) h = cc

module _ ⦃env : Env⦄ where
  -- A used row is stored for the raw token and the purpose, among consistent rows.
  pub record IsUsedUp (t : Tables) (raw purpose : String) : Type 0 where
    pub row : VerificationToken
    pub here : Has row t.verification_tokens
    pub hashed : row.token_hash ≡ hash_token raw
    pub meant : row.purpose ≡ purpose
    pub off : is_used row ≡ true
    pub valid : consistent t ≡ true

  abbrev pub IsSpent : Tables → Ticket → Type 0
  IsSpent t (session raw) = IsDead t raw
  IsSpent t (verification raw) = IsUsedUp t raw purpose_email_verify
  IsSpent t (reset raw) = IsUsedUp t raw purpose_password_reset

  pub IsUsedUp-Evolves :
      (t u : Tables) (raw purpose : String)
      → Evolves t u
      → (consistent t ≡ true → consistent u ≡ true)
      → IsUsedUp t raw purpose
      → IsUsedUp u raw purpose
  IsUsedUp-Evolves t u raw purpose e k d =
      let (row, m, l) = e.verification_tokens d.row d.here in
      record {
        row = row;
        here = m;
        hashed = l.token_hash ∙ d.hashed;
        meant = l.purpose ∙ d.meant;
        off = l.used d.off;
        valid = k d.valid;
      }

  IsSpent-MayBecome :
      (t : Ticket) (s s' : Server) → MayBecome s s' → IsSpent s.conn.db t → IsSpent s'.conn.db t
  IsSpent-MayBecome (session raw) s s' (e, k) d = IsDead-Evolves _ _ raw e k d
  IsSpent-MayBecome (verification raw) s s' (e, k) d = IsUsedUp-Evolves _ _ raw _ e k d
  IsSpent-MayBecome (reset raw) s s' (e, k) d = IsUsedUp-Evolves _ _ raw _ e k d

  -- Nobody reads a spent token.
  refused_read :
      (job : Job) (c : Conn)
      → IsSpent c.db (ticket job)
      → (e : Exn) × ((with_session (read_job job) c).0 ≡ raised e)
  unfolding read_job read_rotation read_verification read_reset with_session
  refused_read (rotate raw) c d =
      let v = verify_revoked raw (opened c) d.row d.valid d.here d.hashed d.off in rw v (_, refl)
  refused_read (verify raw) c d =
      let v =
        consume_used raw purpose_email_verify invalid_verification_token_error (opened c) d.row
          d.valid d.here d.hashed d.meant d.off in
      rw v (_, refl)
  refused_read (replace raw new_password) c d =
      let v =
        consume_used raw purpose_password_reset invalid_password_reset_token_error (opened c) d.row
          d.valid d.here d.hashed d.meant d.off in
      rw v (_, refl)

  begin_job-chances :
      (t : Ticket) (job : Job) (s : Server)
      → IsSpent s.conn.db t
      → chances t (begin_job job s) ≤ chances t s
  begin_job-chances t job s d = elim (Bool-cases (same_ticket (ticket job) t)) [
    | inl e ↦
        let (x, v) =
          refused_read job s.conn
            (subst (λ y. IsSpent s.conn.db y) (sym (same_ticket-eq (ticket job) t e)) d) in
        rw v (omega arith)
    | inr n ↦
        let (r, c) = with_session (read_job job) s.conn in
        chances-begun t (ticket job) r (record s { conn = c }) n
  ]

  finish_job-chances :
      (t : Ticket) (n : ℕ) (s : Server)
      → chances t (finish_job (taken n s.under_way) s) ≤ chances t s
  finish_job-chances t n s = elim (Option-cases (taken n s.under_way)) [
    | inl e ↦ rw e (omega arith)
    | inr (((x, reading), others), e) ↦
        let (r, c) = with_session (write_job reading) s.conn in
        let l = chances-finished t x r (record s { conn = c; under_way = others }) in
        let k = count-taken t n s.under_way others x reading e in rw e (omega arith)
  ]

  step-chances :
      (t : Ticket) (event : Step env.Jwt) (s : Server)
      → IsSpent s.conn.db t
      → chances t (step event s) ≤ chances t s
  step-chances t (begin job) s d = begin_job-chances t job s d
  step-chances t (finish n) s d = finish_job-chances t n s
  step-chances t (whole request) s d = omega arith

  run_steps-chances :
      (t : Ticket) (steps : List (Step env.Jwt)) (s : Server)
      → IsSpent s.conn.db t
      → chances t (run_steps steps s) ≤ chances t s
  unfolding run_steps
  run_steps-chances t [] s d = omega arith
  run_steps-chances t (event ∷ rest) s d =
      let l = step-chances t event s d in
      let m =
        run_steps-chances t rest (step event s)
          (IsSpent-MayBecome t s (step event s) (step-MayBecome event s) d) in
      omega arith

  -- From when a refresh token is revoked, or a mailed token used, on consistent rows, only those
  -- calls can still succeed with it that had read it before: however steps interleave, the calls
  -- that have succeeded and those under way do not become more, and a new read of the token is
  -- refused.
  pub run_steps-IsSpent :
      (t : Ticket) (steps : List (Step env.Jwt)) (s : Server)
      → IsSpent s.conn.db t
      → let s' = run_steps steps s in
        (count_succeeded t s'.succeeded + count_under_way t s'.under_way
          ≤ count_succeeded t s.succeeded + count_under_way t s.under_way)
        × ((job : Job)
            → ticket job ≡ t
            → (e : Exn) × ((with_session (read_job job) s'.conn).0 ≡ raised e))
  run_steps-IsSpent t steps s d =
      let s' = run_steps steps s in
      let later = IsSpent-MayBecome t s s' (run_steps-MayBecome steps s) d in
      (
        run_steps-chances t steps s d,
        λ job h. refused_read job s'.conn (subst (λ x. IsSpent s'.conn.db x) (sym h) later),
      )
