-- ===== src/App/Interleaving/Resets.antt =====
-- Two password resets with one token at the same time.
use Prim.Native.String.{len}
use hotspot_payment_gateway.Base.{
  ltb, false, ◌+◌, ◌==◌, String, ◌≡◌, refl, ap, ◌∙◌, true, some, List, [], ◌∷◌,
}
use hotspot_payment_gateway.Runtime.{Env}
use hotspot_payment_gateway.Auth.Models.{User, VerificationToken, consistent}
use hotspot_payment_gateway.Auth.Session.{
  Conn, Result, ok, raised, with_session, opened, invalid_password_reset_token_error,
}
use hotspot_payment_gateway.Auth.Accounts.{get_user}
use hotspot_payment_gateway.Auth.Refresh.Liveness.{find_user}
use hotspot_payment_gateway.Auth.Mail.{purpose_password_reset, consume_token, replace_password}
use hotspot_payment_gateway.Auth.Mail.Consume.{IsUsable}
use hotspot_payment_gateway.Auth.Mail.Reads.{read_reset}
use hotspot_payment_gateway.Auth.Mail.Liveness.{consume-eq, mailed_to, replace_password-ok}
use hotspot_payment_gateway.App.Interleaving.{
  Ticket, reset, replace, Reading, replacement, Server, begin, finish, finished, read_job,
  write_job, step, run_steps,
}
use hotspot_payment_gateway.App.Interleaving.Evolving.{step-MayBecome}

-- A server after a read that succeeded.
abbrev reading : Ticket → Reading → Server → Server
reading t r s = record s {
  conn = opened (record s.conn { draws = s.conn.draws + 1 });
  under_way = (t, r) ∷ s.under_way;
}

finished-ok :
    (t : Ticket) (r : Result (Unit {0})) (s : Server)
    → r ≡ ok tt
    → finished t r s ≡ record s { succeeded = t ∷ s.succeeded }
finished-ok t (ok tt) s h = refl
finished-ok t (raised e) s h = cc

module _ ⦃env : Env⦄ where
  read_found :
      (raw : String) (c : Conn) (row : VerificationToken) (user : User)
      → consume_token raw purpose_password_reset invalid_password_reset_token_error (opened c)
        ≡ (ok row, opened (record c { draws = c.draws + 1 }))
      → env.scalar (λ v. v.id == row.user_id) c.db.users ≡ some user
      → (new_password : String)
      → with_session (read_job (replace raw new_password)) c
        ≡ (ok (replacement new_password row user), opened (record c { draws = c.draws + 1 }))
  unfolding with_session read_job read_reset get_user
  read_found raw c row user v f new_password = rw (v, f) refl

  begun-reset :
      (raw new_password : String) (s : Server) (row : VerificationToken)
      → consistent s.conn.db ≡ true
      → IsUsable s.conn.db raw purpose_password_reset s.conn.draws row
      → (user : User) × (step (begin (replace raw new_password)) s
          ≡ reading (reset raw) (replacement new_password row user) s)
  begun-reset raw new_password s row h l =
      let (user, m, e) = mailed_to s.conn.db row h l.here in
      let k =
        read_found raw s.conn row user
          (consume-eq raw purpose_password_reset invalid_password_reset_token_error s.conn row h l)
          (find_user s.conn.db row.user_id user h m e) new_password in
      (user, rw k refl)

  -- A reset that has read its token goes through on consistent rows, whatever came in between.
  finish-replacement :
      (t : Ticket) (new_password : String) (token : VerificationToken) (user : User)
      (others : List (Ticket × Reading)) (s : Server)
      → ltb 72 (len new_password) ≡ false
      → consistent s.conn.db ≡ true
      → s.under_way ≡ (t, replacement new_password token user) ∷ others
      → let s' = step (finish 0) s in
        (s'.succeeded ≡ t ∷ s.succeeded) × (s'.under_way ≡ others) × (consistent s'.conn.db ≡ true)
  unfolding with_session write_job
  finish-replacement t new_password token user others s o h e =
      let (r, c) = with_session (replace_password new_password token user) s.conn in
      let k =
        finished-ok t r (record s { conn = c; under_way = others })
          (replace_password-ok new_password token user s.conn o h) in
      let (a, b) : ((step (finish 0) s).succeeded ≡ t ∷ s.succeeded)
          × ((step (finish 0) s).under_way ≡ others) =
        rw (e, k) (refl, refl) in
      (a, b, (step-MayBecome (finish 0) s).1 h)

  -- On consistent rows, with a reset token that is usable at two readings of the clock and new
  -- passwords of at most 72 bytes, two resets that both read the token before either writes both
  -- succeed.
  pub run_steps-replace :
      (raw p q : String) (s : Server) (row : VerificationToken)
      → ltb 72 (len p) ≡ false
      → ltb 72 (len q) ≡ false
      → consistent s.conn.db ≡ true
      → IsUsable s.conn.db raw purpose_password_reset s.conn.draws row
      → IsUsable s.conn.db raw purpose_password_reset (s.conn.draws + 1) row
      → (run_steps
          (begin (replace raw p) ∷ begin (replace raw q) ∷ finish 0 ∷ finish 0 ∷ [])
          s).succeeded
        ≡ reset raw ∷ reset raw ∷ s.succeeded
  unfolding run_steps
  run_steps-replace raw p q s row i j h l m =
      let (u, e) = begun-reset raw p s row h l in
      let s₁ = reading (reset raw) (replacement p row u) s in
      let (v, f) = begun-reset raw q s₁ row h m in
      let s₂ = reading (reset raw) (replacement q row v) s₁ in
      let (a, b, k) =
        finish-replacement (reset raw) q row v ((reset raw, replacement p row u) ∷ s.under_way) s₂ j
          h refl in
      let s₃ = step (finish 0) s₂ in
      let (a', b', k') = finish-replacement (reset raw) p row u s.under_way s₃ i k b in
      rw (e, f) (a' ∙ ap (λ xs. reset raw ∷ xs) a)
