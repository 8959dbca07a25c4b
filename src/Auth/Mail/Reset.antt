-- ===== src/Auth/Mail/Reset.antt =====
-- `reset_password`: the new password holds, every session of the user ends, and the token is good
-- for one reset.
use Prim.Native.String.{len}
use hotspot_payment_gateway.Base.{
  ltb, false, ℕ, String, ◌≡◌, refl, true, Option, none, some, ◌+◌, ◌==◌, ==_iff, arith,
}
use hotspot_payment_gateway.Runtime.{Env}
use hotspot_payment_gateway.Auth.Models.{User, VerificationToken, Tables, consistent}
use hotspot_payment_gateway.Auth.Session.{
  Conn, Exn, ok, opened, unchanged, or_raise, ◌>>=◌, commit, invalid_password_reset_token_error,
}
use hotspot_payment_gateway.Auth.Session.Steps.{bind-eq-ok}
use hotspot_payment_gateway.Auth.Accounts.{get_user}
use hotspot_payment_gateway.Auth.Refresh.{revoke_by_user}
use hotspot_payment_gateway.Auth.Mail.{
  purpose_password_reset, mark_used, set_password, consume_token, replace_password, reset_password,
}
use hotspot_payment_gateway.Auth.Mail.Consume.{IsUsable, consume-eq-ok}

module _ ⦃env : Env⦄ where
  -- The rows after a reset with the token `row`; the n-th reading was the one of the new row.
  abbrev pub reset_rows : VerificationToken → String → ℕ → Tables → Tables
  reset_rows row hash n t = revoke_by_user row.user_id (
      mark_used row.id (env.stored (env.now (n + 1)))
        (set_password row.user_id hash (env.server_now n) t))

  pub record IsReset (row : VerificationToken) (new_password : String) (c c' : Conn) : Type 0 where
    pub db :
        c'.db
        ≡ reset_rows row
            (env.hashpw new_password (env.gensalt (c.draws + 1)))
            (c.draws + 1 + 1)
            c.db
    pub valid : consistent c'.db ≡ true
    pub closed : c'.pending ≡ unchanged
    pub short : ltb 72 (len new_password) ≡ false

  replace-eq-ok :
      (new_password : String) (row : VerificationToken) (user : User) (c : Conn) {c' : Conn}
      → user.id ≡ row.user_id
      → replace_password new_password row user (opened (record c { draws = c.draws + 1 }))
        ≡ (ok tt, c')
      → IsReset row new_password c c'
  unfolding replace_password commit
  replace-eq-ok new_password row user c e h = ground arith

  replace_found-eq-ok :
      (new_password : String) (row : VerificationToken) (e : Exn) (found : Option User) (c : Conn)
      {c' : Conn}
      → (or_raise found e >>= replace_password new_password row) c ≡ (ok tt, c')
      → (user : User) × (found ≡ some user)
        × (replace_password new_password row user c ≡ (ok tt, c'))
  replace_found-eq-ok new_password row e none c h = cc
  replace_found-eq-ok new_password row e (some user) c h = (user, refl, h)

  -- A reset that succeeds has consumed a usable reset token.
  pub reset_password-IsReset :
      (raw new_password : String) (c : Conn) {c' : Conn}
      → reset_password raw new_password (opened c) ≡ (ok tt, c')
      → (row : VerificationToken) × IsUsable c.db raw purpose_password_reset c.draws row
        × IsReset row new_password c c'
  unfolding reset_password get_user
  reset_password-IsReset raw new_password c h =
      let (row, c₁, v, h₁) =
        bind-eq-ok (consume_token raw purpose_password_reset invalid_password_reset_token_error) _
          (opened c) h in
      let (usable, same) =
        consume-eq-ok raw purpose_password_reset invalid_password_reset_token_error (opened c) v in
      let (u, found, h₂) =
        replace_found-eq-ok new_password row _ (env.scalar (λ w. w.id == row.user_id) c.db.users)
          (opened (record c { draws = c.draws + 1 })) (rw same at h₁) in
      let (m, k) = env.scalar-some _ c.db.users _ found in
      (row, usable, replace-eq-ok new_password row u c ((==_iff _ _).0 k) h₂)
