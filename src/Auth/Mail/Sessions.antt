-- ===== src/Auth/Mail/Sessions.antt =====
-- What a password reset means to the sessions and the passwords of the users.
use hotspot_payment_gateway.Auth.Models.Constraints.{verification-eq_of_hash}
use hotspot_payment_gateway.Base.{
  subst, sym, ◌∙◌, ℕ, String, ◌≡◌, ◌≢◌, refl, true, false, some, ◌+◌, ◌==◌, ==_iff, Has, Has-kept,
  updated_cases, Bool-cases, inl, inr, arith,
}
use hotspot_payment_gateway.Runtime.{Env}
use hotspot_payment_gateway.Auth.Models.{User, RefreshToken, VerificationToken, Tables, consistent}
use hotspot_payment_gateway.Auth.Session.{
  Conn, ok, raised, opened, with_session, invalid_password_reset_token_error,
}
use hotspot_payment_gateway.Auth.Session.Steps.{with_session-eq}
use hotspot_payment_gateway.Auth.Tokens.{hash_token}
use hotspot_payment_gateway.Auth.Accounts.{authenticate}
use hotspot_payment_gateway.Auth.Accounts.Login.{IsAdmitted, authenticate_iff}
use hotspot_payment_gateway.Auth.Refresh.{revoked}
use hotspot_payment_gateway.Auth.Mail.{
  purpose_password_reset, is_used, with_password, reset_password,
}
use hotspot_payment_gateway.Auth.Mail.Consume.{used, Has-mark_used, IsUsable, consume_used}
use hotspot_payment_gateway.Auth.Mail.Reset.{IsReset, reset_password-IsReset}

not_same : {m n : ℕ} → m ≢ n → (m == n) ≡ false
not_same {m} {n} h = elim (Bool-cases (m == n)) [
  | inl y ↦ absurd (h ((==_iff m n).0 y))
  | inr y ↦ y
]

module _ ⦃env : Env⦄ where
  -- Every session of the user of the token is over, every other one stays as it was; the new
  -- password passes for the user, and every other user stays as it was.
  pub record EndsSessions (row : VerificationToken) (new_password : String) (t t' : Tables)
      : Type 0 where
    pub ended :
        (r : RefreshToken) → Has r t'.refresh_tokens → r.user_id ≡ row.user_id → r.is_revoked ≡ true
    pub kept :
        (r : RefreshToken)
        → Has r t.refresh_tokens
        → r.user_id ≢ row.user_id
        → Has r t'.refresh_tokens
    pub password :
        (u : User)
        → Has u t'.users
        → u.id ≡ row.user_id
        → (hash : String) × (u.password_hash ≡ some hash) × (env.checkpw new_password hash ≡ true)
    pub others : (u : User) → Has u t.users → u.id ≢ row.user_id → Has u t'.users

  IsReset-EndsSessions :
      (row : VerificationToken) (new_password : String) (c c' : Conn)
      → IsReset row new_password c c'
      → EndsSessions row new_password c.db c'.db
  IsReset-EndsSessions row new_password c c' done =
      let hash = env.hashpw new_password (env.gensalt (c.draws + 1)) in
      let at = env.server_now (c.draws + 1 + 1) in
      rw done.db (record {
        ended = λ r m e.
            elim (updated_cases (λ s. s.user_id == row.user_id) revoked c.db.refresh_tokens r m) [
              | inl (s, n, y, k) ↦ rw k refl
              | inr (n, y) ↦ absurd (ground arith)
            ];
        kept = λ r m e.
            Has-kept (λ s. s.user_id == row.user_id) revoked c.db.refresh_tokens r m (not_same e);
        password = λ u m e.
            elim (updated_cases (λ w. w.id == row.user_id) (with_password hash at) c.db.users u m) [
              | inl (s, n, y, k) ↦ rw k (
                hash,
                refl,
                env.checkpw-hashpw new_password (env.gensalt (c.draws + 1)) done.short,
              )
              | inr (n, y) ↦ absurd (ground arith)
            ];
        others = λ u m e.
            Has-kept (λ w. w.id == row.user_id) (with_password hash at) c.db.users u m (not_same e);
      })

  refuse_used :
      (raw new_password : String) (c : Conn) (row : VerificationToken)
      → consistent c.db ≡ true
      → Has row c.db.verification_tokens
      → row.token_hash ≡ hash_token raw
      → row.purpose ≡ purpose_password_reset
      → is_used row ≡ true
      → with_session (reset_password raw new_password) c
        ≡ (raised (invalid_password_reset_token_error "Token is invalid or already used"), opened c)
  unfolding with_session reset_password
  refuse_used raw new_password c row h m e p k =
      rw
        (consume_used raw purpose_password_reset invalid_password_reset_token_error (opened c) row h
          m e p k)
        refl

  -- A reset token is good for one reset: presenting it again is refused and changes nothing.
  pub reset_password-reset_password :
      (raw first second : String) (c : Conn) {c' : Conn}
      → with_session (reset_password raw first) c ≡ (ok tt, c')
      → with_session (reset_password raw second) c'
        ≡ (raised (invalid_password_reset_token_error "Token is invalid or already used"), c')
  reset_password-reset_password raw first second c h =
      let (c₁, run, closed) = with_session-eq (reset_password raw first) c h in
      let (row, usable, done) = reset_password-IsReset raw first c run in
      let at = env.stored (env.now (c.draws + 1 + 1 + 1)) in
      rw closed (
        refuse_used raw second (opened c₁) (used at row) done.valid
          (rw done.db (Has-mark_used row at c.db usable.here)) usable.hashed usable.meant refl)

  -- A successful reset used a live reset token, ended every session of its user and of no other,
  -- and set the new password of its user and of no other.
  pub reset_password-EndsSessions :
      (raw new_password : String) (c : Conn) {c' : Conn}
      → with_session (reset_password raw new_password) c ≡ (ok tt, c')
      → (row : VerificationToken) × IsUsable c.db raw purpose_password_reset c.draws row
        × EndsSessions row new_password c.db c'.db
  reset_password-EndsSessions raw new_password c h =
      let (c₁, run, closed) = with_session-eq (reset_password raw new_password) c h in
      let (row, usable, done) = reset_password-IsReset raw new_password c run in
      rw closed (row, usable, IsReset-EndsSessions row new_password c c₁ done)

  -- A successful reset with the usable token `row` has done so for the owner of `row`.
  pub reset_password-owner :
      (raw new_password : String) (c : Conn) (row : VerificationToken) {c' : Conn}
      → consistent c.db ≡ true
      → IsUsable c.db raw purpose_password_reset c.draws row
      → with_session (reset_password raw new_password) c ≡ (ok tt, c')
      → EndsSessions row new_password c.db c'.db
  reset_password-owner raw new_password c row {c'} h l e =
      let (found, usable, ends) = reset_password-EndsSessions raw new_password c e in
      subst (λ v. EndsSessions v new_password c.db c'.db)
        (verification-eq_of_hash c.db h found row usable.here l.here (usable.hashed ∙ sym l.hashed))
        ends

  login_admitted :
      (email password : String) (c : Conn) (u : User)
      → consistent c.db ≡ true
      → IsAdmitted c.db email password u
      → (with_session (authenticate email password) c).0 ≡ ok u
  unfolding with_session
  login_admitted email password c u h a = (authenticate_iff email password (opened c) u h).1 a

  -- After a successful reset the user of the token logs in with the new password, once the address
  -- is verified.
  pub authenticate-reset_password :
      (raw new_password : String) (c : Conn) {c' : Conn}
      → with_session (reset_password raw new_password) c ≡ (ok tt, c')
      → (row : VerificationToken) × IsUsable c.db raw purpose_password_reset c.draws row
        × ((u : User)
            → Has u c'.db.users
            → u.id ≡ row.user_id
            → u.is_email_verified ≡ true
            → (with_session (authenticate u.email new_password) c').0 ≡ ok u)
  authenticate-reset_password raw new_password c h =
      let (c₁, run, closed) = with_session-eq (reset_password raw new_password) c h in
      let (row, usable, done) = reset_password-IsReset raw new_password c run in
      rw closed (
        row,
        usable,
        λ u m o v.
            let (hash, e, k) = (IsReset-EndsSessions row new_password c c₁ done).password u m o in
            login_admitted u.email new_password (opened c₁) u done.valid (record {
              here = m;
              addressed = refl;
              hash = hash;
              stored = e;
              passes = k;
              confirmed = v;
            }),
      )
