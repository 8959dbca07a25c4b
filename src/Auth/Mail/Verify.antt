-- ===== src/Auth/Mail/Verify.antt =====
-- `verify_email`: what a verification does, and that its token is good for one.
use hotspot_payment_gateway.Base.{
  updated_cases, not, ◌&&◌, sym, ap, ℕ, String, ◌≡◌, refl, ◌∙◌, true, Option, none, some, ◌+◌, ◌==◌,
  ==_iff, Has, inl, inr, arith,
}
use hotspot_payment_gateway.Runtime.{Env, DateTime}
use hotspot_payment_gateway.Auth.Models.{User, VerificationToken, Tables, consistent}
use hotspot_payment_gateway.Auth.Session.{
  Conn, Exn, ok, raised, opened, unchanged, with_session, or_raise, ◌>>=◌, commit,
  invalid_verification_token_error,
}
use hotspot_payment_gateway.Auth.Session.Steps.{bind-eq-ok, with_session-eq}
use hotspot_payment_gateway.Auth.Models.Constraints.{user-eq_of_id, verification-eq_of_hash}
use hotspot_payment_gateway.Auth.Mail.Liveness.{consistent-mark_used, consistent-mark_verified}
use hotspot_payment_gateway.Auth.Tokens.{hash_token}
use hotspot_payment_gateway.Auth.Accounts.Login.{authenticate_iff}
use hotspot_payment_gateway.Auth.Accounts.{authenticate, get_user, refresh_user}
use hotspot_payment_gateway.Auth.Mail.{
  purpose_email_verify, is_used, mark_used, mark_verified, consume_token, confirm, verify_email,
}
use hotspot_payment_gateway.Auth.Mail.Consume.{
  used, Has-mark_used, IsUsable, consume-eq-ok, consume_used,
}

-- Once a user is marked as verified, the row of that user is verified.
verified_user :
    (user : User) (at : DateTime) (t : Tables) (v : User)
    → consistent t ≡ true
    → Has user t.users
    → Has v (mark_verified user at t).users
    → v.id ≡ user.id
    → v.is_email_verified ≡ true
verified_user user at t v h n m e =
    elim (updated_cases (λ u. not user.is_email_verified && (u.id == user.id))
      (λ u. record u { is_email_verified = true; updated_at = at }) t.users v m) [
        | inl (s, l, y, k) ↦ rw k refl
        | inr (l, y) ↦
            let same : v ≡ user = user-eq_of_id t h v user l n e in
            let k : user.is_email_verified ≡ true = ground arith in rw same k
      ]

module _ ⦃env : Env⦄ where
  -- The rows after the token `row` verified the user that was loaded; the n-th reading was the
  -- first.
  abbrev pub confirmed_rows : VerificationToken → User → ℕ → Tables → Tables
  confirmed_rows row loaded n t =
      mark_used row.id (env.stored (env.now (n + 1))) (mark_verified loaded (env.server_now n) t)

  verified_after :
      (row : VerificationToken) (loaded : User) (n : ℕ) (t : Tables) (v : User)
      → Has loaded t.users
      → consistent (confirmed_rows row loaded n t) ≡ true
      → Has v (confirmed_rows row loaded n t).users
      → v.id ≡ loaded.id
      → v.is_email_verified ≡ true
  verified_after row loaded n t v m h k e =
      let at = env.server_now n in
      let same =
        consistent-mark_used row.id (env.stored (env.now (n + 1))) (mark_verified loaded at t)
        ∙ consistent-mark_verified loaded at t in
      verified_user loaded at t v (sym same ∙ h) m k e

  -- What a successful verification with the token `row` has done: its user is verified, and it is used.
  pub record IsConfirmed (row : VerificationToken) (user : User) (c c' : Conn) : Type 0 where
    pub loaded : User
    pub db : c'.db ≡ confirmed_rows row loaded (c.draws + 1) c.db
    pub valid : consistent c'.db ≡ true
    pub closed : c'.pending ≡ unchanged
    pub here : Has user c'.db.users
    pub owner : user.id ≡ row.user_id
    pub verified : user.is_email_verified ≡ true

  -- What a successful verification of a user has done to the committed rows.
  pub confirm-eq-ok :
      (row : VerificationToken) (user : User) (c : Conn) {fresh : User} {c' : Conn}
      → confirm row user (opened c) ≡ (ok fresh, c')
      → (c'.db ≡ confirmed_rows row user c.draws c.db)
        × (consistent c'.db ≡ true)
        × (c'.pending ≡ unchanged)
        × (env.scalar (λ u. u.id == user.id) c'.db.users ≡ some fresh)
  unfolding confirm commit refresh_user get_user
  confirm-eq-ok row user c h = ground arith

  confirm_found-eq-ok :
      (row : VerificationToken) (e : Exn) (found : Option User) (c : Conn) {fresh : User}
      {c' : Conn}
      → (or_raise found e >>= confirm row) (opened c) ≡ (ok fresh, c')
      → (user : User) × (found ≡ some user) × (confirm row user (opened c) ≡ (ok fresh, c'))
  confirm_found-eq-ok row e none c h = cc
  confirm_found-eq-ok row e (some user) c h = (user, refl, h)

  -- A verification that succeeds has consumed a usable token of its user, who is verified after it.
  pub verify-eq-ok :
      (raw : String) (c : Conn) {user : User} {c' : Conn}
      → verify_email raw (opened c) ≡ (ok user, c')
      → (row : VerificationToken) × IsUsable c.db raw purpose_email_verify c.draws row
        × IsConfirmed row user c c'
  unfolding verify_email get_user
  verify-eq-ok raw c {user} {c'} h =
      let (row, c₁, v, h₁) =
        bind-eq-ok (consume_token raw purpose_email_verify invalid_verification_token_error) _
          (opened c) h in
      let (usable, same) =
        consume-eq-ok raw purpose_email_verify invalid_verification_token_error (opened c) v in
      let (u, found, h₂) =
        confirm_found-eq-ok row _ (env.scalar (λ w. w.id == row.user_id) c.db.users)
          (record c { draws = c.draws + 1 }) (rw same at h₁) in
      let (m, k) = env.scalar-some _ c.db.users _ found in
      let owner : u.id ≡ row.user_id = (==_iff _ _).0 k in
      let (db, valid, closed, again) = confirm-eq-ok row u (record c { draws = c.draws + 1 }) h₂ in
      let (n, l) = env.scalar-some _ c'.db.users _ again in
      let own : user.id ≡ u.id = (==_iff _ _).0 l in
      (
        row,
        usable,
        record {
          loaded = u;
          db = db;
          valid = valid;
          closed = closed;
          here = n;
          owner = own ∙ owner;
          verified =
              verified_after row u (c.draws + 1) c.db user m (rw db at valid) (rw db at n) own;
        },
      )

  pub refuse_used :
      (raw : String) (c : Conn) (row : VerificationToken)
      → consistent c.db ≡ true
      → Has row c.db.verification_tokens
      → row.token_hash ≡ hash_token raw
      → row.purpose ≡ purpose_email_verify
      → is_used row ≡ true
      → with_session (verify_email raw) c
        ≡ (raised (invalid_verification_token_error "Token is invalid or already used"), opened c)
  unfolding with_session verify_email
  refuse_used raw c row h m e p k =
      rw
        (consume_used raw purpose_email_verify invalid_verification_token_error (opened c) row h m e
          p k)
        refl

  -- A verification that succeeded returns a stored, verified user, and its token is stored as used.
  pub verify_email-used :
      (raw : String) (c : Conn) {user : User} {c' : Conn}
      → with_session (verify_email raw) c ≡ (ok user, c')
      → (user.is_email_verified ≡ true)
        × Has user c'.db.users
        × (consistent c'.db ≡ true)
        × (row : VerificationToken) × Has row c'.db.verification_tokens
        × (row.token_hash ≡ hash_token raw)
        × (row.purpose ≡ purpose_email_verify)
        × (is_used row ≡ true)
  verify_email-used raw c h =
      let (c₁, run, closed) = with_session-eq (verify_email raw) c h in
      let (row, usable, done) = verify-eq-ok raw c run in
      let at = env.stored (env.now (c.draws + 1 + 1)) in
      rw closed (
        done.verified,
        done.here,
        done.valid,
        used at row,
        rw done.db (Has-mark_used row at c.db usable.here),
        usable.hashed,
        usable.meant,
        refl,
      )

  -- A verification with the usable token `row` that succeeded verified the owner of `row`.
  pub verify_email-owner :
      (raw : String) (c : Conn) (row : VerificationToken) {user : User} {c' : Conn}
      → consistent c.db ≡ true
      → IsUsable c.db raw purpose_email_verify c.draws row
      → with_session (verify_email raw) c ≡ (ok user, c')
      → (user.id ≡ row.user_id) × (user.is_email_verified ≡ true) × Has user c'.db.users
  verify_email-owner raw c row h l e =
      let (c₁, run, closed) = with_session-eq (verify_email raw) c e in
      let (found, usable, done) = verify-eq-ok raw c run in
      let same =
        verification-eq_of_hash c.db h found row usable.here l.here
          (usable.hashed ∙ sym l.hashed) in
      rw closed (done.owner ∙ ap (λ v. v.user_id) same, done.verified, done.here)

  -- After a verification that succeeded, its user logs in with a password that passes for the
  -- account.
  pub authenticate-verify_email :
      (raw password hash : String) (c : Conn) {user : User} {c' : Conn}
      → with_session (verify_email raw) c ≡ (ok user, c')
      → user.password_hash ≡ some hash
      → env.checkpw password hash ≡ true
      → (with_session (authenticate user.email password) c').0 ≡ ok user
  unfolding with_session
  authenticate-verify_email raw password hash c {user} {c'} h e k =
      let (c₁, run, closed) = with_session-eq (verify_email raw) c h in
      let (row, usable, done) = verify-eq-ok raw c run in
      rw closed (
        (authenticate_iff user.email password (opened c₁) user done.valid).1 (record {
          here = done.here;
          addressed = refl;
          hash = hash;
          stored = e;
          passes = k;
          confirmed = done.verified;
        }))
