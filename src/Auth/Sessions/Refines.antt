-- ===== src/Auth/Sessions/Refines.antt =====
-- The operations of src/auth/service.py on sessions do to the rows what their names say of the
-- sessions.
use text.Mathlib.TextEquality.{eq_iff}
use mathlib.Core.Path.{fun_ext}
use hotspot_payment_gateway.Base.{
  ◌≤◌, Option-cases, All-Has, find, find-none, find-some, inl, inr, subst, ℕ, ◌+◌, String, ◌≡◌,
  refl, sym, ap, ◌∙◌, true, false, some, [], ◌∷◌, ◌++◌, Has, arith,
}
use hotspot_payment_gateway.Runtime.{Env, DateTime}
use hotspot_payment_gateway.Auth.Models.{User, RefreshToken, VerificationToken, Tables, consistent}
use hotspot_payment_gateway.Auth.Session.{Conn, Result, ok, with_session, commit}
use hotspot_payment_gateway.Auth.Session
use hotspot_payment_gateway.Auth.Times.{days}
use hotspot_payment_gateway.Auth.Models.Constraints.{refresh-eq_of_hash}
use hotspot_payment_gateway.Auth.Mail.Consume.{IsUsable}
use hotspot_payment_gateway.Auth.Refresh.Validity.{instant}
use hotspot_payment_gateway.Auth.Session.Steps.{with_session-eq}
use hotspot_payment_gateway.Auth.Tokens.{hash_refresh_token}
use hotspot_payment_gateway.Auth.Refresh.{
  issue_refresh_token, rotate_refresh_token, revoke_refresh_token, revoke_by_id,
}
use hotspot_payment_gateway.Auth.Refresh.Rotation.{rotated, rotate-eq-ok, built}
use hotspot_payment_gateway.Auth.Refresh.Revoke.{revoke-eq}
use hotspot_payment_gateway.Auth.Mail.{purpose_password_reset, reset_password}
use hotspot_payment_gateway.Auth.Mail.Reset.{reset_rows, reset_password-IsReset}
use hotspot_payment_gateway.Auth.Sessions.{Session, opens, sessions, opened, closed, closed_user}
use hotspot_payment_gateway.Auth.Sessions.Rows.{
  sessions-append, sessions-revoke_by_id, sessions-revoke_by_hash, sessions-revoke_by_user,
}

-- The session of a stored token that is not revoked.
sessions-some :
    (t : Tables) (row : RefreshToken)
    → consistent t ≡ true
    → Has row t.refresh_tokens
    → row.is_revoked ≡ false
    → sessions t row.token_hash
      ≡ some (record { user_id = row.user_id; expires_at = row.expires_at })
unfolding sessions
sessions-some t row c m active =
    elim (Option-cases (find (opens row.token_hash) t.refresh_tokens)) [
      | inl n ↦
          let p : opens row.token_hash row ≡ false =
            All-Has (λ r. opens row.token_hash r ≡ false) row t.refresh_tokens
              (find-none (opens row.token_hash) t.refresh_tokens n) m in
          absurd (ground (arith, eq_iff row.token_hash row.token_hash))
      | inr (r, e) ↦
          let (k, p) = find-some (opens row.token_hash) t.refresh_tokens r e in
          let q : r ≡ row =
            refresh-eq_of_hash t c r row k m
              ((eq_iff r.token_hash row.token_hash).0 (ground arith)) in
          rw (e, q) refl
    ]

module _ ⦃env : Env⦄ where
  pub rotated-sessions :
      (old new : RefreshToken) (t : Tables)
      → consistent t ≡ true
      → consistent (rotated old new t) ≡ true
      → Has old t.refresh_tokens
      → new.is_revoked ≡ false
      → sessions (rotated old new t)
        ≡ opened new.token_hash
            (record { user_id = new.user_id; expires_at = new.expires_at })
            (closed old.token_hash (sessions t))
  rotated-sessions old new t c c' m active =
      fun_ext (sessions-append (revoke_by_id old.id t) new active c')
      ∙ ap (opened new.token_hash (record { user_id = new.user_id; expires_at = new.expires_at }))
          (fun_ext (sessions-revoke_by_id old t c m))

  -- The time at which a session ends that is made at the n-th reading.
  abbrev pub expiry : ℕ → DateTime
  expiry n = env.stored (env.now n + days env.settings.refresh_token_ttl_days)

  -- On consistent rows a rotation that succeeds is, on the map from token hashes to open sessions,
  -- one step: the session of the old token was open and not over, it is closed, and one of the
  -- same user is opened under the new token with a whole lifetime.
  pub rotate-refines :
      (raw : String) (c : Conn) {access : env.Jwt} {new_raw : String} {user : User} {c' : Conn}
      → consistent c.db ≡ true
      → with_session (rotate_refresh_token raw) c ≡ (ok (access, new_raw, user), c')
      → (s : Session) × (sessions c.db (hash_refresh_token raw) ≡ some s)
        × (s.user_id ≡ user.id)
        × (env.now c.draws ≤ instant s.expires_at)
        × (sessions c'.db
            ≡ opened
                (hash_refresh_token new_raw)
                (record { user_id = user.id; expires_at = expiry (c.draws + 1 + 1) })
                (closed (hash_refresh_token raw) (sessions c.db)))
  rotate-refines raw c {new_raw} {user} good h =
      let (c₁, run, shut) = with_session-eq (rotate_refresh_token raw) c h in
      let (old, live, m, e, done) = rotate-eq-ok raw c run in
      (
        record { user_id = old.user_id; expires_at = old.expires_at },
        ap (sessions c.db) (sym live.hashed) ∙ sessions-some c.db old good live.here live.active,
        sym e,
        live.unexpired,
        ap (λ (d : Conn). sessions d.db) shut
            ∙ (ap sessions done.db
                ∙ (rotated-sessions old (built user.id (c.draws + 1)) c.db good
                      (subst (λ t. consistent t ≡ true) done.db done.valid) live.here refl
                    ∙ ap
                        (λ (p : String × String).
                          opened p.0
                            (record { user_id = user.id; expires_at = expiry (c.draws + 1 + 1) })
                            (closed p.1 (sessions c.db)))
                        (λ i. (done.hashed i, live.hashed i)))),
      )

  -- On consistent rows a revocation closes the session of its token.
  pub revoke-refines :
      (raw : String) (c : Conn)
      → consistent c.db ≡ true
      → sessions (with_session (revoke_refresh_token raw) c).1.db
        ≡ closed (hash_refresh_token raw) (sessions c.db)
  revoke-refines raw c good =
      ap (λ (p : Result (Unit {0}) × Conn). sessions p.1.db) (revoke-eq raw c good)
      ∙ fun_ext (sessions-revoke_by_hash (hash_refresh_token raw) c.db)

  reset_rows-sessions :
      (row : VerificationToken) (hash : String) (n : ℕ) (t : Tables)
      → consistent t ≡ true
      → (h : String) → sessions (reset_rows row hash n t) h ≡ closed_user row.user_id (sessions t) h
  unfolding sessions
  reset_rows-sessions row hash n t good h =
      unfold sessions in sessions-revoke_by_user row.user_id t good h

  -- On consistent rows a password reset that succeeds used a reset token that was good, and closes
  -- on the map from token hashes to open sessions those of its user and no other.
  pub reset_password-refines :
      (raw new_password : String) (c : Conn) {c' : Conn}
      → consistent c.db ≡ true
      → with_session (reset_password raw new_password) c ≡ (ok tt, c')
      → (row : VerificationToken) × IsUsable c.db raw purpose_password_reset c.draws row
        × (sessions c'.db ≡ closed_user row.user_id (sessions c.db))
  reset_password-refines raw new_password c good h =
      let (c₁, run, shut) = with_session-eq (reset_password raw new_password) c h in
      let (row, usable, done) = reset_password-IsReset raw new_password c run in
      (
        row,
        usable,
        ap (λ (d : Conn). sessions d.db) shut
            ∙ (ap sessions done.db ∙ fun_ext (λ h. reset_rows-sessions row _ _ c.db good h)),
      )

  issue-eq-ok :
      (user : User) (c : Conn) {raw : String} {row : RefreshToken} {c' : Conn}
      → issue_refresh_token user (Session.opened c) ≡ (ok (raw, row), c')
      → (c'.db ≡ record c.db { refresh_tokens = c.db.refresh_tokens ++ built user.id c.draws ∷ [] })
        × (consistent c'.db ≡ true)
        × ((built user.id c.draws).token_hash ≡ hash_refresh_token raw)
  unfolding issue_refresh_token commit hash_refresh_token
  issue-eq-ok user c h = ground arith

  -- Issuing a refresh token, where it succeeds, opens one session of the user.
  pub issue-refines :
      (user : User) (c : Conn) {raw : String} {row : RefreshToken} {c' : Conn}
      → with_session (issue_refresh_token user) c ≡ (ok (raw, row), c')
      → sessions c'.db
        ≡ opened
            (hash_refresh_token raw)
            (record { user_id = user.id; expires_at = expiry (c.draws + 1) })
            (sessions c.db)
  issue-refines user c h =
      let (c₁, run, shut) = with_session-eq (issue_refresh_token user) c h in
      let (same, good, hashed) = issue-eq-ok user c run in
      ap (λ (d : Conn). sessions d.db) shut
      ∙ (ap sessions same
          ∙ (fun_ext (
                sessions-append c.db (built user.id c.draws) refl
                  (subst (λ t. consistent t ≡ true) same good))
              ∙ ap
                  (λ k.
                    opened k (record { user_id = user.id; expires_at = expiry (c.draws + 1) })
                      (sessions c.db))
                  hashed))
