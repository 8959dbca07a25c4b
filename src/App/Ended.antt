-- ===== src/App/Ended.antt =====
-- Sessions that a logout or a password reset ended never come back, whatever requests follow.
use text.Mathlib.Text.{◌==◌ as str_eq}
use text.Mathlib.TextEquality.{eq_iff}
use hotspot_payment_gateway.Base.{
  subst, ◌+◌, ◌==◌, ==_iff, String, ◌≡◌, ◌≢◌, refl, ◌∙◌, inl, inr, ◌⊎◌, true, none, some, List, Has,
  Has-updated, Option-cases, arith,
}
use hotspot_payment_gateway.Runtime.{Env}
use hotspot_payment_gateway.Auth.Models.{RefreshToken, VerificationToken, consistent}
use hotspot_payment_gateway.Auth.Schemas.{ResetPasswordRequest, validate_reset_password}
use hotspot_payment_gateway.Auth.Session.{
  Conn, Exn, Result, ok, raised, opened, commit, invalid_password_reset_token_error,
}
use hotspot_payment_gateway.Auth.Tokens.{hash_refresh_token}
use hotspot_payment_gateway.Auth.Http.{read_refresh_cookie}
use hotspot_payment_gateway.Auth.Refresh.{revoked, revoke_by_hash, revoke_refresh_token}
use hotspot_payment_gateway.Auth.Refresh.Revoke.{consistent-revoke_by_hash}
use hotspot_payment_gateway.Auth.Mail
use hotspot_payment_gateway.Auth.Mail.{purpose_password_reset}
use hotspot_payment_gateway.Auth.Mail.Consume.{IsUsable}
use hotspot_payment_gateway.Auth.Mail.Reset.{IsReset, reset_password-IsReset}
use hotspot_payment_gateway.Auth.Mail.Errors.{IsTokenFailure, reset_password-Raises}
use hotspot_payment_gateway.Auth.Router
use hotspot_payment_gateway.App
use hotspot_payment_gateway.App.{Request, serve, serve_all}
use hotspot_payment_gateway.App.Revocation.{dead-serve_all}

module _ ⦃env : Env⦄ where
  logout_served :
      (cookies : List (String × String)) (raw : String) (c : Conn)
      → read_refresh_cookie cookies ≡ some raw
      → consistent c.db ≡ true
      → ((serve (App.logout cookies) c).0.status ≡ 204)
        × ((serve (App.logout cookies) c).1.db ≡ revoke_by_hash (hash_refresh_token raw) c.db)
  unfolding serve Router.logout revoke_refresh_token commit
  logout_served cookies raw c e h =
      rw (e, consistent-revoke_by_hash (hash_refresh_token raw) c.db, h) (refl, refl)

  -- A logout with the cookie of a stored token, on consistent rows, is answered with 204, and
  -- whatever requests follow, a refresh with that cookie is answered with 401 or 429.
  pub logout-serve_all :
      (cookies : List (String × String)) (raw : String) (c : Conn)
      (requests : List (Request env.Jwt)) (row : RefreshToken)
      → read_refresh_cookie cookies ≡ some raw
      → consistent c.db ≡ true
      → Has row c.db.refresh_tokens
      → row.token_hash ≡ hash_refresh_token raw
      → let later = serve_all requests (serve (App.logout cookies) c).1 in
        ((serve (App.logout cookies) c).0.status ≡ 204)
        × (((serve (App.refresh cookies) later).0.status ≡ 401)
            ⊎ ((serve (App.refresh cookies) later).0.status ≡ 429))
  logout-serve_all cookies raw c requests row e h m k =
      let (status, db) = logout_served cookies raw c e h in
      (
        status,
        dead-serve_all cookies raw (serve (App.logout cookies) c).1 requests e (
            rw db (record {
              row = revoked row;
              here =
                  Has-updated (λ r. str_eq r.token_hash (hash_refresh_token raw)) revoked
                    c.db.refresh_tokens row m
                    ((eq_iff row.token_hash (hash_refresh_token raw)).1 k);
              hashed = k;
              off = refl;
              valid = consistent-revoke_by_hash (hash_refresh_token raw) c.db ∙ h;
            })),
      )

  -- A reset that is answered with 204 went through.
  reset_served :
      (body b : ResetPasswordRequest) (c c₁ : Conn) (r : Result (Unit {0}))
      → validate_reset_password body ≡ some b
      → Mail.reset_password b.token b.new_password (opened (record c { draws = c.draws + 1 }))
        ≡ (r, c₁)
      → ((x : Exn) → r ≡ raised x → IsTokenFailure invalid_password_reset_token_error x)
      → (serve (App.reset_password body) c).0.status ≡ 204
      → (r ≡ ok tt) × ((serve (App.reset_password body) c).1.db ≡ c₁.db)
  unfolding serve Router.reset_password
  reset_served body b c c₁ (ok tt) e h f s = (refl, ground arith)
  reset_served body b c c₁ (raised x) e h f s = elim (f x refl) [
    | inl (message, k) ↦ ground arith
    | inr (inl k) ↦ ground arith
    | inr (inr k) ↦ ground arith
  ]

  same_token :
      (body : ResetPasswordRequest) {b : ResetPasswordRequest}
      → validate_reset_password body ≡ some b
      → b.token ≡ body.token
  unfolding validate_reset_password
  same_token body h = ground arith

  refused_body :
      (body : ResetPasswordRequest) (c : Conn)
      → validate_reset_password body ≡ none
      → (serve (App.reset_password body) c).0.status ≢ 204
  unfolding serve
  refused_body body c h s = ground arith

  -- What a reset that is answered with 204 has done to the rows.
  served-IsReset :
      (body : ResetPasswordRequest) (c : Conn)
      → (serve (App.reset_password body) c).0.status ≡ 204
      → (token : VerificationToken) × IsUsable c.db body.token purpose_password_reset
          (c.draws + 1)
          token
        × (b : ResetPasswordRequest) × (c₁ : Conn) × IsReset token b.new_password
            (record c { draws = c.draws + 1 })
            c₁
        × ((serve (App.reset_password body) c).1.db ≡ c₁.db)
  served-IsReset body c s = elim (Option-cases (validate_reset_password body)) [
    | inl n ↦ absurd (refused_body body c n s)
    | inr (b, e) ↦
        let c₀ = record c { draws = c.draws + 1 } in
        let (r, c₁) = Mail.reset_password b.token b.new_password (opened c₀) in
        let (k, db) =
          reset_served body b c c₁ r e refl
            (λ x h. (reset_password-Raises b.token b.new_password).at (opened c₀) x h) s in
        let (token, usable, done) =
          reset_password-IsReset b.token b.new_password c₀ (λ i. (k i, c₁)) in
        (
          token,
          subst (λ x. IsUsable c.db x purpose_password_reset (c.draws + 1) token)
              (same_token body e) usable,
          b,
          c₁,
          done,
          db,
        )
  ]

  -- A password reset that is answered with 204 used a live reset token and ends every session of
  -- its user for good: whatever requests follow, a refresh with a token stored for the user before
  -- is answered with 401 or 429.
  pub reset_password-serve_all :
      (body : ResetPasswordRequest) (c : Conn)
      → (serve (App.reset_password body) c).0.status ≡ 204
      → (token : VerificationToken) × IsUsable c.db body.token purpose_password_reset
          (c.draws + 1)
          token
        × ((cookies : List (String × String)) (raw : String) (row : RefreshToken)
              (requests : List (Request env.Jwt))
            → read_refresh_cookie cookies ≡ some raw
            → Has row c.db.refresh_tokens
            → row.user_id ≡ token.user_id
            → row.token_hash ≡ hash_refresh_token raw
            → let later = serve_all requests (serve (App.reset_password body) c).1 in
              ((serve (App.refresh cookies) later).0.status ≡ 401)
              ⊎ ((serve (App.refresh cookies) later).0.status ≡ 429))
  reset_password-serve_all body c s =
      let (token, usable, b, c₁, done, db) = served-IsReset body c s in
      (
        token,
        usable,
        λ cookies raw row requests e m o k.
            dead-serve_all cookies raw (serve (App.reset_password body) c).1 requests e (
              rw db (record {
                row = revoked row;
                here = rw done.db (
                    Has-updated (λ r. r.user_id == token.user_id) revoked c.db.refresh_tokens row m
                      ((==_iff row.user_id token.user_id).1 o));
                hashed = k;
                off = refl;
                valid = done.valid;
              })),
      )
