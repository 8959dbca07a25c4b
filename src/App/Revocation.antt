-- ===== src/App/Revocation.antt =====
-- A refresh token that was revoked once never gives a session again, whatever requests follow.
use hotspot_payment_gateway.Base.{
  ◌+◌, String, ◌≡◌, refl, ◌∙◌, inl, inr, ◌⊎◌, Bool-cases, true, false, some, List, Has, arith,
}
use hotspot_payment_gateway.Runtime.{Env}
use hotspot_payment_gateway.Core.RateLimit.{refresh_rate_limit}
use hotspot_payment_gateway.Auth.Models.{User, RefreshToken, Tables, consistent}
use hotspot_payment_gateway.Auth.Session.{Conn, Exn, Result, ok, raised, opened}
use hotspot_payment_gateway.Auth.Tokens.{hash_refresh_token}
use hotspot_payment_gateway.Auth.Http.{read_refresh_cookie}
use hotspot_payment_gateway.Auth.Refresh.{revoked, rotate_refresh_token}
use hotspot_payment_gateway.Auth.Refresh.Validity.{verify_revoked}
use hotspot_payment_gateway.Auth.Refresh.Rotation.{rotate-eq-ok}
use hotspot_payment_gateway.Auth.Refresh.Replay.{Has-rotated}
use hotspot_payment_gateway.Auth.Refresh.Errors.{IsRotationFailure, rotate_refresh_token-Raises}
use hotspot_payment_gateway.Auth.Router
use hotspot_payment_gateway.Auth.History.{Evolves}
use hotspot_payment_gateway.App
use hotspot_payment_gateway.App.{Request, serve, serve_all}
use hotspot_payment_gateway.App.History.{serve_all-Evolves}

module _ ⦃env : Env⦄ where
  -- A revoked row is stored for the raw token, among consistent rows.
  pub record IsDead (t : Tables) (raw : String) : Type 0 where
    pub row : RefreshToken
    pub here : Has row t.refresh_tokens
    pub hashed : row.token_hash ≡ hash_refresh_token raw
    pub off : row.is_revoked ≡ true
    pub valid : consistent t ≡ true

  pub IsDead-Evolves :
      (t u : Tables) (raw : String)
      → Evolves t u
      → (consistent t ≡ true → consistent u ≡ true)
      → IsDead t raw
      → IsDead u raw
  IsDead-Evolves t u raw e k d =
      let (row, m, l) = e.refresh_tokens d.row d.here in
      record {
        row = row;
        here = m;
        hashed = l.token_hash ∙ d.hashed;
        off = l.revoked d.off;
        valid = k d.valid;
      }

  -- A refresh that is answered with 200 was admitted, and its rotation succeeded.
  rotation_served :
      (cookies : List (String × String)) (raw : String) (c c₁ : Conn)
      (r : Result (env.Jwt × String × User))
      → read_refresh_cookie cookies ≡ some raw
      → env.admits refresh_rate_limit c.draws ≡ true
      → rotate_refresh_token raw (opened (record c { draws = c.draws + 1 })) ≡ (r, c₁)
      → ((x : Exn) → r ≡ raised x → IsRotationFailure x)
      → (serve (App.refresh cookies) c).0.status ≡ 200
      → (granted : env.Jwt × String × User) × (r ≡ ok granted)
        × ((serve (App.refresh cookies) c).1.db ≡ c₁.db)
  unfolding serve Router.refresh
  rotation_served cookies raw c c₁ (ok granted) e a h f s = (granted, refl, ground arith)
  rotation_served cookies raw c c₁ (raised x) e a h f s = elim (f x refl) [
    | inl k ↦ ground arith
    | inr (inl k) ↦ ground arith
    | inr (inr (inl k)) ↦ ground arith
    | inr (inr (inr k)) ↦ ground arith
  ]

  rejected_rate :
      (cookies : List (String × String)) (c : Conn)
      → env.admits refresh_rate_limit c.draws ≡ false
      → (serve (App.refresh cookies) c).0.status ≡ 429
  unfolding serve Router.refresh
  rejected_rate cookies c a = ground arith

  admitted :
      (cookies : List (String × String)) (c : Conn)
      → (serve (App.refresh cookies) c).0.status ≡ 200
      → env.admits refresh_rate_limit c.draws ≡ true
  unfolding serve Router.refresh
  admitted cookies c s = ground arith

  -- After a refresh that was answered with 200, its token is dead.
  refresh-IsDead :
      (cookies : List (String × String)) (raw : String) (c : Conn)
      → read_refresh_cookie cookies ≡ some raw
      → (serve (App.refresh cookies) c).0.status ≡ 200
      → IsDead (serve (App.refresh cookies) c).1.db raw
  refresh-IsDead cookies raw c e s =
      let c₀ = record c { draws = c.draws + 1 } in
      let (r, c₁) = rotate_refresh_token raw (opened c₀) in
      let (granted, k, db) =
        rotation_served cookies raw c c₁ r e (admitted cookies c s) refl
          (λ x h. (rotate_refresh_token-Raises raw).at (opened c₀) x h) s in
      let (old, live, m, o, done) = rotate-eq-ok raw c₀ (λ i. (k i, c₁)) in
      rw db (record {
        row = revoked old;
        here = rw done.db (Has-rotated old _ c.db live.here);
        hashed = live.hashed;
        off = refl;
        valid = done.valid;
      })

  pub dead_refused :
      (cookies : List (String × String)) (raw : String) (c : Conn)
      → read_refresh_cookie cookies ≡ some raw
      → IsDead c.db raw
      → ((serve (App.refresh cookies) c).0.status ≡ 401)
        ⊎ ((serve (App.refresh cookies) c).0.status ≡ 429)
  unfolding serve Router.refresh rotate_refresh_token
  dead_refused cookies raw c e d = elim (Bool-cases (env.admits refresh_rate_limit c.draws)) [
    | inl a ↦
        let v =
          verify_revoked raw (opened (record c { draws = c.draws + 1 })) d.row d.valid d.here
            d.hashed d.off in
        inl (ground arith)
    | inr a ↦ inr (rejected_rate cookies c a)
  ]

  -- A dead token stays dead.
  pub dead-serve_all :
      (cookies : List (String × String)) (raw : String) (c : Conn)
      (requests : List (Request env.Jwt))
      → read_refresh_cookie cookies ≡ some raw
      → IsDead c.db raw
      → let later = serve_all requests c in
        ((serve (App.refresh cookies) later).0.status ≡ 401)
        ⊎ ((serve (App.refresh cookies) later).0.status ≡ 429)
  dead-serve_all cookies raw c requests e d =
      let (changes, keeps) = serve_all-Evolves requests c in
      dead_refused cookies raw (serve_all requests c) e (IsDead-Evolves _ _ raw changes keeps d)

  -- Once a refresh token was exchanged by POST /refresh with the answer 200, it is never accepted
  -- again: whatever sequence of requests the application serves in between, presenting it is
  -- answered with 401, or with 429 by the rate limit.
  pub refresh-serve_all :
      (cookies : List (String × String)) (raw : String) (c : Conn)
      (requests : List (Request env.Jwt))
      → read_refresh_cookie cookies ≡ some raw
      → (serve (App.refresh cookies) c).0.status ≡ 200
      → let later = serve_all requests (serve (App.refresh cookies) c).1 in
        ((serve (App.refresh cookies) later).0.status ≡ 401)
        ⊎ ((serve (App.refresh cookies) later).0.status ≡ 429)
  refresh-serve_all cookies raw c requests e s =
      dead-serve_all cookies raw (serve (App.refresh cookies) c).1 requests e
        (refresh-IsDead cookies raw c e s)
