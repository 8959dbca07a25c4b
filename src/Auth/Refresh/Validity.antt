-- ===== src/Auth/Refresh/Validity.antt =====
-- When `verify_refresh_token` accepts a token, and how it refuses one.
pub use hotspot_payment_gateway.Auth.Times.{instant}
use text.Mathlib.Text.{◌==◌ as str_eq}
use text.Mathlib.TextEquality.{eq_iff}
use hotspot_payment_gateway.Base.{
  ℕ, ◌≤◌, String, ◌≡◌, refl, sym, ◌∙◌, ◌↔◌, true, false, Option, none, some, Has, ◌+◌, arith,
}
use hotspot_payment_gateway.Runtime.{Env}
use hotspot_payment_gateway.Runtime.Lookup.{scalar-eq}
use hotspot_payment_gateway.Auth.Models.{RefreshToken, Tables, consistent}
use hotspot_payment_gateway.Auth.Models.Constraints.{refresh-eq_of_hash}
use hotspot_payment_gateway.Auth.Session.{Conn, Exn, view, ok, raised, invalid_refresh_token_error}
use hotspot_payment_gateway.Auth.Refresh.{verify_refresh_token, check_refresh_token}
use hotspot_payment_gateway.Auth.Tokens.{hash_refresh_token}

abbrev pub refused : Exn
refused = invalid_refresh_token_error "Refresh token is invalid or revoked"

abbrev pub too_late : Exn
too_late = invalid_refresh_token_error "Refresh token has expired"

module _ ⦃env : Env⦄ where
  -- `row` is stored for the raw token, is not revoked, and has not expired at the n-th reading.
  pub record IsLive (t : Tables) (raw : String) (n : ℕ) (row : RefreshToken) : Type 0 where
    pub here : Has row t.refresh_tokens
    pub hashed : row.token_hash ≡ hash_refresh_token raw
    pub active : row.is_revoked ≡ false
    pub unexpired : env.now n ≤ instant row.expires_at

  check_unexpired :
      (row : RefreshToken) (c : Conn)
      → row.is_revoked ≡ false
      → env.now c.draws ≤ instant row.expires_at
      → (check_refresh_token (some row) c).0 ≡ ok row
  unfolding check_refresh_token
  check_unexpired row c a u = ground arith

  check-eq-ok :
      (found : Option RefreshToken) (c : Conn) {row : RefreshToken} {c' : Conn}
      → check_refresh_token found c ≡ (ok row, c')
      → (found ≡ some row)
        × (row.is_revoked ≡ false)
        × (env.now c.draws ≤ instant row.expires_at)
        × (c' ≡ record c { draws = c.draws + 1 })
  unfolding check_refresh_token
  check-eq-ok none c h = cc
  check-eq-ok (some row) c h = ground arith

  -- An accepted token is live, and only the clock was read.
  pub verify-eq-ok :
      (raw : String) (c : Conn) {row : RefreshToken} {c' : Conn}
      → verify_refresh_token raw c ≡ (ok row, c')
      → IsLive (view c) raw c.draws row × (c' ≡ record c { draws = c.draws + 1 })
  unfolding verify_refresh_token
  verify-eq-ok raw c h =
      let (found, active, fresh, same) = check-eq-ok _ c h in
      let (m, k) = env.scalar-some _ (view c).refresh_tokens _ found in
      (record { here = m; hashed = (eq_iff _ _).0 k; active = active; unexpired = fresh }, same)

  find_refresh_token :
      (raw : String) (t : Tables) (row : RefreshToken)
      → consistent t ≡ true
      → Has row t.refresh_tokens
      → row.token_hash ≡ hash_refresh_token raw
      → env.scalar (λ r. str_eq r.token_hash (hash_refresh_token raw)) t.refresh_tokens ≡ some row
  find_refresh_token raw t row h m e =
      scalar-eq _ t.refresh_tokens row m ((eq_iff _ _).1 e)
        λ s n k. refresh-eq_of_hash t h s row n m ((eq_iff _ _).0 k ∙ sym e)

  -- On consistent rows verify_refresh_token returns a row exactly if it is stored for the raw
  -- token, not revoked and not expired.
  pub verify_refresh_token_iff :
      (raw : String) (c : Conn) (row : RefreshToken)
      → consistent (view c) ≡ true
      → ((verify_refresh_token raw c).0 ≡ ok row) ↔ IsLive (view c) raw c.draws row
  unfolding verify_refresh_token
  verify_refresh_token_iff raw c row h = (
    λ e. (verify-eq-ok raw c (λ i. (e i, (verify_refresh_token raw c).1))).0,
    λ l.
        rw (find_refresh_token raw (view c) row h l.here l.hashed)
          (check_unexpired row c l.active l.unexpired),
  )

  -- A revoked token is refused, for as long as its row is there.
  pub verify_revoked :
      (raw : String) (c : Conn) (row : RefreshToken)
      → consistent (view c) ≡ true
      → Has row (view c).refresh_tokens
      → row.token_hash ≡ hash_refresh_token raw
      → row.is_revoked ≡ true
      → verify_refresh_token raw c ≡ (raised refused, c)
  unfolding verify_refresh_token check_refresh_token
  verify_revoked raw c row h m e k = rw (find_refresh_token raw (view c) row h m e, k) refl
