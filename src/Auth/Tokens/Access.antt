-- ===== src/Auth/Tokens/Access.antt =====
-- Access tokens: what is signed is read back until the lifetime is over, and nothing else passes.
use Prim.Native.Nat.{◌/◌}
use text.Mathlib.TextEquality.{eq_iff}
use hotspot_payment_gateway.Base.{
  ℕ, ◌+◌, ◌*◌, ◌≤◌, ◌<◌, String, ◌≡◌, refl, ap, true, Option, none, some, Option-cases, Bool-cases,
  ◌⊎◌, inl, inr, arith,
}
use hotspot_payment_gateway.Runtime.{Env, Claims, micros_per_second}
use hotspot_payment_gateway.Auth.Session.{Conn, ok, raised, invalid_token_error}
use hotspot_payment_gateway.Auth.Tokens.{
  or_default, is_access, access_claims, encode_access_token, decode_access_token,
}

-- Whole seconds, rounded down.
floor_le : (t : ℕ) → t / micros_per_second * micros_per_second ≤ t
floor_le t = omega arith

below_floor : (t s : ℕ) → s + micros_per_second ≤ t → s < t / micros_per_second * micros_per_second
below_floor t s h = omega arith

module _ ⦃env : Env⦄ where
  abbrev pub lifetime : Option ℕ → ℕ
  lifetime ttl = or_default ttl env.settings.access_token_ttl_minutes * 60 * micros_per_second

  -- An access token that was signed for a user is decoded, at every later reading of the clock, to
  -- the claims that were signed, until one second before its lifetime is over: the times in a
  -- token are whole seconds.
  pub encode-decode :
      (user_id : ℕ) (ttl : Option ℕ) (c d : Conn) {token : env.Jwt} {c' : Conn}
      → encode_access_token user_id ttl c ≡ (ok token, c')
      → c.draws ≤ d.draws
      → env.now d.draws + micros_per_second ≤ env.now c.draws + lifetime ttl
      → (decode_access_token token d).0 ≡ ok (access_claims user_id ttl (env.now c.draws))
  unfolding encode_access_token decode_access_token access_claims
  encode-decode user_id ttl c d h m u =
      let start = env.now c.draws in
      let later : start ≤ env.now d.draws = env.now_mono c.draws d.draws m in
      let floor = floor_le start in
      let law =
        env.jwt_decode-jwt_encode (access_claims user_id ttl start) env.settings.secret_key
          env.settings.algorithm (env.now d.draws) (omega arith)
          (below_floor (start + lifetime ttl) (env.now d.draws) u) in
      ground arith

  access_typ : (typ : Option String) → is_access typ ≡ true → typ ≡ some "access"
  access_typ none h = cc
  access_typ (some t) h = ap some ((eq_iff t "access").0 h)

  -- decode_access_token returns claims of type access whose time is not over, or raises
  -- InvalidTokenError.
  pub decode_access_token-cases :
      (token : env.Jwt) (d : Conn)
      → ((payload : Claims) × ((decode_access_token token d).0 ≡ ok payload)
          × (payload.typ ≡ some "access")
          × (env.now d.draws < payload.exp * micros_per_second))
        ⊎ ((decode_access_token token d).0 ≡ raised invalid_token_error)
  unfolding decode_access_token
  decode_access_token-cases token d =
      let found =
        env.jwt_decode token env.settings.secret_key env.settings.algorithm (env.now d.draws) in
      elim (Option-cases found) [
        | inl n ↦ inr (rw n refl)
        | inr (payload, e) ↦ elim (Bool-cases (is_access payload.typ)) [
          | inl a ↦ inl (
            payload,
            rw (e, a) refl,
            access_typ payload.typ a,
            env.jwt_decode_unexpired token env.settings.secret_key env.settings.algorithm
                (env.now d.draws) payload e,
          )
          | inr a ↦ inr (rw (e, a) refl)
        ]
      ]
