-- ===== src/Auth/Tokens.antt =====
-- src/auth/tokens.py
pub mod Access
use Prim.Native.Nat.{◌/◌}
use text.Mathlib.Text.{◌==◌ as str_eq}
use hotspot_payment_gateway.Base.{
  ℕ, zero, suc, ◌+◌, ◌*◌, String, Bool, false, Option, none, some, if◌then◌else◌,
}
use hotspot_payment_gateway.Runtime.{Env, Claims, micros_per_second}
use hotspot_payment_gateway.Auth.Session.{
  M, pure, raise, or_raise, ◌>>=◌, draw, invalid_token_error,
}

-- `ttl_minutes or default`: an absent lifetime and a lifetime of 0 both give the default.
abbrev pub or_default : Option ℕ → ℕ → ℕ
or_default none d = d
or_default (some zero) d = d
or_default (some (suc n)) d = suc n

abbrev pub is_access : Option String → Bool
is_access none = false
is_access (some t) = str_eq t "access"

module _ ⦃env : Env⦄ where
  -- The claims signed at the time `now`, in microseconds.
  unfoldable pub access_claims : ℕ → Option ℕ → ℕ → Claims
  access_claims user_id ttl_minutes now = record {
    sub = some (env.uuid_str user_id);
    iat = now / micros_per_second;
    exp =
        (now
          + or_default ttl_minutes env.settings.access_token_ttl_minutes * 60 * micros_per_second)
        / micros_per_second;
    typ = some "access";
  }

  unfoldable pub encode_access_token : ℕ → Option ℕ → M env.Jwt
  encode_access_token user_id ttl_minutes = do
    now ← draw env.now
    let payload = access_claims user_id ttl_minutes now
    pure (env.jwt_encode payload env.settings.secret_key env.settings.algorithm)

  unfoldable pub decode_access_token : env.Jwt → M Claims
  decode_access_token token = do
    now ← draw env.now
    payload ←
        or_raise (env.jwt_decode token env.settings.secret_key env.settings.algorithm now)
          invalid_token_error
    if is_access payload.typ then pure payload else raise invalid_token_error

  unfoldable pub hash_token : String → String
  hash_token raw = env.sha256_hexdigest raw

  -- (raw, hash)
  unfoldable pub generate_refresh_token : M (String × String)
  unfolding hash_token
  generate_refresh_token = do raw ← draw (env.token_urlsafe 64); pure (raw, hash_token raw)

  unfoldable pub generate_verification_token : M (String × String)
  unfolding hash_token
  generate_verification_token = do raw ← draw (env.token_urlsafe 48); pure (raw, hash_token raw)

  unfoldable pub hash_refresh_token : String → String
  unfolding hash_token
  hash_refresh_token raw = hash_token raw
