-- ===== src/Auth/Dependencies.antt =====
-- src/auth/dependencies.py
pub mod Current
use text.Mathlib.Text.{◌==◌ as str_eq}
use hotspot_payment_gateway.Base.{ℕ, String, not, Option, none, some, if◌then◌else◌}
use hotspot_payment_gateway.Runtime.{Env, Claims}
use hotspot_payment_gateway.Auth.Models.{User}
use hotspot_payment_gateway.Auth.Session.{
  Exn, M, raise, or_raise, attempt, ◌>>=◌, Result, ok, raised, http_exception, invalid_token_error,
}
use hotspot_payment_gateway.Auth.Tokens.{decode_access_token}
use hotspot_payment_gateway.Auth.Accounts.{get_user}

abbrev pub unauthorized : Exn
unauthorized = http_exception 401 "Invalid or expired token"

module _ ⦃env : Env⦄ where
  -- `UUID(payload["sub"])`: a missing claim and a malformed UUID are alike.
  abbrev pub subject : Claims → Option ℕ
  subject payload = elim payload.sub [ none ↦ none | some text ↦ env.parse_uuid text ]

  unfoldable pub user_of_payload : Result Claims → M User
  unfolding get_user
  user_of_payload (raised invalid_token_error) = raise unauthorized
  user_of_payload (raised e) = raise e
  user_of_payload (ok payload) = do
    user_id ← or_raise (subject payload) unauthorized
    user ← get_user user_id
    or_raise user unauthorized

  -- The scheme and the token of the `Authorization` header, if there is one.
  unfoldable pub get_current_user : Option (String × env.Jwt) → M User
  unfolding user_of_payload decode_access_token
  get_current_user none = raise unauthorized
  get_current_user (some (scheme, credentials)) =
      if not (str_eq (env.lower scheme) "bearer")
      then raise unauthorized
      else do payload ← attempt (decode_access_token credentials); user_of_payload payload
