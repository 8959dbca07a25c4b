-- ===== src/Auth/Refresh/Errors.antt =====
-- The exceptions of the refresh-token operations.
use hotspot_payment_gateway.Base.{ℕ, String, ◌≡◌, ◌⊎◌, inl, inr, Option, none, some}
use hotspot_payment_gateway.Runtime.{Env, DateTime, naive, aware}
use hotspot_payment_gateway.Auth.Models.{User, RefreshToken}
use hotspot_payment_gateway.Auth.Session.{Exn, integrity_error}
use hotspot_payment_gateway.Auth.Session.Raises.{Raises, raising}
use hotspot_payment_gateway.Auth.Times.{is_past}
use hotspot_payment_gateway.Auth.Tokens.{encode_access_token}
use hotspot_payment_gateway.Auth.Accounts.{get_user}
use hotspot_payment_gateway.Auth.Refresh.{
  build_refresh_token, check_refresh_token, verify_refresh_token, replace_token,
  rotate_refresh_token,
}
use hotspot_payment_gateway.Auth.Refresh.Validity.{refused, too_late}
use hotspot_payment_gateway.Auth.Refresh.Rotation.{no_user}

abbrev pub IsRotationFailure : Exn → Type 0
IsRotationFailure e = (e ≡ refused) ⊎ (e ≡ too_late) ⊎ (e ≡ no_user) ⊎ (e ≡ integrity_error)

module _ ⦃env : Env⦄ where
  -- Once both times are in UTC the comparison raises nothing.
  pub is_past-Raises : (P : Exn → Type 0) (d : DateTime) → Raises P (is_past d)
  unfolding is_past
  is_past-Raises P (naive t) = search raising
  is_past-Raises P (aware t) = search raising

  check_refresh_token-Raises :
      (o : Option RefreshToken) → Raises IsRotationFailure (check_refresh_token o)
  unfolding check_refresh_token
  check_refresh_token-Raises none = search (raising, inl)
  check_refresh_token-Raises (some row) = search (raising, is_past-Raises, inl, inr) depth 8

  verify_refresh_token-Raises : (raw : String) → Raises IsRotationFailure (verify_refresh_token raw)
  unfolding verify_refresh_token
  verify_refresh_token-Raises raw = search (raising, check_refresh_token-Raises)

  build_refresh_token-Raises :
      (P : Exn → Type 0) (user_id : ℕ) → Raises P (build_refresh_token user_id)
  unfolding build_refresh_token
  build_refresh_token-Raises P user_id = search raising depth 8

  encode_access_token-Raises :
      (P : Exn → Type 0) (user_id : ℕ) (ttl : Option ℕ) → Raises P (encode_access_token user_id ttl)
  unfolding encode_access_token
  encode_access_token-Raises P user_id ttl = search raising

  get_user-Raises : (P : Exn → Type 0) (id : ℕ) → Raises P (get_user id)
  unfolding get_user
  get_user-Raises P id = search raising

  replace_token-Raises :
      (old : RefreshToken) (user : User) → Raises IsRotationFailure (replace_token old user)
  unfolding replace_token
  replace_token-Raises old user =
      search (raising, build_refresh_token-Raises, encode_access_token-Raises, inl, inr) depth 12

  -- A rotation raises nothing but the three InvalidRefreshTokenError messages and the database's
  -- IntegrityError; the comparison of times never raises TypeError.
  pub rotate_refresh_token-Raises :
      (raw : String) → Raises IsRotationFailure (rotate_refresh_token raw)
  unfolding rotate_refresh_token
  rotate_refresh_token-Raises raw =
      search (raising, verify_refresh_token-Raises, get_user-Raises, replace_token-Raises, inl, inr)
        depth 10
