-- ===== src/Auth/Mail/Errors.antt =====
-- The exceptions of the operations with single-use tokens.
use hotspot_payment_gateway.Base.{ℕ, String, refl, ◌≡◌, ◌⊎◌, inl, inr, Option, none, some}
use hotspot_payment_gateway.Runtime.{Env}
use hotspot_payment_gateway.Auth.Models.{User, VerificationToken}
use hotspot_payment_gateway.Auth.Session.{Exn, integrity_error, invalid_request_error, value_error}
use hotspot_payment_gateway.Auth.Session.Raises.{Raises, raising}
use hotspot_payment_gateway.Core.Security.{hash_password}
use hotspot_payment_gateway.Auth.Accounts.{get_user}
use hotspot_payment_gateway.Auth.Refresh.Errors.{is_past-Raises}
use hotspot_payment_gateway.Auth.Session.{invalid_password_reset_token_error}
use hotspot_payment_gateway.Auth.Mail.{check_token, consume_token, replace_password, reset_password}

-- The failures of an operation whose errors are of the given class.
abbrev pub IsTokenFailure : (String → Exn) → Exn → Type 0
IsTokenFailure error_cls e =
    ((message : String) × (e ≡ error_cls message))
    ⊎ (e ≡ integrity_error)
    ⊎ (e ≡ invalid_request_error)
    ⊎ (e ≡ value_error)

token_failure :
    (error_cls : String → Exn) (message : String) → IsTokenFailure error_cls (error_cls message)
token_failure error_cls message = inl (message, refl)

module _ ⦃env : Env⦄ where
  check_token-Raises :
      (error_cls : String → Exn) (o : Option VerificationToken)
      → Raises (IsTokenFailure error_cls) (check_token error_cls o)
  unfolding check_token
  check_token-Raises error_cls none =
      search (raising, token_failure error_cls "Token is invalid or already used")
  check_token-Raises error_cls (some row) =
      search
        (
          raising,
          is_past-Raises,
          token_failure error_cls "Token is invalid or already used",
          token_failure error_cls "Token has expired",
        )
        depth 8

  consume_token-Raises :
      (raw purpose : String) (error_cls : String → Exn)
      → Raises (IsTokenFailure error_cls) (consume_token raw purpose error_cls)
  unfolding consume_token
  consume_token-Raises raw purpose error_cls = search (raising, check_token-Raises)

  get_user-Raises : (P : Exn → Type 0) (id : ℕ) → Raises P (get_user id)
  unfolding get_user
  get_user-Raises P id = search raising

  replace_password-Raises :
      (new_password : String) (row : VerificationToken) (user : User)
      → Raises
          (IsTokenFailure invalid_password_reset_token_error)
          (replace_password new_password row user)
  unfolding replace_password hash_password
  replace_password-Raises new_password row user = search (raising, inl, inr) depth 16

  -- A password reset raises nothing but InvalidPasswordResetTokenError, IntegrityError,
  -- InvalidRequestError and ValueError.
  pub reset_password-Raises :
      (raw new_password : String)
      → Raises (IsTokenFailure invalid_password_reset_token_error) (reset_password raw new_password)
  unfolding reset_password
  reset_password-Raises raw new_password =
      search
        (
          raising,
          consume_token-Raises,
          get_user-Raises,
          replace_password-Raises,
          token_failure invalid_password_reset_token_error "Account no longer exists",
        )
        depth 8
