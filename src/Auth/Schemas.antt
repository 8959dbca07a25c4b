-- ===== src/Auth/Schemas.antt =====
-- src/auth/schemas/auth.py: the payloads of the API. A `…Body` is what the client sent, with fields
-- of the right JSON types; `validate_…` is the Pydantic model, and `none` its 422 answer.
use Prim.Native.String.{count}
use text.Mathlib.Text.{◌==◌ as str_eq}
use mathlib.Core.Option
use hotspot_payment_gateway.Base.{
  ℕ, String, Bool, ◌&&◌, ◌||◌, Option, none, some, leb, if◌then◌else◌,
}
use hotspot_payment_gateway.Base.Texts.{strip, is_empty}
use hotspot_payment_gateway.Runtime.{Env, DateTime}
use hotspot_payment_gateway.Auth.Models.{User}
use hotspot_payment_gateway.Auth.Utils.{
  Checked, accepted, rejected, normalize_email, validate_password_strength,
}

pub record SignupRequest : Type 0 where
  pub first_name : String
  pub last_name : Option String
  pub email : String
  pub password : String

pub record LoginRequest : Type 0 where
  pub email : String
  pub password : String

pub record ResetPasswordRequest : Type 0 where
  pub token : String
  pub new_password : String
  pub confirm_password : String

pub record UserResponse : Type 0 where
  pub id : ℕ
  pub first_name : Option String
  pub last_name : Option String
  pub email : String
  pub is_email_verified : Bool
  pub profile_photo_url : Option String
  pub created_at : DateTime
  pub updated_at : DateTime

infixl 5 ◌>>=◌
abbrev ◌>>=◌ {ℓ κ} : {A : Type ℓ} {B : Type κ} → Option A → (A → Option B) → Option B
none >>= f = none
some a >>= f = f a

abbrev pub when {ℓ} : {A : Type ℓ} → Bool → A → Option A
when b a = if b then some a else none

abbrev pub checked : Checked → Option String
checked (accepted val) = some val
checked (rejected message) = none

-- `min_length`, `max_length`
abbrev pub sized : ℕ → ℕ → String → Option String
sized low high val = when (leb low (count val) && leb (count val) high) val

-- `validate_first_name`
unfoldable pub validate_first_name : String → Option String
validate_first_name val = if is_empty val || is_empty (strip val) then none else some (strip val)

module _ ⦃env : Env⦄ where
  -- An `EmailStr` field with the validator `_normalize_email` before it.
  unfoldable pub validate_email_field : String → Option String
  unfolding normalize_email
  validate_email_field val = env.validate_email (normalize_email val)

  -- A password field with length bounds and `validate_password_strength`.
  unfoldable pub validate_new_password : String → Option String
  unfolding validate_password_strength
  validate_new_password val = do
    sized_val ← sized 8 72 val
    checked (validate_password_strength sized_val)

  unfoldable pub validate_signup : SignupRequest → Option SignupRequest
  unfolding validate_first_name validate_email_field validate_new_password
  validate_signup body = do
    first_name ← validate_first_name body.first_name
    email ← validate_email_field body.email
    password ← validate_new_password body.password
    some (record {
      first_name = first_name;
      last_name = Option.map strip body.last_name;
      email = email;
      password = password;
    })

  unfoldable pub validate_login : LoginRequest → Option LoginRequest
  unfolding validate_email_field
  validate_login body = do
    email ← validate_email_field body.email
    password ← when (leb 1 (count body.password)) body.password
    some (record { email = email; password = password })

  unfoldable pub validate_reset_password : ResetPasswordRequest → Option ResetPasswordRequest
  unfolding validate_new_password
  validate_reset_password body = do
    token ← when (leb 1 (count body.token)) body.token
    new_password ← validate_new_password body.new_password
    confirm_password ← sized 8 72 body.confirm_password
    when (str_eq new_password confirm_password)
        (record { token = token; new_password = new_password; confirm_password = confirm_password })

  -- `VerifyEmailRequest`
  unfoldable pub validate_verify_email : String → Option String
  validate_verify_email token = when (leb 1 (count token)) token

  -- `UserResponse.model_validate(user)`
  unfoldable pub validate_user : User → Option UserResponse
  validate_user user = do
    email ← env.validate_email user.email
    some (record {
      id = user.id;
      first_name = user.first_name;
      last_name = user.last_name;
      email = email;
      is_email_verified = user.is_email_verified;
      profile_photo_url = user.profile_photo_url;
      created_at = user.created_at;
      updated_at = user.updated_at;
    })
