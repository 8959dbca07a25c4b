-- ===== src/Auth/Accounts.antt =====
-- src/auth/service.py: signup, password login and the lookups of users.
pub mod Login
pub mod Signup
pub mod Later
use text.Mathlib.Text.{◌==◌ as str_eq}
use Prim.Native.String.{◌++◌ as str_append}
use mathlib.Core.Option
use hotspot_payment_gateway.Base.{
  ℕ, String, ◌==◌, true, false, not, Option, none, some, [], ◌∷◌, if◌then◌else◌,
}
use hotspot_payment_gateway.Base.Texts.{partition}
use hotspot_payment_gateway.Tenant.{default_tenant_id}
use hotspot_payment_gateway.Runtime.{Env}
use hotspot_payment_gateway.Core.Security.{hash_password, verify_password}
use hotspot_payment_gateway.Auth.Models.{User}
use hotspot_payment_gateway.Auth.Schemas.{SignupRequest}
use hotspot_payment_gateway.Schema.Ddl.{row_valid}
use hotspot_payment_gateway.Metadata.Models.{user_model}
use hotspot_payment_gateway.Metadata.Rows.{user_row}
use hotspot_payment_gateway.Auth.Session.{
  M, pure, raise, or_raise, attempt, ◌>>=◌, ◌>>◌, commit, rollback, draw, add_user, add_provider,
  select_user, log_event, Result, ok, raised, str, uuid, email_conflict_error,
  invalid_credentials_error, email_not_verified_error, integrity_error, data_error,
  invalid_request_error,
}
use hotspot_payment_gateway.Auth.Utils.{normalize_email}

abbrev masked_local : String → String
masked_local String.[] = "***"
masked_local (String.◌∷◌ c s) = String.◌∷◌ c "***"

-- `_mask_email`
unfoldable pub mask_email : String → String
unfolding partition
mask_email value = elim (partition b'@' value) [
  | none ↦ value
  | some (local, domain) ↦ str_append (masked_local local) (str_append "@" domain)
]

module _ ⦃env : Env⦄ where
  -- `session.get(User, user_id)`
  unfoldable pub get_user : ℕ → M (Option User)
  get_user user_id = select_user (λ u. u.id == user_id)

  unfoldable pub get_user_by_email : String → M (Option User)
  unfolding normalize_email
  get_user_by_email email = select_user (λ u. str_eq u.email (normalize_email email))

  -- `session.refresh(user)`: the row is read again, by its primary key.
  unfoldable pub refresh_user : ℕ → M User
  unfolding get_user
  refresh_user id = do found ← get_user id; or_raise found invalid_request_error

  -- The INSERT of a new user, before its constraints are tested: PostgreSQL raises a `DataError`
  -- for a text that is longer than its column.
  unfoldable pub flush_user : User → M (Unit {0})
  flush_user user =
      if row_valid user_model.columns (user_row user) then pure tt else raise data_error

  -- What follows the `try` of `create_user`.
  unfoldable pub signup_outcome : SignupRequest → ℕ → Result (Unit {0}) → M User
  unfolding refresh_user mask_email
  signup_outcome signup id (ok _) = do
    user ← refresh_user id
    log_event "auth.signup" (("user_id", uuid user.id) ∷ [])
    pure user
  signup_outcome signup id (raised integrity_error) = do
    rollback
    log_event "auth.signup.conflict" (
        ("email", str (mask_email signup.email))
        ∷ ("detail", str "unique constraint violation")
        ∷ [])
    raise (email_conflict_error "Email already registered")
  signup_outcome signup id (raised e) = raise e

  unfoldable pub create_user : SignupRequest → M User
  unfolding hash_password flush_user signup_outcome
  create_user signup = do
    password_hash ← hash_password signup.password
    id ← draw env.uuid7
    provider_id ← draw env.uuid7
    created ← draw env.server_now
    let user : User = record {
      id = id;
      tenant_id = default_tenant_id;
      first_name = some signup.first_name;
      last_name = signup.last_name;
      email = signup.email;
      password_hash = some password_hash;
      is_email_verified = false;
      profile_photo_url = none;
      created_at = created;
      updated_at = created;
    }
    add_user user
    add_provider (record {
      id = provider_id;
      provider = "password";
      provider_user_id = none;
      user_id = id;
      label = "Password";
      is_active = true;
      created_at = created;
    })
    outcome ← attempt (flush_user user >> commit)
    signup_outcome signup id outcome

  -- `authenticate`, once there is a row with a password hash.
  unfoldable pub check_password : String → User → String → M User
  unfolding verify_password
  check_password password user hash = verify_password password hash >>= λ matches.
      if not matches
      then (do
        log_event "auth.login.failed"
            (("user_id", uuid user.id) ∷ ("reason", str "wrong_password") ∷ [])
        raise (invalid_credentials_error "Invalid email or password"))
      else if not user.is_email_verified
      then (do
        log_event "auth.login.unverified" (("user_id", uuid user.id) ∷ [])
        raise (email_not_verified_error "Email address is not verified"))
      else do log_event "auth.login.success" (("user_id", uuid user.id) ∷ []); pure user

  -- `user is None or user.password_hash is None`
  abbrev pub credentials : Option User → Option (User × String)
  credentials none = none
  credentials (some user) = Option.map (λ hash. (user, hash)) user.password_hash

  unfoldable pub login_outcome : String → String → Option (User × String) → M User
  unfolding check_password mask_email
  login_outcome email password none = do
    log_event "auth.login.failed"
        (("email", str (mask_email email)) ∷ ("reason", str "unknown_or_oauth_only") ∷ [])
    raise (invalid_credentials_error "Invalid email or password")
  login_outcome email password (some (user, hash)) = check_password password user hash

  unfoldable pub authenticate : String → String → M User
  unfolding login_outcome
  authenticate email password = do
    user ← select_user (λ u. str_eq u.email email)
    login_outcome email password (credentials user)
