-- ===== src/Auth/Google.antt =====
-- src/auth/service.py: sign-in with a Google account.
pub mod Linked
pub mod Existing
pub mod Again
use text.Mathlib.Text.{◌==◌ as str_eq}
use hotspot_payment_gateway.Base.{
  ℕ, String, ◌==◌, true, ◌&&◌, Option, none, some, [], ◌∷◌, update_where, if◌then◌else◌,
}
use hotspot_payment_gateway.Tenant.{default_tenant_id}
use hotspot_payment_gateway.Runtime.{Env, DateTime}
use hotspot_payment_gateway.Auth.Models.{User, AuthProvider, Tables, sql_eq}
use hotspot_payment_gateway.Auth.Session.{
  M, pure, raise, or_raise, attempt, ◌>>=◌, ◌>>◌, change, commit, rollback, draw, add_user,
  add_provider, select_user, select_provider, log_event, Result, ok, raised, uuid,
  google_oauth_error, integrity_error,
}
use hotspot_payment_gateway.Auth.Utils.{normalize_email}
use hotspot_payment_gateway.Auth.Accounts.{flush_user, get_user, refresh_user}

-- What Google says of the account: `sub`, `email`, `given_name`, `family_name` and `picture`.
pub record GoogleProfile : Type 0 where
  pub google_sub : String
  pub email : String
  pub first_name : Option String
  pub last_name : Option String
  pub profile_photo_url : Option String

-- `user.is_email_verified = True`: a row that has the value already is not written, and keeps its
-- `updated_at`.
abbrev pub verified : DateTime → User → User
verified at u =
    if u.is_email_verified then u else record u { is_email_verified = true; updated_at = at }

abbrev pub set_verified : ℕ → DateTime → Tables → Tables
set_verified id at t = record t { users = update_where (λ u. u.id == id) (verified at) t.users }

module _ ⦃env : Env⦄ where
  -- An `AuthProvider` row of the provider "google".
  unfoldable pub build_google_provider : ℕ → String → M AuthProvider
  build_google_provider user_id google_sub = do
    id ← draw env.uuid7
    created ← draw env.server_now
    pure (record {
      id = id;
      provider = "google";
      provider_user_id = some google_sub;
      user_id = user_id;
      label = "Google";
      is_active = true;
      created_at = created;
    })

  -- (1) An account that is linked already.
  unfoldable pub google_relogin : AuthProvider → M User
  unfolding get_user
  google_relogin google_provider = do
    found ← get_user google_provider.user_id
    user ← or_raise found (google_oauth_error "Account no longer exists" 400)
    log_event "auth.google.relogin" (("user_id", uuid user.id) ∷ [])
    pure user

  -- (2) A user with the same e-mail address.
  unfoldable pub google_link : String → User → M User
  unfolding build_google_provider refresh_user
  google_link google_sub existing = do
    google_provider ← build_google_provider existing.id google_sub
    add_provider google_provider
    updated ← draw env.server_now
    change (set_verified existing.id updated)
    commit
    user ← refresh_user existing.id
    log_event "auth.google.linked" (("user_id", uuid existing.id) ∷ [])
    pure user

  unfoldable pub google_signup_outcome : ℕ → Result (Unit {0}) → M User
  unfolding refresh_user
  google_signup_outcome id (ok _) = do
    user ← refresh_user id
    log_event "auth.google.signup" (("user_id", uuid user.id) ∷ [])
    pure user
  google_signup_outcome id (raised integrity_error) =
      rollback >> raise (google_oauth_error "Account creation failed" 400)
  google_signup_outcome id (raised e) = raise e

  -- (3) A new user, verified from the start.
  unfoldable pub google_signup : GoogleProfile → String → M User
  unfolding build_google_provider flush_user google_signup_outcome
  google_signup profile email = do
    id ← draw env.uuid7
    created ← draw env.server_now
    google_provider ← build_google_provider id profile.google_sub
    let user : User = record {
      id = id;
      tenant_id = default_tenant_id;
      first_name = profile.first_name;
      last_name = profile.last_name;
      email = email;
      password_hash = none;
      is_email_verified = true;
      profile_photo_url = profile.profile_photo_url;
      created_at = created;
      updated_at = created;
    }
    add_user user
    add_provider google_provider
    outcome ← attempt (flush_user user >> commit)
    google_signup_outcome id outcome

  unfoldable pub google_by_email : GoogleProfile → String → Option User → M User
  unfolding google_link google_signup
  google_by_email profile email (some existing) = google_link profile.google_sub existing
  google_by_email profile email none = google_signup profile email

  unfoldable pub google_by_provider : GoogleProfile → String → Option AuthProvider → M User
  unfolding google_relogin google_by_email
  google_by_provider profile email (some google_provider) = google_relogin google_provider
  google_by_provider profile email none = do
    existing ← select_user (λ u. str_eq u.email email)
    google_by_email profile email existing

  unfoldable pub link_or_create_google_user : GoogleProfile → M User
  unfolding google_by_provider normalize_email
  link_or_create_google_user profile = do
    let email = normalize_email profile.email
    google_provider ←
        select_provider
          (λ p. str_eq p.provider "google" && sql_eq p.provider_user_id (some profile.google_sub))
    google_by_provider profile email google_provider
