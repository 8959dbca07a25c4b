-- ===== src/Auth/Models.antt =====
-- src/auth/models: the rows of the four tables, and the constraints that the classes declare.
-- The lengths of columns stand in Metadata/Models; no row is tested for them here.
pub mod Constraints
pub mod Preserve
pub mod Edits
pub mod NewAccount
use text.Mathlib.Text.{◌==◌ as str_eq}
use hotspot_payment_gateway.Base.{
  ℕ, String, Bool, false, ◌&&◌, Option, some, List, any, all, distinct, ◌==◌,
}
use hotspot_payment_gateway.Runtime.{DateTime}

pub record User : Type 0 where
  pub id : ℕ
  pub tenant_id : ℕ
  pub first_name : Option String
  pub last_name : Option String
  pub email : String
  pub password_hash : Option String
  pub is_email_verified : Bool
  pub profile_photo_url : Option String
  pub created_at : DateTime
  pub updated_at : DateTime

pub record AuthProvider : Type 0 where
  pub id : ℕ
  pub provider : String
  pub provider_user_id : Option String
  pub user_id : ℕ
  pub label : String
  pub is_active : Bool
  pub created_at : DateTime

pub record RefreshToken : Type 0 where
  pub id : ℕ
  pub user_id : ℕ
  pub token_hash : String
  pub created_at : DateTime
  pub expires_at : DateTime
  pub is_revoked : Bool

pub record VerificationToken : Type 0 where
  pub id : ℕ
  pub user_id : ℕ
  pub purpose : String
  pub token_hash : String
  pub expires_at : DateTime
  pub used_at : Option DateTime
  pub created_at : DateTime

-- The rows of a database; of `tenants` only the primary keys are read here.
pub record Tables : Type 0 where
  pub tenants : List ℕ
  pub users : List User
  pub auth_providers : List AuthProvider
  pub refresh_tokens : List RefreshToken
  pub verification_tokens : List VerificationToken

-- SQL's `=` on a nullable column: NULL equals nothing.
abbrev pub sql_eq : Option String → Option String → Bool
sql_eq (some a) (some b) = str_eq a b
sql_eq _ _ = false

-- The key of each unique constraint: the primary keys and the columns marked `unique`.
abbrev pub same_user_id : User → User → Bool
same_user_id u v = u.id == v.id

abbrev pub same_email : User → User → Bool
same_email u v = str_eq u.email v.email

abbrev pub same_provider_id : AuthProvider → AuthProvider → Bool
same_provider_id p q = p.id == q.id

-- `uq_provider_user`
abbrev pub same_provider_user : AuthProvider → AuthProvider → Bool
same_provider_user p q = str_eq p.provider q.provider && p.user_id == q.user_id

-- `uq_provider_provider_user_id`
abbrev pub same_provider_account : AuthProvider → AuthProvider → Bool
same_provider_account p q =
    str_eq p.provider q.provider && sql_eq p.provider_user_id q.provider_user_id

abbrev pub same_refresh_id : RefreshToken → RefreshToken → Bool
same_refresh_id r s = r.id == s.id

abbrev pub same_refresh_hash : RefreshToken → RefreshToken → Bool
same_refresh_hash r s = str_eq r.token_hash s.token_hash

abbrev pub same_verification_id : VerificationToken → VerificationToken → Bool
same_verification_id r s = r.id == s.id

abbrev pub same_verification_hash : VerificationToken → VerificationToken → Bool
same_verification_hash r s = str_eq r.token_hash s.token_hash

-- The foreign keys.
abbrev pub has_tenant : Tables → ℕ → Bool
has_tenant t k = any (λ j. j == k) t.tenants

abbrev pub has_user : Tables → ℕ → Bool
has_user t k = any (λ (u : User). u.id == k) t.users

users_valid : Tables → Bool
users_valid t =
    distinct same_user_id t.users
    && (distinct same_email t.users && all (λ (u : User). has_tenant t u.tenant_id) t.users)

providers_valid : Tables → Bool
providers_valid t =
    distinct same_provider_id t.auth_providers
    && (distinct same_provider_user t.auth_providers
        && (distinct same_provider_account t.auth_providers
            && all (λ (p : AuthProvider). has_user t p.user_id) t.auth_providers))

refresh_valid : Tables → Bool
refresh_valid t =
    distinct same_refresh_id t.refresh_tokens
    && (distinct same_refresh_hash t.refresh_tokens
        && all (λ (r : RefreshToken). has_user t r.user_id) t.refresh_tokens)

verification_valid : Tables → Bool
verification_valid t =
    distinct same_verification_id t.verification_tokens
    && (distinct same_verification_hash t.verification_tokens
        && all (λ (v : VerificationToken). has_user t v.user_id) t.verification_tokens)

-- Every unique and foreign-key constraint of the four tables holds.
unfoldable pub consistent : Tables → Bool
unfolding users_valid providers_valid refresh_valid verification_valid
consistent t = users_valid t && (providers_valid t && (refresh_valid t && verification_valid t))
