-- ===== src/Auth/Models/Constraints.antt =====
-- What the constraints of the tables say to a lookup by a unique column.
use text.Mathlib.Text.{◌==◌ as str_eq}
use text.Mathlib.TextEquality.{eq_iff}
use hotspot_payment_gateway.Base.{String, ◌≡◌, sym, true, Has, all, distinct, distinct-eq, arith}
use hotspot_payment_gateway.Auth.Models.{
  User, AuthProvider, RefreshToken, VerificationToken, Tables, same_user_id, same_email,
  same_provider_id, same_provider_user, same_provider_account, same_refresh_id, same_refresh_hash,
  same_verification_id, same_verification_hash, has_tenant, has_user, consistent,
}

pub record IsConsistent (t : Tables) : Type 0 where
  pub user_ids : distinct same_user_id t.users ≡ true
  pub emails : distinct same_email t.users ≡ true
  pub user_tenants : all (λ (u : User). has_tenant t u.tenant_id) t.users ≡ true
  pub provider_ids : distinct same_provider_id t.auth_providers ≡ true
  pub provider_users : distinct same_provider_user t.auth_providers ≡ true
  pub provider_accounts : distinct same_provider_account t.auth_providers ≡ true
  pub provider_owners : all (λ (p : AuthProvider). has_user t p.user_id) t.auth_providers ≡ true
  pub refresh_ids : distinct same_refresh_id t.refresh_tokens ≡ true
  pub refresh_hashes : distinct same_refresh_hash t.refresh_tokens ≡ true
  pub refresh_owners : all (λ (r : RefreshToken). has_user t r.user_id) t.refresh_tokens ≡ true
  pub verification_ids : distinct same_verification_id t.verification_tokens ≡ true
  pub verification_hashes : distinct same_verification_hash t.verification_tokens ≡ true
  pub verification_owners :
      all (λ (v : VerificationToken). has_user t v.user_id) t.verification_tokens ≡ true

pub consistent→IsConsistent : (t : Tables) → consistent t ≡ true → IsConsistent t
unfolding consistent
consistent→IsConsistent t h = ground arith

pub IsConsistent→consistent : (t : Tables) → IsConsistent t → consistent t ≡ true
unfolding consistent
IsConsistent→consistent t h = ground arith

pub str_eq_sym : (s t : String) → str_eq s t ≡ true → str_eq t s ≡ true
str_eq_sym s t h = (eq_iff t s).1 (sym ((eq_iff s t).0 h))

module _ (t : Tables) (h : consistent t ≡ true) where
  pub user-eq_of_id : (u v : User) → Has u t.users → Has v t.users → u.id ≡ v.id → u ≡ v
  user-eq_of_id u v m n e =
      distinct-eq same_user_id (λ a b k. ground arith) u v t.users
        (consistent→IsConsistent t h).user_ids m n (ground arith)

  pub user-eq_of_email : (u v : User) → Has u t.users → Has v t.users → u.email ≡ v.email → u ≡ v
  user-eq_of_email u v m n e =
      distinct-eq same_email (λ a b k. str_eq_sym a.email b.email k) u v t.users
        (consistent→IsConsistent t h).emails m n ((eq_iff u.email v.email).1 e)

  pub refresh-eq_of_hash :
      (r s : RefreshToken)
      → Has r t.refresh_tokens
      → Has s t.refresh_tokens
      → r.token_hash ≡ s.token_hash
      → r ≡ s
  refresh-eq_of_hash r s m n e =
      distinct-eq same_refresh_hash (λ a b k. str_eq_sym a.token_hash b.token_hash k) r s
        t.refresh_tokens (consistent→IsConsistent t h).refresh_hashes m n
        ((eq_iff r.token_hash s.token_hash).1 e)

  pub refresh-eq_of_id :
      (r s : RefreshToken) → Has r t.refresh_tokens → Has s t.refresh_tokens → r.id ≡ s.id → r ≡ s
  refresh-eq_of_id r s m n e =
      distinct-eq same_refresh_id (λ a b k. ground arith) r s t.refresh_tokens
        (consistent→IsConsistent t h).refresh_ids m n (ground arith)

  pub verification-eq_of_hash :
      (r s : VerificationToken)
      → Has r t.verification_tokens
      → Has s t.verification_tokens
      → r.token_hash ≡ s.token_hash
      → r ≡ s
  verification-eq_of_hash r s m n e =
      distinct-eq same_verification_hash (λ a b k. str_eq_sym a.token_hash b.token_hash k) r s
        t.verification_tokens (consistent→IsConsistent t h).verification_hashes m n
        ((eq_iff r.token_hash s.token_hash).1 e)
