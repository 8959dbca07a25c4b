-- ===== src/Auth/Models/Edits.antt =====
-- Which changes of the users and of the mailed tokens keep the constraints.
use hotspot_payment_gateway.Base.{
  ◌≡◌, refl, map, all, Bool, List, [], ◌∷◌, ℕ, ◌==◌, any-map, distinct-map, all-map,
}
use hotspot_payment_gateway.Auth.Models.{
  User, AuthProvider, RefreshToken, VerificationToken, Tables, same_user_id, same_email,
  same_verification_id, same_verification_hash, has_tenant, has_user, consistent,
}

all_same :
    {A : Type 0} (p q : A → Bool) (same : (a : A) → p a ≡ q a) (xs : List A) → all p xs ≡ all q xs
all_same p q same [] = refl
all_same p q same (x ∷ xs) = rw (same x, all_same p q same xs) refl

-- An update of users that leaves keys, addresses and tenants alone.
pub record KeepsUser (f : User → User) : Type 0 where
  pub ids : (u : User) → (f u).id ≡ u.id
  pub emails : (u : User) → (f u).email ≡ u.email
  pub tenants : (u : User) → (f u).tenant_id ≡ u.tenant_id

abbrev pub map_users : (User → User) → Tables → Tables
map_users f t = record t { users = map f t.users }

owners_same :
    (f : User → User) (t : Tables)
    → KeepsUser f
    → (id : ℕ) → has_user (map_users f t) id ≡ has_user t id
owners_same f t k id = any-map (λ (u : User). u.id == id) f (λ a. rw (k.ids a) refl) t.users

pub consistent-map_users :
    (f : User → User) (t : Tables) → KeepsUser f → consistent (map_users f t) ≡ consistent t
unfolding consistent
consistent-map_users f t k =
    let owners = owners_same f t k in
    rw
      (
        distinct-map same_user_id f (λ a b. rw (k.ids a, k.ids b) refl) t.users,
        distinct-map same_email f (λ a b. rw (k.emails a, k.emails b) refl) t.users,
        all-map (λ (u : User). has_tenant t u.tenant_id) f (λ a. rw (k.tenants a) refl) t.users,
        all_same (λ (p : AuthProvider). has_user (map_users f t) p.user_id)
            (λ (p : AuthProvider). has_user t p.user_id) (λ p. owners p.user_id) t.auth_providers,
        all_same (λ (p : RefreshToken). has_user (map_users f t) p.user_id)
            (λ (p : RefreshToken). has_user t p.user_id) (λ p. owners p.user_id) t.refresh_tokens,
        all_same (λ (p : VerificationToken). has_user (map_users f t) p.user_id)
            (λ (p : VerificationToken). has_user t p.user_id) (λ p. owners p.user_id)
            t.verification_tokens,
      )
      refl

-- An update of mailed tokens that leaves keys, hashes and owners alone.
pub record KeepsVerification (f : VerificationToken → VerificationToken) : Type 0 where
  pub ids : (v : VerificationToken) → (f v).id ≡ v.id
  pub hashes : (v : VerificationToken) → (f v).token_hash ≡ v.token_hash
  pub owners : (v : VerificationToken) → (f v).user_id ≡ v.user_id

abbrev pub map_verification : (VerificationToken → VerificationToken) → Tables → Tables
map_verification f t = record t { verification_tokens = map f t.verification_tokens }

pub consistent-map_verification :
    (f : VerificationToken → VerificationToken) (t : Tables)
    → KeepsVerification f
    → consistent (map_verification f t) ≡ consistent t
unfolding consistent
consistent-map_verification f t k =
    rw
      (
        distinct-map same_verification_id f (λ a b. rw (k.ids a, k.ids b) refl)
            t.verification_tokens,
        distinct-map same_verification_hash f (λ a b. rw (k.hashes a, k.hashes b) refl)
            t.verification_tokens,
        all-map (λ v. has_user t v.user_id) f (λ a. rw (k.owners a) refl) t.verification_tokens,
      )
      refl
