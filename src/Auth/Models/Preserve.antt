-- ===== src/Auth/Models/Preserve.antt =====
-- Which changes of the refresh and verification tokens keep the constraints.
use hotspot_payment_gateway.Base.{
  ◌≡◌, refl, map, true, false, [], ◌∷◌, ◌++◌, any, all-append, distinct-append_last, distinct-map,
  all-map, arith,
}
use hotspot_payment_gateway.Auth.Models.{
  VerificationToken, same_verification_id, same_verification_hash, RefreshToken, VerificationToken,
  Tables, same_refresh_id, same_refresh_hash, same_verification_id, same_verification_hash,
  has_user, consistent,
}

-- A new refresh token: neither its key nor its hash is in use, and its user is there.
pub record IsNewRefresh (t : Tables) (r : RefreshToken) : Type 0 where
  pub fresh_id : any (λ s. same_refresh_id s r) t.refresh_tokens ≡ false
  pub fresh_hash : any (λ s. same_refresh_hash s r) t.refresh_tokens ≡ false
  pub owned : has_user t r.user_id ≡ true

abbrev pub with_refresh : Tables → RefreshToken → Tables
with_refresh t r = record t { refresh_tokens = t.refresh_tokens ++ r ∷ [] }

pub consistent-with_refresh :
    (t : Tables) (r : RefreshToken)
    → consistent t ≡ true
    → IsNewRefresh t r
    → consistent (with_refresh t r) ≡ true
unfolding consistent
consistent-with_refresh t r h n = ground (
  arith,
  distinct-append_last same_refresh_id r t.refresh_tokens,
  distinct-append_last same_refresh_hash r t.refresh_tokens,
  all-append (λ s. has_user t s.user_id) t.refresh_tokens (r ∷ []),
)

-- An update of refresh tokens that leaves keys, hashes and owners alone.
pub record KeepsRefresh (f : RefreshToken → RefreshToken) : Type 0 where
  pub ids : (r : RefreshToken) → (f r).id ≡ r.id
  pub hashes : (r : RefreshToken) → (f r).token_hash ≡ r.token_hash
  pub owners : (r : RefreshToken) → (f r).user_id ≡ r.user_id

abbrev pub map_refresh : (RefreshToken → RefreshToken) → Tables → Tables
map_refresh f t = record t { refresh_tokens = map f t.refresh_tokens }

pub consistent-map_refresh :
    (f : RefreshToken → RefreshToken) (t : Tables)
    → KeepsRefresh f
    → consistent (map_refresh f t) ≡ consistent t
unfolding consistent
consistent-map_refresh f t k =
    rw
      (
        distinct-map same_refresh_id f (λ a b. rw (k.ids a, k.ids b) refl) t.refresh_tokens,
        distinct-map same_refresh_hash f (λ a b. rw (k.hashes a, k.hashes b) refl) t.refresh_tokens,
        all-map (λ r. has_user t r.user_id) f (λ a. rw (k.owners a) refl) t.refresh_tokens,
      )
      refl

-- A new verification token.
pub record IsNewVerification (t : Tables) (v : VerificationToken) : Type 0 where
  pub fresh_id : any (λ w. same_verification_id w v) t.verification_tokens ≡ false
  pub fresh_hash : any (λ w. same_verification_hash w v) t.verification_tokens ≡ false
  pub owned : has_user t v.user_id ≡ true

abbrev pub with_verification : Tables → VerificationToken → Tables
with_verification t v = record t { verification_tokens = t.verification_tokens ++ v ∷ [] }

pub consistent-with_verification :
    (t : Tables) (v : VerificationToken)
    → consistent t ≡ true
    → IsNewVerification t v
    → consistent (with_verification t v) ≡ true
unfolding consistent
consistent-with_verification t v h n = ground (
  arith,
  distinct-append_last same_verification_id v t.verification_tokens,
  distinct-append_last same_verification_hash v t.verification_tokens,
  all-append (λ w. has_user t w.user_id) t.verification_tokens (v ∷ []),
)
