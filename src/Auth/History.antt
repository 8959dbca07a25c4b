-- ===== src/Auth/History.antt =====
-- How the rows of the database may change over the life of the program: no user, provider link or
-- token is ever deleted, and verified, revoked and used are for good.
pub mod Changes
pub mod Rules
pub mod SignIn
pub mod Operations
use hotspot_payment_gateway.Base.{
  ◌≡◌, ◌⊎◌, inl, inr, refl, ◌∙◌, map, true, List, Has, Has-map, Has-append_left, arith, ◌++◌,
}
use hotspot_payment_gateway.Auth.Models.{
  User, AuthProvider, RefreshToken, VerificationToken, Tables,
}
use hotspot_payment_gateway.Auth.Mail.{is_used}
use hotspot_payment_gateway.Auth.Session.Within.{IsOrder}

-- A later version of a row.
pub record LaterUser (u v : User) : Type 0 where
  pub id : v.id ≡ u.id
  pub tenant : v.tenant_id ≡ u.tenant_id
  pub email : v.email ≡ u.email
  pub first_name : v.first_name ≡ u.first_name
  pub last_name : v.last_name ≡ u.last_name
  pub verified : u.is_email_verified ≡ true → v.is_email_verified ≡ true

pub record LaterRefresh (r s : RefreshToken) : Type 0 where
  pub id : s.id ≡ r.id
  pub user_id : s.user_id ≡ r.user_id
  pub token_hash : s.token_hash ≡ r.token_hash
  pub expires_at : s.expires_at ≡ r.expires_at
  pub revoked : r.is_revoked ≡ true → s.is_revoked ≡ true

pub record LaterVerification (v w : VerificationToken) : Type 0 where
  pub id : w.id ≡ v.id
  pub user_id : w.user_id ≡ v.user_id
  pub purpose : w.purpose ≡ v.purpose
  pub token_hash : w.token_hash ≡ v.token_hash
  pub expires_at : w.expires_at ≡ v.expires_at
  pub used : is_used v ≡ true → is_used w ≡ true

-- Every row of the one list has a later version in the other.
abbrev pub Continues : {R : Type 0} → (R → R → Type 0) → List R → List R → Type 0
Continues {R} Later xs ys = (x : R) → Has x xs → (y : R) × Has y ys × Later x y

-- The link's owner is stored and has a verified address.
abbrev pub IsOwned : AuthProvider → List User → Type 0
IsOwned p users = (u : User) × Has u users × (u.id ≡ p.user_id) × (u.is_email_verified ≡ true)

pub record Evolves (t t' : Tables) : Type 0 where
  pub tenants : t'.tenants ≡ t.tenants
  pub users : Continues LaterUser t.users t'.users
  pub auth_providers : (p : AuthProvider) → Has p t.auth_providers → Has p t'.auth_providers
  pub refresh_tokens : Continues LaterRefresh t.refresh_tokens t'.refresh_tokens
  pub verification_tokens : Continues LaterVerification t.verification_tokens t'.verification_tokens
  -- a new link with Google is one of a verified user
  pub new_links :
      (p : AuthProvider)
      → Has p t'.auth_providers
      → p.provider ≡ "google"
      → Has p t.auth_providers ⊎ IsOwned p t'.users

module _ {R : Type 0} (Later : R → R → Type 0) where
  pub Continues-refl : (xs : List R) → ((x : R) → Later x x) → Continues Later xs xs
  Continues-refl xs l x m = (x, m, l x)

  pub Continues-trans :
      (xs ys zs : List R)
      → ((x y z : R) → Later x y → Later y z → Later x z)
      → Continues Later xs ys
      → Continues Later ys zs
      → Continues Later xs zs
  Continues-trans xs ys zs l h k x m =
      let (y, n, p) = h x m in let (z, o, q) = k y n in (z, o, l x y z p q)

  pub Continues-append : (xs ys : List R) → ((x : R) → Later x x) → Continues Later xs (xs ++ ys)
  Continues-append xs ys l x m = (x, Has-append_left x xs ys m, l x)

  pub Continues-map :
      (f : R → R) (xs : List R) → ((x : R) → Later x (f x)) → Continues Later xs (map f xs)
  Continues-map f xs l x m = (f x, Has-map f x xs m, l x)

pub LaterUser-refl : (u : User) → LaterUser u u
LaterUser-refl u = ground arith

LaterUser-trans : (u v w : User) → LaterUser u v → LaterUser v w → LaterUser u w
LaterUser-trans u v w h k = ground arith

pub LaterRefresh-refl : (r : RefreshToken) → LaterRefresh r r
LaterRefresh-refl r = ground arith

LaterRefresh-trans : (r s t : RefreshToken) → LaterRefresh r s → LaterRefresh s t → LaterRefresh r t
LaterRefresh-trans r s t h k = ground arith

pub LaterVerification-refl : (v : VerificationToken) → LaterVerification v v
LaterVerification-refl v = ground arith

LaterVerification-trans :
    (u v w : VerificationToken)
    → LaterVerification u v
    → LaterVerification v w
    → LaterVerification u w
LaterVerification-trans u v w h k = ground arith

pub Evolves-refl : (t : Tables) → Evolves t t
Evolves-refl t = record {
  tenants = refl;
  users = Continues-refl LaterUser t.users LaterUser-refl;
  auth_providers = λ p m. m;
  refresh_tokens = Continues-refl LaterRefresh t.refresh_tokens LaterRefresh-refl;
  verification_tokens =
      Continues-refl LaterVerification t.verification_tokens LaterVerification-refl;
  new_links = λ p m g. inl m;
}

pub IsOwned-later :
    (p : AuthProvider) (us vs : List User) → Continues LaterUser us vs → IsOwned p us → IsOwned p vs
IsOwned-later p us vs h (u, m, e, v) = let (w, n, l) = h u m in (w, n, l.id ∙ e, l.verified v)

new_links-trans :
    (t u v : Tables) (p : AuthProvider)
    → Evolves t u
    → Evolves u v
    → Has p v.auth_providers
    → p.provider ≡ "google"
    → Has p t.auth_providers ⊎ IsOwned p v.users
new_links-trans t u v p h k m g = elim (k.new_links p m g) [
  | inl n ↦ elim (h.new_links p n g) [
    | inl o ↦ inl o
    | inr w ↦ inr (IsOwned-later p u.users v.users k.users w)
  ]
  | inr w ↦ inr w
]

pub Evolves-order : IsOrder Evolves
Evolves-order = record {
  same = Evolves-refl;
  chain = λ {t} {u} {v} h k. record {
    tenants = k.tenants ∙ h.tenants;
    users = Continues-trans LaterUser t.users u.users v.users LaterUser-trans h.users k.users;
    auth_providers = λ p m. k.auth_providers p (h.auth_providers p m);
    refresh_tokens =
        Continues-trans LaterRefresh t.refresh_tokens u.refresh_tokens v.refresh_tokens
          LaterRefresh-trans h.refresh_tokens k.refresh_tokens;
    verification_tokens =
        Continues-trans LaterVerification t.verification_tokens u.verification_tokens
          v.verification_tokens LaterVerification-trans h.verification_tokens k.verification_tokens;
    new_links = λ p. new_links-trans t u v p h k;
  };
}
