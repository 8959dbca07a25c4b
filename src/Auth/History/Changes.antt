-- ===== src/Auth/History/Changes.antt =====
-- Every change that the service makes to the rows is an evolution of them.
use text.Mathlib.Text.{◌==◌ as str_eq}
use hotspot_payment_gateway.Base.{
  ℕ, String, ◌≡◌, ◌⊎◌, inl, inr, sym, ap, ◌∙◌, subst, Has, Has-append_last, Has-append_cases,
  Has-updated, ==_iff, true, false, not, ◌&&◌, none, refl, Bool, some, List, [], ◌∷◌, ◌++◌, ◌==◌,
  Has-append_left, if◌then◌else◌, arith,
}
use hotspot_payment_gateway.Runtime.{DateTime}
use hotspot_payment_gateway.Auth.Models.{
  User, AuthProvider, RefreshToken, VerificationToken, Tables,
}
use hotspot_payment_gateway.Auth.Refresh.{revoked, revoke_by_id, revoke_by_hash, revoke_by_user}
use hotspot_payment_gateway.Auth.Google.{verified, set_verified}
use hotspot_payment_gateway.Auth.Mail.{mark_used, mark_verified, set_password}
use hotspot_payment_gateway.Auth.History.{
  LaterUser, LaterRefresh, LaterVerification, Continues, Continues-append, Continues-map, Evolves,
  Evolves-refl, Evolves-order, IsOwned, LaterUser-refl, LaterRefresh-refl, LaterVerification-refl,
}

module _ (t : Tables) where
  Evolves-users :
      (us : List User) → Continues LaterUser t.users us → Evolves t (record t { users = us })
  Evolves-users us h =
      let e = Evolves-refl t in
      record {
        tenants = refl;
        users = h;
        auth_providers = e.auth_providers;
        refresh_tokens = e.refresh_tokens;
        verification_tokens = e.verification_tokens;
        new_links = λ p m g. inl m;
      }

  Evolves-refresh_tokens :
      (rs : List RefreshToken)
      → Continues LaterRefresh t.refresh_tokens rs
      → Evolves t (record t { refresh_tokens = rs })
  Evolves-refresh_tokens rs h =
      let e = Evolves-refl t in
      record {
        tenants = refl;
        users = e.users;
        auth_providers = e.auth_providers;
        refresh_tokens = h;
        verification_tokens = e.verification_tokens;
        new_links = λ p m g. inl m;
      }

  Evolves-verification_tokens :
      (vs : List VerificationToken)
      → Continues LaterVerification t.verification_tokens vs
      → Evolves t (record t { verification_tokens = vs })
  Evolves-verification_tokens vs h =
      let e = Evolves-refl t in
      record {
        tenants = refl;
        users = e.users;
        auth_providers = e.auth_providers;
        refresh_tokens = e.refresh_tokens;
        verification_tokens = h;
        new_links = λ p m g. inl m;
      }

pub Evolves-add_user : (u : User) (t : Tables) → Evolves t (record t { users = t.users ++ u ∷ [] })
Evolves-add_user u t =
    Evolves-users t _ (Continues-append LaterUser t.users (u ∷ []) LaterUser-refl)

new_link :
    (p q : AuthProvider) (t : Tables)
    → (p.provider ≡ "google" → IsOwned p t.users)
    → Has q (t.auth_providers ++ p ∷ [])
    → q.provider ≡ "google"
    → Has q t.auth_providers ⊎ IsOwned q t.users
new_link p q t h m g = elim (Has-append_cases q p t.auth_providers m) [
  | inl old ↦ inl old
  | inr e ↦ inr (
      subst (λ r. IsOwned r t.users) (sym e)
        (h (ap (λ (r : AuthProvider). r.provider) (sym e) ∙ g)))
]

-- A link with Google needs a verified owner.
pub Evolves-add_provider :
    (p : AuthProvider) (t : Tables)
    → (p.provider ≡ "google" → IsOwned p t.users)
    → Evolves t (record t { auth_providers = t.auth_providers ++ p ∷ [] })
Evolves-add_provider p t h =
    let e = Evolves-refl t in
    record {
      tenants = refl;
      users = e.users;
      auth_providers = λ q m. Has-append_left q t.auth_providers (p ∷ []) m;
      refresh_tokens = e.refresh_tokens;
      verification_tokens = e.verification_tokens;
      new_links = λ q m g. new_link p q t h m g;
    }

pub Evolves-add_password :
    (id user_id : ℕ) (at : DateTime) (t : Tables)
    → Evolves t (record t {
      auth_providers =
          t.auth_providers
          ++ record {
            id = id;
            provider = "password";
            provider_user_id = none;
            user_id = user_id;
            label = "Password";
            is_active = true;
            created_at = at;
          }
            ∷ [];
    })
Evolves-add_password id user_id at t = Evolves-add_provider _ t (λ g. cc g)

pub Evolves-add_account :
    (u : User) (p : AuthProvider) (t : Tables)
    → u.id ≡ p.user_id
    → u.is_email_verified ≡ true
    → Evolves t
        (record t { users = t.users ++ u ∷ []; auth_providers = t.auth_providers ++ p ∷ [] })
Evolves-add_account u p t e v = Evolves-order.chain (Evolves-add_user u t) (
    Evolves-add_provider p (record t { users = t.users ++ u ∷ [] })
      (λ g. (u, Has-append_last u t.users, e, v)))

pub Evolves-add_refresh_token :
    (r : RefreshToken) (t : Tables)
    → Evolves t (record t { refresh_tokens = t.refresh_tokens ++ r ∷ [] })
Evolves-add_refresh_token r t =
    Evolves-refresh_tokens t _
      (Continues-append LaterRefresh t.refresh_tokens (r ∷ []) LaterRefresh-refl)

pub Evolves-add_verification_token :
    (v : VerificationToken) (t : Tables)
    → Evolves t (record t { verification_tokens = t.verification_tokens ++ v ∷ [] })
Evolves-add_verification_token v t =
    Evolves-verification_tokens t _
      (Continues-append LaterVerification t.verification_tokens (v ∷ []) LaterVerification-refl)

-- One row, under an update of the rows that pass a test.
revoke_later : (b : Bool) (r : RefreshToken) → LaterRefresh r (if b then revoked r else r)
revoke_later b r = ground arith

verified_later :
    (b : Bool) (at : DateTime) (u : User) → LaterUser u (if b then verified at u else u)
verified_later b at u = ground arith

password_later :
    (b : Bool) (hash : String) (at : DateTime) (u : User)
    → LaterUser u (if b then record u { password_hash = some hash; updated_at = at } else u)
password_later b hash at u = ground arith

used_later :
    (b : Bool) (at : DateTime) (v : VerificationToken)
    → LaterVerification v (if b then record v { used_at = some at } else v)
used_later b at v = ground arith

pub Evolves-revoke_by_id : (id : ℕ) (t : Tables) → Evolves t (revoke_by_id id t)
Evolves-revoke_by_id id t =
    Evolves-refresh_tokens t _
      (Continues-map LaterRefresh _ t.refresh_tokens (λ r. revoke_later (r.id == id) r))

pub Evolves-revoke_by_hash : (h : String) (t : Tables) → Evolves t (revoke_by_hash h t)
Evolves-revoke_by_hash h t =
    Evolves-refresh_tokens t _
      (Continues-map LaterRefresh _ t.refresh_tokens (λ r. revoke_later (str_eq r.token_hash h) r))

pub Evolves-revoke_by_user : (id : ℕ) (t : Tables) → Evolves t (revoke_by_user id t)
Evolves-revoke_by_user id t =
    Evolves-refresh_tokens t _
      (Continues-map LaterRefresh _ t.refresh_tokens (λ r. revoke_later (r.user_id == id) r))

pub Evolves-set_verified : (id : ℕ) (at : DateTime) (t : Tables) → Evolves t (set_verified id at t)
Evolves-set_verified id at t =
    Evolves-users t _ (Continues-map LaterUser _ t.users (λ u. verified_later (u.id == id) at u))

marked_later :
    (b : Bool) (at : DateTime) (u : User)
    → LaterUser u (if b then record u { is_email_verified = true; updated_at = at } else u)
marked_later true at u = ground arith
marked_later false at u = LaterUser-refl u

pub Evolves-mark_verified :
    (user : User) (at : DateTime) (t : Tables) → Evolves t (mark_verified user at t)
Evolves-mark_verified user at t = Evolves-users t _ (
    Continues-map LaterUser _ t.users
      (λ u. marked_later (not user.is_email_verified && (u.id == user.id)) at u))

pub Evolves-set_password :
    (id : ℕ) (hash : String) (at : DateTime) (t : Tables) → Evolves t (set_password id hash at t)
Evolves-set_password id hash at t =
    Evolves-users t _
      (Continues-map LaterUser _ t.users (λ u. password_later (u.id == id) hash at u))

pub Evolves-mark_used : (id : ℕ) (at : DateTime) (t : Tables) → Evolves t (mark_used id at t)
Evolves-mark_used id at t =
    Evolves-verification_tokens t _
      (Continues-map LaterVerification _ t.verification_tokens (λ v. used_later (v.id == id) at v))

verified-verified : (at : DateTime) (u : User) → (verified at u).is_email_verified ≡ true
verified-verified at u = ground arith

verified-id : (at : DateTime) (u : User) → (verified at u).id ≡ u.id
verified-id at u = ground arith

-- A link for a stored user, who is verified in the same step.
pub Evolves-link :
    (u : User) (p : AuthProvider) (at : DateTime) (t : Tables)
    → Has u t.users
    → p.user_id ≡ u.id
    → Evolves t (set_verified u.id at (record t { auth_providers = t.auth_providers ++ p ∷ [] }))
Evolves-link u p at t m e = Evolves-order.chain (Evolves-set_verified u.id at t) (
    Evolves-add_provider p (set_verified u.id at t) (λ g. (
      verified at u,
      Has-updated (λ v. v.id == u.id) (verified at) t.users u m ((==_iff u.id u.id).1 refl),
      verified-id at u ∙ sym e,
      verified-verified at u,
    )))
