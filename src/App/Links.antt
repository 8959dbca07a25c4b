-- ===== src/App/Links.antt =====
-- However the requests to the application interleave, who is linked with Google has a verified address.
use hotspot_payment_gateway.Base.{
  ◌≡◌, ap, sym, ◌∙◌, true, List, Has, inl, inr, ◌==◌, ==_iff, any→Has, all→Has,
}
use hotspot_payment_gateway.Runtime.{Env}
use hotspot_payment_gateway.Auth.Models.{User, AuthProvider, Tables, has_user, consistent}
use hotspot_payment_gateway.Auth.Models.Constraints.{consistent→IsConsistent, user-eq_of_id}
use hotspot_payment_gateway.Auth.History.{IsOwned, IsOwned-later, Evolves}
use hotspot_payment_gateway.App.Interleaving.{Server, Step, run_steps}
use hotspot_payment_gateway.App.Interleaving.Evolving.{run_steps-MayBecome}

-- Every user with a Google link is verified.
abbrev pub LinksVerified : Tables → Type 0
LinksVerified t =
    (p : AuthProvider) (u : User)
    → Has p t.auth_providers
    → p.provider ≡ "google"
    → Has u t.users
    → u.id ≡ p.user_id
    → u.is_email_verified ≡ true

owned :
    (t : Tables) (p : AuthProvider)
    → consistent t ≡ true
    → LinksVerified t
    → Has p t.auth_providers
    → p.provider ≡ "google"
    → IsOwned p t.users
owned t p h v m g =
    let k =
      all→Has (λ (q : AuthProvider). has_user t q.user_id) p t.auth_providers
        (consistent→IsConsistent t h).provider_owners m in
    let (u, n, e) = any→Has (λ (w : User). w.id == p.user_id) t.users k in
    let same = (==_iff u.id p.user_id).0 e in (u, n, same, v p u m g n same)

Evolves-LinksVerified :
    (t t' : Tables)
    → consistent t ≡ true
    → consistent t' ≡ true
    → Evolves t t'
    → LinksVerified t
    → LinksVerified t'
Evolves-LinksVerified t t' h h' e v p u m g n same =
    let (w, k, i, y) : IsOwned p t'.users = elim (e.new_links p m g) [
      | inl old ↦ IsOwned-later p t.users t'.users e.users (owned t p h v old g)
      | inr w ↦ w
    ] in
    ap (λ (x : User). x.is_email_verified) (user-eq_of_id t' h' u w n k (same ∙ sym i)) ∙ y

module _ ⦃env : Env⦄ where
  -- However the requests to the application interleave, as in run_steps, a user with a linked
  -- Google account has a verified address: where this holds of consistent rows, it holds after any
  -- steps.
  pub run_steps-LinksVerified :
      (steps : List (Step env.Jwt)) (s : Server)
      → consistent s.conn.db ≡ true
      → LinksVerified s.conn.db
      → LinksVerified (run_steps steps s).conn.db
  run_steps-LinksVerified steps s h v =
      let (e, k) = run_steps-MayBecome steps s in
      Evolves-LinksVerified s.conn.db (run_steps steps s).conn.db h (k h) e v
