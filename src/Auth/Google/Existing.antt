-- ===== src/Auth/Google/Existing.antt =====
-- A Google sign-in with the address of an existing user: what becomes of the password, and what a
-- second Google account does.
use text.Mathlib.Text.{◌==◌ as str_eq}
use text.Mathlib.TextEquality.{eq_iff}
use hotspot_payment_gateway.Base.{
  ◌+◌, String, ◌≡◌, refl, sym, ap, ◌∙◌, Bool, true, false, not, none, some, [], ◌∷◌, ◌++◌, Has,
  Has-updated, any, any_of_Has, distinct, distinct-append_last, ◌&&◌, ◌==◌, ==_iff, ==_refl, ◌≢◌,
  &&_parts, Bool-cases, inl, inr, arith,
}
use hotspot_payment_gateway.Runtime.{Env, DateTime}
use hotspot_payment_gateway.Runtime.Lookup.{scalar-eq, scalar-eq-none}
use hotspot_payment_gateway.Auth.Models.{
  User, AuthProvider, Tables, sql_eq, same_provider_user, consistent,
}
use hotspot_payment_gateway.Auth.Models.Constraints.{
  user-eq_of_id, user-eq_of_email, consistent→IsConsistent,
}
use hotspot_payment_gateway.Auth.Session.{
  Conn, opened, with_session, commit, ok, raised, integrity_error,
}
use hotspot_payment_gateway.Auth.Session.Steps.{with_session-eq}
use hotspot_payment_gateway.Auth.Utils.{normalize_email}
use hotspot_payment_gateway.Auth.Accounts.{get_user, refresh_user, authenticate}
use hotspot_payment_gateway.Auth.Accounts.Login.{authenticate_iff}
use hotspot_payment_gateway.Auth.Google.Linked.{sql_eq-some}
use hotspot_payment_gateway.Auth.Google.{
  GoogleProfile, verified, set_verified, google_link, google_by_email, google_by_provider,
  link_or_create_google_user, build_google_provider,
}

clash : (a b : Bool) → b ≡ true → (a && not b) ≡ true → ⊥
clash a b h k = ground arith

verified_fields :
    (at : DateTime) (u : User)
    → ((verified at u).id ≡ u.id)
      × ((verified at u).email ≡ u.email)
      × ((verified at u).password_hash ≡ u.password_hash)
      × ((verified at u).is_email_verified ≡ true)
verified_fields at u = elim (Bool-cases u.is_email_verified) [
  | inl h ↦ ground arith
  | inr h ↦ ground arith
]

module _ ⦃env : Env⦄ where
  link_users :
      (google_sub : String) (existing : User) (c : Conn) {u : User} {c' : Conn}
      → google_link google_sub existing (opened c) ≡ (ok u, c')
      → (c'.db.users ≡ (set_verified existing.id (env.server_now (c.draws + 1 + 1)) c.db).users)
        × (consistent c'.db ≡ true)
        × (env.scalar (λ v. v.id == existing.id) c'.db.users ≡ some u)
  unfolding google_link build_google_provider commit refresh_user get_user
  link_users google_sub existing c h = ground arith

  -- After a Google account was linked to a stored user whose password passes, that password logs
  -- in, whether or not the address was verified before.
  pub authenticate-google_link :
      (google_sub : String) (existing : User) (password hash : String) (c : Conn) {u : User}
      {c' : Conn}
      → with_session (google_link google_sub existing) c ≡ (ok u, c')
      → Has existing c.db.users
      → existing.password_hash ≡ some hash
      → env.checkpw password hash ≡ true
      → (with_session (authenticate existing.email password) c').0 ≡ ok u
  unfolding with_session
  authenticate-google_link google_sub existing password hash c {u} {c'} h m e k =
      let (c₁, run, closed) = with_session-eq (google_link google_sub existing) c h in
      let (users, valid, found) = link_users google_sub existing c run in
      let at = env.server_now (c.draws + 1 + 1) in
      let new : Has (verified at existing) c₁.db.users = rw users (
        Has-updated (λ w. w.id == existing.id) (verified at) c.db.users existing m
          ((==_iff existing.id existing.id).1 refl)) in
      let (n, q) = env.scalar-some (λ (v : User). v.id == existing.id) c₁.db.users u found in
      let (same_id, same_email, same_hash, confirmed) = verified_fields at existing in
      let same : verified at existing ≡ u =
        user-eq_of_id c₁.db valid (verified at existing) u new n
          (same_id ∙ sym ((==_iff u.id existing.id).0 q)) in
      rw closed (
        (authenticate_iff existing.email password (opened c₁) u valid).1 (record {
          here = n;
          addressed = ap (λ v. v.email) (sym same) ∙ same_email;
          hash = hash;
          stored = ap (λ v. v.password_hash) (sym same) ∙ (same_hash ∙ e);
          passes = k;
          confirmed = ap (λ v. v.is_email_verified) (sym same) ∙ confirmed;
        }))

  -- The rows that a link would write.
  abbrev linking : String → User → Conn → Tables
  linking google_sub existing c =
      record (set_verified existing.id (env.server_now (c.draws + 1 + 1)) c.db) {
        auth_providers =
            c.db.auth_providers
            ++ record {
              id = env.uuid7 c.draws;
              provider = "google";
              provider_user_id = some google_sub;
              user_id = existing.id;
              label = "Google";
              is_active = true;
              created_at = env.server_now (c.draws + 1);
            }
              ∷ [];
      }

  linking_twice :
      (google_sub : String) (existing : User) (c : Conn) (p : AuthProvider)
      → Has p c.db.auth_providers
      → p.provider ≡ "google"
      → p.user_id ≡ existing.id
      → consistent (linking google_sub existing c) ≡ false
  linking_twice google_sub existing c p m g o =
      elim (Bool-cases (consistent (linking google_sub existing c))) [
        | inr k ↦ k
        | inl k ↦
            let link : AuthProvider = record {
              id = env.uuid7 c.draws;
              provider = "google";
              provider_user_id = some google_sub;
              user_id = existing.id;
              label = "Google";
              is_active = true;
              created_at = env.server_now (c.draws + 1);
            } in
            let i = consistent→IsConsistent (linking google_sub existing c) k in
            let t : any (λ q. same_provider_user q link) c.db.auth_providers ≡ true =
              any_of_Has (λ q. same_provider_user q link) p c.db.auth_providers m
                (rw (g, o, (eq_iff "google" "google").1 refl, ==_refl existing.id) refl) in
            let d =
              sym (distinct-append_last same_provider_user link c.db.auth_providers)
              ∙ i.provider_users in
            absurd (clash (distinct same_provider_user c.db.auth_providers) _ t d)
      ]

  link_conflict :
      (google_sub : String) (existing : User) (c : Conn)
      → consistent (linking google_sub existing c) ≡ false
      → (google_link google_sub existing (opened c)).0 ≡ raised integrity_error
  unfolding google_link build_google_provider commit
  link_conflict google_sub existing c h = rw h refl

  by_address :
      (profile : GoogleProfile) (existing : User) (c : Conn)
      → env.scalar
          (λ p. str_eq p.provider "google" && sql_eq p.provider_user_id (some profile.google_sub))
          c.db.auth_providers
        ≡ none
      → env.scalar (λ v. str_eq v.email (normalize_email profile.email)) c.db.users ≡ some existing
      → (google_link profile.google_sub existing (opened c)).0 ≡ raised integrity_error
      → (with_session (link_or_create_google_user profile) c).0 ≡ raised integrity_error
  unfolding with_session link_or_create_google_user google_by_provider google_by_email
  by_address profile existing c e f h = rw (e, f, h) refl

  -- On consistent rows a sign-in with a Google account that nobody has linked, and with the
  -- address of a user who has another Google account linked, raises IntegrityError.
  pub link_or_create_google_user-integrity_error :
      (profile : GoogleProfile) (existing : User) (c : Conn) (p : AuthProvider)
      → consistent c.db ≡ true
      → ((q : AuthProvider)
          → Has q c.db.auth_providers
          → q.provider_user_id ≢ some profile.google_sub)
      → Has existing c.db.users
      → existing.email ≡ normalize_email profile.email
      → Has p c.db.auth_providers
      → p.provider ≡ "google"
      → p.user_id ≡ existing.id
      → (with_session (link_or_create_google_user profile) c).0 ≡ raised integrity_error
  link_or_create_google_user-integrity_error profile existing c p k n m a l g o =
      by_address profile existing c
        (scalar-eq-none
          (λ q. str_eq q.provider "google" && sql_eq q.provider_user_id (some profile.google_sub))
          c.db.auth_providers
          (λ q h e.
            let (x, y) =
              &&_parts (str_eq q.provider "google")
                (sql_eq q.provider_user_id (some profile.google_sub)) e in
            n q h (sql_eq-some q.provider_user_id profile.google_sub y)))
        (scalar-eq (λ v. str_eq v.email (normalize_email profile.email)) c.db.users existing m
          ((eq_iff existing.email (normalize_email profile.email)).1 a)
          (λ v h e.
            user-eq_of_email c.db k v existing h m
              ((eq_iff v.email (normalize_email profile.email)).0 e ∙ sym a)))
        (link_conflict profile.google_sub existing c
          (linking_twice profile.google_sub existing c p l g o))
