-- ===== src/Auth/History/SignIn.antt =====
-- The sign-in with Google lets the rows evolve: a new link is one of a verified user.
use text.Mathlib.Text.{◌==◌ as str_eq}
use hotspot_payment_gateway.Base.{
  ℕ, ◌+◌, ◌++◌, ◌≡◌, refl, true, [], ◌∷◌, Has, String, Option, none, some,
}
use hotspot_payment_gateway.Tenant.{default_tenant_id}
use hotspot_payment_gateway.Runtime.{Env}
use hotspot_payment_gateway.Auth.Models.{User, AuthProvider}
use hotspot_payment_gateway.Auth.Session.{
  Conn, view, M, Result, ok, raised, integrity_error, pure, attempt, commit, ◌>>=◌, ◌>>◌, log_event,
  uuid,
}
use hotspot_payment_gateway.Auth.Session.Within
use hotspot_payment_gateway.Auth.Accounts.{flush_user, refresh_user}
use hotspot_payment_gateway.Auth.Google.{
  set_verified, GoogleProfile, build_google_provider, google_relogin, google_link,
  google_signup_outcome, google_signup, google_by_email, google_by_provider,
  link_or_create_google_user,
}
use hotspot_payment_gateway.Auth.History.{Evolves, Evolves-order}
use hotspot_payment_gateway.Auth.History.Changes.{Evolves-link, Evolves-add_account}
use hotspot_payment_gateway.Auth.History.Rules.{
  Evolving, evolving, flush_user-Evolving, refresh_user-Evolving, get_user-Evolving,
}

module _ ⦃env : Env⦄ where
  build_google_provider-Evolving :
      (id : ℕ) (google_sub : String) → Evolving (build_google_provider id google_sub)
  unfolding build_google_provider
  build_google_provider-Evolving id google_sub = search evolving

  -- `google_link` once the user's row has changed.
  link_rest : User → M User
  link_rest u = do
    commit
    user ← refresh_user u.id
    log_event "auth.google.linked" (("user_id", uuid u.id) ∷ [])
    pure user

  link_rest-Evolving : (u : User) → Evolving (link_rest u)
  unfolding link_rest
  link_rest-Evolving u = search (evolving, refresh_user-Evolving) depth 8

  -- The user that `google_link` is given was read by the same session.
  google_link-Allowed :
      (google_sub : String) (u : User) (c : Conn)
      → Evolves c.db (view c)
      → Has u (view c).users
      → Within.Allowed Evolves Evolves-order c (google_link google_sub u c).1
  unfolding google_link build_google_provider link_rest
  google_link-Allowed google_sub u c p m =
      let link : AuthProvider = record {
        id = env.uuid7 c.draws;
        provider = "google";
        provider_user_id = some google_sub;
        user_id = u.id;
        label = "Google";
        is_active = true;
        created_at = env.server_now (c.draws + 1);
      } in
      let at = env.server_now (c.draws + 1 + 1) in
      let a =
        (link_rest-Evolving u).at
          (record c {
            draws = c.draws + 1 + 1 + 1;
            pending = λ t. set_verified u.id at (record (c.pending t) {
              auth_providers = (c.pending t).auth_providers ++ link ∷ [];
            });
          })
          (Evolves-order.chain p (Evolves-link u link at (view c) m refl)) in
      record { rows = a.rows; valid = a.valid; open_changes = a.open_changes }

  google_signup_outcome-Evolving :
      (id : ℕ) (r : Result (Unit {0})) → Evolving (google_signup_outcome id r)
  unfolding google_signup_outcome
  google_signup_outcome-Evolving id (ok _) = search (evolving, refresh_user-Evolving)
  google_signup_outcome-Evolving id (raised integrity_error) = search evolving
  google_signup_outcome-Evolving id (raised _) = search evolving

  signup_rest-Evolving :
      (id : ℕ) (u : User) → Evolving (attempt (flush_user u >> commit) >>= google_signup_outcome id)
  signup_rest-Evolving id u =
      search (evolving, flush_user-Evolving, google_signup_outcome-Evolving) depth 8

  google_signup-Evolving :
      (profile : GoogleProfile) (email : String) → Evolving (google_signup profile email)
  unfolding google_signup build_google_provider
  google_signup-Evolving profile email = record {
    at = λ c p.
        let id = env.uuid7 c.draws in
        let created = env.server_now (c.draws + 1) in
        let u : User = record {
          id = id;
          tenant_id = default_tenant_id;
          first_name = profile.first_name;
          last_name = profile.last_name;
          email = email;
          password_hash = none;
          is_email_verified = true;
          profile_photo_url = profile.profile_photo_url;
          created_at = created;
          updated_at = created;
        } in
        let link : AuthProvider = record {
          id = env.uuid7 (c.draws + 1 + 1);
          provider = "google";
          provider_user_id = some profile.google_sub;
          user_id = id;
          label = "Google";
          is_active = true;
          created_at = env.server_now (c.draws + 1 + 1 + 1);
        } in
        let a =
          (Within.Within-changes Evolves Evolves-order (λ t. record t { users = t.users ++ u ∷ [] })
              (λ t. record t { auth_providers = t.auth_providers ++ link ∷ [] })
              (attempt (flush_user u >> commit) >>= google_signup_outcome id)
              (λ t. Evolves-add_account u link t refl refl) (signup_rest-Evolving id u)).at
            (record c { draws = c.draws + 1 + 1 + 1 + 1 }) p in
        record { rows = a.rows; valid = a.valid; open_changes = a.open_changes };
  }

  google_by_email-Allowed :
      (profile : GoogleProfile) (email : String) (o : Option User) (c : Conn)
      → Evolves c.db (view c)
      → ((u : User) → o ≡ some u → Has u (view c).users)
      → Within.Allowed Evolves Evolves-order c (google_by_email profile email o c).1
  unfolding google_by_email
  google_by_email-Allowed profile email none c p m = (google_signup-Evolving profile email).at c p
  google_by_email-Allowed profile email (some u) c p m =
      google_link-Allowed profile.google_sub u c p (m u refl)

  google_by_provider-Evolving :
      (profile : GoogleProfile) (email : String) (o : Option AuthProvider)
      → Evolving (google_by_provider profile email o)
  unfolding google_by_provider google_relogin
  google_by_provider-Evolving profile email none =
      Within.Within-select Evolves Evolves-order
        (λ c. env.scalar (λ (u : User). str_eq u.email email) (view c).users)
        (google_by_email profile email)
        (λ c p.
          google_by_email-Allowed profile email _ c p
            (λ u e. (env.scalar-some (λ (v : User). str_eq v.email email) (view c).users u e).0))
  google_by_provider-Evolving profile email (some p) = search (evolving, get_user-Evolving) depth 8

  pub link_or_create_google_user-Evolving :
      (profile : GoogleProfile) → Evolving (link_or_create_google_user profile)
  unfolding link_or_create_google_user
  link_or_create_google_user-Evolving profile = search (evolving, google_by_provider-Evolving)
