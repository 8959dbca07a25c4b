-- ===== src/Auth/Google/Again.antt =====
-- The second sign-in with a Google account.
use text.Mathlib.Text.{◌==◌ as str_eq}
use text.Mathlib.TextEquality.{eq_iff}
use hotspot_payment_gateway.Base.{
  ◌≡◌, refl, sym, ◌∙◌, true, some, ◌&&◌, ◌==◌, ==_iff, distinct-eq, &&_parts,
}
use hotspot_payment_gateway.Runtime.{Env}
use hotspot_payment_gateway.Runtime.Lookup.{scalar-eq}
use hotspot_payment_gateway.Auth.Models.{
  User, AuthProvider, sql_eq, same_provider_account, consistent,
}
use hotspot_payment_gateway.Auth.Models.Constraints.{user-eq_of_id, consistent→IsConsistent}
use hotspot_payment_gateway.Auth.Session.{Conn, with_session, ok}
use hotspot_payment_gateway.Auth.Session.Steps.{with_session-eq}
use hotspot_payment_gateway.Auth.Accounts.{get_user}
use hotspot_payment_gateway.Auth.Google.{
  GoogleProfile, google_relogin, google_by_provider, link_or_create_google_user,
}
use hotspot_payment_gateway.Auth.Google.Linked.{
  IsLinked, sql_eq-some, account_eq, account_swap, sign_in-IsLinked,
}

module _ ⦃env : Env⦄ where
  relogin :
      (profile : GoogleProfile) (c : Conn) (link : AuthProvider) (u : User)
      → env.scalar
          (λ p. str_eq p.provider "google" && sql_eq p.provider_user_id (some profile.google_sub))
          c.db.auth_providers
        ≡ some link
      → env.scalar (λ v. v.id == link.user_id) c.db.users ≡ some u
      → ((with_session (link_or_create_google_user profile) c).0 ≡ ok u)
        × ((with_session (link_or_create_google_user profile) c).1.db ≡ c.db)
  unfolding with_session link_or_create_google_user google_by_provider google_relogin get_user
  relogin profile c link u e f = rw (e, f) (refl, refl)

  -- A user who is linked with the Google account is the one that a sign-in with it finds, whatever
  -- address and names Google gives; no row changes.
  relogin-IsLinked :
      (profile : GoogleProfile) (c : Conn) (u : User)
      → IsLinked c.db profile.google_sub u
      → ((with_session (link_or_create_google_user profile) c).0 ≡ ok u)
        × ((with_session (link_or_create_google_user profile) c).1.db ≡ c.db)
  relogin-IsLinked profile c u l =
      let s = profile.google_sub in
      let t = c.db in
      let link = l.link in
      let i = consistent→IsConsistent t l.valid in
      relogin profile c link u
        (scalar-eq (λ p. str_eq p.provider "google" && sql_eq p.provider_user_id (some s))
          t.auth_providers link l.here
          (rw (l.google, l.account, (eq_iff "google" "google").1 refl, (eq_iff s s).1 refl) refl)
          (λ p m q.
            let (a, b) =
              &&_parts (str_eq p.provider "google") (sql_eq p.provider_user_id (some s)) q in
            distinct-eq same_provider_account account_swap p link t.auth_providers
              i.provider_accounts m l.here
              (account_eq p link s ((eq_iff p.provider "google").0 a) l.google
                (sql_eq-some p.provider_user_id s b) l.account)))
        (scalar-eq (λ v. v.id == link.user_id) t.users u l.stored
          ((==_iff u.id link.user_id).1 l.owner)
          (λ v m q.
            user-eq_of_id t l.valid v u m l.stored ((==_iff v.id link.user_id).0 q ∙ sym l.owner)))

  -- On consistent rows a Google sign-in that succeeded, in whichever of the three ways, makes the
  -- next sign-in with the same Google account succeed as the same user and change no row, whatever
  -- address and names Google gives.
  pub link_or_create_google_user_again :
      (first second : GoogleProfile) (c : Conn) {u : User} {c' : Conn}
      → consistent c.db ≡ true
      → second.google_sub ≡ first.google_sub
      → with_session (link_or_create_google_user first) c ≡ (ok u, c')
      → ((with_session (link_or_create_google_user second) c').0 ≡ ok u)
        × ((with_session (link_or_create_google_user second) c').1.db ≡ c'.db)
  link_or_create_google_user_again first second c {u} {c'} k e h =
      let (c₁, run, closed) = with_session-eq (link_or_create_google_user first) c h in
      let l : IsLinked c'.db first.google_sub u = rw closed (sign_in-IsLinked first c k run) in
      relogin-IsLinked second c' u (rw e l)
