-- ===== src/Auth/Google/Linked.antt =====
-- `link_or_create_google_user`: whoever signed in with Google is found again by the same account.
use text.Mathlib.Text.{◌==◌ as str_eq}
use text.Mathlib.TextEquality.{eq_iff}
use hotspot_payment_gateway.Base.{
  ℕ, ◌+◌, String, ◌≡◌, refl, sym, ap, Bool, true, Option, none, some, List, [], ◌∷◌, Has,
  Has-append_last, ◌++◌, ◌&&◌, ◌==◌, ==_iff, &&_parts, arith,
}
use hotspot_payment_gateway.Runtime.{Env}
use hotspot_payment_gateway.Auth.Models.{
  User, AuthProvider, Tables, sql_eq, same_provider_account, consistent,
}
use hotspot_payment_gateway.Auth.Session.{Conn, opened, commit, ok}
use hotspot_payment_gateway.Auth.Utils.{normalize_email}
use hotspot_payment_gateway.Auth.Accounts.{flush_user, get_user, refresh_user}
use hotspot_payment_gateway.Auth.Google.{
  GoogleProfile, google_relogin, google_link, google_signup, google_signup_outcome, google_by_email,
  google_by_provider, link_or_create_google_user, build_google_provider,
}

-- The user is stored and has the link with the Google account, among consistent rows.
pub record IsLinked (t : Tables) (google_sub : String) (u : User) : Type 0 where
  pub link : AuthProvider
  pub here : Has link t.auth_providers
  pub google : link.provider ≡ "google"
  pub account : link.provider_user_id ≡ some google_sub
  pub owner : u.id ≡ link.user_id
  pub stored : Has u t.users
  pub valid : consistent t ≡ true

pub sql_eq-some : (o : Option String) (s : String) → sql_eq o (some s) ≡ true → o ≡ some s
sql_eq-some none s h = cc
sql_eq-some (some a) s h = ap some ((eq_iff a s).0 h)

pub account_eq :
    (p q : AuthProvider) (s : String)
    → p.provider ≡ "google"
    → q.provider ≡ "google"
    → p.provider_user_id ≡ some s
    → q.provider_user_id ≡ some s
    → same_provider_account p q ≡ true
account_eq p q s a b c d =
    rw (a, b, c, d, (eq_iff "google" "google").1 refl, (eq_iff s s).1 refl) refl

text_swap : (s t : String) → str_eq s t ≡ true → str_eq t s ≡ true
text_swap s t h = (eq_iff t s).1 (sym ((eq_iff s t).0 h))

sql_eq-swap : (o p : Option String) → sql_eq o p ≡ true → sql_eq p o ≡ true
sql_eq-swap none p h = cc
sql_eq-swap (some a) none h = cc
sql_eq-swap (some a) (some b) h = text_swap a b h

pub account_swap :
    (p q : AuthProvider) → same_provider_account p q ≡ true → same_provider_account q p ≡ true
account_swap p q h =
    let (a, b) =
      &&_parts (str_eq p.provider q.provider) (sql_eq p.provider_user_id q.provider_user_id) h in
    rw (text_swap p.provider q.provider a, sql_eq-swap p.provider_user_id q.provider_user_id b) refl

module _ ⦃env : Env⦄ where
  -- The link row that is made when the n-th reading is the next.
  abbrev new_link : ℕ → String → ℕ → AuthProvider
  new_link user_id google_sub n = record {
    id = env.uuid7 n;
    provider = "google";
    provider_user_id = some google_sub;
    user_id = user_id;
    label = "Google";
    is_active = true;
    created_at = env.server_now (n + 1);
  }

  link-eq-ok :
      (google_sub : String) (existing : User) (c : Conn) {u : User} {c' : Conn}
      → google_link google_sub existing (opened c) ≡ (ok u, c')
      → (c'.db.auth_providers ≡ c.db.auth_providers ++ new_link existing.id google_sub c.draws ∷ [])
        × (consistent c'.db ≡ true)
        × (env.scalar (λ v. v.id == existing.id) c'.db.users ≡ some u)
  unfolding google_link build_google_provider commit refresh_user get_user
  link-eq-ok google_sub existing c h = ground arith

  signup-eq-ok :
      (profile : GoogleProfile) (email : String) (c : Conn) {u : User} {c' : Conn}
      → google_signup profile email (opened c) ≡ (ok u, c')
      → (c'.db.auth_providers
          ≡ c.db.auth_providers
            ++ new_link (env.uuid7 c.draws) profile.google_sub (c.draws + 1 + 1) ∷ [])
        × (consistent c'.db ≡ true)
        × (env.scalar (λ v. v.id == env.uuid7 c.draws) c'.db.users ≡ some u)
  unfolding google_signup flush_user google_signup_outcome build_google_provider commit refresh_user
      get_user
  signup-eq-ok profile email c h = ground arith

  relogin-eq-ok :
      (link : AuthProvider) (c : Conn) {u : User} {c' : Conn}
      → google_relogin link (opened c) ≡ (ok u, c')
      → (env.scalar (λ v. v.id == link.user_id) c.db.users ≡ some u) × (c'.db ≡ c.db)
  unfolding google_relogin get_user
  relogin-eq-ok link c h = ground arith

  linked :
      (google_sub : String) (link : AuthProvider) (u : User) (rows : List AuthProvider) (t : Tables)
      → t.auth_providers ≡ rows ++ link ∷ []
      → link.provider ≡ "google"
      → link.provider_user_id ≡ some google_sub
      → consistent t ≡ true
      → env.scalar (λ (v : User). v.id == link.user_id) t.users ≡ some u
      → IsLinked t google_sub u
  linked google_sub link u rows t e g a h f =
      let (m, k) = env.scalar-some (λ (v : User). v.id == link.user_id) t.users u f in
      record {
        link = link;
        here = rw e (Has-append_last link rows);
        google = g;
        account = a;
        owner = (==_iff u.id link.user_id).0 k;
        stored = m;
        valid = h;
      }

  by_email-IsLinked :
      (profile : GoogleProfile) (email : String) (found : Option User) (c : Conn) {u : User}
      {c' : Conn}
      → google_by_email profile email found (opened c) ≡ (ok u, c')
      → IsLinked c'.db profile.google_sub u
  unfolding google_by_email
  by_email-IsLinked profile email none c {u} {c'} h =
      let (e, k, f) = signup-eq-ok profile email c h in
      linked profile.google_sub (new_link (env.uuid7 c.draws) profile.google_sub (c.draws + 1 + 1))
        u c.db.auth_providers c'.db e refl refl k f
  by_email-IsLinked profile email (some existing) c {u} {c'} h =
      let (e, k, f) = link-eq-ok profile.google_sub existing c h in
      linked profile.google_sub (new_link existing.id profile.google_sub c.draws) u
        c.db.auth_providers c'.db e refl refl k f

  by_provider-IsLinked :
      (profile : GoogleProfile) (email : String) (found : Option AuthProvider) (c : Conn) {u : User}
      {c' : Conn}
      → consistent c.db ≡ true
      → ((p : AuthProvider)
          → found ≡ some p
          → Has p c.db.auth_providers
            × (p.provider ≡ "google")
            × (p.provider_user_id ≡ some profile.google_sub))
      → google_by_provider profile email found (opened c) ≡ (ok u, c')
      → IsLinked c'.db profile.google_sub u
  unfolding google_by_provider
  by_provider-IsLinked profile email none c k m h =
      by_email-IsLinked profile email (env.scalar (λ v. str_eq v.email email) c.db.users) c h
  by_provider-IsLinked profile email (some p) c {u} {c'} k m h =
      let (f, db) = relogin-eq-ok p c h in
      let (here, g, a) = m p refl in
      let (n, q) = env.scalar-some (λ (v : User). v.id == p.user_id) c.db.users u f in
      rw db (record {
        link = p;
        here = here;
        google = g;
        account = a;
        owner = (==_iff u.id p.user_id).0 q;
        stored = n;
        valid = k;
      })

  -- A sign-in on consistent rows leaves the user linked.
  pub sign_in-IsLinked :
      (profile : GoogleProfile) (c : Conn) {u : User} {c' : Conn}
      → consistent c.db ≡ true
      → link_or_create_google_user profile (opened c) ≡ (ok u, c')
      → IsLinked c'.db profile.google_sub u
  unfolding link_or_create_google_user
  sign_in-IsLinked profile c k h =
      let test : AuthProvider → Bool =
        λ p. str_eq p.provider "google" && sql_eq p.provider_user_id (some profile.google_sub) in
      by_provider-IsLinked profile (normalize_email profile.email)
        (env.scalar test c.db.auth_providers) c k
        (λ p e.
          let (m, q) = env.scalar-some test c.db.auth_providers p e in
          let (a, b) =
            &&_parts (str_eq p.provider "google")
              (sql_eq p.provider_user_id (some profile.google_sub)) q in
          (
            m,
            (eq_iff p.provider "google").0 a,
            sql_eq-some p.provider_user_id profile.google_sub b,
          ))
        h
