-- ===== src/Auth/Accounts/Signup.antt =====
-- `create_user`: when a signup succeeds, and what it stores.
use Prim.Native.String.{len}
use text.Mathlib.Text.{◌==◌ as str_eq}
use hotspot_payment_gateway.Base.{
  ltb, ℕ, ◌+◌, ◌≡◌, refl, true, false, none, some, List, [], ◌∷◌, Has-append_last, any, ◌==◌,
  ==_iff, ==_refl, Bool-cases, inl, inr, arith,
}
use hotspot_payment_gateway.Tenant.{default_tenant_id}
use hotspot_payment_gateway.Runtime.{Env}
use hotspot_payment_gateway.Runtime.Lookup.{scalar-eq}
use hotspot_payment_gateway.Auth.Models.{
  User, AuthProvider, Tables, has_tenant, same_provider_account, consistent,
}
use hotspot_payment_gateway.Auth.Models.Constraints.{user-eq_of_id}
use hotspot_payment_gateway.Auth.Models.NewAccount.{with_account, consistent-with_account}
use hotspot_payment_gateway.Schema.Ddl.{row_valid}
use hotspot_payment_gateway.Metadata.Models.{user_model}
use hotspot_payment_gateway.Metadata.Rows.{user_row}
use hotspot_payment_gateway.Auth.Schemas.{SignupRequest}
use hotspot_payment_gateway.Auth.Session.{
  Conn, Exn, with_session, commit, ok, raised, email_conflict_error, value_error, data_error,
}
use hotspot_payment_gateway.Auth.Accounts.{
  create_user, flush_user, signup_outcome, refresh_user, get_user,
}
use hotspot_payment_gateway.Core.Security.{hash_password}

abbrev pub email_taken : Exn
email_taken = email_conflict_error "Email already registered"

module _ ⦃env : Env⦄ where
  -- The rows that a signup makes when the n-th reading is its first.
  abbrev pub new_user : SignupRequest → ℕ → User
  new_user signup n = record {
    id = env.uuid7 (n + 1);
    tenant_id = default_tenant_id;
    first_name = some signup.first_name;
    last_name = signup.last_name;
    email = signup.email;
    password_hash = some (env.hashpw signup.password (env.gensalt n));
    is_email_verified = false;
    profile_photo_url = none;
    created_at = env.server_now (n + 1 + 1 + 1);
    updated_at = env.server_now (n + 1 + 1 + 1);
  }

  abbrev pub new_provider : ℕ → AuthProvider
  new_provider n = record {
    id = env.uuid7 (n + 1 + 1);
    provider = "password";
    provider_user_id = none;
    user_id = env.uuid7 (n + 1);
    label = "Password";
    is_active = true;
    created_at = env.server_now (n + 1 + 1 + 1);
  }

  -- The identifiers that the next signup draws are not in use, and the default tenant is there.
  pub record CanRegister (c : Conn) : Type 0 where
    pub user_id : any (λ (v : User). v.id == env.uuid7 (c.draws + 1)) c.db.users ≡ false
    pub provider_id :
        any (λ (q : AuthProvider). q.id == env.uuid7 (c.draws + 1 + 1)) c.db.auth_providers ≡ false
    pub tenant : has_tenant c.db default_tenant_id ≡ true

  -- The password is not too long for bcrypt, nor a value of the new row for its column.
  pub record IsStorable (signup : SignupRequest) (n : ℕ) : Type 0 where
    pub short : ltb 72 (len signup.password) ≡ false
    pub fits : row_valid user_model.columns (user_row (new_user signup n)) ≡ true

  abbrev pub registered : SignupRequest → Conn → Tables
  registered signup c = with_account (new_user signup c.draws) (new_provider c.draws) c.db

  created :
      (signup : SignupRequest) (c : Conn)
      → IsStorable signup c.draws
      → consistent (registered signup c) ≡ true
      → env.scalar (λ u. u.id == env.uuid7 (c.draws + 1)) (registered signup c).users
        ≡ some (new_user signup c.draws)
      → ((with_session (create_user signup) c).0 ≡ ok (new_user signup c.draws))
        × ((with_session (create_user signup) c).1.db ≡ registered signup c)
  unfolding with_session create_user hash_password flush_user commit signup_outcome refresh_user
      get_user
  created signup c o h f = rw (o.short, o.fits, h, f) (refl, refl)

  pub refused :
      (signup : SignupRequest) (c : Conn)
      → IsStorable signup c.draws
      → consistent (registered signup c) ≡ false
      → ((with_session (create_user signup) c).0 ≡ raised email_taken)
        × ((with_session (create_user signup) c).1.db ≡ c.db)
  unfolding with_session create_user hash_password flush_user commit signup_outcome
  refused signup c o h = rw (o.short, o.fits, h) (refl, refl)

  pub created_of_consistent :
      (signup : SignupRequest) (c : Conn)
      → IsStorable signup c.draws
      → consistent (registered signup c) ≡ true
      → ((with_session (create_user signup) c).0 ≡ ok (new_user signup c.draws))
        × ((with_session (create_user signup) c).1.db ≡ registered signup c)
  created_of_consistent signup c o k =
      let u = new_user signup c.draws in
      let m = Has-append_last u c.db.users in
      created signup c o k (
        scalar-eq (λ w. w.id == u.id) (registered signup c).users u m (==_refl u.id)
          (λ w l e. user-eq_of_id (registered signup c) k w u l m ((==_iff w.id u.id).0 e)))

  -- bcrypt refuses a password of more than 72 bytes.
  too_long :
      (signup : SignupRequest) (c : Conn)
      → ltb 72 (len signup.password) ≡ true
      → (with_session (create_user signup) c).0 ≡ raised value_error
  unfolding with_session create_user hash_password
  too_long signup c o = rw o refl

  -- A new row with a value that is too long for its column raises the data error.
  pub too_wide :
      (signup : SignupRequest) (c : Conn)
      → ltb 72 (len signup.password) ≡ false
      → row_valid user_model.columns (user_row (new_user signup c.draws)) ≡ false
      → ((with_session (create_user signup) c).0 ≡ raised data_error)
        × ((with_session (create_user signup) c).1.db ≡ c.db)
  unfolding with_session create_user hash_password flush_user signup_outcome
  too_wide signup c o k = rw (o, k) (refl, refl)

  -- What a signup that succeeded was given could be stored.
  pub create_user-IsStorable :
      (signup : SignupRequest) (c : Conn) {u : User} {c' : Conn}
      → with_session (create_user signup) c ≡ (ok u, c')
      → IsStorable signup c.draws
  create_user-IsStorable signup c h = elim (Bool-cases (ltb 72 (len signup.password))) [
    | inl o ↦ absurd (cc (h, too_long signup c o))
    | inr o ↦
        elim (Bool-cases (row_valid user_model.columns (user_row (new_user signup c.draws)))) [
          | inl k ↦ record { short = o; fits = k }
          | inr k ↦ absurd (cc (h, (too_wide signup c o k).0))
        ]
  ]

  no_account :
      (rows : List AuthProvider) (n : ℕ)
      → any (λ q. same_provider_account q (new_provider n)) rows ≡ false
  no_account [] n = refl
  no_account (q ∷ rows) n = let rest = no_account rows n in ground arith

  registered-consistent :
      (signup : SignupRequest) (c : Conn)
      → consistent c.db ≡ true
      → CanRegister c
      → any (λ (v : User). str_eq v.email signup.email) c.db.users ≡ false
      → consistent (registered signup c) ≡ true
  registered-consistent signup c h r f =
      consistent-with_account c.db (new_user signup c.draws) (new_provider c.draws) h (record {
        fresh_id = r.user_id;
        fresh_email = f;
        tenant = r.tenant;
        fresh_provider = r.provider_id;
        fresh_account = no_account c.db.auth_providers c.draws;
        owner = refl;
      })

  -- On consistent rows with a free address, fresh identifiers and the default tenant, a signup
  -- whose password has at most 72 bytes and whose row fits the columns of the users stores the new
  -- unverified user and one password provider, and the constraints still hold.
  pub create_user-created :
      (signup : SignupRequest) (c : Conn)
      → IsStorable signup c.draws
      → consistent c.db ≡ true
      → CanRegister c
      → any (λ (v : User). str_eq v.email signup.email) c.db.users ≡ false
      → ((with_session (create_user signup) c).0 ≡ ok (new_user signup c.draws))
        × ((with_session (create_user signup) c).1.db ≡ registered signup c)
        × (consistent (registered signup c) ≡ true)
  create_user-created signup c o h r f =
      let k = registered-consistent signup c h r f in
      let (a, b) = created_of_consistent signup c o k in (a, b, k)
