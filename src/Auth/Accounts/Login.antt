-- ===== src/Auth/Accounts/Login.antt =====
-- `authenticate`: who is let in, and how the others are refused.
use Prim.Native.String.{len}
use text.Mathlib.Text.{◌==◌ as str_eq}
use text.Mathlib.TextEquality.{eq_iff}
use hotspot_payment_gateway.Base.{
  ltb, String, ◌≡◌, ◌⊎◌, refl, sym, ◌∙◌, ◌↔◌, true, Option, none, some, Option-cases, Has, Bool,
  Bool-cases, inl, inr, arith,
}
use hotspot_payment_gateway.Runtime.{Env}
use hotspot_payment_gateway.Runtime.Lookup.{scalar-eq}
use hotspot_payment_gateway.Core.Security.{verify_password}
use hotspot_payment_gateway.Auth.Models.{User, Tables, consistent}
use hotspot_payment_gateway.Auth.Models.Constraints.{user-eq_of_email}
use hotspot_payment_gateway.Auth.Session.{
  Conn, Exn, view, ok, raised, invalid_credentials_error, email_not_verified_error, value_error,
}
use hotspot_payment_gateway.Auth.Accounts.{credentials, check_password, login_outcome, authenticate}

abbrev pub wrong_credentials : Exn
wrong_credentials = invalid_credentials_error "Invalid email or password"

abbrev pub not_verified : Exn
not_verified = email_not_verified_error "Email address is not verified"

module _ ⦃env : Env⦄ where
  -- The user has the address, a password that matches, and has confirmed the address.
  pub record IsAdmitted (t : Tables) (email password : String) (u : User) : Type 0 where
    pub here : Has u t.users
    pub addressed : u.email ≡ email
    pub hash : String
    pub stored : u.password_hash ≡ some hash
    pub passes : env.checkpw password hash ≡ true
    pub confirmed : u.is_email_verified ≡ true

  check_admitted :
      (u : User) (email password hash : String) (c : Conn)
      → u.password_hash ≡ some hash
      → env.checkpw password hash ≡ true
      → u.is_email_verified ≡ true
      → (login_outcome email password (credentials (some u)) c).0 ≡ ok u
  unfolding login_outcome check_password verify_password
  check_admitted u email password hash c e k v =
      rw (e, env.checkpw_short password hash k, k, v) refl

  outcome-eq-ok :
      (found : Option User) (email password : String) (c : Conn) {u : User}
      → (login_outcome email password (credentials found) c).0 ≡ ok u
      → (found ≡ some u)
        × (hash : String) × (u.password_hash ≡ some hash)
        × (env.checkpw password hash ≡ true)
        × (u.is_email_verified ≡ true)
  unfolding login_outcome check_password verify_password
  outcome-eq-ok none email password c h = cc
  outcome-eq-ok (some v) email password c h = elim (Option-cases v.password_hash) [
    | inl n ↦ absurd (ground arith)
    | inr (hash, e) ↦ elim (Bool-cases (ltb 72 (len password))) [
      | inl o ↦ absurd (ground arith)
      | inr o ↦ (ground arith, hash, ground arith, ground arith, ground arith)
    ]
  ]

  pub find_address :
      (email : String) (t : Tables) (u : User)
      → consistent t ≡ true
      → Has u t.users
      → u.email ≡ email
      → env.scalar (λ v. str_eq v.email email) t.users ≡ some u
  find_address email t u h m e =
      scalar-eq _ t.users u m ((eq_iff u.email email).1 e)
        λ v n k. user-eq_of_email t h v u n m ((eq_iff v.email email).0 k ∙ sym e)

  -- On consistent rows authenticate returns a user exactly if it is the one with the address, the
  -- password matches and the address is verified.
  pub authenticate_iff :
      (email password : String) (c : Conn) (u : User)
      → consistent (view c) ≡ true
      → ((authenticate email password c).0 ≡ ok u) ↔ IsAdmitted (view c) email password u
  unfolding authenticate
  authenticate_iff email password c u h = (
    (λ e.
        let (found, hash, s, p, v) = outcome-eq-ok _ email password c e in
        let (m, k) = env.scalar-some _ (view c).users u found in
        record {
          here = m;
          addressed = (eq_iff u.email email).0 k;
          hash = hash;
          stored = s;
          passes = p;
          confirmed = v;
        }),
    (λ a.
        rw (find_address email (view c) u h a.here a.addressed)
          (check_admitted u email password a.hash c a.stored a.passes a.confirmed)),
  )

  outcome-cases :
      (found : Option User) (email password : String) (c : Conn)
      → ((u : User) × ((login_outcome email password (credentials found) c).0 ≡ ok u))
        ⊎ ((login_outcome email password (credentials found) c).0 ≡ raised wrong_credentials)
        ⊎ (((login_outcome email password (credentials found) c).0 ≡ raised value_error)
            × (ltb 72 (len password) ≡ true))
        ⊎ (((login_outcome email password (credentials found) c).0 ≡ raised not_verified)
            × (u : User) × (found ≡ some u)
            × (hash : String) × (u.password_hash ≡ some hash)
            × (env.checkpw password hash ≡ true))
  unfolding login_outcome check_password verify_password
  outcome-cases none email password c = inr (inl refl)
  outcome-cases (some u) email password c = elim (Option-cases u.password_hash) [
    | inl n ↦ inr (inl (ground arith))
    | inr (hash, e) ↦ elim (Bool-cases (ltb 72 (len password))) [
      | inl o ↦ inr (inr (inl (rw (e, o) refl, o)))
      | inr o ↦ elim (Bool-cases (env.checkpw password hash)) [
        | inl k ↦ elim (Bool-cases u.is_email_verified) [
          | inl v ↦ inl (u, rw (e, o, k, v) refl)
          | inr v ↦ inr (inr (inr (rw (e, o, k, v) refl, u, refl, hash, e, k)))
        ]
        | inr k ↦ inr (inl (rw (e, o, k) refl))
      ]
    ]
  ]

  outcome_db :
      (found : Option User) (email password : String) (c : Conn)
      → (login_outcome email password (credentials found) c).1.db ≡ c.db
  unfolding login_outcome check_password verify_password
  outcome_db none email password c = refl
  outcome_db (some u) email password c = ground arith

  -- A refused login says that the credentials are wrong, or that the address is not verified and
  -- then the password was right, or bcrypt refused a password of more than 72 bytes; no login changes the committed rows.
  pub authenticate-cases :
      (email password : String) (c : Conn)
      → (((u : User) × ((authenticate email password c).0 ≡ ok u))
          ⊎ ((authenticate email password c).0 ≡ raised wrong_credentials)
          ⊎ (((authenticate email password c).0 ≡ raised value_error)
              × (ltb 72 (len password) ≡ true))
          ⊎ (((authenticate email password c).0 ≡ raised not_verified)
              × (u : User) × Has u (view c).users
              × (u.email ≡ email)
              × (hash : String) × (u.password_hash ≡ some hash)
              × (env.checkpw password hash ≡ true)))
        × ((authenticate email password c).1.db ≡ c.db)
  unfolding authenticate
  authenticate-cases email password c =
      let p : User → Bool = λ v. str_eq v.email email in
      (
        elim (outcome-cases (env.scalar p (view c).users) email password c) [
          | inl a ↦ inl a
          | inr (inl e) ↦ inr (inl e)
          | inr (inr (inl e)) ↦ inr (inr (inl e))
          | inr (inr (inr (e, u, found, hash, s, k))) ↦
              let (m, q) = env.scalar-some p (view c).users u found in
              inr (inr (inr (e, u, m, (eq_iff u.email email).0 q, hash, s, k)))
        ],
        outcome_db (env.scalar p (view c).users) email password c,
      )
