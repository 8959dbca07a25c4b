-- ===== src/Auth/Accounts/Later.antt =====
-- A second signup with an address, and a login before the address is verified.
use Prim.Native.String.{len}
use text.Mathlib.TextEquality.{eq_iff}
use hotspot_payment_gateway.Base.{
  ltb, ℕ, ◌≡◌, refl, sym, ap, ◌∙◌, true, false, Has, Has-append_last, any_of_Has, Bool-cases, inl,
  inr,
}
use hotspot_payment_gateway.Runtime.{Env}
use hotspot_payment_gateway.Auth.Models.{User, same_email, consistent}
use hotspot_payment_gateway.Auth.Models.NewAccount.{fresh_email_of_consistent}
use hotspot_payment_gateway.Auth.Schemas.{SignupRequest}
use hotspot_payment_gateway.Auth.Session.{Conn, with_session, ok, raised}
use hotspot_payment_gateway.Auth.Accounts.{create_user, authenticate, login_outcome, check_password}
use hotspot_payment_gateway.Auth.Accounts.Login.{not_verified, find_address}
use hotspot_payment_gateway.Core.Security.{verify_password}
use hotspot_payment_gateway.Auth.Accounts.Signup.{
  email_taken, new_user, new_provider, IsStorable, registered, refused, created_of_consistent,
  create_user-IsStorable,
}

module _ ⦃env : Env⦄ where
  -- The login with the right password, of a user who is not verified.
  unverified_login :
      (signup : SignupRequest) (n : ℕ) (c : Conn)
      → ltb 72 (len signup.password) ≡ false
      → consistent c.db ≡ true
      → Has (new_user signup n) c.db.users
      → (with_session (authenticate signup.email signup.password) c).0 ≡ raised not_verified
  unfolding with_session authenticate login_outcome check_password verify_password
  unverified_login signup n c o h m =
      rw
        (
          find_address signup.email c.db (new_user signup n) h m refl,
          o,
          env.checkpw-hashpw signup.password (env.gensalt n) o,
        )
        refl

  -- A signup with the address of a stored user raises the conflict error and changes no row.
  pub create_user-conflict :
      (signup : SignupRequest) (c : Conn) (v : User)
      → IsStorable signup c.draws
      → Has v c.db.users
      → v.email ≡ signup.email
      → ((with_session (create_user signup) c).0 ≡ raised email_taken)
        × ((with_session (create_user signup) c).1.db ≡ c.db)
  create_user-conflict signup c v o m e = elim (Bool-cases (consistent (registered signup c))) [
    | inl h ↦
        let f = fresh_email_of_consistent c.db (new_user signup c.draws) (new_provider c.draws) h in
        let t =
          any_of_Has (λ w. same_email w (new_user signup c.draws)) v c.db.users m
            ((eq_iff v.email signup.email).1 e) in
        absurd (cc (f, t))
    | inr h ↦ refused signup c o h
  ]

  -- Right after a signup that succeeded, the login with its own address and password is refused as
  -- not verified.
  pub create_user-authenticate :
      (signup : SignupRequest) (c : Conn) {u : User} {c' : Conn}
      → with_session (create_user signup) c ≡ (ok u, c')
      → (with_session (authenticate signup.email signup.password) c').0 ≡ raised not_verified
  create_user-authenticate signup c {u} {c'} h =
      let o = create_user-IsStorable signup c h in
      elim (Bool-cases (consistent (registered signup c))) [
        | inl k ↦
            let (a, b) = created_of_consistent signup c o k in
            let e : c'.db ≡ registered signup c = sym (ap (λ p. p.1.db) h) ∙ b in
            unverified_login signup c.draws c' o.short (rw e k)
              (rw e (Has-append_last (new_user signup c.draws) c.db.users))
        | inr k ↦ absurd (cc (h, (refused signup c o k).0))
      ]
