-- ===== src/Auth/Dependencies/Current.antt =====
-- `get_current_user`: the bearer token of a user gives the user, and every failure is the same 401.
use text.Mathlib.Text.{◌==◌ as str_eq}
use text.Mathlib.TextEquality.{eq_iff}
use hotspot_payment_gateway.Base.{
  ◌+◌, ◌≤◌, ◌==◌, ==_iff, String, ◌≡◌, refl, sym, ap, ◌∙◌, true, Option, none, some, Option-cases,
  Bool-cases, Has, ◌⊎◌, inl, inr, arith,
}
use hotspot_payment_gateway.Runtime.{Env, Claims, micros_per_second}
use hotspot_payment_gateway.Runtime.Lookup.{scalar-eq}
use hotspot_payment_gateway.Auth.Models.{User, consistent}
use hotspot_payment_gateway.Auth.Models.Constraints.{user-eq_of_id}
use hotspot_payment_gateway.Auth.Session.{Conn, view, ok, raised}
use hotspot_payment_gateway.Auth.Accounts.{get_user}
use hotspot_payment_gateway.Auth.Tokens.{access_claims, encode_access_token, decode_access_token}
use hotspot_payment_gateway.Auth.Tokens.Access.{lifetime, encode-decode, decode_access_token-cases}
use hotspot_payment_gateway.Auth.Dependencies.{
  unauthorized, subject, user_of_payload, get_current_user,
}

module _ ⦃env : Env⦄ where
  decode_state :
      (token : env.Jwt) (d : Conn)
      → (decode_access_token token d).1 ≡ record d { draws = d.draws + 1 }
  unfolding decode_access_token
  decode_state token d = ground arith

  payload_cases :
      (payload : Claims) (d : Conn)
      → ((u : User) × ((user_of_payload (ok payload) d).0 ≡ ok u)
          × Has u (view d).users
          × (subject payload ≡ some u.id))
        ⊎ ((user_of_payload (ok payload) d).0 ≡ raised unauthorized)
  unfolding user_of_payload get_user
  payload_cases payload d = elim (Option-cases (subject payload)) [
    | inl n ↦ inr (rw n refl)
    | inr (id, e) ↦ elim (Option-cases (env.scalar (λ (u : User). u.id == id) (view d).users)) [
      | inl n ↦ inr (rw (e, n) refl)
      | inr (u, f) ↦
          let (m, k) = env.scalar-some (λ (v : User). v.id == id) (view d).users u f in
          inl (u, rw (e, f) refl, m, e ∙ ap some (sym ((==_iff u.id id).0 k)))
    ]
  ]

  -- get_current_user returns a stored user or raises the one 401, whatever is wrong with the
  -- header, the token, the subject or the user.
  pub get_current_user-cases :
      (creds : Option (String × env.Jwt)) (d : Conn)
      → ((u : User) × ((get_current_user creds d).0 ≡ ok u) × Has u (view d).users)
        ⊎ ((get_current_user creds d).0 ≡ raised unauthorized)
  unfolding get_current_user user_of_payload
  get_current_user-cases none d = inr refl
  get_current_user-cases (some (scheme, token)) d =
      elim (Bool-cases (str_eq (env.lower scheme) "bearer")) [
        | inr b ↦ inr (rw b refl)
        | inl b ↦ elim (decode_access_token-cases token d) [
          | inl (payload, e, t, x) ↦
              rw (b, decode_state token d, e)
                (elim (payload_cases payload (record d { draws = d.draws + 1 })) [
                  | inl (u, k, m, n) ↦ inl (u, k, m)
                  | inr k ↦ inr k
                ])
          | inr e ↦ rw (b, decode_state token d, e) (inr refl)
        ]
      ]

  -- On consistent rows the access token of a stored user, in a bearer header, lets later requests
  -- in as that user, until one second before its lifetime is over.
  pub encode-get_current_user :
      (u : User) (scheme : String) (c d : Conn) {token : env.Jwt} {c' : Conn}
      → encode_access_token u.id none c ≡ (ok token, c')
      → c.draws ≤ d.draws
      → env.now d.draws + micros_per_second ≤ env.now c.draws + lifetime none
      → env.lower scheme ≡ "bearer"
      → consistent (view d) ≡ true
      → Has u (view d).users
      → (get_current_user (some (scheme, token)) d).0 ≡ ok u
  unfolding get_current_user user_of_payload get_user access_claims
  encode-get_current_user u scheme c d {token} h m t b k n =
      let e = encode-decode u.id none c d h m t in
      let found =
        scalar-eq (λ v. v.id == u.id) (view d).users u n ((==_iff u.id u.id).1 refl)
          (λ v l q. user-eq_of_id (view d) k v u l n ((==_iff v.id u.id).0 q)) in
      rw
        (
          (eq_iff (env.lower scheme) "bearer").1 b,
          decode_state token d,
          e,
          env.parse_uuid-uuid_str u.id,
          found,
        )
        refl
