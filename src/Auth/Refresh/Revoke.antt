-- ===== src/Auth/Refresh/Revoke.antt =====
-- `revoke_refresh_token`: it always succeeds, and ends one session.
use text.Mathlib.Text.{◌==◌ as str_eq}
use text.Mathlib.TextEquality.{eq_iff}
use hotspot_payment_gateway.Base.{
  String, ◌≡◌, ◌≢◌, refl, ap, ◌∙◌, true, false, Has, Has-kept, Bool-cases, inl, inr, map-map_idem,
  updated_cases, Option-cases, if◌then◌else◌, arith,
}
use hotspot_payment_gateway.Runtime.{Env}
use hotspot_payment_gateway.Auth.Models.{RefreshToken, Tables, consistent}
use hotspot_payment_gateway.Auth.Models.Preserve.{KeepsRefresh, consistent-map_refresh}
use hotspot_payment_gateway.Auth.Session.{opened, Conn, view, ok, raised, commit, with_session}
use hotspot_payment_gateway.Auth.Tokens.{hash_refresh_token}
use hotspot_payment_gateway.Auth.Refresh.{
  revoked, revoke_by_hash, revoke_refresh_token, verify_refresh_token, check_refresh_token,
}
use hotspot_payment_gateway.Auth.Refresh.Validity.{refused}

revoke_hash : String → RefreshToken → RefreshToken
revoke_hash h r = if str_eq r.token_hash h then revoked r else r

revoke_hash-KeepsRefresh : (h : String) → KeepsRefresh (revoke_hash h)
unfolding revoke_hash
revoke_hash-KeepsRefresh h = record {
  ids = λ r. ground arith;
  hashes = λ r. ground arith;
  owners = λ r. ground arith;
}

pub consistent-revoke_by_hash :
    (h : String) (t : Tables) → consistent (revoke_by_hash h t) ≡ consistent t
unfolding revoke_hash
consistent-revoke_by_hash h t =
    consistent-map_refresh (revoke_hash h) t (revoke_hash-KeepsRefresh h)

revoke-revoke :
    (h : String) (t : Tables) → revoke_by_hash h (revoke_by_hash h t) ≡ revoke_by_hash h t
unfolding revoke_hash
revoke-revoke h t =
    ap (λ rows. record t { refresh_tokens = rows })
      (map-map_idem (revoke_hash h)
        (λ r. elim (Bool-cases (str_eq r.token_hash h)) [
          | inl y ↦ rw (y, y) refl
          | inr y ↦ rw (y, y) refl
        ])
        t.refresh_tokens)

other_text : {s t : String} → s ≢ t → str_eq s t ≡ false
other_text {s} {t} h = elim (Bool-cases (str_eq s t)) [
  | inl y ↦ absurd (h ((eq_iff s t).0 y))
  | inr y ↦ y
]

module _ ⦃env : Env⦄ where
  -- Among consistent rows the commit of a revocation goes through.
  pub revoke-eq :
      (raw : String) (c : Conn)
      → consistent c.db ≡ true
      → with_session (revoke_refresh_token raw) c
        ≡ (ok tt, opened (record c { db = revoke_by_hash (hash_refresh_token raw) c.db }))
  unfolding with_session revoke_refresh_token commit
  revoke-eq raw c h = rw (consistent-revoke_by_hash (hash_refresh_token raw) c.db, h) refl

  verify_revoked_hash :
      (raw : String) (t : Tables) (d : Conn)
      → view d ≡ revoke_by_hash (hash_refresh_token raw) t
      → verify_refresh_token raw d ≡ (raised refused, d)
  unfolding verify_refresh_token check_refresh_token
  verify_revoked_hash raw t d e =
      elim (Option-cases
        (env.scalar (λ r. str_eq r.token_hash (hash_refresh_token raw)) (view d).refresh_tokens)) [
          | inl n ↦ rw n refl
          | inr (row, f) ↦
              let (m, k) =
                env.scalar-some (λ r. str_eq r.token_hash (hash_refresh_token raw))
                  (view d).refresh_tokens row f in
              elim (updated_cases (λ r. str_eq r.token_hash (hash_refresh_token raw)) revoked
                t.refresh_tokens row (rw e at m)) [
                  | inl (s, n, y, q) ↦
                      let off : row.is_revoked ≡ true = rw q refl in rw (f, off) refl
                  | inr (n, y) ↦ absurd (cc (k, y))
                ]
        ]

  -- On consistent rows revoke_refresh_token succeeds for every text; afterwards the token is
  -- refused, other tokens stay, and a second revocation changes nothing.
  pub revoke-verify :
      (raw : String) (c : Conn)
      → consistent c.db ≡ true
      → let (r, c') = with_session (revoke_refresh_token raw) c in
        (r ≡ ok tt)
        × ((d : Conn) → view d ≡ c'.db → verify_refresh_token raw d ≡ (raised refused, d))
        × ((row : RefreshToken)
            → Has row c.db.refresh_tokens
            → row.token_hash ≢ hash_refresh_token raw
            → Has row c'.db.refresh_tokens)
        × (with_session (revoke_refresh_token raw) c' ≡ (ok tt, c'))
  revoke-verify raw c h = rw (revoke-eq raw c h) (
    refl,
    (λ d e. verify_revoked_hash raw c.db d e),
    (λ row m n.
        Has-kept (λ r. str_eq r.token_hash (hash_refresh_token raw)) revoked c.db.refresh_tokens row
          m (other_text n)),
    (revoke-eq raw (opened (record c { db = revoke_by_hash (hash_refresh_token raw) c.db }))
          (consistent-revoke_by_hash (hash_refresh_token raw) c.db ∙ h)
        ∙ ap (λ t. (ok tt, opened (record c { db = t })))
            (revoke-revoke (hash_refresh_token raw) c.db)),
  )
