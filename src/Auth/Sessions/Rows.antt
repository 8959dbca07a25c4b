-- ===== src/Auth/Sessions/Rows.antt =====
-- What the changes of the rows mean to the sessions.
use text.Mathlib.Text.{◌==◌ as str_eq}
use text.Mathlib.TextEquality.{eq_iff}
use mathlib.Core.Path.{fun_ext}
use hotspot_payment_gateway.Base.{
  ℕ, String, ◌≡◌, refl, ap, ◌∙◌, Bool, true, false, not, ◌&&◌, none, some, List, [], ◌∷◌, ◌++◌, Has,
  any, find, update_where, ◌==◌, ==_iff, Bool-cases, inl, inr, distinct, distinct-append_last,
  arith,
}
use hotspot_payment_gateway.Auth.Models.{RefreshToken, Tables, consistent, same_refresh_hash}
use hotspot_payment_gateway.Auth.Models.Constraints.{
  consistent→IsConsistent, refresh-eq_of_id, refresh-eq_of_hash,
}
use hotspot_payment_gateway.Auth.Refresh.{revoked, revoke_by_id, revoke_by_hash, revoke_by_user}
use hotspot_payment_gateway.Auth.Sessions.{
  opens, session_of, sessions, opened, closed, unless_of, closed_user,
}

-- A row that is revoked opens nothing.
find-revoked :
    (h : String) (p : RefreshToken → Bool) (rows : List RefreshToken)
    → find (opens h) (update_where p revoked rows) ≡ find (λ r. opens h r && not (p r)) rows
find-revoked h p [] = refl
find-revoked h p (r ∷ rows) = elim (Bool-cases (p r)) [
  | inl y ↦ rw y (ground (arith, find-revoked h p rows))
  | inr n ↦ rw n (ground (arith, find-revoked h p rows))
]

find_nothing :
    (p : RefreshToken → Bool) (rows : List RefreshToken)
    → ((r : RefreshToken) → p r ≡ false)
    → find p rows ≡ none
find_nothing p [] h = refl
find_nothing p (r ∷ rows) h = rw (h r) (find_nothing p rows h)

pub sessions-revoke_by_hash :
    (h : String) (t : Tables) (other : String)
    → sessions (revoke_by_hash h t) other ≡ closed h (sessions t) other
unfolding sessions
sessions-revoke_by_hash h t other =
    ap session_of (find-revoked other (λ r. str_eq r.token_hash h) t.refresh_tokens)
    ∙ elim (Bool-cases (str_eq h other)) [
      | inl y ↦ rw y (
          ap session_of (
            find_nothing (λ r. opens other r && not (str_eq r.token_hash h)) t.refresh_tokens
              (λ r.
                ground (arith, eq_iff r.token_hash h, eq_iff r.token_hash other, eq_iff h other))))
      | inr n ↦ rw n (
          ap (λ p. session_of (find p t.refresh_tokens))
            (fun_ext (λ r.
              ground (arith, eq_iff r.token_hash h, eq_iff r.token_hash other, eq_iff h other))))
    ]

-- Where no row has the hash, a test for it finds nothing.
find_absent :
    (h : String) (p : RefreshToken → Bool) (rows : List RefreshToken)
    → ((r : RefreshToken) → p r ≡ true → str_eq r.token_hash h ≡ true)
    → any (λ (s : RefreshToken). str_eq h s.token_hash) rows ≡ false
    → find p rows ≡ none
find_absent h p [] for_hash u = refl
find_absent h p (r ∷ rows) for_hash u = elim (Bool-cases (p r)) [
  | inl y ↦ ground (arith, for_hash r y, eq_iff r.token_hash h, eq_iff h r.token_hash)
  | inr n ↦ rw n (find_absent h p rows for_hash (ground arith))
]

find-unless_of :
    (h : String) (id : ℕ) (rows : List RefreshToken)
    → distinct same_refresh_hash rows ≡ true
    → session_of (find (λ r. opens h r && not (r.user_id == id)) rows)
      ≡ unless_of id (session_of (find (opens h) rows))
find-unless_of h id [] u = refl
find-unless_of h id (r ∷ rows) u = elim (Bool-cases (opens h r)) [
  | inl y ↦ elim (Bool-cases (r.user_id == id)) [
    | inl own ↦
        rw (y, own)
          (ap session_of (
            find_absent r.token_hash (λ s. opens h s && not (s.user_id == id)) rows
              (λ s k. ground (
                arith,
                eq_iff s.token_hash h,
                eq_iff r.token_hash h,
                eq_iff s.token_hash r.token_hash,
              ))
              (ground arith)))
    | inr other ↦ rw (y, other) refl
  ]
  | inr n ↦ rw n (find-unless_of h id rows (ground arith))
]

pub sessions-revoke_by_user :
    (id : ℕ) (t : Tables)
    → consistent t ≡ true
    → (h : String) → sessions (revoke_by_user id t) h ≡ closed_user id (sessions t) h
unfolding sessions
sessions-revoke_by_user id t c h =
    ap session_of (find-revoked h (λ r. r.user_id == id) t.refresh_tokens)
    ∙ find-unless_of h id t.refresh_tokens (consistent→IsConsistent t c).refresh_hashes

update_where_congr :
    (p q : RefreshToken → Bool) (rows : List RefreshToken)
    → ((r : RefreshToken) → Has r rows → p r ≡ q r)
    → update_where p revoked rows ≡ update_where q revoked rows
update_where_congr p q [] h = refl
update_where_congr p q (r ∷ rows) h =
    rw (h r (inl refl), update_where_congr p q rows (λ s m. h s (inr m))) refl

-- Among consistent rows a row is revoked by its identifier or by its hash alike.
revoke_by_id-hash :
    (old : RefreshToken) (t : Tables)
    → consistent t ≡ true
    → Has old t.refresh_tokens
    → revoke_by_id old.id t ≡ revoke_by_hash old.token_hash t
revoke_by_id-hash old t c m =
    ap (λ rows. record t { refresh_tokens = rows })
      (update_where_congr (λ r. r.id == old.id) (λ r. str_eq r.token_hash old.token_hash)
        t.refresh_tokens
        (λ r k. elim (Bool-cases (r.id == old.id)) [
          | inl y ↦
              rw
                (
                  refresh-eq_of_id t c r old k m ((==_iff r.id old.id).0 y),
                  (==_iff old.id old.id).1 refl,
                  (eq_iff old.token_hash old.token_hash).1 refl,
                )
                refl
          | inr n ↦ elim (Bool-cases (str_eq r.token_hash old.token_hash)) [
            | inl y ↦
                let e : r ≡ old =
                  refresh-eq_of_hash t c r old k m ((eq_iff r.token_hash old.token_hash).0 y) in
                absurd (cc (n, (==_iff r.id old.id).1 (ap (λ (s : RefreshToken). s.id) e)))
            | inr o ↦ rw (n, o) refl
          ]
        ]))

pub sessions-revoke_by_id :
    (old : RefreshToken) (t : Tables)
    → consistent t ≡ true
    → Has old t.refresh_tokens
    → (h : String) → sessions (revoke_by_id old.id t) h ≡ closed old.token_hash (sessions t) h
sessions-revoke_by_id old t c m h =
    ap (λ u. sessions u h) (revoke_by_id-hash old t c m)
    ∙ sessions-revoke_by_hash old.token_hash t h

find-append_last :
    (p : RefreshToken → Bool) (rows : List RefreshToken) (new : RefreshToken)
    → p new ≡ false
    → find p (rows ++ new ∷ []) ≡ find p rows
find-append_last p [] new h = rw h refl
find-append_last p (r ∷ rows) new h = rw (find-append_last p rows new h) refl

find_new :
    (p : RefreshToken → Bool) (rows : List RefreshToken) (new : RefreshToken)
    → find p rows ≡ none
    → p new ≡ true
    → find p (rows ++ new ∷ []) ≡ some new
find_new p [] new n h = rw h refl
find_new p (r ∷ rows) new n h = ground (arith, find_new p rows new)

any_flip :
    (h : String) (rows : List RefreshToken)
    → any (λ (s : RefreshToken). str_eq h s.token_hash) rows
      ≡ any (λ (s : RefreshToken). str_eq s.token_hash h) rows
any_flip h [] = refl
any_flip h (r ∷ rows) =
    ground (arith, any_flip h rows, eq_iff h r.token_hash, eq_iff r.token_hash h)

-- A new row that no constraint refuses opens its session.
pub sessions-append :
    (t : Tables) (new : RefreshToken)
    → new.is_revoked ≡ false
    → consistent (record t { refresh_tokens = t.refresh_tokens ++ new ∷ [] }) ≡ true
    → (h : String)
    → sessions (record t { refresh_tokens = t.refresh_tokens ++ new ∷ [] }) h
      ≡ opened new.token_hash
          (record { user_id = new.user_id; expires_at = new.expires_at })
          (sessions t)
          h
unfolding sessions
sessions-append t new active c h = elim (Bool-cases (str_eq new.token_hash h)) [
  | inl y ↦ rw y (
      ap session_of (
        find_new (opens h) t.refresh_tokens new
          (find_absent h (opens h) t.refresh_tokens (λ r k. ground arith) (absent h y))
          (ground arith)))
  | inr n ↦ rw n (ap session_of (find-append_last (opens h) t.refresh_tokens new (ground arith)))
]
  where
    absent :
        (h : String)
        → str_eq new.token_hash h ≡ true
        → any (λ (s : RefreshToken). str_eq h s.token_hash) t.refresh_tokens ≡ false
    absent h y = rw (← (eq_iff new.token_hash h).0 y) (
        any_flip new.token_hash t.refresh_tokens
        ∙ ground (
          arith,
          distinct-append_last same_refresh_hash new t.refresh_tokens,
          (consistent→IsConsistent _ c).refresh_hashes,
        ))
