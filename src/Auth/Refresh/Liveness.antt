-- ===== src/Auth/Refresh/Liveness.antt =====
-- A live token can be rotated, and what it is rotated into stays good for its lifetime.
use text.Mathlib.Text.{◌==◌ as str_eq}
use hotspot_payment_gateway.Base.{
  ℕ, String, ◌≡◌, refl, sym, ap, ◌∙◌, true, false, some, ◌+◌, ◌≤◌, ◌==◌, ==_iff, Has,
  Has-append_last, inl, inr, any, any→Has, any-map, any_of_Has, all→Has, update_where,
  if◌then◌else◌, arith,
}
use hotspot_payment_gateway.Runtime.{Env}
use hotspot_payment_gateway.Runtime.Lookup.{scalar-eq}
use hotspot_payment_gateway.Auth.Models.{
  User, RefreshToken, Tables, has_user, same_refresh_id, same_refresh_hash, consistent,
}
use hotspot_payment_gateway.Auth.Models.Constraints.{consistent→IsConsistent, user-eq_of_id}
use hotspot_payment_gateway.Auth.Models.Preserve.{
  IsNewRefresh, consistent-with_refresh, KeepsRefresh, map_refresh, consistent-map_refresh,
}
use hotspot_payment_gateway.Auth.Session.{opened, Conn, view, ok, commit, with_session}
use hotspot_payment_gateway.Auth.Session.Steps.{with_session-eq}
use hotspot_payment_gateway.Auth.Times.{days}
use hotspot_payment_gateway.Auth.Tokens.{hash_refresh_token}
use hotspot_payment_gateway.Auth.Accounts.{get_user}
use hotspot_payment_gateway.Auth.Refresh.{
  revoked, rotate_refresh_token, verify_refresh_token, replace_token,
}
use hotspot_payment_gateway.Auth.Refresh.Validity.{
  instant, IsLive, verify_refresh_token_iff, verify-eq-ok,
}
use hotspot_payment_gateway.Auth.Refresh.Rotation.{rotated, built, rotate-eq-ok}

revoke_one : RefreshToken → RefreshToken → RefreshToken
revoke_one old r = if r.id == old.id then revoked r else r

revoke_one-KeepsRefresh : (old : RefreshToken) → KeepsRefresh (revoke_one old)
unfolding revoke_one
revoke_one-KeepsRefresh old = record {
  ids = λ r. ground arith;
  hashes = λ r. ground arith;
  owners = λ r. ground arith;
}

-- Replacing one token by a new one keeps the constraints.
pub consistent-rotated :
    (old new : RefreshToken) (t : Tables)
    → consistent t ≡ true
    → IsNewRefresh t new
    → consistent (rotated old new t) ≡ true
unfolding revoke_one
consistent-rotated old new t h n =
    let k = revoke_one-KeepsRefresh old in
    let u = map_refresh (revoke_one old) t in
    consistent-with_refresh u new (consistent-map_refresh (revoke_one old) t k ∙ h) (record {
      fresh_id =
          any-map (λ s. same_refresh_id s new) (revoke_one old) (λ a. rw (k.ids a) refl)
            t.refresh_tokens
          ∙ n.fresh_id;
      fresh_hash =
          any-map (λ s. same_refresh_hash s new) (revoke_one old) (λ a. rw (k.hashes a) refl)
            t.refresh_tokens
          ∙ n.fresh_hash;
      owned = n.owned;
    })

-- The owner of a token is there.
pub owner_of :
    (t : Tables) (r : RefreshToken)
    → consistent t ≡ true
    → Has r t.refresh_tokens
    → (u : User) × Has u t.users × (u.id ≡ r.user_id)
owner_of t r h m =
    let i = consistent→IsConsistent t h in
    let k =
      all→Has (λ (s : RefreshToken). has_user t s.user_id) r t.refresh_tokens i.refresh_owners m in
    let (u, n, e) = any→Has (λ (v : User). v.id == r.user_id) t.users k in
    (u, n, (==_iff u.id r.user_id).0 e)

module _ ⦃env : Env⦄ where
  pub find_user :
      (t : Tables) (id : ℕ) (u : User)
      → consistent t ≡ true
      → Has u t.users
      → u.id ≡ id
      → env.scalar (λ v. v.id == id) t.users ≡ some u
  find_user t id u h m e =
      scalar-eq (λ v. v.id == id) t.users u m ((==_iff u.id id).1 e)
        λ v n k. user-eq_of_id t h v u n m ((==_iff v.id id).0 k ∙ sym e)

  -- The random text and the identifier that the next rotation draws are not in use.
  pub record CanIssue (t : Tables) (n : ℕ) : Type 0 where
    pub fresh_id :
        any (λ (s : RefreshToken). s.id == env.uuid7 (n + 1 + 1)) t.refresh_tokens ≡ false
    pub fresh_hash :
        any
          (λ (s : RefreshToken). str_eq s.token_hash (hash_refresh_token (env.token_urlsafe 64 n)))
          t.refresh_tokens
        ≡ false

  rotate_found :
      (raw : String) (c : Conn) (old : RefreshToken) (user : User)
      → verify_refresh_token raw (opened c) ≡ (ok old, opened (record c { draws = c.draws + 1 }))
      → env.scalar (λ v. v.id == old.user_id) c.db.users ≡ some user
      → consistent (rotated old (built user.id (c.draws + 1)) c.db) ≡ true
      → (granted : env.Jwt × String × User) × ((with_session (rotate_refresh_token raw) c).0
          ≡ ok granted)
  unfolding with_session rotate_refresh_token replace_token commit get_user hash_refresh_token
  rotate_found raw c old user v f k = rw (v, f, k) (_, refl)

  -- On consistent rows a live refresh token can always be rotated, where the drawn text and
  -- identifier are fresh: its user exists and the commit goes through.
  pub rotate-IsLive :
      (raw : String) (c : Conn) (old : RefreshToken)
      → consistent c.db ≡ true
      → IsLive c.db raw c.draws old
      → CanIssue c.db (c.draws + 1)
      → (granted : env.Jwt × String × User) × ((with_session (rotate_refresh_token raw) c).0
          ≡ ok granted)
  rotate-IsLive raw c old h l f =
      let (user, m, e) = owner_of c.db old h l.here in
      let v = (verify_refresh_token_iff raw (opened c) old h).1 l in
      let (again, same) =
        verify-eq-ok raw (opened c) (λ i. (v i, (verify_refresh_token raw (opened c)).1)) in
      rotate_found raw c old user (λ i. (v i, same i)) (find_user c.db old.user_id user h m e)
        (consistent-rotated old (built user.id (c.draws + 1)) c.db h (record {
          fresh_id = f.fresh_id;
          fresh_hash = f.fresh_hash;
          owned =
              any_of_Has (λ (w : User). w.id == user.id) user c.db.users m
                ((==_iff user.id user.id).1 refl);
        }))

  pub instant-stored : (t : ℕ) → instant (env.stored t) ≡ t
  instant-stored t = elim (env.stored_cases t) [ inl e ↦ rw e refl | inr e ↦ rw e refl ]

  -- After a rotation that succeeded, verify_refresh_token accepts the new token, as one of its
  -- user, at every state that has those rows and whose clock has not passed the end of the
  -- lifetime.
  pub rotate-verify :
      (raw : String) (c : Conn) {access : env.Jwt} {new_raw : String} {user : User} {c' : Conn}
      → with_session (rotate_refresh_token raw) c ≡ (ok (access, new_raw, user), c')
      → (d : Conn) → view d ≡ c'.db
      → env.now d.draws ≤ env.now (c.draws + 1 + 1) + days env.settings.refresh_token_ttl_days
      → (row : RefreshToken) × ((verify_refresh_token new_raw d).0 ≡ ok row)
        × (row.user_id ≡ user.id)
  rotate-verify raw c {access} {new_raw} {user} h d e u =
      let (c₁, run, closed) = with_session-eq (rotate_refresh_token raw) c h in
      let (old, live, m, o, done) = rotate-eq-ok raw c run in
      let row = built user.id (c.draws + 1) in
      let same : view d ≡ c₁.db = e ∙ ap (λ x. x.db) closed in
      (
        row,
        (verify_refresh_token_iff new_raw d row (rw same done.valid)).1 (record {
          here =
              rw (same, done.db)
                (Has-append_last row
                  (update_where (λ r. r.id == old.id) revoked c.db.refresh_tokens));
          hashed = done.hashed;
          active = done.active;
          unexpired =
              rw
                (instant-stored
                  (env.now (c.draws + 1 + 1) + days env.settings.refresh_token_ttl_days))
                u;
        }),
        done.owner,
      )
