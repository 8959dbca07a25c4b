-- ===== src/Auth/Sessions/Overtaken.antt =====
-- A revocation that is overtaken by a rotation of the same token.
use text.Mathlib.Text.{◌==◌ as str_eq}
use hotspot_payment_gateway.Base.{
  ◌+◌, String, ◌≡◌, refl, sym, ap, ◌∙◌, true, false, none, some, any-map, Has-updated,
  if◌then◌else◌, arith,
}
use text.Mathlib.TextEquality.{eq_iff}
use hotspot_payment_gateway.Runtime.{Env}
use hotspot_payment_gateway.Auth.Models.{
  User, RefreshToken, Tables, same_refresh_id, same_refresh_hash, consistent,
}
use hotspot_payment_gateway.Auth.Models.Preserve.{IsNewRefresh}
use hotspot_payment_gateway.Auth.Session.{
  M, Conn, Result, ok, raised, pure, commit, with_session, continue, view, ◌>>=◌, ◌>>◌, or_raise,
  unchanged,
}
use hotspot_payment_gateway.Auth.Session
use hotspot_payment_gateway.Auth.Tokens.{hash_refresh_token}
use hotspot_payment_gateway.Auth.Refresh.{
  revoked, revoke_by_hash, read_rotation, revoke_refresh_token,
}
use hotspot_payment_gateway.Auth.Refresh.Validity.{IsLive}
use hotspot_payment_gateway.Auth.Refresh.Rotation.{built}
use hotspot_payment_gateway.Auth.Refresh.Revoke.{revoke-eq, consistent-revoke_by_hash}
use hotspot_payment_gateway.Auth.Refresh.Liveness.{CanIssue}
use hotspot_payment_gateway.Auth.Sessions.{sessions, opened, closed}
use hotspot_payment_gateway.Auth.Sessions.Refines.{expiry}
use hotspot_payment_gateway.Auth.Sessions
use hotspot_payment_gateway.Auth.Sessions.Race.{
  opened_here, bind_ok, rotate_around, read-eq, other_hash, write_after, IsNewRefresh-built,
}

opened-closed :
    (h o k : String) (s : Sessions.Session) (all : Sessions.Sessions)
    → str_eq h k ≡ false
    → o ≡ k
    → opened h s (closed o all) k ≡ none
opened-closed h o k s all n e = rw (n, (eq_iff o k).1 e) refl

revoke_hash : String → RefreshToken → RefreshToken
revoke_hash h r = if str_eq r.token_hash h then revoked r else r

revoke_hash_keys :
    (h : String) (r : RefreshToken)
    → ((revoke_hash h r).id ≡ r.id) × ((revoke_hash h r).token_hash ≡ r.token_hash)
unfolding revoke_hash
revoke_hash_keys h r = ground arith

-- What is new among the rows is so after a revocation.
new-revoked :
    (h : String) (t : Tables) (new : RefreshToken)
    → IsNewRefresh t new
    → IsNewRefresh (revoke_by_hash h t) new
unfolding revoke_hash
new-revoked h t new n = record {
  fresh_id =
      any-map (λ s. same_refresh_id s new) (revoke_hash h) (λ r. rw (revoke_hash_keys h r).0 refl)
        t.refresh_tokens
      ∙ n.fresh_id;
  fresh_hash =
      any-map (λ s. same_refresh_hash s new) (revoke_hash h) (λ r. rw (revoke_hash_keys h r).1 refl)
        t.refresh_tokens
      ∙ n.fresh_hash;
  owned = n.owned;
}

module _ ⦃env : Env⦄ where
  -- On consistent rows, where the drawn text and identifier are fresh, a rotation of a live token
  -- whose reads precede a revocation of that token and whose writes follow it succeeds: the old
  -- session is closed, and a new one of the same user is open after the revocation.
  pub rotate_around-revoke :
      (raw : String) (c : Conn) (old : RefreshToken)
      → consistent c.db ≡ true
      → IsLive c.db raw c.draws old
      → CanIssue c.db (c.draws + 1)
      → (user : User) × (access : env.Jwt) × (new_raw : String) × (c' : Conn) × (rotate_around raw
            (with_session (revoke_refresh_token raw))
            c
          ≡ (ok (access, new_raw, user), c'))
        × (user.id ≡ old.user_id)
        × (sessions c'.db (hash_refresh_token raw) ≡ none)
        × (sessions c'.db (hash_refresh_token new_raw)
            ≡ some (record { user_id = user.id; expires_at = expiry (c.draws + 1 + 1) }))
  unfolding rotate_around
  rotate_around-revoke raw c old good live fresh =
      let h = hash_refresh_token raw in
      let (user, m, owner, read) = read-eq raw c old good live in
      let d = Session.opened (record c { draws = c.draws + 1 }) in
      let d₂ : Conn = Session.opened (record d { db = revoke_by_hash h c.db }) in
      let (access, new_raw, c', run, after, drawn) =
        write_after d₂ old (revoked old) user (consistent-revoke_by_hash h c.db ∙ good)
          (Has-updated (λ r. str_eq r.token_hash h) revoked c.db.refresh_tokens old live.here
            ((eq_iff old.token_hash h).1 live.hashed))
          refl
          (new-revoked h c.db (built user.id d.draws)
            (IsNewRefresh-built c.db user d.draws m fresh)) in
      let other = other_hash d old raw live.here live.hashed fresh in
      (
        user,
        access,
        new_raw,
        c',
        bind_ok (with_session (read_rotation raw)) _ c read
            ∙ (bind_ok (with_session (revoke_refresh_token raw)) _ d (revoke-eq raw d good) ∙ run),
        owner,
        ap (λ all. all h) after
            ∙ opened-closed (hash_refresh_token new_raw) old.token_hash h _ (sessions d₂.db)
                (ap (λ k. str_eq k h) (sym drawn) ∙ other) live.hashed,
        ap (λ all. all (hash_refresh_token new_raw)) after
            ∙ opened_here (hash_refresh_token new_raw) (hash_refresh_token new_raw) _
                (closed old.token_hash (sessions d₂.db)) refl,
      )
