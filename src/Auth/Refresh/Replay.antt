-- ===== src/Auth/Refresh/Replay.antt =====
-- A refresh token is good for one rotation.
use hotspot_payment_gateway.Base.{
  String, ◌≡◌, refl, true, ◌==◌, ==_refl, subst, [], ◌∷◌, Has, Has-map, Has-append_left,
  update_where, if◌then◌else◌,
}
use hotspot_payment_gateway.Runtime.{Env}
use hotspot_payment_gateway.Auth.Models.{User, RefreshToken, Tables, consistent}
use hotspot_payment_gateway.Auth.Session.{Conn, opened, with_session, ok, raised}
use hotspot_payment_gateway.Auth.Session.Steps.{with_session-eq}
use hotspot_payment_gateway.Auth.Tokens.{hash_refresh_token}
use hotspot_payment_gateway.Auth.Refresh.{revoked, rotate_refresh_token}
use hotspot_payment_gateway.Auth.Refresh.Validity.{refused, verify_revoked}
use hotspot_payment_gateway.Auth.Refresh.Rotation.{rotated, rotate-eq-ok}

-- The row that a rotation revokes is still there, revoked.
pub Has-rotated :
    (old new : RefreshToken) (t : Tables)
    → Has old t.refresh_tokens
    → Has (revoked old) (rotated old new t).refresh_tokens
Has-rotated old new t m = Has-append_left (revoked old) _ (new ∷ []) (
    subst
      (λ b.
        Has (if b then revoked old else old)
          (update_where (λ r. r.id == old.id) revoked t.refresh_tokens))
      (==_refl old.id)
      (Has-map (λ r. if r.id == old.id then revoked r else r) old t.refresh_tokens m))

module _ ⦃env : Env⦄ where
  refuse_revoked :
      (raw : String) (c : Conn) (row : RefreshToken)
      → consistent c.db ≡ true
      → Has row c.db.refresh_tokens
      → row.token_hash ≡ hash_refresh_token raw
      → row.is_revoked ≡ true
      → with_session (rotate_refresh_token raw) c ≡ (raised refused, opened c)
  unfolding with_session rotate_refresh_token
  refuse_revoked raw c row h m e k = rw (verify_revoked raw (opened c) row h m e k) refl

  -- After a rotation that succeeded, rotating with the old token again is refused as revoked and
  -- changes nothing.
  pub rotate-rotate :
      (raw : String) (c : Conn) {granted : env.Jwt × String × User} {c' : Conn}
      → with_session (rotate_refresh_token raw) c ≡ (ok granted, c')
      → with_session (rotate_refresh_token raw) c' ≡ (raised refused, c')
  rotate-rotate raw c h =
      let (c₁, run, closed) = with_session-eq (rotate_refresh_token raw) c h in
      let (old, live, m, e, done) = rotate-eq-ok raw c run in
      rw closed (
        refuse_revoked raw (opened c₁) (revoked old) done.valid
          (rw done.db (Has-rotated old _ c.db live.here)) live.hashed refl)
