-- ===== src/Auth/Sessions/Twice.antt =====
-- Two rotations of one token, the one inside the other.
use text.Mathlib.Text.{◌==◌ as str_eq}
use hotspot_payment_gateway.Base.{
  ◌≢◌, Has-append_left, Has-append_last, ◌+◌, [], ◌∷◌, String, ◌≡◌, refl, sym, ap, ◌∙◌, true, false,
  some, Has, ◌==◌, ==_iff, Has-updated, Bool-cases, inl, inr, arith, subst,
}
use text.Mathlib.TextEquality.{eq_iff}
use hotspot_payment_gateway.Runtime.{Env}
use hotspot_payment_gateway.Auth.Models.{User, RefreshToken, Tables, consistent}
use hotspot_payment_gateway.Auth.Models.Constraints.{refresh-eq_of_hash}
use hotspot_payment_gateway.Auth.Session.Steps.{with_session-eq}
use hotspot_payment_gateway.Auth.Session.{
  M, Conn, Result, ok, raised, pure, commit, with_session, continue, view, ◌>>=◌, ◌>>◌, or_raise,
  unchanged,
}
use hotspot_payment_gateway.Auth.Session
use hotspot_payment_gateway.Auth.Tokens.{hash_refresh_token}
use hotspot_payment_gateway.Auth.Refresh.{
  revoked, read_rotation, replace_token, rotate_refresh_token,
}
use hotspot_payment_gateway.Auth.Refresh.Validity.{IsLive}
use hotspot_payment_gateway.Auth.Refresh.Rotation.{rotate-eq-ok, rotated, built}
use hotspot_payment_gateway.Auth.Refresh.Liveness.{rotate-IsLive, CanIssue}
use hotspot_payment_gateway.Auth.Sessions.{sessions, opened, closed}
use hotspot_payment_gateway.Auth.Sessions.Refines.{rotate-refines, expiry}
use hotspot_payment_gateway.Auth.Sessions
use hotspot_payment_gateway.Auth.Sessions.Race.{
  opened_here, bind_ok, rotate_around, read-eq, other_hash, write_after, IsNewRefresh-built,
}

opened-kept :
    (h o k : String) (s : Sessions.Session) (all : Sessions.Sessions)
    → str_eq h k ≡ false
    → str_eq o k ≡ false
    → opened h s (closed o all) k ≡ all k
opened-kept h o k s all n m = rw (n, m) refl

text_other : (h k : String) → str_eq h k ≡ false → str_eq k h ≡ false
text_other h k n = elim (Bool-cases (str_eq k h)) [
  | inl y ↦ absurd (cc (n, (eq_iff h k).1 (sym ((eq_iff k h).0 y))))
  | inr m ↦ m
]

module _ ⦃env : Env⦄ where
  -- What a rotation leaves, from the side of a second one that has read the same token.
  rotation_lem :
      (raw : String) (d : Conn) (old : RefreshToken)
      → consistent d.db ≡ true
      → IsLive d.db raw d.draws old
      → CanIssue d.db (d.draws + 1)
      → (access : env.Jwt) × (new_raw : String) × (user : User) × (with_session
            (rotate_refresh_token raw)
            d
          ≡ (ok (access, new_raw, user), (with_session (rotate_refresh_token raw) d).1))
        × ((with_session (rotate_refresh_token raw) d).1.db
            ≡ rotated old (built user.id (d.draws + 1)) d.db)
        × (consistent (with_session (rotate_refresh_token raw) d).1.db ≡ true)
        × (hash_refresh_token (env.token_urlsafe 64 (d.draws + 1)) ≡ hash_refresh_token new_raw)
        × (user.id ≡ old.user_id)
        × (sessions (with_session (rotate_refresh_token raw) d).1.db (hash_refresh_token new_raw)
            ≡ some (record { user_id = user.id; expires_at = expiry (d.draws + 1 + 1) }))
  rotation_lem raw d old good live fresh =
      let ((access, new_raw, user), e) = rotate-IsLive raw d old good live fresh in
      let c' = (with_session (rotate_refresh_token raw) d).1 in
      let run : with_session (rotate_refresh_token raw) d ≡ (ok (access, new_raw, user), c') =
        λ i. (e i, c') in
      let (c₁, open_run, shut) = with_session-eq (rotate_refresh_token raw) d run in
      let (row, row_live, m, owner, done) = rotate-eq-ok raw d open_run in
      let same : row ≡ old =
        refresh-eq_of_hash d.db good row old row_live.here live.here
          (row_live.hashed ∙ sym live.hashed) in
      let (s, k, o, u, after) = rotate-refines raw d good run in
      (
        access,
        new_raw,
        user,
        run,
        ap (λ (x : Conn). x.db) shut
            ∙ (done.db ∙ ap (λ r. rotated r (built user.id (d.draws + 1)) d.db) same),
        subst (λ (x : Conn). consistent x.db ≡ true) (sym shut) done.valid,
        done.hashed,
        owner ∙ ap (λ (r : RefreshToken). r.user_id) same,
        ap (λ all. all (hash_refresh_token new_raw)) after
            ∙ opened_here (hash_refresh_token new_raw) (hash_refresh_token new_raw) _
                (closed (hash_refresh_token raw) (sessions d.db)) refl,
      )

  -- The writes of the rotation that began first.
  second_write :
      (first : String) (t : Tables) (d : Conn) (old new : RefreshToken) (user : User)
      → d.db ≡ rotated old new t
      → consistent d.db ≡ true
      → Has old t.refresh_tokens
      → Has user t.users
      → new.token_hash ≡ hash_refresh_token first
      → str_eq old.token_hash (hash_refresh_token first) ≡ false
      → CanIssue d.db d.draws
      → (access : env.Jwt) × (second : String) × (c' : Conn) × (with_session
            (replace_token old user)
            d
          ≡ (ok (access, second, user), c'))
        × (sessions c'.db (hash_refresh_token first) ≡ sessions d.db (hash_refresh_token first))
        × (sessions c'.db (hash_refresh_token second)
            ≡ some (record { user_id = user.id; expires_at = expiry (d.draws + 1) }))
        × (str_eq (hash_refresh_token second) (hash_refresh_token first) ≡ false)
  second_write first t d old new user db good here m hashed past fresh =
      let stored : Has (revoked old) d.db.refresh_tokens =
        subst (λ u. Has (revoked old) u.refresh_tokens) (sym db)
          (Has-append_left (revoked old) _ (new ∷ []) (
            Has-updated (λ r. r.id == old.id) revoked t.refresh_tokens old here
              ((==_iff old.id old.id).1 refl))) in
      let new_here : Has new d.db.refresh_tokens =
        subst (λ u. Has new u.refresh_tokens) (sym db) (Has-append_last new _) in
      let (access, second, c', wrote, after, drawn) =
        write_after d old (revoked old) user good stored refl
          (IsNewRefresh-built d.db user d.draws (subst (λ u. Has user u.users) (sym db) m) fresh) in
      let apart : str_eq (hash_refresh_token second) (hash_refresh_token first) ≡ false =
        ap (λ k. str_eq k (hash_refresh_token first)) (sym drawn)
        ∙ other_hash d new first new_here hashed fresh in
      (
        access,
        second,
        c',
        wrote,
        ap (λ all. all (hash_refresh_token first)) after
            ∙ opened-kept (hash_refresh_token second) old.token_hash (hash_refresh_token first) _
                (sessions d.db) apart past,
        ap (λ all. all (hash_refresh_token second)) after
            ∙ opened_here (hash_refresh_token second) (hash_refresh_token second) _
                (closed old.token_hash (sessions d.db)) refl,
        apart,
      )

  -- The state in which the reads of a rotation leave the session.
  abbrev pub between : Conn → Conn
  between c = Session.opened (record c { draws = c.draws + 1 })

  -- The same state after a second rotation of the token.
  abbrev pub overtaken : String → Conn → Conn
  overtaken raw c = (with_session (rotate_refresh_token raw) (between c)).1

  -- On consistent rows, where the drawn texts and identifiers are fresh at both writes, two
  -- rotations of a live token, the one inside the other between its reads and its writes, both
  -- succeed, and afterwards both new tokens, which differ in their hashes, open sessions of the
  -- owner of the token.
  pub rotate_around-rotate :
      (raw : String) (c : Conn) (old : RefreshToken)
      → consistent c.db ≡ true
      → IsLive c.db raw (c.draws + 1) old
      → CanIssue c.db (c.draws + 1 + 1)
      → CanIssue (overtaken raw c).db (overtaken raw c).draws
      → (inner outer : env.Jwt × String × User) × (c' : Conn) × ((with_session
            (rotate_refresh_token raw)
            (between c)).0
          ≡ ok inner)
        × (rotate_around raw (with_session (rotate_refresh_token raw) >>= λ _. pure tt) c
            ≡ (ok outer, c'))
        × (sessions c'.db (hash_refresh_token inner.1)
            ≡ some (record { user_id = old.user_id; expires_at = expiry (c.draws + 1 + 1 + 1) }))
        × (sessions c'.db (hash_refresh_token outer.1)
            ≡ some (record {
              user_id = old.user_id;
              expires_at = expiry ((overtaken raw c).draws + 1);
            }))
        × (hash_refresh_token outer.1 ≢ hash_refresh_token inner.1)
  unfolding rotate_around
  rotate_around-rotate raw c old good live fresh again =
      let earlier = env.now_mono c.draws (c.draws + 1) (omega arith) in
      let soon = live.unexpired in
      let first_live : IsLive c.db raw c.draws old = record {
        here = live.here;
        hashed = live.hashed;
        active = live.active;
        unexpired = omega arith;
      } in
      let (user, m, owner, read) = read-eq raw c old good first_live in
      let (access, first, u, run, db, good₂, drawn, owner₁, open_first) =
        rotation_lem raw (between c) old good live fresh in
      let past : str_eq old.token_hash (hash_refresh_token first) ≡ false =
        ap (λ k. str_eq k (hash_refresh_token first)) live.hashed
        ∙ text_other (hash_refresh_token first) (hash_refresh_token raw) (
            ap (λ k. str_eq k (hash_refresh_token raw)) (sym drawn)
            ∙ other_hash (record c { draws = c.draws + 1 + 1 }) old raw live.here live.hashed
                fresh) in
      let (access₂, second, c', wrote, kept, open_second, apart) =
        second_write first c.db (overtaken raw c) old (built u.id (c.draws + 1 + 1)) user db good₂
          live.here m drawn past again in
      (
        (access, first, u),
        (access₂, second, user),
        c',
        ap (λ p. p.0) run,
        bind_ok (with_session (read_rotation raw)) _ c read
            ∙ (bind_ok (with_session (rotate_refresh_token raw) >>= λ _. pure tt) _ (between c)
                  (bind_ok (with_session (rotate_refresh_token raw)) (λ _. pure tt) (between c) run)
                ∙ wrote),
        kept
            ∙ (open_first
                ∙ ap (λ k. some (record { user_id = k; expires_at = expiry (c.draws + 1 + 1 + 1) }))
                    owner₁),
        open_second
            ∙ ap
                (λ k.
                  some (record { user_id = k; expires_at = expiry ((overtaken raw c).draws + 1) }))
                owner,
        λ q. cc (apart, (eq_iff _ _).1 q),
      )
