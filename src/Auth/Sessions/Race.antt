-- ===== src/Auth/Sessions/Race.antt =====
-- Two requests at once: `rotate_refresh_token` reads the token and writes without a lock, so another
-- request can run between.
use text.Mathlib.Text.{◌==◌ as str_eq}
use hotspot_payment_gateway.Base.{
  ℕ, ◌+◌, ◌++◌, [], ◌∷◌, update_where, String, ◌≡◌, refl, sym, ap, ◌∙◌, true, false, Option, none,
  some, Has, ◌==◌, ==_iff, any_of_Has, Bool-cases, inl, inr, subst,
}
use mathlib.Core.Path.{fun_ext}
use text.Mathlib.TextEquality.{eq_iff}
use hotspot_payment_gateway.Runtime.{Env}
use hotspot_payment_gateway.Auth.Models.{User, RefreshToken, Tables, consistent}
use hotspot_payment_gateway.Auth.Models.Preserve.{IsNewRefresh}
use hotspot_payment_gateway.Auth.Session.{
  M, Conn, Result, ok, raised, pure, commit, with_session, continue, view, ◌>>=◌, ◌>>◌, or_raise,
  unchanged,
}
use hotspot_payment_gateway.Auth.Session
use hotspot_payment_gateway.Auth.Accounts.{get_user}
use hotspot_payment_gateway.Auth.Tokens.{hash_refresh_token}
use hotspot_payment_gateway.Auth.Refresh.{
  revoked, verify_refresh_token, read_rotation, replace_token, rotate_refresh_token,
}
use hotspot_payment_gateway.Auth.Refresh.Validity.{IsLive, verify_refresh_token_iff, verify-eq-ok}
use hotspot_payment_gateway.Auth.Refresh.Rotation.{no_user, rotated, built, replace-eq-ok}
use hotspot_payment_gateway.Auth.Refresh.Liveness.{
  CanIssue, consistent-rotated, owner_of, find_user,
}
use hotspot_payment_gateway.Auth.Sessions.{sessions, opened, closed}
use hotspot_payment_gateway.Auth.Sessions.Refines.{expiry, rotated-sessions}
use hotspot_payment_gateway.Auth.Sessions

pub opened_here :
    (h k : String) (s : Sessions.Session) (all : Sessions.Sessions)
    → h ≡ k
    → opened h s all k ≡ some s
opened_here h k s all e = rw ((eq_iff h k).1 e) refl

pub bind_ok :
    {A B : Type 0} (m : M A) (f : A → M B) (c : Conn) {a : A} {c' : Conn}
    → m c ≡ (ok a, c')
    → (m >>= f) c ≡ f a c'
bind_ok {A} m f c h = ap (λ (p : Result A × Conn). continue p.0 f p.1) h

module _ ⦃env : Env⦄ where
  -- A rotation with another request between its reads and its writes.
  unfoldable pub rotate_around : String → M (Unit {0}) → M (env.Jwt × String × User)
  unfolding read_rotation replace_token
  rotate_around raw_token other = do
    pair ← with_session (read_rotation raw_token)
    other
    with_session (replace_token pair.0 pair.1)

  read_then :
      (old : RefreshToken) (found : Option User) (c : Conn)
      → (or_raise found no_user >>= replace_token old) c
        ≡ ((or_raise found no_user >>= λ user. pure (old, user)) >>= λ (p : RefreshToken × User).
              replace_token p.0 p.1)
            c
  read_then old none c = refl
  read_then old (some user) c = refl

  continue_assoc :
      (r : Result RefreshToken) (f : RefreshToken → M (RefreshToken × User))
      (g : RefreshToken × User → M (env.Jwt × String × User)) (c : Conn)
      → continue r (λ a. f a >>= g) c ≡ (continue r f >>= g) c
  continue_assoc (ok a) f g c = refl
  continue_assoc (raised e) f g c = refl

  -- With nothing between, the reads and the writes are the rotation.
  pub rotation_split :
      (raw : String) (c : Conn)
      → rotate_refresh_token raw c
        ≡ (read_rotation raw >>= λ (p : RefreshToken × User). replace_token p.0 p.1) c
  unfolding rotate_refresh_token read_rotation get_user
  rotation_split raw c =
      ap
        (λ (k : RefreshToken → M (env.Jwt × String × User)).
          continue (verify_refresh_token raw c).0 k (verify_refresh_token raw c).1)
        (fun_ext (λ old.
          fun_ext (λ d. read_then old (env.scalar (λ u. u.id == old.user_id) (view d).users) d)))
      ∙ continue_assoc (verify_refresh_token raw c).0 _ _ (verify_refresh_token raw c).1

  pub read-eq :
      (raw : String) (c : Conn) (old : RefreshToken)
      → consistent c.db ≡ true
      → IsLive c.db raw c.draws old
      → (user : User) × Has user c.db.users
        × (user.id ≡ old.user_id)
        × (with_session (read_rotation raw) c
            ≡ (ok (old, user), Session.opened (record c { draws = c.draws + 1 })))
  unfolding read_rotation with_session get_user
  read-eq raw c old h l =
      let (user, m, e) = owner_of c.db old h l.here in
      let v = (verify_refresh_token_iff raw (Session.opened c) old h).1 l in
      let (again, same) =
        verify-eq-ok raw (Session.opened c)
          (λ i. (v i, (verify_refresh_token raw (Session.opened c)).1)) in
      let w : verify_refresh_token raw (Session.opened c)
          ≡ (ok old, Session.opened (record c { draws = c.draws + 1 })) =
        λ i. (v i, same i) in
      (user, m, e, rw (w, find_user c.db old.user_id user h m e) refl)

  write-eq :
      (old : RefreshToken) (user : User) (c : Conn)
      → consistent (rotated old (built user.id c.draws) c.db) ≡ true
      → (granted : env.Jwt × String × User) × ((replace_token old user (Session.opened c)).0
          ≡ ok granted)
  unfolding replace_token commit hash_refresh_token
  write-eq old user c k = rw k (_, refl)

  -- The new hash is not the one of a stored token.
  pub other_hash :
      (c : Conn) (old : RefreshToken) (raw : String)
      → Has old c.db.refresh_tokens
      → old.token_hash ≡ hash_refresh_token raw
      → CanIssue c.db c.draws
      → str_eq (hash_refresh_token (env.token_urlsafe 64 c.draws)) (hash_refresh_token raw) ≡ false
  other_hash c old raw here hashed fresh =
      elim (Bool-cases
        (str_eq (hash_refresh_token (env.token_urlsafe 64 c.draws)) (hash_refresh_token raw))) [
          | inl y ↦
              let k =
                any_of_Has
                  (λ (s : RefreshToken).
                    str_eq s.token_hash (hash_refresh_token (env.token_urlsafe 64 c.draws)))
                  old c.db.refresh_tokens here ((eq_iff _ _).1 (hashed ∙ sym ((eq_iff _ _).0 y))) in
              absurd (cc (k, fresh.fresh_hash))
          | inr n ↦ n
        ]

  -- The writes for a token that was read before, whose row is stored as it is now: the session of
  -- the token is closed, and a new one is open.
  pub write_after :
      (d : Conn) (old row : RefreshToken) (user : User)
      → consistent d.db ≡ true
      → Has row d.db.refresh_tokens
      → row.id ≡ old.id
      → IsNewRefresh d.db (built user.id d.draws)
      → (access : env.Jwt) × (new_raw : String) × (c' : Conn) × (with_session
            (replace_token old user)
            d
          ≡ (ok (access, new_raw, user), c'))
        × (sessions c'.db
            ≡ opened
                (hash_refresh_token new_raw)
                (record { user_id = user.id; expires_at = expiry (d.draws + 1) })
                (closed row.token_hash (sessions d.db)))
        × (hash_refresh_token (env.token_urlsafe 64 d.draws) ≡ hash_refresh_token new_raw)
  unfolding with_session
  write_after d old row user good here same_id fresh =
      let new = built user.id d.draws in
      let turned : rotated row new d.db ≡ rotated old new d.db =
        ap
          (λ id. record d.db {
            refresh_tokens = update_where (λ r. r.id == id) revoked d.db.refresh_tokens ++ new ∷ [];
          })
          same_id in
      let (granted, e) = write-eq old user d (consistent-rotated old new d.db good fresh) in
      let c₃ = (replace_token old user (Session.opened d)).1 in
      let (done, same) = replace-eq-ok old user d {c' = c₃} (λ i. (e i, c₃)) in
      let step : c₃.db ≡ rotated row new d.db = done.db ∙ sym turned in
      (
        granted.0,
        granted.1,
        Session.opened c₃,
        ap (λ (p : Result (env.Jwt × String × User)). (p, Session.opened c₃)) e
            ∙ ap (λ u. (ok (granted.0, granted.1, u), Session.opened c₃)) same,
        ap sessions step
            ∙ (rotated-sessions row new d.db good (subst (λ t. consistent t ≡ true) step done.valid)
                  here refl
                ∙ ap
                    (λ k.
                      opened k (record { user_id = user.id; expires_at = expiry (d.draws + 1) })
                        (closed row.token_hash (sessions d.db)))
                    done.hashed),
        done.hashed,
      )

  pub IsNewRefresh-built :
      (t : Tables) (user : User) (n : ℕ)
      → Has user t.users
      → CanIssue t n
      → IsNewRefresh t (built user.id n)
  IsNewRefresh-built t user n m fresh = record {
    fresh_id = fresh.fresh_id;
    fresh_hash = fresh.fresh_hash;
    owned =
        any_of_Has (λ (w : User). w.id == user.id) user t.users m ((==_iff user.id user.id).1 refl);
  }
