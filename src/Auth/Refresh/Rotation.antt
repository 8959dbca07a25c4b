-- ===== src/Auth/Refresh/Rotation.antt =====
-- `rotate_refresh_token`: the old token is revoked and the new one stored in one step.
use hotspot_payment_gateway.Base.{
  ℕ, String, ◌≡◌, sym, ap, true, false, Option, none, some, [], ◌∷◌, ◌++◌, ◌+◌, ◌==◌, ==_iff, Has,
  update_where, arith,
}
use hotspot_payment_gateway.Runtime.{Env}
use hotspot_payment_gateway.Auth.Models.{User, RefreshToken, Tables, consistent}
use hotspot_payment_gateway.Auth.Session.{
  opened, Conn, unchanged, ok, or_raise, commit, Exn, invalid_refresh_token_error, ◌>>=◌,
}
use hotspot_payment_gateway.Auth.Session.Steps.{bind-eq-ok}
use hotspot_payment_gateway.Auth.Times.{days}
use hotspot_payment_gateway.Auth.Tokens.{hash_refresh_token}
use hotspot_payment_gateway.Auth.Accounts.{get_user}
use hotspot_payment_gateway.Auth.Refresh.{
  revoked, rotate_refresh_token, verify_refresh_token, replace_token,
}
use hotspot_payment_gateway.Auth.Refresh.Validity.{IsLive, verify-eq-ok}

abbrev pub no_user : Exn
no_user = invalid_refresh_token_error "User no longer exists"

-- The rows after a rotation.
abbrev pub rotated : RefreshToken → RefreshToken → Tables → Tables
rotated old new t = record t {
  refresh_tokens = update_where (λ r. r.id == old.id) revoked t.refresh_tokens ++ new ∷ [];
}

module _ ⦃env : Env⦄ where
  -- The row that `build_refresh_token` makes at the n-th reading.
  abbrev pub built : ℕ → ℕ → RefreshToken
  built user_id n = record {
    id = env.uuid7 (n + 1 + 1);
    user_id = user_id;
    token_hash = hash_refresh_token (env.token_urlsafe 64 n);
    created_at = env.server_now (n + 1 + 1 + 1);
    expires_at = env.stored (env.now (n + 1) + days env.settings.refresh_token_ttl_days);
    is_revoked = false;
  }

  -- What a successful rotation of `old` into `new` has done to the committed rows.
  pub record IsRotated (old new : RefreshToken) (new_raw : String) (user : User) (c c' : Conn)
      : Type 0 where
    pub db : c'.db ≡ rotated old new c.db
    pub valid : consistent c'.db ≡ true
    pub closed : c'.pending ≡ unchanged
    pub hashed : new.token_hash ≡ hash_refresh_token new_raw
    pub owner : new.user_id ≡ user.id
    pub active : new.is_revoked ≡ false

  pub replace-eq-ok :
      (old : RefreshToken) (user : User) (c : Conn) {access : env.Jwt} {new_raw : String} {u : User}
      {c' : Conn}
      → replace_token old user (opened c) ≡ (ok (access, new_raw, u), c')
      → IsRotated old (built user.id c.draws) new_raw user c c' × (u ≡ user)
  unfolding replace_token commit hash_refresh_token
  replace-eq-ok old user c h = ground arith

  rotate_found-eq-ok :
      (old : RefreshToken) (found : Option User) (c : Conn) {access : env.Jwt} {new_raw : String}
      {u : User} {c' : Conn}
      → (or_raise found no_user >>= replace_token old) (opened c) ≡ (ok (access, new_raw, u), c')
      → (found ≡ some u) × IsRotated old (built u.id c.draws) new_raw u c c'
  rotate_found-eq-ok old none c h = cc
  rotate_found-eq-ok old (some user) c h =
      let (r, e) = replace-eq-ok old user c h in (ap some (sym e), rw e r)

  -- A rotation that succeeds has replaced a live token of the user that it returns.
  pub rotate-eq-ok :
      (raw : String) (c : Conn) {access : env.Jwt} {new_raw : String} {user : User} {c' : Conn}
      → rotate_refresh_token raw (opened c) ≡ (ok (access, new_raw, user), c')
      → (old : RefreshToken) × IsLive c.db raw c.draws old
        × Has user c.db.users
        × (user.id ≡ old.user_id)
        × IsRotated old (built user.id (c.draws + 1)) new_raw user c c'
  unfolding rotate_refresh_token get_user
  rotate-eq-ok raw c h =
      let (old, c₁, v, h₁) = bind-eq-ok (verify_refresh_token raw) _ (opened c) h in
      let (live, same) = verify-eq-ok raw (opened c) v in
      let (found, done) =
        rotate_found-eq-ok old (env.scalar (λ u. u.id == old.user_id) c.db.users)
          (record c { draws = c.draws + 1 }) (rw same at h₁) in
      let (m, k) = env.scalar-some _ c.db.users _ found in
      (
        old,
        live,
        m,
        (==_iff _ _).0 k,
        record {
          db = done.db;
          valid = done.valid;
          closed = done.closed;
          hashed = done.hashed;
          owner = done.owner;
          active = done.active;
        },
      )
