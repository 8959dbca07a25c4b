-- ===== src/Auth/Refresh.antt =====
-- src/auth/service.py: refresh tokens, which are the sessions of a client.
pub mod Validity
pub mod Rotation
pub mod Replay
pub mod Errors
pub mod Liveness
pub mod Revoke
use text.Mathlib.Text.{◌==◌ as str_eq}
use hotspot_payment_gateway.Base.{
  ℕ, ◌+◌, String, ◌==◌, true, false, Option, none, some, [], ◌∷◌, update_where, if◌then◌else◌,
}
use hotspot_payment_gateway.Runtime.{Env}
use hotspot_payment_gateway.Auth.Models.{User, RefreshToken, Tables}
use hotspot_payment_gateway.Auth.Session.{
  M, pure, raise, or_raise, ◌>>=◌, ◌>>◌, change, commit, draw, add_refresh_token,
  select_refresh_token, log_event, uuid, invalid_refresh_token_error, invalid_request_error,
}
use hotspot_payment_gateway.Auth.Times.{days, is_past}
use hotspot_payment_gateway.Auth.Tokens.{
  encode_access_token, generate_refresh_token, hash_refresh_token,
}
use hotspot_payment_gateway.Auth.Accounts.{get_user}

abbrev pub revoked : RefreshToken → RefreshToken
revoked r = record r { is_revoked = true }

-- `row.is_revoked = True` on one row, and the UPDATEs that revoke by hash and by user.
abbrev pub revoke_by_id : ℕ → Tables → Tables
revoke_by_id id t = record t {
  refresh_tokens = update_where (λ r. r.id == id) revoked t.refresh_tokens;
}

abbrev pub revoke_by_hash : String → Tables → Tables
revoke_by_hash h t = record t {
  refresh_tokens = update_where (λ r. str_eq r.token_hash h) revoked t.refresh_tokens;
}

abbrev pub revoke_by_user : ℕ → Tables → Tables
revoke_by_user id t = record t {
  refresh_tokens = update_where (λ r. r.user_id == id) revoked t.refresh_tokens;
}

module _ ⦃env : Env⦄ where
  -- `_build_refresh_token`
  unfoldable pub build_refresh_token : ℕ → M (String × RefreshToken)
  unfolding generate_refresh_token
  build_refresh_token user_id = do
    pair ← generate_refresh_token
    now ← draw env.now
    id ← draw env.uuid7
    created ← draw env.server_now
    pure (
      pair.0,
      record {
        id = id;
        user_id = user_id;
        token_hash = pair.1;
        created_at = created;
        expires_at = env.stored (now + days env.settings.refresh_token_ttl_days);
        is_revoked = false;
      },
    )

  unfoldable pub issue_refresh_token : User → M (String × RefreshToken)
  unfolding build_refresh_token
  issue_refresh_token user = do
    pair ← build_refresh_token user.id
    add_refresh_token pair.1
    commit
    found ← select_refresh_token (λ r. r.id == pair.1.id)
    row ← or_raise found invalid_request_error
    pure (pair.0, row)

  -- `verify_refresh_token` on the row that was found.
  unfoldable pub check_refresh_token : Option RefreshToken → M RefreshToken
  unfolding is_past
  check_refresh_token none =
      raise (invalid_refresh_token_error "Refresh token is invalid or revoked")
  check_refresh_token (some row) =
      if row.is_revoked
      then raise (invalid_refresh_token_error "Refresh token is invalid or revoked")
      else do
        expired ← is_past row.expires_at
        if expired
            then raise (invalid_refresh_token_error "Refresh token has expired")
            else pure row

  unfoldable pub verify_refresh_token : String → M RefreshToken
  unfolding check_refresh_token hash_refresh_token
  verify_refresh_token raw_token = do
    row ← select_refresh_token (λ r. str_eq r.token_hash (hash_refresh_token raw_token))
    check_refresh_token row

  -- What `rotate_refresh_token` does once the old row and its user are there. The result is the
  -- access token, the new raw refresh token and the user.
  unfoldable pub replace_token : RefreshToken → User → M (env.Jwt × String × User)
  unfolding build_refresh_token encode_access_token
  replace_token old user = do
    pair ← build_refresh_token user.id
    change (revoke_by_id old.id)
    add_refresh_token pair.1
    commit
    access_token ← encode_access_token user.id none
    log_event "auth.token.rotated" (("user_id", uuid user.id) ∷ [])
    pure (access_token, pair.0, user)

  -- The reads of `rotate_refresh_token`, up to the check of the user.
  unfoldable pub read_rotation : String → M (RefreshToken × User)
  unfolding verify_refresh_token get_user
  read_rotation raw_token = do
    old ← verify_refresh_token raw_token
    found ← get_user old.user_id
    user ← or_raise found (invalid_refresh_token_error "User no longer exists")
    pure (old, user)

  unfoldable pub rotate_refresh_token : String → M (env.Jwt × String × User)
  unfolding verify_refresh_token get_user replace_token
  rotate_refresh_token raw_token = do
    old ← verify_refresh_token raw_token
    found ← get_user old.user_id
    user ← or_raise found (invalid_refresh_token_error "User no longer exists")
    replace_token old user

  unfoldable pub revoke_refresh_token : String → M (Unit {0})
  unfolding hash_refresh_token
  revoke_refresh_token raw_token = do change (revoke_by_hash (hash_refresh_token raw_token)); commit
