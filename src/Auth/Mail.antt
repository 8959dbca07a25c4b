-- ===== src/Auth/Mail.antt =====
-- src/auth/service.py: e-mail verification and password reset by single-use tokens.
pub mod Consume
pub mod Reads
pub mod Liveness
pub mod Mailed
pub mod Verify
pub mod Reset
pub mod Sessions
pub mod Errors
pub mod Request
use text.Mathlib.Text.{◌==◌ as str_eq}
use Prim.Native.String.{◌++◌ as str_append}
use hotspot_payment_gateway.Base.{
  ℕ, ◌+◌, String, ◌==◌, Bool, true, false, not, ◌&&◌, Option, none, some, [], ◌∷◌, update_where,
  if◌then◌else◌,
}
use hotspot_payment_gateway.Runtime.{Env, DateTime}
use hotspot_payment_gateway.Core.Security.{hash_password}
use hotspot_payment_gateway.Auth.Models.{User, VerificationToken, Tables}
use hotspot_payment_gateway.Auth.Session.{
  Exn, M, pure, raise, or_raise, ◌>>=◌, ◌>>◌, change, commit, draw, add_verification_token,
  add_task, select_verification_token, log_event, uuid, invalid_verification_token_error,
  invalid_password_reset_token_error,
}
use hotspot_payment_gateway.Auth.Times.{minutes, hours, is_past}
use hotspot_payment_gateway.Auth.Tokens.{generate_verification_token, hash_token}
use hotspot_payment_gateway.Auth.Accounts.{get_user, get_user_by_email, refresh_user}
use hotspot_payment_gateway.Auth.Refresh.{revoke_by_user}

abbrev pub purpose_email_verify : String
purpose_email_verify = "email_verify"

abbrev pub purpose_password_reset : String
purpose_password_reset = "password_reset"

abbrev pub is_used : VerificationToken → Bool
is_used v = elim v.used_at [ none ↦ false | some _ ↦ true ]

-- `token.used_at = …`
abbrev pub mark_used : ℕ → DateTime → Tables → Tables
mark_used id at t = record t {
  verification_tokens =
      update_where (λ v. v.id == id) (λ v. record v { used_at = some at }) t.verification_tokens;
}

-- `user.password_hash = …`; a fresh hash differs from the old one, so the row is written.
abbrev pub with_password : String → DateTime → User → User
with_password hash at u = record u { password_hash = some hash; updated_at = at }

abbrev pub set_password : ℕ → String → DateTime → Tables → Tables
set_password id hash at t = record t {
  users = update_where (λ u. u.id == id) (with_password hash at) t.users;
}

-- `user.is_email_verified = True` on the user as it was loaded: the row is written exactly if the
-- loaded one is not verified.
abbrev pub mark_verified : User → DateTime → Tables → Tables
mark_verified user at t = record t {
  users =
      update_where (λ u. not user.is_email_verified && (u.id == user.id))
        (λ u. record u { is_email_verified = true; updated_at = at }) t.users;
}

-- f"{url}?token={raw}"
abbrev pub token_link : String → String → String
token_link url raw = str_append url (str_append "?token=" raw)

module _ ⦃env : Env⦄ where
  -- `_consume_token` on the row that was found; `error_cls` is the exception to raise.
  unfoldable pub check_token : (String → Exn) → Option VerificationToken → M VerificationToken
  unfolding is_past
  check_token error_cls none = raise (error_cls "Token is invalid or already used")
  check_token error_cls (some token) =
      if is_used token then raise (error_cls "Token is invalid or already used") else do
        expired ← is_past token.expires_at
        if expired then raise (error_cls "Token has expired") else pure token

  -- `_consume_token`: validates, and leaves it to the caller to mark the token as used.
  unfoldable pub consume_token : String → String → (String → Exn) → M VerificationToken
  unfolding check_token hash_token
  consume_token raw_token purpose error_cls = do
    token ←
        select_verification_token
          (λ v. str_eq v.token_hash (hash_token raw_token) && str_eq v.purpose purpose)
    check_token error_cls token

  -- A token of the given purpose and lifetime, added to the session; the result is its raw text.
  unfoldable pub add_token : ℕ → String → ℕ → M String
  unfolding generate_verification_token
  add_token user_id purpose lifetime = do
    pair ← generate_verification_token
    now ← draw env.now
    id ← draw env.uuid7
    created ← draw env.server_now
    add_verification_token (record {
      id = id;
      user_id = user_id;
      purpose = purpose;
      token_hash = pair.1;
      expires_at = env.stored (now + lifetime);
      used_at = none;
      created_at = created;
    })
    pure pair.0

  unfoldable pub request_email_verification : User → M (Unit {0})
  unfolding add_token
  request_email_verification user = do
    raw ← add_token user.id purpose_email_verify (hours env.settings.email_verify_token_ttl_hours)
    commit
    add_task (record {
      to = user.email;
      subject = "Verify your email address";
      body =
          str_append "Confirm your email to activate your account:\n\n"
            (token_link env.settings.frontend_verify_email_url raw);
    })
    log_event "auth.verification.requested" (("user_id", uuid user.id) ∷ [])

  -- What `verify_email` does once the token and its user are there.
  unfoldable pub confirm : VerificationToken → User → M User
  unfolding refresh_user
  confirm token user = do
    updated ← draw env.server_now
    change (mark_verified user updated)
    now ← draw env.now
    change (mark_used token.id (env.stored now))
    commit
    fresh ← refresh_user user.id
    log_event "auth.verification.completed" (("user_id", uuid user.id) ∷ [])
    pure fresh

  unfoldable pub verify_email : String → M User
  unfolding consume_token get_user confirm
  verify_email raw_token = do
    token ← consume_token raw_token purpose_email_verify invalid_verification_token_error
    found ← get_user token.user_id
    user ← or_raise found (invalid_verification_token_error "Account no longer exists")
    confirm token user

  -- `request_password_reset`, once the e-mail address belongs to a user.
  unfoldable pub send_reset_token : Option User → M (Unit {0})
  unfolding add_token
  send_reset_token none = pure tt
  send_reset_token (some user) = do
    raw ←
        add_token user.id purpose_password_reset
          (minutes env.settings.password_reset_token_ttl_minutes)
    commit
    add_task (record {
      to = user.email;
      subject = "Reset your password";
      body =
          str_append "Reset your password using this link:\n\n"
            (token_link env.settings.frontend_reset_password_url raw);
    })
    log_event "auth.password_reset.requested" (("user_id", uuid user.id) ∷ [])

  unfoldable pub request_password_reset : String → M (Unit {0})
  unfolding get_user_by_email send_reset_token
  request_password_reset email = do user ← get_user_by_email email; send_reset_token user

  -- What `reset_password` does once the token and its user are there.
  unfoldable pub replace_password : String → VerificationToken → User → M (Unit {0})
  unfolding hash_password
  replace_password new_password token user = do
    hash ← hash_password new_password
    updated ← draw env.server_now
    change (set_password user.id hash updated)
    now ← draw env.now
    change (mark_used token.id (env.stored now))
    change (revoke_by_user user.id)
    commit
    log_event "auth.password_reset.completed" (("user_id", uuid user.id) ∷ [])

  unfoldable pub reset_password : String → String → M (Unit {0})
  unfolding consume_token get_user replace_password
  reset_password raw_token new_password = do
    token ← consume_token raw_token purpose_password_reset invalid_password_reset_token_error
    found ← get_user token.user_id
    user ← or_raise found (invalid_password_reset_token_error "Account no longer exists")
    replace_password new_password token user
