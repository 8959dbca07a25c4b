-- ===== src/Auth/Router.antt =====
-- src/auth/router.py: the handlers of the API, and the way from a request to a response.
use hotspot_payment_gateway.Base.{ℕ, String, not, Option, none, some, List, [], ◌∷◌, if◌then◌else◌}
use hotspot_payment_gateway.Base.Texts.{is_empty}
use hotspot_payment_gateway.Runtime.{Env}
use hotspot_payment_gateway.Auth.Models.{User}
use hotspot_payment_gateway.Auth.Schemas.{
  SignupRequest, LoginRequest, ResetPasswordRequest, validate_user,
}
use hotspot_payment_gateway.Auth.Session.{
  Exn, M, Result, ok, raised, pure, raise, or_raise, attempt, rethrow, draw, ◌>>=◌, ◌>>◌,
  http_exception, validation_error, email_conflict_error, invalid_credentials_error,
  email_not_verified_error, invalid_refresh_token_error, invalid_verification_token_error,
  invalid_password_reset_token_error, google_oauth_error,
}
use hotspot_payment_gateway.Auth.Tokens.{encode_access_token}
use hotspot_payment_gateway.Auth.Http.{
  Response, respond, no_body, user_body, login_body, refresh_body, refresh_cookie,
  cleared_refresh_cookie, read_refresh_cookie, frontend_redirect,
}
use hotspot_payment_gateway.Auth.Dependencies.{get_current_user}
use hotspot_payment_gateway.Auth.Accounts
use hotspot_payment_gateway.Auth.Refresh
use hotspot_payment_gateway.Auth.Google
use hotspot_payment_gateway.Auth.Google.{GoogleProfile}
use hotspot_payment_gateway.Auth.Mail

-- `token["userinfo"]`, as far as the callback reads it.
pub record UserInfo : Type 0 where
  pub sub : Option String
  pub email : Option String
  pub given_name : Option String
  pub family_name : Option String
  pub picture : Option String

-- What `authorize_access_token` gives: `OAuthError`, or a token with or without `userinfo`.
pub data OAuthResult : Type 0 where
  oauth_error : OAuthResult
  oauth_token : Option UserInfo → OAuthResult

abbrev pub userinfo_profile : Option UserInfo → Option GoogleProfile
userinfo_profile none = none
userinfo_profile (some info) = elim info.sub [
  | none ↦ none
  | some google_sub ↦ elim info.email [
    | none ↦ none
    | some email ↦ some (record {
      google_sub = google_sub;
      email = email;
      first_name = info.given_name;
      last_name = info.family_name;
      profile_photo_url = info.picture;
    })
  ]
]

-- The `except` clauses of the handlers.
abbrev pub signup_errors : Exn → Exn
signup_errors (email_conflict_error message) = http_exception 409 message
signup_errors e = e

abbrev pub login_errors : Exn → Exn
login_errors (invalid_credentials_error message) = http_exception 401 message
login_errors (email_not_verified_error message) = http_exception 403 message
login_errors e = e

abbrev pub refresh_errors : Exn → Exn
refresh_errors (invalid_refresh_token_error message) = http_exception 401 message
refresh_errors e = e

abbrev pub verify_errors : Exn → Exn
verify_errors (invalid_verification_token_error message) = http_exception 400 message
verify_errors e = e

abbrev pub reset_errors : Exn → Exn
reset_errors (invalid_password_reset_token_error message) = http_exception 400 message
reset_errors e = e

module _ ⦃env : Env⦄ where
  abbrev pub Handler : Type 0
  Handler = M (Response env.Jwt)

  unfoldable pub user_response : ℕ → User → Handler
  unfolding validate_user
  user_response status user = do
    body ← or_raise (validate_user user) validation_error
    pure (respond status (user_body body))

  -- `_complete_login`
  unfoldable pub complete_login : User → Handler
  unfolding validate_user refresh_cookie
  complete_login user = do
    issued ← Refresh.issue_refresh_token user
    access_token ← encode_access_token user.id none
    body ← or_raise (validate_user user) validation_error
    pure (record (respond {J = env.Jwt} 200 (login_body access_token body)) {
      cookies = refresh_cookie issued.0 ∷ [];
    })

  unfoldable pub signup : SignupRequest → Handler
  unfolding user_response
  signup body = do
    user ← rethrow signup_errors (Accounts.create_user body)
    Mail.request_email_verification user
    user_response 201 user

  unfoldable pub login : LoginRequest → Handler
  unfolding complete_login
  login body = do
    user ← rethrow login_errors (Accounts.authenticate body.email body.password)
    complete_login user

  unfoldable pub refresh_with : Option String → Handler
  unfolding refresh_cookie
  refresh_with none = raise (http_exception 401 "Missing refresh token")
  refresh_with (some raw) = do
    rotated ← rethrow refresh_errors (Refresh.rotate_refresh_token raw)
    pure (record (respond {J = env.Jwt} 200 (refresh_body rotated.0)) {
      cookies = refresh_cookie rotated.1 ∷ [];
    })

  unfoldable pub refresh : List (String × String) → Handler
  unfolding refresh_with read_refresh_cookie
  refresh cookies = refresh_with (read_refresh_cookie cookies)

  abbrev pub revoke_if : Option String → M (Unit {0})
  revoke_if none = pure tt
  revoke_if (some raw) = Refresh.revoke_refresh_token raw

  unfoldable pub logout : List (String × String) → Handler
  unfolding read_refresh_cookie cleared_refresh_cookie
  logout cookies = do
    revoke_if (read_refresh_cookie cookies)
    pure (record (respond {J = env.Jwt} 204 no_body) { cookies = cleared_refresh_cookie ∷ [] })

  unfoldable pub me : Option (String × env.Jwt) → Handler
  unfolding user_response
  me creds = do user ← get_current_user creds; user_response 200 user

  unfoldable pub verify_email : String → Handler
  unfolding user_response
  verify_email token = do
    user ← rethrow verify_errors (Mail.verify_email token)
    user_response 200 user

  abbrev pub resend_to : Option User → M (Unit {0})
  resend_to none = pure tt
  resend_to (some user) =
      if not user.is_email_verified then Mail.request_email_verification user else pure tt

  unfoldable pub resend_verification : String → Handler
  resend_verification email = do
    user ← Accounts.get_user_by_email email
    resend_to user
    pure (respond 202 no_body)

  unfoldable pub forgot_password : String → Handler
  forgot_password email = do Mail.request_password_reset email; pure (respond 202 no_body)

  unfoldable pub reset_password : ResetPasswordRequest → Handler
  reset_password body = do
    rethrow reset_errors (Mail.reset_password body.token body.new_password)
    pure (respond 204 no_body)

  unfoldable pub google_login : Handler
  google_login =
      if is_empty env.settings.google_client_id
      then raise (http_exception 503 "Google OAuth is not configured")
      else do
        target ← draw (env.authorize_redirect env.settings.google_redirect_uri)
        pure (record (respond {J = env.Jwt} 302 no_body) { location = some target })

  -- The end of `google_callback`, by how the link ended.
  unfoldable pub callback_outcome : Result User → Handler
  unfolding frontend_redirect refresh_cookie
  callback_outcome (ok user) = do
    issued ← Refresh.issue_refresh_token user
    pure (record (frontend_redirect {J = env.Jwt} none) { cookies = refresh_cookie issued.0 ∷ [] })
  callback_outcome (raised (google_oauth_error message status)) =
      pure (frontend_redirect (some "link_failed"))
  callback_outcome (raised e) = raise e

  unfoldable pub callback_profile : Option GoogleProfile → Handler
  unfolding frontend_redirect callback_outcome
  callback_profile none = pure (frontend_redirect (some "oauth_no_userinfo"))
  callback_profile (some profile) = do
    outcome ← attempt (Google.link_or_create_google_user profile)
    callback_outcome outcome

  unfoldable pub google_callback : OAuthResult → Handler
  unfolding frontend_redirect callback_profile
  google_callback oauth_error = pure (frontend_redirect (some "oauth_failed"))
  google_callback (oauth_token userinfo) = callback_profile (userinfo_profile userinfo)
