-- ===== src/App/Handlers.antt =====
-- Every handler of the API lets the rows evolve and keeps their constraints.
use hotspot_payment_gateway.Base.{ℕ, String, Option, none, some, List}
use hotspot_payment_gateway.Runtime.{Env, Claims}
use hotspot_payment_gateway.Auth.Models.{User}
use hotspot_payment_gateway.Auth.Session.{
  Result, ok, raised, invalid_token_error, google_oauth_error,
}
use hotspot_payment_gateway.Auth.Schemas.{SignupRequest, LoginRequest, ResetPasswordRequest}
use hotspot_payment_gateway.Auth.Tokens.{encode_access_token, decode_access_token}
use hotspot_payment_gateway.Auth.Http.{read_refresh_cookie}
use hotspot_payment_gateway.Auth.Dependencies.{get_current_user, user_of_payload}
use hotspot_payment_gateway.Auth.Google.{GoogleProfile}
use hotspot_payment_gateway.Auth.Router
use hotspot_payment_gateway.Auth.Router.{OAuthResult, oauth_error, oauth_token, userinfo_profile}
use hotspot_payment_gateway.Auth.History.Rules.{Evolving, evolving}
use hotspot_payment_gateway.Auth.History.Operations.{service_evolving}

module _ ⦃env : Env⦄ where
  encode_access_token-Evolving : (id : ℕ) (ttl : Option ℕ) → Evolving (encode_access_token id ttl)
  unfolding encode_access_token
  encode_access_token-Evolving id ttl = search evolving

  decode_access_token-Evolving : (token : env.Jwt) → Evolving (decode_access_token token)
  unfolding decode_access_token
  decode_access_token-Evolving token = search evolving

  user_response-Evolving : (status : ℕ) (user : User) → Evolving (Router.user_response status user)
  unfolding Router.user_response
  user_response-Evolving status user = search evolving

  complete_login-Evolving : (user : User) → Evolving (Router.complete_login user)
  unfolding Router.complete_login
  complete_login-Evolving user = search (service_evolving, encode_access_token-Evolving) depth 8

  pub signup-Evolving : (body : SignupRequest) → Evolving (Router.signup body)
  unfolding Router.signup
  signup-Evolving body = search (service_evolving, user_response-Evolving) depth 8

  pub login-Evolving : (body : LoginRequest) → Evolving (Router.login body)
  unfolding Router.login
  login-Evolving body = search (service_evolving, complete_login-Evolving)

  refresh_with-Evolving : (cookie : Option String) → Evolving (Router.refresh_with cookie)
  unfolding Router.refresh_with
  refresh_with-Evolving none = search evolving
  refresh_with-Evolving (some raw) = search service_evolving

  pub refresh-Evolving : (cookies : List (String × String)) → Evolving (Router.refresh cookies)
  unfolding Router.refresh
  refresh-Evolving cookies = refresh_with-Evolving (read_refresh_cookie cookies)

  revoke_if-Evolving : (cookie : Option String) → Evolving (Router.revoke_if cookie)
  revoke_if-Evolving none = search evolving
  revoke_if-Evolving (some raw) = search service_evolving

  pub logout-Evolving : (cookies : List (String × String)) → Evolving (Router.logout cookies)
  unfolding Router.logout
  logout-Evolving cookies = search (evolving, revoke_if-Evolving)

  user_of_payload-Evolving : (r : Result Claims) → Evolving (user_of_payload r)
  unfolding user_of_payload
  user_of_payload-Evolving (ok payload) = search service_evolving
  user_of_payload-Evolving (raised invalid_token_error) = search evolving
  user_of_payload-Evolving (raised _) = search evolving

  get_current_user-Evolving :
      (creds : Option (String × env.Jwt)) → Evolving (get_current_user creds)
  unfolding get_current_user
  get_current_user-Evolving none = search evolving
  get_current_user-Evolving (some (scheme, credentials)) =
      search (evolving, decode_access_token-Evolving, user_of_payload-Evolving) depth 8

  pub me-Evolving : (creds : Option (String × env.Jwt)) → Evolving (Router.me creds)
  unfolding Router.me
  me-Evolving creds = search (evolving, get_current_user-Evolving, user_response-Evolving)

  pub verify_email-Evolving : (raw : String) → Evolving (Router.verify_email raw)
  unfolding Router.verify_email
  verify_email-Evolving raw = search (service_evolving, user_response-Evolving)

  resend_to-Evolving : (user : Option User) → Evolving (Router.resend_to user)
  resend_to-Evolving none = search evolving
  resend_to-Evolving (some user) = search service_evolving

  pub resend_verification-Evolving : (email : String) → Evolving (Router.resend_verification email)
  unfolding Router.resend_verification
  resend_verification-Evolving email = search (service_evolving, resend_to-Evolving)

  pub forgot_password-Evolving : (email : String) → Evolving (Router.forgot_password email)
  unfolding Router.forgot_password
  forgot_password-Evolving email = search service_evolving

  pub reset_password-Evolving :
      (body : ResetPasswordRequest) → Evolving (Router.reset_password body)
  unfolding Router.reset_password
  reset_password-Evolving body = search service_evolving

  pub google_login-Evolving : Evolving Router.google_login
  unfolding Router.google_login
  google_login-Evolving = search evolving

  callback_outcome-Evolving : (r : Result User) → Evolving (Router.callback_outcome r)
  unfolding Router.callback_outcome
  callback_outcome-Evolving (ok user) = search service_evolving
  callback_outcome-Evolving (raised (google_oauth_error message status)) = search evolving
  callback_outcome-Evolving (raised _) = search evolving

  callback_profile-Evolving : (p : Option GoogleProfile) → Evolving (Router.callback_profile p)
  unfolding Router.callback_profile
  callback_profile-Evolving none = search evolving
  callback_profile-Evolving (some profile) = search (service_evolving, callback_outcome-Evolving)

  pub google_callback-Evolving : (r : OAuthResult) → Evolving (Router.google_callback r)
  unfolding Router.google_callback
  google_callback-Evolving oauth_error = search evolving
  google_callback-Evolving (oauth_token userinfo) =
      callback_profile-Evolving (userinfo_profile userinfo)

pub ruleset handler_evolving = (
  evolving, signup-Evolving, login-Evolving, refresh-Evolving, logout-Evolving, me-Evolving,
  verify_email-Evolving, resend_verification-Evolving, forgot_password-Evolving,
  reset_password-Evolving, google_login-Evolving, google_callback-Evolving,
)
