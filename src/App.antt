-- ===== src/App.antt =====
-- src/main.py: the application. A request is validated, passes the rate limit of its path, runs its
-- handler with a database session of its own, and is answered; an exception becomes a response and
-- drops the background tasks of its request.
pub mod Handlers
pub mod History
pub mod Revocation
pub mod Ended
pub mod Enumeration
pub mod Links
pub mod Interleaving
pub mod Stack
use hotspot_payment_gateway.Base.{String, Option, none, some, List, [], ◌∷◌}
use hotspot_payment_gateway.Runtime.{Env}
use hotspot_payment_gateway.Core.RateLimit.{
  limited, log_limited, login_rate_limit, signup_rate_limit, refresh_rate_limit, oauth_rate_limit,
  email_request_rate_limit,
}
use hotspot_payment_gateway.Auth.Schemas.{
  SignupRequest, LoginRequest, ResetPasswordRequest, validate_signup, validate_login,
  validate_reset_password, validate_verify_email, validate_email_field,
}
use hotspot_payment_gateway.Auth.Session.{
  Conn, Result, ok, raised, pure, with_session, http_exception, rate_limit_exceeded,
}
use hotspot_payment_gateway.Auth.Http.{
  Response, respond, health_ok, detail, validation_errors, internal_error,
}
use hotspot_payment_gateway.Auth.Router
use hotspot_payment_gateway.Auth.Router.{OAuthResult, Handler}

-- The requests that the application serves; `J` is the type of access tokens.
pub data Request (J : Type 0) : Type 0 where
  health : Request J
  signup : SignupRequest → Request J
  login : LoginRequest → Request J
  -- the cookies of the request
  refresh logout : List (String × String) → Request J
  -- the scheme and the token of the `Authorization` header
  me : Option (String × J) → Request J
  -- a token, and an e-mail address
  verify_email resend_verification forgot_password : String → Request J
  reset_password : ResetPasswordRequest → Request J
  google_login : Request J
  google_callback : OAuthResult → Request J

module _ ⦃env : Env⦄ where
  -- A request whose body does not validate is answered before the handler and its rate limit.
  abbrev pub with_body : {A : Type 0} → Option A → (A → Handler) → Handler
  with_body none handler = pure (respond 422 validation_errors)
  with_body (some body) handler = handler body

  unfoldable pub route : Request env.Jwt → Handler
  route health = pure (respond 200 health_ok)
  route (signup body) =
      with_body (validate_signup body)
        (λ b. limited "/api/v1/auth/signup" signup_rate_limit (Router.signup b))
  route (login body) =
      with_body (validate_login body)
        (λ b. limited "/api/v1/auth/login" login_rate_limit (Router.login b))
  route (refresh cookies) =
      limited "/api/v1/auth/refresh" refresh_rate_limit (Router.refresh cookies)
  route (logout cookies) = Router.logout cookies
  route (me creds) = Router.me creds
  route (verify_email token) =
      with_body (validate_verify_email token)
        (λ t. limited "/api/v1/auth/verify-email" oauth_rate_limit (Router.verify_email t))
  route (resend_verification email) = with_body (validate_email_field email) (λ e.
      limited "/api/v1/auth/verify-email/request" email_request_rate_limit
        (Router.resend_verification e))
  route (forgot_password email) = with_body (validate_email_field email) (λ e.
      limited "/api/v1/auth/forgot-password" email_request_rate_limit (Router.forgot_password e))
  route (reset_password body) =
      with_body (validate_reset_password body)
        (λ b. limited "/api/v1/auth/reset-password" oauth_rate_limit (Router.reset_password b))
  route google_login = limited "/api/v1/auth/google/login" oauth_rate_limit Router.google_login
  route (google_callback result) =
      limited "/api/v1/auth/google/callback" oauth_rate_limit (Router.google_callback result)

  -- The exception handlers; an exception that no handler knows is a plain 500.
  abbrev pub answer : Conn → Result (Response env.Jwt) → Conn → Response env.Jwt × Conn
  answer before (ok response) c = (response, c)
  answer before (raised (http_exception status message)) c =
      (respond status (detail message), record c { tasks = before.tasks })
  answer before (raised (rate_limit_exceeded path limit)) c = (
    respond 429 (detail "Too many requests. Please try again later."),
    record (log_limited path limit c).1 { tasks = before.tasks },
  )
  answer before (raised e) c = (respond 500 internal_error, record c { tasks = before.tasks })

  unfoldable pub serve : Request env.Jwt → Conn → Response env.Jwt × Conn
  unfolding route with_session
  serve request c = let (r, c') = with_session (route request) c in answer c r c'

  -- The state after a sequence of requests.
  unfoldable pub serve_all : List (Request env.Jwt) → Conn → Conn
  serve_all [] c = c
  serve_all (request ∷ rest) c = serve_all rest (serve request c).1
