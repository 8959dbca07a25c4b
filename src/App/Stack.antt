-- ===== src/App/Stack.antt =====
-- src/main.py: the application with its middleware. A response, or an exception that nobody inside
-- handles, passes `RequestIdMiddleware`; such an exception reaches the handler of `Exception`.
pub mod Access
use text.Mathlib.Text.{◌==◌ as str_eq}
use hotspot_payment_gateway.Base.{ℕ, String, Option, none, some, List, [], ◌∷◌, if◌then◌else◌}
use hotspot_payment_gateway.Base.Texts.{is_empty}
use hotspot_payment_gateway.Runtime.{Env}
use hotspot_payment_gateway.Core.RateLimit.{log_limited}
use hotspot_payment_gateway.Core.Middleware.{Ticks, Process, Sent, request_id_header, dispatch}
use hotspot_payment_gateway.Auth.Session.{
  Conn, Exn, Result, ok, raised, with_session, http_exception, rate_limit_exceeded,
}
use hotspot_payment_gateway.Auth.Http.{Response, respond, detail, internal_error, get_cookie}
use hotspot_payment_gateway.App
use hotspot_payment_gateway.App.{Request, route}

-- A request with the header that the middleware reads.
pub record Inbound (J : Type 0) : Type 0 where
  pub request : Request J
  pub request_id : Option String

-- `request.method` and `request.url.path`
abbrev pub method : {J : Type 0} → Request J → String
method App.health = "GET"
method (App.me creds) = "GET"
method App.google_login = "GET"
method (App.google_callback result) = "GET"
method _ = "POST"

abbrev pub path : {J : Type 0} → Request J → String
path App.health = "/api/v1/health"
path (App.signup body) = "/api/v1/auth/signup"
path (App.login body) = "/api/v1/auth/login"
path (App.refresh cookies) = "/api/v1/auth/refresh"
path (App.logout cookies) = "/api/v1/auth/logout"
path (App.me creds) = "/api/v1/auth/me"
path (App.verify_email token) = "/api/v1/auth/verify-email"
path (App.resend_verification email) = "/api/v1/auth/verify-email/request"
path (App.forgot_password email) = "/api/v1/auth/forgot-password"
path (App.reset_password body) = "/api/v1/auth/reset-password"
path App.google_login = "/api/v1/auth/google/login"
path (App.google_callback result) = "/api/v1/auth/google/callback"

module _ ⦃env : Env⦄ where
  -- The exceptions that have a handler inside the middleware become responses.
  abbrev pub handled : Conn → Result (Response env.Jwt) → Conn → Result (Response env.Jwt) × Conn
  handled before (ok response) c = (ok response, c)
  handled before (raised (http_exception status message)) c =
      (ok (respond status (detail message)), record c { tasks = before.tasks })
  handled before (raised (rate_limit_exceeded path limit)) c = (
    ok (respond 429 (detail "Too many requests. Please try again later.")),
    record (log_limited path limit c).1 { tasks = before.tasks },
  )
  handled before (raised e) c = (raised e, record c { tasks = before.tasks })

  -- What `call_next` runs.
  unfoldable pub call_next : Request env.Jwt → Conn → Result (Response env.Jwt) × Conn
  unfolding route with_session
  call_next request c = let (r, c') = with_session (route request) c in handled c r c'

  -- `response.headers[REQUEST_ID_HEADER] = request_id`, where one is bound.
  abbrev pub bound_header : List (String × String) → List (String × String)
  bound_header context = elim (get_cookie "request_id" context) [
    | none ↦ []
    | some id ↦ if is_empty id then [] else (request_id_header, id) ∷ []
  ]

  -- The answer of the handler with the header, or of the server where the handler raises itself.
  abbrev pub or_server :
      Option (Response env.Jwt) → List (String × String) → Sent (Response env.Jwt)
  or_server none context = record { response = respond 500 internal_error; headers = [] }
  or_server (some response) context = record { response = response; headers = bound_header context }

  -- `http_exception_handler` is FastAPI's; it gives nothing where it raises.
  module _ (http_exception_handler : Exn → Option (Response env.Jwt)) where
    abbrev pub add_request_id_to_errors : Exn → Process → Sent (Response env.Jwt)
    add_request_id_to_errors e w = or_server (http_exception_handler e) w.context

    abbrev pub sent : Result (Sent (Response env.Jwt)) → Process → Sent (Response env.Jwt) × Process
    sent (ok response) w = (response, w)
    sent (raised e) w = (add_request_id_to_errors e w, w)

    -- One request to the application.
    unfoldable pub app :
        ⦃ticks : Ticks⦄ → Inbound env.Jwt → Process → Sent (Response env.Jwt) × Process
    unfolding dispatch call_next
    app inbound w =
        let (r, w') =
          dispatch (λ (x : Response env.Jwt). x.status) (method inbound.request)
            (path inbound.request) inbound.request_id (call_next inbound.request) w in
        sent r w'
