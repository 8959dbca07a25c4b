-- ===== src/Core/RateLimit.antt =====
-- src/core/rate_limit.py
use hotspot_payment_gateway.Base.{String, [], ◌∷◌, if◌then◌else◌}
use hotspot_payment_gateway.Runtime.{Env}
use hotspot_payment_gateway.Auth.Session.{
  M, ◌>>=◌, draw, raise, log_event, str, rate_limit_exceeded,
}

abbrev pub login_rate_limit : String
login_rate_limit = "5/minute;30/hour"

abbrev pub signup_rate_limit : String
signup_rate_limit = "10/hour"

abbrev pub refresh_rate_limit : String
refresh_rate_limit = "60/minute"

abbrev pub oauth_rate_limit : String
oauth_rate_limit = "15/minute"

abbrev pub email_request_rate_limit : String
email_request_rate_limit = "5/hour"

module _ ⦃env : Env⦄ where
  -- `@limiter.limit(limit)` on the handler of a path.
  abbrev pub limited : {A : Type 0} → String → String → M A → M A
  limited path limit handler = do
    admitted ← draw (env.admits limit)
    if admitted then handler else raise (rate_limit_exceeded path limit)

  -- The log line of `rate_limit_exceeded_handler`.
  abbrev pub log_limited : String → String → M (Unit {0})
  log_limited path limit = do
    client ← draw env.remote_address
    log_event "rate_limit.exceeded"
        (("path", str path) ∷ ("client", str client) ∷ ("limit", str limit) ∷ [])
