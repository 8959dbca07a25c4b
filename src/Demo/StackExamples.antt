-- ===== src/Demo/StackExamples.antt =====
-- The properties of the application with its middleware at a concrete process.
use hotspot_payment_gateway.Base.{String, ◌≡◌, refl, Option, none, some, [], ◌∷◌}
use hotspot_payment_gateway.Demo.{demo, tally, Signed}
use hotspot_payment_gateway.Demo.Flows.{logged_in}
use hotspot_payment_gateway.Core.Middleware.{Ticks, Process}
use hotspot_payment_gateway.Auth.Session.{Exn, http_exception}
use hotspot_payment_gateway.Auth.Http.{Response, respond, detail}
use hotspot_payment_gateway.App
use hotspot_payment_gateway.App.{serve}
use hotspot_payment_gateway.App.Stack.{Inbound, app}
use hotspot_payment_gateway.App.Stack.Access.{HasNoStatus, IsLogged, app-serve, app-IsLogged}

abbrev counted : Ticks
counted = record {
  uuid4_hex = λ n. String.◌∷◌ "r" (tally n);
  uuid4_hex_used = λ n. refl;
  elapsed_ms = λ start end. tally 1;
}

abbrev fastapi : Exn → Option (Response Signed)
fastapi (http_exception status message) = some (respond status (detail message))
fastapi _ = none

fastapi-none : (e : Exn) → HasNoStatus e → fastapi e ≡ none
fastapi-none (http_exception status message) h = absurd (h status message refl)
fastapi-none _ h = refl

-- A refresh with an empty header, in a process that served another request before.
abbrev inbound : Inbound Signed
inbound = record { request = App.refresh (("refresh_token", tally 11) ∷ []); request_id = some "" }

abbrev running : Process
running = record {
  conn = logged_in;
  context = ("request_id", "earlier") ∷ [];
  lines = [];
  ids = 1;
  readings = 2;
}

app-serve_example :
    ((app ⦃env = demo⦄ fastapi ⦃ticks = counted⦄ inbound running).0.response
      ≡ (serve ⦃env = demo⦄ inbound.request logged_in).0)
    × ((app ⦃env = demo⦄ fastapi ⦃ticks = counted⦄ inbound running).1.conn
        ≡ (serve ⦃env = demo⦄ inbound.request logged_in).1)
app-serve_example = app-serve ⦃env = demo⦄ ⦃ticks = counted⦄ fastapi fastapi-none inbound running

app-IsLogged_example :
    IsLogged ⦃env = demo⦄ ⦃ticks = counted⦄ inbound running
      (app ⦃env = demo⦄ fastapi ⦃ticks = counted⦄ inbound running).0
      (app ⦃env = demo⦄ fastapi ⦃ticks = counted⦄ inbound running).1
app-IsLogged_example =
    app-IsLogged ⦃env = demo⦄ ⦃ticks = counted⦄ fastapi fastapi-none inbound running
