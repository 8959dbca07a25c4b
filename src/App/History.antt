-- ===== src/App/History.antt =====
-- Whatever requests the application serves, the rows evolve and their constraints stay true.
use hotspot_payment_gateway.Base.{◌≡◌, arith, true, Option, none, some, List, [], ◌∷◌}
use hotspot_payment_gateway.Runtime.{Env}
use hotspot_payment_gateway.Auth.Models.{consistent}
use hotspot_payment_gateway.Auth.Session.{Conn, Result, with_session}
use hotspot_payment_gateway.Auth.Session.Within
use hotspot_payment_gateway.Auth.Http.{Response}
use hotspot_payment_gateway.Auth.Router.{Handler}
use hotspot_payment_gateway.Auth.History.{Evolves, Evolves-order, Evolves-refl}
use hotspot_payment_gateway.Auth.History.Rules.{Evolving, evolving}
use hotspot_payment_gateway.App
use hotspot_payment_gateway.App.{Request, serve, serve_all, route, with_body, answer}
use hotspot_payment_gateway.App.Handlers.{handler_evolving}

module _ ⦃env : Env⦄ where
  with_body-Evolving :
      {A : Type 0} (body : Option A) (handler : A → Handler)
      → ((a : A) → Evolving (handler a))
      → Evolving (with_body body handler)
  with_body-Evolving none handler h = search evolving
  with_body-Evolving (some a) handler h = h a

  route-Evolving : (request : Request env.Jwt) → Evolving (route request)
  unfolding route
  route-Evolving App.health = search evolving
  route-Evolving (App.refresh cookies) = search handler_evolving depth 6
  route-Evolving (App.logout cookies) = search handler_evolving depth 6
  route-Evolving (App.me creds) = search handler_evolving depth 6
  route-Evolving App.google_login = search handler_evolving depth 6
  route-Evolving (App.google_callback result) = search handler_evolving depth 6
  route-Evolving _ = search (handler_evolving, with_body-Evolving) depth 6

  answer-db : (c : Conn) (r : Result (Response env.Jwt)) (c' : Conn) → (answer c r c').1.db ≡ c'.db
  answer-db c r c' = ground arith

  -- One request.
  pub serve-Evolves :
      (request : Request env.Jwt) (c : Conn)
      → Evolves c.db (serve request c).1.db
        × (consistent c.db ≡ true → consistent (serve request c).1.db ≡ true)
  unfolding serve with_session
  serve-Evolves request c =
      let (r, c') = with_session (route request) c in
      let a =
        Within.Within-with_session Evolves Evolves-order (route request) (route-Evolving request)
          c in
      rw (answer-db c r c') (a.rows, a.valid)

  -- Any sequence of requests deletes no user, provider link or token and turns no verified,
  -- revoked or used row back; rows that meet every unique and foreign-key constraint still do
  -- after it.
  pub serve_all-Evolves :
      (requests : List (Request env.Jwt)) (c : Conn)
      → Evolves c.db (serve_all requests c).db
        × (consistent c.db ≡ true → consistent (serve_all requests c).db ≡ true)
  unfolding serve_all
  serve_all-Evolves [] c = (Evolves-refl c.db, λ h. h)
  serve_all-Evolves (request ∷ rest) c =
      let (e, k) = serve-Evolves request c in
      let (f, l) = serve_all-Evolves rest (serve request c).1 in
      (Evolves-order.chain e f, λ h. l (k h))
