-- ===== src/App/Stack/Access.antt =====
-- What the middleware adds to the answers of the application and to its log.
use hotspot_payment_gateway.Base.{
  ℕ, String, ◌≡◌, ◌≢◌, refl, sym, subst, ap, ◌∙◌, Option, none, List, [], ◌∷◌, arith,
}
use hotspot_payment_gateway.Runtime.{Env}
use hotspot_payment_gateway.Core.Middleware.{Ticks, Process, Sent, request_id_header, dispatch}
use hotspot_payment_gateway.Core.Middleware.Trace.{
  IsChosen, IsTraced, with_header, dispatch-IsDispatched,
}
use hotspot_payment_gateway.Auth.Session.{
  Conn, Exn, Result, ok, raised, with_session, http_exception, rate_limit_exceeded,
}
use hotspot_payment_gateway.Auth.Http.{Response, respond, internal_error}
use hotspot_payment_gateway.App.{Request, serve, answer, route}
use hotspot_payment_gateway.App.Stack.{Inbound, method, path, handled, call_next, sent, app}

-- An exception that is no `HTTPException`.
abbrev pub HasNoStatus : Exn → Type 0
HasNoStatus e = (status : ℕ) (message : String) → e ≢ http_exception status message

module _ ⦃env : Env⦄ where
  -- Where nobody handles the exception, the server answers.
  abbrev settled : Result (Response env.Jwt) × Conn → Response env.Jwt × Conn
  settled (ok response, c) = (response, c)
  settled (raised e, c) = (respond 500 internal_error, c)

  answer-settled :
      (before : Conn) (r : Result (Response env.Jwt)) (c : Conn)
      → answer before r c ≡ settled (handled before r c)
  answer-settled before (ok response) c = refl
  answer-settled before (raised (http_exception status message)) c = refl
  answer-settled before (raised (rate_limit_exceeded path limit)) c = refl
  answer-settled before (raised e) c = ground arith

  serve-call_next :
      (request : Request env.Jwt) (c : Conn) → serve request c ≡ settled (call_next request c)
  unfolding serve call_next with_session
  serve-call_next request c = let (r, c') = with_session (route request) c in answer-settled c r c'

  handled-HasNoStatus :
      (before : Conn) (r : Result (Response env.Jwt)) (c : Conn) (e : Exn)
      → (handled before r c).0 ≡ raised e
      → HasNoStatus e
  handled-HasNoStatus before (ok response) c e h status message k = cc
  handled-HasNoStatus before (raised (http_exception s m)) c e h status message k = cc
  handled-HasNoStatus before (raised (rate_limit_exceeded p l)) c e h status message k = cc
  handled-HasNoStatus before (raised _) c e h status message k = ground (arith, h, k)

  uncaught :
      (request : Request env.Jwt) (c : Conn) (e : Exn)
      → (call_next request c).0 ≡ raised e
      → HasNoStatus e
  unfolding call_next with_session
  uncaught request c e h =
      let (r, c') = with_session (route request) c in handled-HasNoStatus c r c' e h

  -- The header of the answer.
  abbrev pub Headers : String → Result (Response env.Jwt) → List (String × String) → Type 0
  Headers id (ok response) headers = headers ≡ (request_id_header, id) ∷ []
  Headers id (raised e) headers = headers ≡ []

  module _ ⦃ticks : Ticks⦄ where
    -- The trace of a request, its answer's header and the choice of the identifier.
    pub record IsLogged (inbound : Inbound env.Jwt) (w : Process) (s : Sent (Response env.Jwt))
        (w' : Process) : Type 0 where
      pub id : String
      pub chosen : IsChosen inbound.request_id w id
      pub headers : Headers id (call_next inbound.request w.conn).0 s.headers
      pub traced :
          IsTraced
            (λ (x : Response env.Jwt). x.status)
            (method inbound.request)
            (path inbound.request)
            id
            (call_next inbound.request w.conn).0
            w
            w'

  module _ ⦃ticks : Ticks⦄ (http_exception_handler : Exn → Option (Response env.Jwt))
      -- The handler of FastAPI reads attributes that only an `HTTPException` has.
      (unread : (e : Exn) → HasNoStatus e → http_exception_handler e ≡ none) where
    -- The answer and the rows are those of the application without the middleware.
    sent-settled :
        (id : String) (r : Result (Response env.Jwt)) (c : Conn)
        (o : Result (Sent (Response env.Jwt))) (w : Process)
        → o ≡ with_header id r
        → ((e : Exn) → r ≡ raised e → HasNoStatus e)
        → ((sent http_exception_handler o w).0.response ≡ (settled (r, c)).0)
          × Headers id r (sent http_exception_handler o w).0.headers
          × ((sent http_exception_handler o w).1 ≡ w)
    sent-settled id (ok response) c o w h k = rw h (refl, refl, refl)
    sent-settled id (raised e) c o w h k = rw (h, unread e (k e refl)) (refl, refl, refl)

    settled-conn : (r : Result (Response env.Jwt)) (c : Conn) → (settled (r, c)).1 ≡ c
    settled-conn (ok response) c = refl
    settled-conn (raised e) c = refl

    -- The middleware and the handler of Exception change neither the answer of a request, apart
    -- from its header, nor the rows, the log of the service and the mails: they are those of
    -- serve, where the http_exception_handler of FastAPI raises for an exception other than an
    -- HTTPException.
    pub app-serve :
        (inbound : Inbound env.Jwt) (w : Process)
        → ((app http_exception_handler inbound w).0.response ≡ (serve inbound.request w.conn).0)
          × ((app http_exception_handler inbound w).1.conn ≡ (serve inbound.request w.conn).1)
    unfolding app
    app-serve inbound w =
        let (r, c) = call_next inbound.request w.conn in
        let (o, w') =
          dispatch (λ (x : Response env.Jwt). x.status) (method inbound.request)
            (path inbound.request) inbound.request_id (call_next inbound.request) w in
        let d =
          dispatch-IsDispatched (λ (x : Response env.Jwt). x.status) (method inbound.request)
            (path inbound.request) inbound.request_id (call_next inbound.request) w in
        let (response, headers, same) =
          sent-settled d.id r c o w' d.answered (uncaught inbound.request w.conn) in
        let settles = serve-call_next inbound.request w.conn in
        (
          response ∙ ap (λ p. p.0) (sym settles),
          ap (λ (x : Process). x.conn) same
              ∙ (d.conn ∙ (sym (settled-conn r c) ∙ ap (λ p. p.1) (sym settles))),
        )

    -- With the log level at INFO, its default, or below, a request gets an identifier, which is
    -- not empty: that of its header, or a fresh one where it has no header or an empty one. The
    -- variables of an earlier request are gone, and the lines that it adds to the log carry the
    -- identifier and nothing else; the last of them is its only line of the access log, with
    -- method, path and status, or with the exception that nobody handled. An answer carries the
    -- identifier in its header; the answer to such an exception carries none, where the
    -- http_exception_handler of FastAPI raises for an exception other than an HTTPException.
    pub app-IsLogged :
        (inbound : Inbound env.Jwt) (w : Process)
        → IsLogged inbound w
            (app http_exception_handler inbound w).0
            (app http_exception_handler inbound w).1
    unfolding app
    app-IsLogged inbound w =
        let (r, c) = call_next inbound.request w.conn in
        let (o, w') =
          dispatch (λ (x : Response env.Jwt). x.status) (method inbound.request)
            (path inbound.request) inbound.request_id (call_next inbound.request) w in
        let d =
          dispatch-IsDispatched (λ (x : Response env.Jwt). x.status) (method inbound.request)
            (path inbound.request) inbound.request_id (call_next inbound.request) w in
        let (response, headers, same) =
          sent-settled d.id r c o w' d.answered (uncaught inbound.request w.conn) in
        record {
          id = d.id;
          chosen = d.chosen;
          headers = headers;
          traced =
              subst
                (λ x.
                  IsTraced (λ (y : Response env.Jwt). y.status) (method inbound.request)
                    (path inbound.request) d.id r w x)
                (sym same) d.traced;
        }
