-- ===== src/Core/Middleware.antt =====
-- src/core/middleware.py: every request gets an identifier, which its log lines and its response
-- carry, and a line in the access log.
pub mod Trace
use hotspot_payment_gateway.Base.{
  ◌≡◌, false, ℕ, zero, suc, ◌+◌, String, Option, none, some, List, [], ◌∷◌, ◌++◌, map,
  if◌then◌else◌,
}
use hotspot_payment_gateway.Base.Texts.{is_empty}
use hotspot_payment_gateway.Auth.Session.{Conn, Exn, Event, Result, ok, raised}

-- `uuid.uuid4().hex` at its n-th call, which is no empty text, and the rounded milliseconds between
-- two readings of `time.perf_counter()`.
pub record Ticks : Type 0 where
  pub uuid4_hex : ℕ → String
  pub uuid4_hex_used : (n : ℕ) → is_empty (uuid4_hex n) ≡ false
  pub elapsed_ms : ℕ → ℕ → String

abbrev pub request_id_header : String
request_id_header = "X-Request-ID"

-- What a log call writes: a line of the service, or one of the middleware.
pub data Entry : Type 0 where
  service : Event → Entry
  -- method, path, status and duration
  request : String → String → ℕ → String → Entry
  request_failed : String → String → Exn → Entry

-- `structlog.contextvars.merge_contextvars` adds the bound variables to every line.
pub record Line : Type 0 where
  pub context : List (String × String)
  pub entry : Entry

-- The process around the database: the variables that are bound, the lines that were written, and
-- how often `uuid4` and the performance counter were called.
pub record Process : Type 0 where
  pub conn : Conn
  pub context : List (String × String)
  pub lines : List Line
  pub ids : ℕ
  pub readings : ℕ

-- A response and its headers.
pub record Sent (A : Type 0) : Type 0 where
  pub response : A
  pub headers : List (String × String)

module _ {A : Type 0} where
  -- The items after the first n.
  abbrev pub drop : ℕ → List A → List A
  drop zero xs = xs
  drop (suc n) [] = []
  drop (suc n) (x ∷ xs) = drop n xs

  abbrev pub length : List A → ℕ
  length [] = 0
  length (x ∷ xs) = suc (length xs)

abbrev pub write : Entry → Process → Process
write entry w = record w { lines = w.lines ++ record { context = w.context; entry = entry } ∷ [] }

abbrev pub write_all : List Event → Process → Process
write_all events w = record w {
  lines = w.lines ++ map (λ e. record { context = w.context; entry = service e }) events;
}

-- `request.headers.get(REQUEST_ID_HEADER) or uuid.uuid4().hex`: an empty header counts as none.
abbrev pub or_drawn : ⦃ticks : Ticks⦄ → Option String → Process → String × Process
or_drawn ⦃ticks⦄ none w = (ticks.uuid4_hex w.ids, record w { ids = w.ids + 1 })
or_drawn ⦃ticks⦄ (some id) w =
    if is_empty id then (ticks.uuid4_hex w.ids, record w { ids = w.ids + 1 }) else (id, w)

-- `clear_contextvars()` and `bind_contextvars(request_id=…)`
abbrev pub bind_request_id : String → Process → Process
bind_request_id id w = record w { context = ("request_id", id) ∷ [] }

module _ ⦃ticks : Ticks⦄ {A : Type 0} (status : A → ℕ) (method path : String) where
  -- The end of `dispatch`, once the rest of the application returned or raised.
  abbrev pub finish : String → ℕ → Result A → Process → Result (Sent A) × Process
  finish id start (raised e) w = (raised e, write (request_failed method path e) w)
  finish id start (ok response) w =
      let duration = ticks.elapsed_ms start w.readings in
      let w' = write (request method path (status response) duration) w in
      (
        ok (record { response = response; headers = (request_id_header, id) ∷ [] }),
        record w' { readings = w.readings + 1 },
      )

  -- `RequestIdMiddleware.dispatch`
  unfoldable pub dispatch :
      Option String → (Conn → Result A × Conn) → Process → Result (Sent A) × Process
  dispatch header call_next w =
      let (id, w₁) = or_drawn header w in
      let w₂ = bind_request_id id w₁ in
      let (r, c) = call_next w₂.conn in
      finish id w₂.readings r (
        write_all (drop (length w₂.conn.log) c.log)
          (record w₂ { conn = c; readings = w₂.readings + 1 }))
