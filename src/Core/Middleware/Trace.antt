-- ===== src/Core/Middleware/Trace.antt =====
-- What `RequestIdMiddleware.dispatch` does around the rest of the application.
use mathlib.Core.List.{append_assoc}
use hotspot_payment_gateway.Base.{
  ℕ, String, ◌≡◌, ◌⊎◌, true, inr, refl, sym, subst, ◌+◌, inl, false, Option, none, some, List, [],
  ◌∷◌, ◌++◌, map, All, Bool-cases,
}
use hotspot_payment_gateway.Base.Texts.{is_empty}
use hotspot_payment_gateway.Core.Middleware.{
  Ticks, Entry, service, request, request_failed, Line, Process, Sent, request_id_header, write,
  write_all, or_drawn, drop, length, finish, dispatch,
}
use hotspot_payment_gateway.Auth.Session.{Conn, Event, Result, ok, raised}

-- A line of the service under an identifier.
abbrev pub IsService : String → Line → Type 0
IsService id l = (l.context ≡ ("request_id", id) ∷ []) × (e : Event) × (l.entry ≡ service e)

All-service :
    (id : String) (events : List Event)
    → All
        (IsService id)
        (map (λ e. record { context = ("request_id", id) ∷ []; entry = service e }) events)
All-service id [] = tt
All-service id (e ∷ events) = ((refl, e, refl), All-service id events)

-- No header, or an empty one.
abbrev pub IsBlank : Option String → Type 0
IsBlank none = Unit
IsBlank (some header) = is_empty header ≡ true

module _ ⦃ticks : Ticks⦄ where
  -- The identifier of a request is the one in its header, or a fresh one.
  pub record IsChosen (header : Option String) (w : Process) (id : String) : Type 0 where
    pub used : is_empty id ≡ false
    pub origin : (header ≡ some id) ⊎ (IsBlank header × (id ≡ ticks.uuid4_hex w.ids))

  or_drawn-IsChosen :
      (header : Option String) (w : Process)
      → IsChosen header w (or_drawn header w).0
        × ((or_drawn header w).1.conn ≡ w.conn)
        × ((or_drawn header w).1.lines ≡ w.lines)
  or_drawn-IsChosen none w =
      (record { used = ticks.uuid4_hex_used w.ids; origin = inr (tt, refl) }, refl, refl)
  or_drawn-IsChosen (some id) w = elim (Bool-cases (is_empty id)) [
    | inl e ↦
        rw e (record { used = ticks.uuid4_hex_used w.ids; origin = inr (e, refl) }, refl, refl)
    | inr n ↦ rw n (record { used = n; origin = inl refl }, refl, refl)
  ]

-- A response with the identifier in its header.
abbrev pub with_header : {A : Type 0} → String → Result A → Result (Sent A)
with_header id (ok response) =
    ok (record { response = response; headers = (request_id_header, id) ∷ [] })
with_header id (raised e) = raised e

-- The line of the access log that a request leaves.
abbrev pub IsAccess : {A : Type 0} → (A → ℕ) → String → String → Result A → Entry → Type 0
IsAccess status method path (ok response) entry =
    (duration : String) × (entry ≡ request method path (status response) duration)
IsAccess status method path (raised e) entry = entry ≡ request_failed method path e

module _ ⦃ticks : Ticks⦄ {A : Type 0} (status : A → ℕ) (method path : String) where
  -- What a request leaves in the process: its lines, one of the access log after all others, and
  -- each with its identifier and nothing else in the context.
  pub record IsTraced (id : String) (r : Result A) (w w' : Process) : Type 0 where
    pub context : w'.context ≡ ("request_id", id) ∷ []
    pub new : List Line
    pub last : Entry
    pub lines :
        w'.lines
        ≡ w.lines ++ (new ++ record { context = ("request_id", id) ∷ []; entry = last } ∷ [])
    pub services : All (IsService id) new
    pub access : IsAccess status method path r last

  module _ (id : String) (c : Conn) (start n m : ℕ) (old : List Line) (events : List Event)
      (w : Process) (same : w.lines ≡ old) where
    -- The process when the rest of the application is done.
    abbrev called : Process
    called =
        write_all events (record {
          conn = c;
          context = ("request_id", id) ∷ [];
          lines = old;
          ids = n;
          readings = m;
        })

    abbrev traced :
        (r : Result A) (last : Entry)
        → IsAccess status method path r last
        → IsTraced id r w (write last called)
    traced r last access = record {
      context = refl;
      new = map (λ e. record { context = ("request_id", id) ∷ []; entry = service e }) events;
      last = last;
      lines = rw same (append_assoc old _ _);
      services = All-service id events;
      access = access;
    }

    finish-IsTraced :
        (r : Result A) → IsTraced id r w (finish status method path id start r called).1
    finish-IsTraced (ok response) =
        let t =
          traced (ok response) (request method path (status response) (ticks.elapsed_ms start m))
            (ticks.elapsed_ms start m, refl) in
        record {
          context = t.context;
          new = t.new;
          last = t.last;
          lines = t.lines;
          services = t.services;
          access = t.access;
        }
    finish-IsTraced (raised e) = traced (raised e) (request_failed method path e) refl

    finish-conn : (r : Result A) → (finish status method path id start r called).1.conn ≡ c
    finish-conn (ok response) = refl
    finish-conn (raised e) = refl

    finish-answer :
        (r : Result A) → (finish status method path id start r called).0 ≡ with_header id r
    finish-answer (ok response) = refl
    finish-answer (raised e) = refl

  -- The whole of `dispatch`, for the identifier that it chose.
  pub record IsDispatched (header : Option String) (r : Result A) (c : Conn) (w : Process)
      (out : Result (Sent A) × Process) : Type 0 where
    pub id : String
    pub chosen : IsChosen header w id
    pub answered : out.0 ≡ with_header id r
    pub conn : out.1.conn ≡ c
    pub traced : IsTraced id r w out.1

  pub dispatch-IsDispatched :
      (header : Option String) (call_next : Conn → Result A × Conn) (w : Process)
      → IsDispatched header
          (call_next w.conn).0
          (call_next w.conn).1
          w
          (dispatch status method path header call_next w)
  unfolding dispatch
  dispatch-IsDispatched header call_next w =
      let id = (or_drawn header w).0 in
      let w₁ = (or_drawn header w).1 in
      let (k, same_conn, same_lines) = or_drawn-IsChosen header w in
      let (r, c) = call_next w₁.conn in
      let events = drop (length w₁.conn.log) c.log in
      let d : IsDispatched header (call_next w₁.conn).0 (call_next w₁.conn).1 w
          (dispatch status method path header call_next w) =
        record {
          id = id;
          chosen = k;
          answered =
              finish-answer id c w₁.readings w₁.ids (w₁.readings + 1) w₁.lines events w
                (sym same_lines) r;
          conn =
              finish-conn id c w₁.readings w₁.ids (w₁.readings + 1) w₁.lines events w
                (sym same_lines) r;
          traced =
              finish-IsTraced id c w₁.readings w₁.ids (w₁.readings + 1) w₁.lines events w
                (sym same_lines) r;
        } in
      subst
        (λ x.
          IsDispatched header (call_next x).0 (call_next x).1 w
            (dispatch status method path header call_next w))
        same_conn d
