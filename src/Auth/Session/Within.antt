-- ===== src/Auth/Session/Within.antt =====
-- What a run may do to the committed rows, by one rule for each way to build a run.
-- `Q` is a reflexive and transitive relation between rows that every change of the session keeps.
use hotspot_payment_gateway.Base.{
  arith, ◌≡◌, refl, true, false, Bool, Option, none, some, String, List, Bool-cases, inl, inr,
  if◌then◌else◌, ℕ,
}
use hotspot_payment_gateway.Auth.Models.{Tables, consistent}
use hotspot_payment_gateway.Auth.Session.{
  Conn, Exn, Result, ok, raised, M, pure, raise, or_raise, attempt, rethrow, continue, ◌>>=◌, ◌>>◌,
  change, commit, rollback, with_session, opened, view, draw, log_event, add_task, Detail, Mail,
}

pub record IsOrder (Q : Tables → Tables → Type 0) : Type 0 where
  pub same : (t : Tables) → Q t t
  pub chain : {t u v : Tables} → Q t u → Q u v → Q t v

state-rethrow :
    {A : Type 0} (handle : Exn → Exn) (m : M A) (c : Conn) → (rethrow handle m c).1 ≡ (m c).1
state-rethrow handle m c = ground arith

module _ (Q : Tables → Tables → Type 0) (order : IsOrder Q) where
  -- The changes of the session stay within `Q`.
  abbrev pub Pending : Conn → Type 0
  Pending c = Q c.db (view c)

  pub record Allowed (c c' : Conn) : Type 0 where
    pub rows : Q c.db c'.db
    pub valid : consistent c.db ≡ true → consistent c'.db ≡ true
    pub open_changes : Pending c'

  -- The run keeps to `Q`, whether it returns or raises, and leaves consistent rows consistent.
  pub record Within {A : Type 0} (m : M A) : Type 0 where
    pub at : (c : Conn) → Pending c → Allowed c (m c).1

  stay : (c c' : Conn) → c'.db ≡ c.db → c'.pending ≡ c.pending → Pending c → Allowed c c'
  stay c c' e k p = record {
    rows = rw e (order.same c.db);
    valid = λ h. rw e h;
    open_changes = rw (e, k) p;
  }

  then-Allowed : {c c₁ c₂ : Conn} → Allowed c c₁ → Allowed c₁ c₂ → Allowed c c₂
  then-Allowed a b = record {
    rows = order.chain a.rows b.rows;
    valid = λ h. b.valid (a.valid h);
    open_changes = b.open_changes;
  }

  pub Within-commit : Within commit
  unfolding commit
  Within-commit = record {
    at = λ c p. elim (Bool-cases (consistent (view c))) [
      | inl h ↦ rw h (record { rows = p; valid = λ _. h; open_changes = order.same (view c) })
      | inr h ↦ rw h (stay c c refl refl p)
    ];
  }

  pub Within-change : (f : Tables → Tables) → ((t : Tables) → Q t (f t)) → Within (change f)
  Within-change f k = record {
    at = λ c p. record {
      rows = order.same c.db;
      valid = λ h. h;
      open_changes = order.chain p (k (view c));
    };
  }

  -- Two changes that keep to `Q` together.
  pub Within-changes :
      {B : Type 0} (f g : Tables → Tables) (k : M B)
      → ((t : Tables) → Q t (g (f t)))
      → Within k
      → Within (change f >> (change g >> k))
  Within-changes f g k h w = record {
    at = λ c p.
        let a =
          w.at (record c { pending = λ t. g (f (c.pending t)) }) (order.chain p (h (view c))) in
        record { rows = a.rows; valid = a.valid; open_changes = a.open_changes };
  }

  module _ {A B : Type 0} where
    -- A query whose answer the rest may rely on.
    pub Within-select :
        (f : Conn → A) (k : A → M B)
        → ((c : Conn) → Pending c → Allowed c (k (f c) c).1)
        → Within ((λ c. (ok (f c), c)) >>= k)
    Within-select f k h = record { at = h }

    continue-Within :
        (r : Result A) (f : A → M B) (c c₁ : Conn)
        → Allowed c c₁
        → ((a : A) → Within (f a))
        → Allowed c (continue r f c₁).1
    continue-Within (ok a) f c c₁ h k = then-Allowed h ((k a).at c₁ h.open_changes)
    continue-Within (raised e) f c c₁ h k = h

    pub Within-bind :
        (m : M A) (f : A → M B) → Within m → ((a : A) → Within (f a)) → Within (m >>= f)
    Within-bind m f h k = record { at = λ c p. continue-Within (m c).0 f c (m c).1 (h.at c p) k }

  module _ {A : Type 0} where
    -- A run that leaves rows and session alone.
    pub Within-idle :
        (m : M A) → ((c : Conn) → ((m c).1.db ≡ c.db) × ((m c).1.pending ≡ c.pending)) → Within m
    Within-idle m h = record { at = λ c p. stay c (m c).1 (h c).0 (h c).1 p }

    pub Within-or_raise : (o : Option A) (e : Exn) → Within (or_raise o e)
    Within-or_raise none e = Within-idle (raise e) (λ c. (refl, refl))
    Within-or_raise (some a) e = Within-idle (pure a) (λ c. (refl, refl))

    pub Within-attempt : (m : M A) → Within m → Within (attempt m)
    Within-attempt m h = record { at = h.at }

    -- An exception that is turned into another one.
    pub Within-rethrow : (handle : Exn → Exn) (m : M A) → Within m → Within (rethrow handle m)
    Within-rethrow handle m h = record { at = λ c p. rw (state-rethrow handle m c) (h.at c p) }

    pub Within-if : (b : Bool) (m n : M A) → Within m → Within n → Within (if b then m else n)
    Within-if true m n h k = h
    Within-if false m n h k = k

  pub Within-rollback : Within rollback
  Within-rollback = record {
    at = λ c p. record { rows = order.same c.db; valid = λ h. h; open_changes = order.same c.db };
  }

  module _ {A : Type 0} where
    pub Within-pure : (a : A) → Within (pure a)
    Within-pure a = Within-idle (pure a) (λ c. (refl, refl))

    pub Within-raise : (e : Exn) → Within (raise {A = A} e)
    Within-raise e = Within-idle (raise e) (λ c. (refl, refl))

    pub Within-draw : (f : ℕ → A) → Within (draw f)
    Within-draw f = Within-idle (draw f) (λ c. (refl, refl))

    -- A query.
    pub Within-gets : (f : Conn → A) → Within (λ c. (ok (f c), c))
    Within-gets f = Within-idle (λ c. (ok (f c), c)) (λ c. (refl, refl))

    pub Within-with_session : (m : M A) → Within m → (c : Conn) → Allowed c (with_session m c).1
    unfolding with_session
    Within-with_session m h c =
        let a = h.at (opened c) (order.same c.db) in
        record { rows = a.rows; valid = a.valid; open_changes = order.same _ }

  pub Within-log_event :
      (name : String) (details : List (String × Detail)) → Within (log_event name details)
  Within-log_event name details = Within-idle (log_event name details) (λ c. (refl, refl))

  pub Within-add_task : (m : Mail) → Within (add_task m)
  Within-add_task m = Within-idle (add_task m) (λ c. (refl, refl))
