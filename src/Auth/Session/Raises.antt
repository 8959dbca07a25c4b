-- ===== src/Auth/Session/Raises.antt =====
-- Which exceptions a run can raise, by one rule for each way to build a run.
use hotspot_payment_gateway.Base.{
  ℕ, String, ◌≡◌, refl, Bool, true, false, Option, none, some, List, if◌then◌else◌, arith,
}
use hotspot_payment_gateway.Auth.Models.{Tables}
use hotspot_payment_gateway.Auth.Session.{
  Conn, Exn, Result, ok, raised, M, pure, raise, or_raise, continue, ◌>>=◌, change, commit,
  rollback, draw, log_event, add_task, Detail, Mail, integrity_error,
}

-- Every exception of the run has the property.
pub record Raises (P : Exn → Type 0) {A : Type 0} (m : M A) : Type 0 where
  pub at : (c : Conn) (e : Exn) → (m c).0 ≡ raised e → P e

exn_eq :
    {A : Type 0} (P : Exn → Type 0) (d e : Exn)
    → P d
    → ◌≡◌ {A = Result A} (raised d) (raised e)
    → P e
exn_eq P d e h x = let y : d ≡ e = cc in rw y at h

module _ {P : Exn → Type 0} {A B : Type 0} where
  continue-Raises :
      (r : Result A) (f : A → M B) (c : Conn) (e : Exn)
      → ((d : Exn) → r ≡ raised d → P d)
      → ((a : A) → Raises P (f a))
      → (continue r f c).0 ≡ raised e
      → P e
  continue-Raises (ok a) f c e h k x = (k a).at c e x
  continue-Raises (raised d) f c e h k x = exn_eq P d e (h d refl) x

  pub Raises-bind :
      (m : M A) (f : A → M B) → Raises P m → ((a : A) → Raises P (f a)) → Raises P (m >>= f)
  Raises-bind m f h k = record {
    at = λ c e x. continue-Raises (m c).0 f (m c).1 e (λ d y. h.at c d y) k x;
  }

module _ {P : Exn → Type 0} {A : Type 0} where
  pub Raises-pure : (a : A) → Raises P (pure a)
  Raises-pure a = record { at = λ c e x. cc }

  pub Raises-draw : (f : ℕ → A) → Raises P (draw f)
  Raises-draw f = record { at = λ c e x. cc }

  pub Raises-gets : (f : Conn → A) → Raises P (λ c. (ok (f c), c))
  Raises-gets f = record { at = λ c e x. cc }

  pub Raises-raise : (d : Exn) → P d → Raises P (raise {A = A} d)
  Raises-raise d h = record { at = λ c e x. exn_eq P d e h x }

  pub Raises-or_raise : (o : Option A) (d : Exn) → P d → Raises P (or_raise o d)
  Raises-or_raise none d h = Raises-raise d h
  Raises-or_raise (some a) d h = Raises-pure a

  pub Raises-if : (b : Bool) (m n : M A) → Raises P m → Raises P n → Raises P (if b then m else n)
  Raises-if true m n h k = h
  Raises-if false m n h k = k

module _ {P : Exn → Type 0} where
  pub Raises-change : (f : Tables → Tables) → Raises P (change f)
  Raises-change f = record { at = λ c e x. cc }

  pub Raises-rollback : Raises P rollback
  Raises-rollback = record { at = λ c e x. cc }

  pub Raises-log_event :
      (name : String) (details : List (String × Detail)) → Raises P (log_event name details)
  Raises-log_event name details = record { at = λ c e x. cc }

  pub Raises-add_task : (m : Mail) → Raises P (add_task m)
  Raises-add_task m = record { at = λ c e x. cc }

  pub Raises-commit : P integrity_error → Raises P commit
  unfolding commit
  Raises-commit h = record {
    at = λ c e x. exn_eq {A = Unit {0}} P integrity_error e h (ground arith);
  }

pub ruleset raising = (
  Raises-bind, Raises-pure, Raises-draw, Raises-gets, Raises-raise, Raises-or_raise, Raises-if,
  Raises-change, Raises-rollback, Raises-log_event, Raises-add_task, Raises-commit,
)
