-- ===== src/Auth/Times.antt =====
-- Times of src/auth/service.py: lifetimes, and the comparison of a stored time with the clock.
use hotspot_payment_gateway.Base.{ℕ, ◌*◌, Bool, Option, none, some, ltb}
use hotspot_payment_gateway.Runtime.{Env, DateTime, naive, aware}
use hotspot_payment_gateway.Auth.Session.{M, ◌>>=◌, or_raise, draw, type_error}

-- `timedelta`, in microseconds.
abbrev pub minutes : ℕ → ℕ
minutes n = n * 60000000

abbrev pub hours : ℕ → ℕ
hours n = n * 3600000000

abbrev pub days : ℕ → ℕ
days n = n * 86400000000

-- `_as_utc`
unfoldable pub as_utc : DateTime → DateTime
as_utc (naive t) = aware t
as_utc (aware t) = aware t

-- The instant of a stored time, with or without its zone.
abbrev pub instant : DateTime → ℕ
instant (naive t) = t
instant (aware t) = t

-- `a < b` on datetimes: `none` is the `TypeError` for a naive and an aware one.
abbrev pub before : DateTime → DateTime → Option Bool
before (naive a) (naive b) = some (ltb a b)
before (aware a) (aware b) = some (ltb a b)
before _ _ = none

module _ ⦃env : Env⦄ where
  -- `_as_utc(d) < datetime.now(UTC)`
  unfoldable pub is_past : DateTime → M Bool
  unfolding as_utc
  is_past d = do now ← draw env.now; or_raise (before (as_utc d) (aware now)) type_error
