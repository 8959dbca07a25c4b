-- ===== src/Auth/Sessions.antt =====
-- The sessions that src/auth/service.py keeps, without their rows: what each hash opens.
pub mod Rows
pub mod Refines
pub mod Race
pub mod Overtaken
pub mod Twice
use text.Mathlib.Text.{◌==◌ as str_eq}
use hotspot_payment_gateway.Base.{
  ℕ, String, Bool, not, ◌&&◌, Option, none, some, ◌==◌, find, if◌then◌else◌,
}
use hotspot_payment_gateway.Runtime.{DateTime}
use hotspot_payment_gateway.Auth.Models.{RefreshToken, Tables}

pub record Session : Type 0 where
  pub user_id : ℕ
  pub expires_at : DateTime

-- The open sessions, by the hash of their token.
abbrev pub Sessions : Type 0
Sessions = String → Option Session

abbrev pub opens : String → RefreshToken → Bool
opens h r = str_eq r.token_hash h && not r.is_revoked

abbrev pub session_of : Option RefreshToken → Option Session
session_of none = none
session_of (some r) = some (record { user_id = r.user_id; expires_at = r.expires_at })

-- The sessions that the rows stand for.
pub sessions : Tables → Sessions
sessions t h = session_of (find (opens h) t.refresh_tokens)

-- One session more, one less, and none of a user.
abbrev pub opened : String → Session → Sessions → Sessions
opened h s all other = if str_eq h other then some s else all other

abbrev pub closed : String → Sessions → Sessions
closed h all other = if str_eq h other then none else all other

abbrev pub unless_of : ℕ → Option Session → Option Session
unless_of id none = none
unless_of id (some s) = if s.user_id == id then none else some s

abbrev pub closed_user : ℕ → Sessions → Sessions
closed_user id all other = unless_of id (all other)
