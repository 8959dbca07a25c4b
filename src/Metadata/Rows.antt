-- ===== src/Metadata/Rows.antt =====
-- The rows of src/auth/models as values of their columns.
use package.text.Mathlib.Text.{◌==◌ as str_eq}
use hotspot_payment_gateway.Base.{String, Option, none, some, List, [], ◌∷◌, find}
use hotspot_payment_gateway.Schema.{Value, null, boolean, timestamp, text, Row}
use hotspot_payment_gateway.Auth.Models.{User, RefreshToken, VerificationToken}
use hotspot_payment_gateway.Auth.Times.{instant}

abbrev text_or_null : Option String → Value
text_or_null none = null
text_or_null (some s) = Value.text s

abbrev row_of : List (String × Value) → Row
row_of values name = elim (find (λ (p : String × Value). str_eq p.0 name) values) [
  | none ↦ null
  | some p ↦ p.1
]

abbrev pub user_row : User → Row
user_row u = row_of (
    ("id", Value.uuid u.id)
    ∷ ("tenant_id", Value.uuid u.tenant_id)
    ∷ ("first_name", text_or_null u.first_name)
    ∷ ("last_name", text_or_null u.last_name)
    ∷ ("email", Value.text u.email)
    ∷ ("password_hash", text_or_null u.password_hash)
    ∷ ("is_email_verified", boolean u.is_email_verified)
    ∷ ("profile_photo_url", text_or_null u.profile_photo_url)
    ∷ ("created_at", timestamp (instant u.created_at))
    ∷ ("updated_at", timestamp (instant u.updated_at))
    ∷ [])

abbrev pub refresh_token_row : RefreshToken → Row
refresh_token_row r = row_of (
    ("id", Value.uuid r.id)
    ∷ ("user_id", Value.uuid r.user_id)
    ∷ ("token_hash", Value.text r.token_hash)
    ∷ ("created_at", timestamp (instant r.created_at))
    ∷ ("expires_at", timestamp (instant r.expires_at))
    ∷ ("is_revoked", boolean r.is_revoked)
    ∷ [])

abbrev pub verification_token_row : VerificationToken → Row
verification_token_row v = row_of (
    ("id", Value.uuid v.id)
    ∷ ("user_id", Value.uuid v.user_id)
    ∷ ("purpose", Value.text v.purpose)
    ∷ ("token_hash", Value.text v.token_hash)
    ∷ ("expires_at", timestamp (instant v.expires_at))
    ∷ ("used_at", elim v.used_at [ none ↦ null | some at ↦ timestamp (instant at) ])
    ∷ ("created_at", timestamp (instant v.created_at))
    ∷ [])
