-- ===== src/Migrations/Encryption/TooLong.antt =====
-- The downgrade from the revision f29672c8ed8f where a credential is longer than the old column.
use hotspot_payment_gateway.Base.{ℕ, String, ◌≡◌, Bool, true, not, ◌&&◌, Option, List, any}
use hotspot_payment_gateway.Core.Encryption.{value}
use hotspot_payment_gateway.Schema.{varchar, ForeignKey, Row, Table, fits, value_eq}
use hotspot_payment_gateway.Schema.Ddl.{Server, Database}
use hotspot_payment_gateway.Migrations.States.{Front}
use hotspot_payment_gateway.Migrations.Batches.Keyed.{same_id}
use hotspot_payment_gateway.Migrations.Encryption.{text_of}
use hotspot_payment_gateway.Migrations.Encryption.Rows.{decrypted, decrypted_param}
use hotspot_payment_gateway.Migrations.Encryption.Tables.{stage}
use hotspot_payment_gateway.Migrations.Encryption.Downgrade.{reopened_columns}

-- The identifier is one of the table's.
abbrev Known : Row → List Row → Type 0
Known r table = any (λ (s : Row). value_eq (s "id") (r "id")) table ≡ true

module _ ⦃server : Server⦄ where
  -- A row with an identifier, whose tokens decrypt.
  pub record Decrypts (r : Row) : Type 0 where
    pub has_id : same_id r r ≡ true
    pub username : Option String
    pub password : Option String
    pub username_opens : decrypted (text_of (r "mikrotik_username_enc")) ≡ value username
    pub password_opens : decrypted (text_of (r "mikrotik_password_enc")) ≡ value password

  -- One of the decrypted credentials has more than 80 characters.
  abbrev pub too_long : Row → Bool
  too_long r = not (
      fits (varchar 80) (decrypted_param r 0).username
      && fits (varchar 80) (decrypted_param r 0).password)

  module _ (front : Front) (plans routers : List Row) (others : List Table)
      (keys : List ForeignKey) where
    abbrev reopened : List Row → ℕ → Database
    reopened = stage front plans routers others reopened_columns keys
