-- ===== src/Migrations/Encryption/RoundTrip.antt =====
-- What the upgrade to the revision f29672c8ed8f keeps, and that the downgrade undoes it.
use hotspot_payment_gateway.Base.{
  ℕ, String, ◌≡◌, refl, ◌∙◌, true, none, some, List, map, All, all, distinct,
}
use hotspot_payment_gateway.Core.Encryption.{value, get_key}
use hotspot_payment_gateway.Schema.{restrict, Row, Table, Rowwise}
use hotspot_payment_gateway.Schema.Ddl.{Server, Database, done, ◌>>◌, refers}
use hotspot_payment_gateway.Schema.Runs.{then-done}
use hotspot_payment_gateway.Migrations.States.{Front}
use hotspot_payment_gateway.Migrations.Batches.Keyed.{same_id}
use hotspot_payment_gateway.Migrations.Encryption.{upgrade, downgrade}
use hotspot_payment_gateway.Migrations.Encryption.Tables.{stage}
use hotspot_payment_gateway.Migrations.Encryption.Keys.{Named, tenant_keys, head_keys}
use hotspot_payment_gateway.Migrations.Encryption.Upgrade.{
  tenant_columns, head_columns, sealed_row, sealed_rows, last_draw, upgrade-done, all-sealed_rows,
}
use hotspot_payment_gateway.Migrations.Encryption.Downgrade.{
  back_columns, opened_row, downgrade-done,
}
use hotspot_payment_gateway.Migrations.Encryption.Kept.{
  Encrypted, Restored, Stored, Stored-ids, sealed_rows-Encrypted, sealed_rows-CanOpen,
  opened-sealed_rows, distinct-sealed_rows,
}

module _ ⦃server : Server⦄ where
  module _ (key : String) (keyed : get_key ⦃lib = server.fernet⦄ server.encryption_key ≡ value key)
      (front : Front) (plans routers : List Row) (others : List Table) (plan router tenant : String)
      (named : Named plan router tenant) (rows : List Row) (n : ℕ)
      (unique : distinct same_id rows ≡ true) (stored : All Stored rows)
      (has_plans : all (refers "plan_id" "id" plans) rows ≡ true)
      (has_routers : all (refers "router_id" "id" routers) rows ≡ true) where
    abbrev pub before : Database
    before = stage front plans routers others tenant_columns (tenant_keys plan router tenant) rows n

    abbrev pub head : List Row → ℕ → Database
    head = stage front plans routers others head_columns (head_keys tenant (some restrict))

    upgraded : upgrade before ≡ done tt (head (sealed_rows key n rows) (last_draw key n rows))
    upgraded =
        upgrade-done key keyed front plans routers others plan router tenant named rows n unique
          (Stored-ids rows stored) has_plans has_routers

    -- The upgrade to f29672c8ed8f, on a database that the upgrade before made, with the tables in
    -- the order of that upgrade, whose transactions have distinct identifiers, credentials of at
    -- most 80 characters and plans and routers that exist, where a key is configured and the names
    -- of the foreign keys are non-empty and free for the new ones, ends without an error after
    -- reading all batches. Every transaction then holds its credentials as tokens that decrypt to
    -- them, has no plain credential left, and is otherwise unchanged.
    pub upgrade-Encrypted :
        (sealed : List Row) × (m : ℕ) × (upgrade before ≡ done tt (head sealed m))
        × Rowwise Encrypted rows sealed
    upgrade-Encrypted =
        (sealed_rows key n rows, _, upgraded, sealed_rows-Encrypted key keyed n rows)

    -- The upgrade to f29672c8ed8f and then its downgrade, on a database that the upgrade before
    -- made, with the tables in the order of that upgrade, whose transactions have distinct
    -- identifiers, credentials of at most 80 characters and plans and routers that exist, where a
    -- key is configured and the names of the foreign keys are non-empty and free for the new ones,
    -- succeed and give every transaction its plain credentials back; no column but those of the
    -- tokens differs from the start.
    pub upgrade-downgrade :
        (back : List Row) × (m : ℕ) × ((upgrade >> downgrade) before
          ≡ done tt (stage front plans routers others back_columns (head_keys tenant none) back m))
        × Rowwise Restored rows back
    upgrade-downgrade = (
      map opened_row (sealed_rows key n rows),
      last_draw key n rows,
      then-done upgrade downgrade before upgraded
          ∙ downgrade-done front plans routers others tenant named.tenant_free named.tenant_other
              (sealed_rows key n rows) (last_draw key n rows)
              (distinct-sealed_rows key keyed n rows ∙ unique)
              (sealed_rows-CanOpen key keyed n rows stored)
              (all-sealed_rows key (refers "plan_id" "id" plans) (λ m r. unfold sealed_row in refl)
                  n rows
                ∙ has_plans)
              (all-sealed_rows key (refers "router_id" "id" routers)
                  (λ m r. unfold sealed_row in refl) n rows
                ∙ has_routers),
      opened-sealed_rows key keyed n rows stored,
    )
