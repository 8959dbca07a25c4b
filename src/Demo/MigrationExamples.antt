-- ===== src/Demo/MigrationExamples.antt =====
-- The properties of the migrations and of encrypted credentials at concrete databases.
use Prim.Native.String.{◌++◌ as str_append}
use hotspot_payment_gateway.Base.{
  ℕ, String, ◌≡◌, refl, true, none, some, List, [], ◌∷◌, ◌++◌, if◌then◌else◌,
}
use text.Mathlib.Text.{◌==◌ as str_eq}
use hotspot_payment_gateway.Runtime.{naive}
use hotspot_payment_gateway.Core.Encryption.{value, get_key}
use hotspot_payment_gateway.Schema.{restrict, Value, null, Row, Rowwise}
use hotspot_payment_gateway.Schema.Ddl.{Server, Failure, Database, done, ◌>>◌}
use hotspot_payment_gateway.Metadata.Models.{metadata}
use hotspot_payment_gateway.Metadata.Same.{same_schema}
use hotspot_payment_gateway.Migrations.Tenants
use hotspot_payment_gateway.Migrations.Encryption
use hotspot_payment_gateway.Migrations.Encryption.{joined}
use hotspot_payment_gateway.Migrations.States.{Front, seeded, at_verification_tokens, at_tenants}
use hotspot_payment_gateway.Migrations.Backfill.{before, assigned, upgrade-backfill}
use hotspot_payment_gateway.Migrations.Encryption.Tables.{stage}
use hotspot_payment_gateway.Migrations.Encryption.Keys.{Named, tenant_keys, head_keys}
use hotspot_payment_gateway.Migrations.Encryption.Upgrade.{tenant_columns, head_columns}
use hotspot_payment_gateway.Migrations.Encryption.Downgrade.{back_columns}
use hotspot_payment_gateway.Migrations.Encryption.Kept.{Encrypted, Restored, Stored}
use hotspot_payment_gateway.Migrations.Encryption.RoundTrip.{upgrade-Encrypted, upgrade-downgrade}
use hotspot_payment_gateway.Migrations.Head.{upgrades-metadata}
use hotspot_payment_gateway.Alembic.{do_run_migrations}
use hotspot_payment_gateway.Alembic.Rollback.{do_run_migrations-downgrade}
use hotspot_payment_gateway.Payment.{
  Transaction, pending, mtn_uganda, mikrotik_username, set_mikrotik_username, mikrotik_password,
  set_mikrotik_password,
}
use hotspot_payment_gateway.Payment.Credentials.{set-mikrotik_credentials}
use hotspot_payment_gateway.Demo.OutsideExamples.{marking}

-- PostgreSQL's names for foreign keys that have none.
abbrev postgres : Server
postgres = record {
  fernet = marking;
  encryption_key = some "key";
  now = 1000;
  automatic_name = λ table columns.
      some (str_append table (str_append "_" (str_append (joined columns) "_fkey")));
}

abbrev row_of : List (String × Value) → Row
row_of [] name = null
row_of ((column, v) ∷ rest) name = if str_eq column name then v else row_of rest name

abbrev jane_row : Row
jane_row = row_of (("id", Value.uuid 5) ∷ ("email", Value.text "jane@example.com") ∷ [])

upgrade-backfill_example :
    Tenants.upgrade ⦃server = postgres⦄ (before ⦃server = postgres⦄ (jane_row ∷ []) [] [] [] 0)
    ≡ done tt (record {
      tables =
          at_tenants ⦃server = postgres⦄
            (assigned ⦃server = postgres⦄ (jane_row ∷ []) [] [] [] 0)
            []
            []
            [];
      draws = 0;
    })
upgrade-backfill_example = upgrade-backfill ⦃server = postgres⦄ (jane_row ∷ []) [] [] [] 0

postgres_names :
    Named "transactions_plan_id_fkey" "transactions_router_id_fkey" "transactions_tenant_id_fkey"
postgres_names = record {
  plan_used = refl;
  router_used = refl;
  router_free = refl;
  tenant_free = refl;
  tenant_other = refl;
}

upgrades-metadata_example :
    (db : Database) × ((Tenants.upgrade ⦃server = postgres⦄
          >> Encryption.upgrade ⦃server = postgres⦄)
        (record {
          tables = at_verification_tokens ⦃server = postgres⦄ (jane_row ∷ []) [] [] [];
          draws = 0;
        })
      ≡ done tt db)
    × (same_schema metadata db.tables ≡ true)
unfolding get_key
upgrades-metadata_example =
    upgrades-metadata ⦃server = postgres⦄ "key" refl "transactions_plan_id_fkey"
      "transactions_router_id_fkey" "transactions_tenant_id_fkey" postgres_names refl refl refl
      (jane_row ∷ []) [] [] [] 0

do_run_migrations-downgrade_example :
    (e : Failure) × (do_run_migrations
        (Encryption.downgrade ⦃server = postgres⦄ ∷ [] ++ Tenants.downgrade ∷ [])
        (before ⦃server = postgres⦄ [] [] [] [] 0)
      ≡ (before ⦃server = postgres⦄ [] [] [] [] 0, some e))
do_run_migrations-downgrade_example =
    do_run_migrations-downgrade (Encryption.downgrade ⦃server = postgres⦄ ∷ []) []
      (before ⦃server = postgres⦄ [] [] [] [] 0)

-- A paid transaction, its plan and its router.
abbrev bought : Row
bought = row_of (
    ("id", Value.uuid 7)
    ∷ ("plan_id", Value.uuid 3)
    ∷ ("router_id", Value.uuid 4)
    ∷ ("mikrotik_username", Value.text "guest")
    ∷ ("mikrotik_password", Value.text "secret")
    ∷ [])

abbrev with_id : ℕ → Row
with_id k = row_of (("id", Value.uuid k) ∷ [])

abbrev front_rows : Front
front_rows = seeded ⦃server = postgres⦄ [] [] [] []

bought-Stored : Stored ⦃server = postgres⦄ bought
bought-Stored = record {
  has_id = refl;
  username = some "guest";
  password = some "secret";
  username_is = refl;
  password_is = refl;
  username_fits = refl;
  password_fits = refl;
}

abbrev paid : Database
paid =
    stage ⦃server = postgres⦄ front_rows (with_id 3 ∷ []) (with_id 4 ∷ []) [] tenant_columns
      (tenant_keys "transactions_plan_id_fkey" "transactions_router_id_fkey"
        "transactions_tenant_id_fkey")
      (bought ∷ []) 0

upgrade-Encrypted_example :
    (sealed : List Row) × (m : ℕ) × (Encryption.upgrade ⦃server = postgres⦄ paid
      ≡ done tt (
          stage ⦃server = postgres⦄ front_rows
            (with_id 3 ∷ [])
            (with_id 4 ∷ [])
            []
            head_columns
            (head_keys "transactions_tenant_id_fkey" (some restrict))
            sealed
            m))
    × Rowwise (Encrypted ⦃server = postgres⦄) (bought ∷ []) sealed
unfolding get_key
upgrade-Encrypted_example =
    upgrade-Encrypted ⦃server = postgres⦄ "key" refl front_rows (with_id 3 ∷ []) (with_id 4 ∷ []) []
      "transactions_plan_id_fkey" "transactions_router_id_fkey" "transactions_tenant_id_fkey"
      postgres_names (bought ∷ []) 0 refl (bought-Stored, tt) refl refl

upgrade-downgrade_example :
    (back : List Row) × (m : ℕ) × ((Encryption.upgrade ⦃server = postgres⦄
          >> Encryption.downgrade ⦃server = postgres⦄)
        paid
      ≡ done tt (
          stage ⦃server = postgres⦄ front_rows
            (with_id 3 ∷ [])
            (with_id 4 ∷ [])
            []
            back_columns
            (head_keys "transactions_tenant_id_fkey" none)
            back
            m))
    × Rowwise (Restored ⦃server = postgres⦄) (bought ∷ []) back
unfolding get_key
upgrade-downgrade_example =
    upgrade-downgrade ⦃server = postgres⦄ "key" refl front_rows (with_id 3 ∷ []) (with_id 4 ∷ []) []
      "transactions_plan_id_fkey" "transactions_router_id_fkey" "transactions_tenant_id_fkey"
      postgres_names (bought ∷ []) 0 refl (bought-Stored, tt) refl refl

abbrev payment : Transaction
payment = record {
  id = 7;
  tenant_id = 1;
  plan_id = 3;
  router_id = 4;
  phone_number = "256700000000";
  amount_ugx = 1000;
  status = pending;
  relworx_internal_ref = none;
  provider = mtn_uganda;
  relworx_charge_ugx = none;
  mac_address = none;
  mikrotik_username_enc = none;
  mikrotik_password_enc = none;
  webhook_received_at = none;
  provisioning_attempts = 0;
  created_at = naive 1000;
  completed_at = none;
  expires_at = none;
}

set-mikrotik_credentials_example :
    (u : Transaction) × (w : Transaction) × (set_mikrotik_username ⦃lib = marking⦄
        (some "key")
        (some "guest")
        0
        payment
      ≡ value u)
    × (set_mikrotik_password ⦃lib = marking⦄ (some "key") none 1 u ≡ value w)
    × (mikrotik_username ⦃lib = marking⦄ (some "key") u ≡ value (some "guest"))
    × (mikrotik_password ⦃lib = marking⦄ (some "key") u
        ≡ mikrotik_password ⦃lib = marking⦄ (some "key") payment)
    × (mikrotik_username ⦃lib = marking⦄ (some "key") w ≡ value (some "guest"))
    × (mikrotik_password ⦃lib = marking⦄ (some "key") w ≡ value none)
unfolding get_key
set-mikrotik_credentials_example =
    set-mikrotik_credentials ⦃lib = marking⦄ (some "key") "key" refl (λ text n. refl) (some "guest")
      none 0 1 payment

-- A credential of 81 characters.
abbrev long_name : String
long_name = "nnnnnnnnnnnnnnnnnnnnnnnnnnnnnnnnnnnnnnnnnnnnnnnnnnnnnnnnnnnnnnnnnnnnnnnnnnnnnnnnn"

abbrev sealed_bought : Row
sealed_bought = row_of (
    ("id", Value.uuid 7)
    ∷ ("mikrotik_username_enc", Value.text (marking.fernet_encrypt "key" long_name 0))
    ∷ [])

abbrev at_head : Database
at_head =
    stage ⦃server = postgres⦄ front_rows (with_id 3 ∷ []) (with_id 4 ∷ []) [] head_columns
      (head_keys "transactions_tenant_id_fkey" (some restrict)) (sealed_bought ∷ []) 0
