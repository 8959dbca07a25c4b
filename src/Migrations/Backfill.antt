-- ===== src/Migrations/Backfill.antt =====
-- The revision a5cb24869a7c on a database that has users.
use text.Mathlib.Text.{◌==◌ as str_eq}
use mathlib.Core.Path.{fun_ext}
use hotspot_payment_gateway.Base.{
  String, ℕ, ◌≡◌, refl, ap, ◌∙◌, Bool, true, false, some, List, [], ◌∷◌, map, all, Bool-cases, inl,
  inr, ◌++◌,
}
use hotspot_payment_gateway.Schema.{
  ColumnType, cascade, Value, null, Row, Table, column, foreign_key, set_value,
}
use hotspot_payment_gateway.Schema.Ddl.{
  Server, Database, done, ◌>>◌, Migration, set_not_null, create_index, create_foreign_key,
}
use hotspot_payment_gateway.Schema.Runs.{
  then-done, set_not_null-done, create_foreign_key-done, name_taken-nil,
}
use hotspot_payment_gateway.Migrations.States.{
  user_columns, users_table, auth_tables, tenants_table, default_tenants, audit_table,
  configs_table, empty_tables, at_verification_tokens, at_tenants,
}
use hotspot_payment_gateway.Migrations.Users
use hotspot_payment_gateway.Migrations.VerificationTokens
use hotspot_payment_gateway.Migrations.Tenants.{default_tenant}
use hotspot_payment_gateway.Migrations.Tenants

all-set_value :
    (p : Row → Bool) (name : String) (v : Value) (rows : List Row)
    → ((r : Row) → p (set_value name v r) ≡ true)
    → all p (map (set_value name v) rows) ≡ true
all-set_value p name v [] h = refl
all-set_value p name v (r ∷ rows) h = rw (h r, all-set_value p name v rows h) refl

map-set_value :
    (name : String) (v w : Value) (rows : List Row)
    → map (set_value name v) (map (set_value name w) rows) ≡ map (set_value name v) rows
map-set_value name v w [] = refl
map-set_value name v w (r ∷ rows) = rw (once, map-set_value name v w rows) refl
  where
    once : set_value name v (set_value name w r) ≡ set_value name v r
    once =
        fun_ext
          (λ other. elim (Bool-cases (str_eq name other)) [ inl e ↦ rw e refl | inr e ↦ rw e refl ])

module _ ⦃server : Server⦄ where
  -- The first two upgrades make the database of `at_verification_tokens` with no rows.
  pub first_upgrades :
      (n : ℕ)
      → (Users.upgrade >> VerificationTokens.upgrade) (record { tables = []; draws = n })
        ≡ done tt (record { tables = at_verification_tokens [] [] [] []; draws = n })
  unfolding Users.upgrade VerificationTokens.upgrade
  first_upgrades n = refl

  module _ (users providers sessions tokens : List Row) (n : ℕ) where
    abbrev pub before : Database
    before = record { tables = at_verification_tokens users providers sessions tokens; draws = n }

    abbrev pub assigned : List Row
    assigned = map (set_value "tenant_id" (Value.uuid default_tenant)) users

    -- The users after each statement of the backfill.
    abbrev null_rows : List Row
    null_rows = map (set_value "tenant_id" null) users

    abbrev backfilled : List Row
    backfilled = map (set_value "tenant_id" (Value.uuid default_tenant)) null_rows

    abbrev others : List Table
    others =
        auth_tables providers sessions tokens
        ++ (tenants_table default_tenants ∷ audit_table [] ∷ configs_table [] ∷ empty_tables)

    abbrev with_users : Table → Database
    with_users t = record { tables = t ∷ others; draws = n }

    create_lem :
        (Tenants.create_domain >> Tenants.create_payments) before
        ≡ done tt (with_users (users_table users))
    unfolding Tenants.create_domain Tenants.create_payments
    create_lem = refl

    abbrev nullable_users : List Row → Table
    nullable_users rows = record (users_table rows) {
      columns = (users_table rows).columns ++ column "tenant_id" ColumnType.uuid true ∷ [];
    }

    abbrev required_users : Table
    required_users = record (user_columns (users_table backfilled)) { foreign_keys = [] }

    abbrev link : Migration (Unit {0})
    link = do
      create_index "ix_users_tenant_id" "users" ("tenant_id" ∷ []) false
      create_foreign_key "users" (foreign_key "tenant_id" "tenants" (some cascade))

    add_tenant_id_lem :
        Tenants.add_tenant_id (with_users (users_table users))
        ≡ done tt (with_users (user_columns (users_table backfilled)))
    unfolding Tenants.add_tenant_id
    add_tenant_id_lem =
        then-done (set_not_null "users" "tenant_id") link (with_users (nullable_users backfilled)) (
          set_not_null-done "users" "tenant_id" (nullable_users backfilled)
            (with_users (nullable_users backfilled)) refl refl
            (all-set_value _ "tenant_id" _ null_rows (λ r. refl)))
        ∙ create_foreign_key-done "users" (foreign_key "tenant_id" "tenants" (some cascade))
            required_users (tenants_table default_tenants) (with_users required_users) refl refl
            refl refl (name_taken-nil _) (all-set_value _ "tenant_id" _ null_rows (λ r. refl))

    -- Upgrading to a5cb24869a7c succeeds from every database of the revision before, whatever
    -- users, providers and tokens it has: it adds the domain tables with the default tenant, gives
    -- that tenant to every user, and leaves all else of every row as it was.
    pub upgrade-backfill :
        Tenants.upgrade before
        ≡ done tt (record { tables = at_tenants assigned providers sessions tokens; draws = n })
    unfolding Tenants.upgrade
    upgrade-backfill =
        then-done (Tenants.create_domain >> Tenants.create_payments) Tenants.add_tenant_id before
          create_lem
        ∙ (add_tenant_id_lem
            ∙ ap (λ rows. done tt (with_users (user_columns (users_table rows))))
                (map-set_value "tenant_id" (Value.uuid default_tenant) null users))
