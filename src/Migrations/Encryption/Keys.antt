-- ===== src/Migrations/Encryption/Keys.antt =====
-- The foreign keys of `transactions` as the migrations of the revision f29672c8ed8f recreate them.
use text.Mathlib.Text.{◌==◌ as str_eq}
use text.Mathlib.TextEquality.{eq_iff}
use hotspot_payment_gateway.Base.{
  ℕ, String, ◌≡◌, refl, ◌∙◌, true, false, Option, none, some, List, [], ◌∷◌, all,
}
use hotspot_payment_gateway.Base.Texts.{is_empty}
use hotspot_payment_gateway.Schema.{Column, OnDelete, cascade, restrict, ForeignKey, Row, Table}
use hotspot_payment_gateway.Schema.Ddl.{Server, Migration, done, ◌>>◌, refers, has_column}
use hotspot_payment_gateway.Schema.Runs.{then-done, drop_named-first, drop_named-second}
use hotspot_payment_gateway.Migrations.States.{Front, plans_table, routers_table}
use hotspot_payment_gateway.Migrations.Encryption.{recreate_foreign_key}
use hotspot_payment_gateway.Migrations.Encryption.Tables.{key_on, stage, recreate_foreign_key-done}

-- The names of the keys of `transactions` at the revision before: each is a text, and none is a
-- name that the upgrade gives.
pub record Named (plan router tenant : String) : Type 0 where
  pub plan_used : is_empty plan ≡ false
  pub router_used : is_empty router ≡ false
  pub router_free : str_eq router "fk_transactions_plan_id" ≡ false
  pub tenant_free : str_eq tenant "fk_transactions_plan_id" ≡ false
  pub tenant_other : str_eq tenant "fk_transactions_router_id" ≡ false

abbrev pub tenant_keys : String → String → String → List ForeignKey
tenant_keys plan router tenant =
    key_on plan "plan_id" "plans" none
    ∷ key_on router "router_id" "routers" none
    ∷ key_on tenant "tenant_id" "tenants" (some cascade)
    ∷ []

abbrev pub head_keys : String → Option OnDelete → List ForeignKey
head_keys tenant on_delete =
    key_on tenant "tenant_id" "tenants" (some cascade)
    ∷ key_on "fk_transactions_plan_id" "plan_id" "plans" on_delete
    ∷ key_on "fk_transactions_router_id" "router_id" "routers" on_delete
    ∷ []

abbrev first_keys : String → String → List ForeignKey
first_keys router tenant =
    key_on router "router_id" "routers" none
    ∷ key_on tenant "tenant_id" "tenants" (some cascade)
    ∷ key_on "fk_transactions_plan_id" "plan_id" "plans" (some restrict)
    ∷ []

-- The last two calls of either migration.
abbrev pub recreate_keys : ⦃server : Server⦄ → Option OnDelete → Migration (Unit {0})
recreate_keys on_delete = do
  recreate_foreign_key "transactions" ("plan_id" ∷ []) "plans" ("id" ∷ []) on_delete
  recreate_foreign_key "transactions" ("router_id" ∷ []) "routers" ("id" ∷ []) on_delete

module _ ⦃server : Server⦄ (front : Front) (plans routers : List Row) (others : List Table)
    (columns : List Column) (plan_column : has_column "plan_id" columns ≡ true)
    (router_column : has_column "router_id" columns ≡ true) (rows : List Row) (n : ℕ)
    (has_plans : all (refers "plan_id" "id" plans) rows ≡ true)
    (has_routers : all (refers "router_id" "id" routers) rows ≡ true) where
  pub recreate_keys-first :
      (plan router tenant : String)
      → Named plan router tenant
      → recreate_keys
          (some restrict)
          (stage front plans routers others columns (tenant_keys plan router tenant) rows n)
        ≡ done tt
            (stage front plans routers others columns (head_keys tenant (some restrict)) rows n)
  recreate_keys-first plan router tenant named =
      then-done
        (recreate_foreign_key "transactions" ("plan_id" ∷ []) "plans" ("id" ∷ []) (some restrict))
        (recreate_foreign_key "transactions" ("router_id" ∷ []) "routers" ("id" ∷ [])
          (some restrict))
        (stage front plans routers others columns (tenant_keys plan router tenant) rows n)
        (recreate_foreign_key-done front plans routers others columns
          (tenant_keys plan router tenant) rows n "plan_id" "plans" plan (some restrict)
          (key_on plan "plan_id" "plans" none)
          (key_on router "router_id" "routers" none
            ∷ key_on tenant "tenant_id" "tenants" (some cascade)
            ∷ [])
          (plans_table plans) refl refl named.plan_used (rw ((eq_iff plan plan).1 refl) refl) refl
          plan_column refl (rw (named.router_free, named.tenant_free) refl)
          (drop_named-first plan (key_on plan "plan_id" "plans" none) _ ((eq_iff plan plan).1 refl))
          has_plans)
      ∙ recreate_foreign_key-done front plans routers others columns (first_keys router tenant) rows
          n "router_id" "routers" router (some restrict) (key_on router "router_id" "routers" none)
          (key_on tenant "tenant_id" "tenants" (some cascade)
            ∷ key_on "fk_transactions_plan_id" "plan_id" "plans" (some restrict)
            ∷ [])
          (routers_table routers) refl refl named.router_used
          (rw ((eq_iff router router).1 refl) refl) refl router_column refl
          (rw named.tenant_other refl)
          (drop_named-first router (key_on router "router_id" "routers" none) _
            ((eq_iff router router).1 refl))
          has_routers

  pub recreate_keys-again :
      (tenant : String) (before after : Option OnDelete)
      → str_eq tenant "fk_transactions_plan_id" ≡ false
      → str_eq tenant "fk_transactions_router_id" ≡ false
      → recreate_keys after
          (stage front plans routers others columns (head_keys tenant before) rows n)
        ≡ done tt (stage front plans routers others columns (head_keys tenant after) rows n)
  recreate_keys-again tenant before after free other =
      then-done (recreate_foreign_key "transactions" ("plan_id" ∷ []) "plans" ("id" ∷ []) after)
        (recreate_foreign_key "transactions" ("router_id" ∷ []) "routers" ("id" ∷ []) after)
        (stage front plans routers others columns (head_keys tenant before) rows n)
        (recreate_foreign_key-done front plans routers others columns (head_keys tenant before) rows
          n "plan_id" "plans" "fk_transactions_plan_id" after
          (key_on "fk_transactions_plan_id" "plan_id" "plans" before)
          (key_on tenant "tenant_id" "tenants" (some cascade)
            ∷ key_on "fk_transactions_router_id" "router_id" "routers" before
            ∷ [])
          (plans_table plans) refl refl refl (rw free refl) refl plan_column refl (rw free refl)
          (drop_named-second "fk_transactions_plan_id"
            (key_on tenant "tenant_id" "tenants" (some cascade))
            (key_on "fk_transactions_plan_id" "plan_id" "plans" before) _ free refl)
          has_plans)
      ∙ recreate_foreign_key-done front plans routers others columns
          (key_on tenant "tenant_id" "tenants" (some cascade)
            ∷ key_on "fk_transactions_router_id" "router_id" "routers" before
            ∷ key_on "fk_transactions_plan_id" "plan_id" "plans" after
            ∷ [])
          rows n "router_id" "routers" "fk_transactions_router_id" after
          (key_on "fk_transactions_router_id" "router_id" "routers" before)
          (key_on tenant "tenant_id" "tenants" (some cascade)
            ∷ key_on "fk_transactions_plan_id" "plan_id" "plans" after
            ∷ [])
          (routers_table routers) refl refl refl (rw other refl) refl router_column refl
          (rw other refl)
          (drop_named-second "fk_transactions_router_id"
            (key_on tenant "tenant_id" "tenants" (some cascade))
            (key_on "fk_transactions_router_id" "router_id" "routers" before) _ other refl)
          has_routers
