-- ===== src/Migrations/Head.antt =====
-- The revisions together, as alembic/env.py runs them: the newest one has the tables of the model classes.
use hotspot_payment_gateway.Base.{
  ℕ, String, ◌≡◌, refl, ap, ◌∙◌, true, Option, some, none, List, [], ◌∷◌,
}
use hotspot_payment_gateway.Core.Encryption.{value, get_key}
use hotspot_payment_gateway.Schema.{cascade, restrict, ForeignKey, Row, foreign_key}
use hotspot_payment_gateway.Schema.Ddl.{Server, Database, done, ◌>>◌}
use hotspot_payment_gateway.Schema.Runs.{then-done}
use hotspot_payment_gateway.Metadata.Models.{metadata}
use hotspot_payment_gateway.Metadata.Same.{same_schema}
use hotspot_payment_gateway.Migrations.States.{
  Front, seeded, sessions_table, at_verification_tokens,
}
use hotspot_payment_gateway.Migrations.Tenants
use hotspot_payment_gateway.Migrations.Encryption
use hotspot_payment_gateway.Migrations.Encryption.Tables.{stage}
use hotspot_payment_gateway.Migrations.Backfill.{assigned, upgrade-backfill}
use hotspot_payment_gateway.Migrations.Encryption.Keys.{Named, tenant_keys, head_keys}
use hotspot_payment_gateway.Migrations.Encryption.Upgrade.{
  tenant_columns, head_columns, sealed_rows, last_draw, upgrade-done,
}

module _ ⦃server : Server⦄ where
  head-metadata :
      (front : Front) (plans routers transactions sessions : List Row) (tenant : String) (n : ℕ)
      → same_schema metadata
          (stage front plans routers
            (sessions_table sessions ∷ [])
            head_columns
            (head_keys tenant (some restrict))
            transactions
            n).tables
        ≡ true
  unfolding same_schema metadata
  head-metadata front plans routers transactions sessions tenant n = refl

  -- The foreign keys of `transactions` under given names.
  abbrev keys_named : Option String → Option String → Option String → List ForeignKey
  keys_named plan router tenant =
      record (foreign_key "plan_id" "plans" none) { name = plan }
      ∷ record (foreign_key "router_id" "routers" none) { name = router }
      ∷ record (foreign_key "tenant_id" "tenants" (some cascade)) { name = tenant }
      ∷ []

  module _ (key : String) (keyed : get_key ⦃lib = server.fernet⦄ server.encryption_key ≡ value key)
      (plan router tenant : String) (named : Named plan router tenant)
      (plan_is : server.automatic_name "transactions" ("plan_id" ∷ []) ≡ some plan)
      (router_is : server.automatic_name "transactions" ("router_id" ∷ []) ≡ some router)
      (tenant_is : server.automatic_name "transactions" ("tenant_id" ∷ []) ≡ some tenant)
      (users providers sessions tokens : List Row) (n : ℕ) where
    abbrev front : Front
    front = seeded (assigned users providers sessions tokens n) providers sessions tokens

    abbrev middle : List ForeignKey → Database
    middle keys = stage front [] [] (sessions_table [] ∷ []) tenant_columns keys [] n

    named-middle :
        middle (
          keys_named
            (server.automatic_name "transactions" ("plan_id" ∷ []))
            (server.automatic_name "transactions" ("router_id" ∷ []))
            (server.automatic_name "transactions" ("tenant_id" ∷ [])))
        ≡ middle (tenant_keys plan router tenant)
    named-middle =
        ap
          (λ p. middle (
            keys_named p (server.automatic_name "transactions" ("router_id" ∷ []))
              (server.automatic_name "transactions" ("tenant_id" ∷ []))))
          plan_is
        ∙ (ap
              (λ r. middle (
                keys_named (some plan) r (server.automatic_name "transactions" ("tenant_id" ∷ []))))
              router_is
            ∙ ap (λ t. middle (keys_named (some plan) (some router) t)) tenant_is)

    -- On a database of the revision f265f3618387, whatever users, providers and tokens it has, the
    -- last two upgrades succeed and leave the tables, columns, keys and indexes that the model
    -- classes declare, where a key is configured and PostgreSQL names the foreign keys of
    -- transactions by non-empty texts other than those that the migration gives.
    pub upgrades-metadata :
        (db : Database) × ((Tenants.upgrade >> Encryption.upgrade)
            (record { tables = at_verification_tokens users providers sessions tokens; draws = n })
          ≡ done tt db)
        × (same_schema metadata db.tables ≡ true)
    upgrades-metadata = (
      _,
      then-done Tenants.upgrade Encryption.upgrade
            (record { tables = at_verification_tokens users providers sessions tokens; draws = n })
            (upgrade-backfill users providers sessions tokens n)
          ∙ (ap Encryption.upgrade named-middle
              ∙ upgrade-done key keyed front [] [] (sessions_table [] ∷ []) plan router tenant named
                  [] n refl tt refl refl),
      head-metadata front [] [] (sealed_rows key n []) [] tenant (last_draw key n []),
    )
