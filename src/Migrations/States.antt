-- ===== src/Migrations/States.antt =====
-- The database at each revision, with any rows in the tables that a migration does not create.
use hotspot_payment_gateway.Base.{true, false, some, List, [], ◌∷◌, ◌++◌, map}
use hotspot_payment_gateway.Schema.{
  ColumnType, cascade, Row, Index, Table, column, foreign_key, index,
}
use hotspot_payment_gateway.Schema.Ddl.{Server, name_key, filled}
use hotspot_payment_gateway.Migrations.Users.{new_users, new_auth_providers, new_refresh_tokens}
use hotspot_payment_gateway.Migrations.VerificationTokens.{new_verification_tokens}
use hotspot_payment_gateway.Migrations.Tenants.{
  new_tenants, default_tenant_row, new_audit_logs, new_payment_configs, new_plans, new_routers,
  new_transactions, new_sessions,
}

-- The rows of the tables that stand before `plans`.
pub record Front : Type 0 where
  pub users : List Row
  pub providers : List Row
  pub refresh_tokens : List Row
  pub verification_tokens : List Row
  pub tenants : List Row
  pub audit_logs : List Row
  pub payment_configs : List Row

module _ ⦃server : Server⦄ where
  -- A table as it was created, with its indexes and rows; its foreign keys have names.
  abbrev pub created : Table → List Index → List Row → Table
  created t indexes rows = record t {
    foreign_keys = map (name_key t.name) t.foreign_keys;
    indexes = indexes;
    rows = rows;
  }

  abbrev pub user_columns : Table → Table
  user_columns t = record t {
    columns = t.columns ++ column "tenant_id" ColumnType.uuid false ∷ [];
    foreign_keys = name_key "users" (foreign_key "tenant_id" "tenants" (some cascade)) ∷ [];
    indexes = t.indexes ++ index "ix_users_tenant_id" ("tenant_id" ∷ []) false ∷ [];
  }

  abbrev pub users_table : List Row → Table
  users_table = created new_users (index "ix_users_email" ("email" ∷ []) true ∷ [])

  -- The other tables of the first two revisions.
  abbrev pub auth_tables : List Row → List Row → List Row → List Table
  auth_tables providers sessions tokens =
      created new_auth_providers [] providers
      ∷ created new_refresh_tokens
          (index "ix_refresh_tokens_token_hash" ("token_hash" ∷ []) true
            ∷ index "ix_refresh_tokens_user_id" ("user_id" ∷ []) false
            ∷ [])
          sessions
      ∷ created new_verification_tokens
          (index "ix_verification_tokens_token_hash" ("token_hash" ∷ []) true
            ∷ index "ix_verification_tokens_user_id" ("user_id" ∷ []) false
            ∷ [])
          tokens
      ∷ []

  abbrev pub default_tenants : List Row
  default_tenants = filled new_tenants.columns default_tenant_row ∷ []

  abbrev pub tenants_table : List Row → Table
  tenants_table = created new_tenants (index "ix_tenants_slug" ("slug" ∷ []) true ∷ [])

  abbrev pub audit_table : List Row → Table
  audit_table = created new_audit_logs (
      index "ix_audit_logs_tenant_created" ("tenant_id" ∷ "created_at" ∷ []) false
      ∷ index "ix_audit_logs_tenant_id" ("tenant_id" ∷ []) false
      ∷ [])

  abbrev pub configs_table : List Row → Table
  configs_table =
      created new_payment_configs
        (index "ix_payment_configs_tenant_id" ("tenant_id" ∷ []) false ∷ [])

  abbrev pub plans_table : List Row → Table
  plans_table = created new_plans (index "ix_plans_tenant_id" ("tenant_id" ∷ []) false ∷ [])

  abbrev pub routers_table : List Row → Table
  routers_table = created new_routers (
      index "ix_routers_tenant_id" ("tenant_id" ∷ []) false
      ∷ index "ix_routers_tenant_status" ("tenant_id" ∷ "status" ∷ []) false
      ∷ [])

  abbrev pub transaction_indexes : List Index
  transaction_indexes =
      index "ix_transactions_relworx_internal_ref" ("relworx_internal_ref" ∷ []) false
      ∷ index "ix_transactions_tenant_created" ("tenant_id" ∷ "created_at" ∷ []) false
      ∷ index "ix_transactions_tenant_id" ("tenant_id" ∷ []) false
      ∷ index "ix_transactions_tenant_status_created" ("tenant_id" ∷ "status" ∷ "created_at" ∷ [])
          false
      ∷ []

  abbrev pub transactions_table : List Row → Table
  transactions_table = created new_transactions transaction_indexes

  abbrev pub sessions_table : List Row → Table
  sessions_table = created new_sessions (
      index "ix_sessions_expires_active" ("expires_at" ∷ "is_active" ∷ []) false
      ∷ index "ix_sessions_tenant_id" ("tenant_id" ∷ []) false
      ∷ index "ix_sessions_tenant_is_active" ("tenant_id" ∷ "is_active" ∷ []) false
      ∷ [])

  -- Revision f265f3618387.
  abbrev pub at_verification_tokens : List Row → List Row → List Row → List Row → List Table
  at_verification_tokens users providers sessions tokens =
      users_table users ∷ auth_tables providers sessions tokens

  -- The tables of the revision a5cb24869a7c that stand before `plans`.
  abbrev pub front_tables : Front → List Table
  front_tables f =
      user_columns (users_table f.users)
      ∷ (auth_tables f.providers f.refresh_tokens f.verification_tokens
          ++ tenants_table f.tenants
            ∷ audit_table f.audit_logs
            ∷ configs_table f.payment_configs
            ∷ [])

  -- The rows that the upgrade to a5cb24869a7c leaves in those tables.
  abbrev pub seeded : List Row → List Row → List Row → List Row → Front
  seeded users providers sessions tokens = record {
    users = users;
    providers = providers;
    refresh_tokens = sessions;
    verification_tokens = tokens;
    tenants = default_tenants;
    audit_logs = [];
    payment_configs = [];
  }

  abbrev pub empty_tables : List Table
  empty_tables = plans_table [] ∷ routers_table [] ∷ transactions_table [] ∷ sessions_table [] ∷ []

  -- Revision a5cb24869a7c, as its upgrade leaves it.
  abbrev pub at_tenants : List Row → List Row → List Row → List Row → List Table
  at_tenants users providers sessions tokens =
      front_tables (seeded users providers sessions tokens) ++ empty_tables
