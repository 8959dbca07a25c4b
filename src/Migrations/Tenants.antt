-- ===== src/Migrations/Tenants.antt =====
-- alembic/versions/2026-05-18_tenants_and_domain_models.py
use hotspot_payment_gateway.Base.{ℕ, String, true, false, none, some, List, [], ◌∷◌}
use hotspot_payment_gateway.Schema.{
  ColumnType, text, boolean, timestamp_tz, integer, big_integer, time, json, varchar, enum, cascade,
  Value, Table, column, now_column, foreign_key, new_table,
}
use hotspot_payment_gateway.Schema.Ddl.{
  Server, Migration, ◌>>◌, create_table, create_index, drop_index, drop_table, insert_row,
  add_column, drop_column, update_all, set_not_null, create_foreign_key, drop_constraint,
}

-- `_DEFAULT_TENANT_ID`
abbrev pub default_tenant : ℕ
default_tenant = 1

-- The arguments of the seven calls of `op.create_table`.
abbrev pub new_tenants : Table
new_tenants =
    new_table "tenants"
      (column "id" ColumnType.uuid false
        ∷ column "business_name" (varchar 150) false
        ∷ column "slug" (varchar 80) false
        ∷ column "owner_email" (varchar 200) false
        ∷ column "status"
            (enum "tenantstatus"
              ("pending_verification" ∷ "pending_setup" ∷ "active" ∷ "suspended" ∷ []) 40)
            false
        ∷ column "email_verified_at" timestamp_tz true
        ∷ column "setup_completed_at" timestamp_tz true
        ∷ column "accent_color" (varchar 7) false
        ∷ column "logo_path" (varchar 255) true
        ∷ column "welcome_message" text true
        ∷ now_column "created_at"
        ∷ [])
      [] []

abbrev pub default_tenant_row : List (String × Value)
default_tenant_row =
    ("id", Value.uuid default_tenant)
    ∷ ("business_name", Value.text "Default")
    ∷ ("slug", Value.text "default")
    ∷ ("owner_email", Value.text "admin@example.local")
    ∷ ("status", Value.text "pending_setup")
    ∷ ("accent_color", Value.text "#2E75B6")
    ∷ []

abbrev pub new_audit_logs : Table
new_audit_logs =
    new_table "audit_logs"
      (column "id" ColumnType.uuid false
        ∷ column "tenant_id" ColumnType.uuid false
        ∷ column "event_type" (varchar 50) false
        ∷ column "entity_type" (varchar 50) false
        ∷ column "entity_id" ColumnType.uuid false
        ∷ column "actor" (varchar 100) false
        ∷ column "payload" json false
        ∷ now_column "created_at"
        ∷ [])
      [] (foreign_key "tenant_id" "tenants" (some cascade) ∷ [])

abbrev pub new_payment_configs : Table
new_payment_configs =
    new_table "payment_configs"
      (column "id" ColumnType.uuid false
        ∷ column "tenant_id" ColumnType.uuid false
        ∷ column "label" (varchar 100) false
        ∷ column "account_no" (varchar 80) false
        ∷ column "api_key_enc" text false
        ∷ column "webhook_secret_enc" text false
        ∷ column "is_active" boolean false
        ∷ column "last_test_at" timestamp_tz true
        ∷ column "last_test_result" (varchar 50) true
        ∷ now_column "created_at"
        ∷ [])
      [] (foreign_key "tenant_id" "tenants" (some cascade) ∷ [])

abbrev pub new_plans : Table
new_plans =
    new_table "plans"
      (column "id" ColumnType.uuid false
        ∷ column "tenant_id" ColumnType.uuid false
        ∷ column "name" (varchar 100) false
        ∷ column "price_ugx" integer false
        ∷ column "duration_minutes" integer true
        ∷ column "speed_down_kbps" integer true
        ∷ column "speed_up_kbps" integer true
        ∷ column "data_limit_mb" integer true
        ∷ column "data_limit_down_mb" integer true
        ∷ column "data_limit_up_mb" integer true
        ∷ column "separate_limits" boolean false
        ∷ column "simultaneous_devices" integer false
        ∷ column "available_days" json false
        ∷ column "available_from" time true
        ∷ column "available_until" time true
        ∷ column "sort_order" integer false
        ∷ column "display_color" (varchar 7) true
        ∷ column "is_featured" boolean false
        ∷ column "is_active" boolean false
        ∷ now_column "created_at"
        ∷ [])
      [] (foreign_key "tenant_id" "tenants" (some cascade) ∷ [])

abbrev pub new_routers : Table
new_routers =
    new_table "routers"
      (column "id" ColumnType.uuid false
        ∷ column "tenant_id" ColumnType.uuid false
        ∷ column "label" (varchar 100) false
        ∷ column "registration_token_hash" (varchar 128) false
        ∷ column "wireguard_pubkey" (varchar 64) true
        ∷ column "tunnel_ip" (varchar 45) true
        ∷ column "api_password_enc" text true
        ∷ column "router_model" (varchar 50) true
        ∷ column "routeros_version" (varchar 20) true
        ∷ column "hotspot_server_name" (varchar 80) true
        ∷ column "status" (enum "routerstatus" ("pending_script" ∷ "online" ∷ "offline" ∷ []) 20)
            false
        ∷ column "last_seen_at" timestamp_tz true
        ∷ column "is_primary" boolean false
        ∷ now_column "created_at"
        ∷ [])
      [] (foreign_key "tenant_id" "tenants" (some cascade) ∷ [])

abbrev pub new_transactions : Table
new_transactions =
    new_table "transactions"
      (column "id" ColumnType.uuid false
        ∷ column "tenant_id" ColumnType.uuid false
        ∷ column "plan_id" ColumnType.uuid false
        ∷ column "router_id" ColumnType.uuid false
        ∷ column "phone_number" (varchar 15) false
        ∷ column "amount_ugx" integer false
        ∷ column "status"
            (enum "transactionstatus"
              ("pending" ∷ "success" ∷ "provisioning" ∷ "completed" ∷ "failed" ∷ "expired" ∷ []) 20)
            false
        ∷ column "relworx_internal_ref" (varchar 100) true
        ∷ column "provider" (enum "paymentprovider" ("mtn_uganda" ∷ "airtel_uganda" ∷ []) 20) false
        ∷ column "relworx_charge_ugx" integer true
        ∷ column "mac_address" (varchar 17) true
        ∷ column "mikrotik_username" (varchar 80) true
        ∷ column "mikrotik_password" (varchar 80) true
        ∷ column "webhook_received_at" timestamp_tz true
        ∷ column "provisioning_attempts" integer false
        ∷ now_column "created_at"
        ∷ column "completed_at" timestamp_tz true
        ∷ column "expires_at" timestamp_tz true
        ∷ [])
      []
      (foreign_key "plan_id" "plans" none
        ∷ foreign_key "router_id" "routers" none
        ∷ foreign_key "tenant_id" "tenants" (some cascade)
        ∷ [])

abbrev pub new_sessions : Table
new_sessions =
    new_table "sessions"
      (column "id" ColumnType.uuid false
        ∷ column "tenant_id" ColumnType.uuid false
        ∷ column "transaction_id" ColumnType.uuid false
        ∷ column "router_id" ColumnType.uuid false
        ∷ column "mac_address" (varchar 17) false
        ∷ column "ip_address" (varchar 45) true
        ∷ column "mikrotik_username" (varchar 80) false
        ∷ column "bytes_used" big_integer false
        ∷ column "started_at" timestamp_tz false
        ∷ column "expires_at" timestamp_tz false
        ∷ column "ended_at" timestamp_tz true
        ∷ column "is_active" boolean false
        ∷ [])
      (record { name = none; columns = "transaction_id" ∷ [] } ∷ [])
      (foreign_key "router_id" "routers" none
        ∷ foreign_key "tenant_id" "tenants" (some cascade)
        ∷ foreign_key "transaction_id" "transactions" none
        ∷ [])

-- `upgrade` up to the table `transactions`.
unfoldable pub create_domain : ⦃server : Server⦄ → Migration (Unit {0})
create_domain = do
  create_table new_tenants
  create_index "ix_tenants_slug" "tenants" ("slug" ∷ []) true
  insert_row "tenants" default_tenant_row
  create_table new_audit_logs
  create_index "ix_audit_logs_tenant_created" "audit_logs" ("tenant_id" ∷ "created_at" ∷ []) false
  create_index "ix_audit_logs_tenant_id" "audit_logs" ("tenant_id" ∷ []) false
  create_table new_payment_configs
  create_index "ix_payment_configs_tenant_id" "payment_configs" ("tenant_id" ∷ []) false
  create_table new_plans
  create_index "ix_plans_tenant_id" "plans" ("tenant_id" ∷ []) false
  create_table new_routers
  create_index "ix_routers_tenant_id" "routers" ("tenant_id" ∷ []) false
  create_index "ix_routers_tenant_status" "routers" ("tenant_id" ∷ "status" ∷ []) false

-- `upgrade`: the tables `transactions` and `sessions`.
unfoldable pub create_payments : ⦃server : Server⦄ → Migration (Unit {0})
create_payments = do
  create_table new_transactions
  create_index "ix_transactions_relworx_internal_ref" "transactions" ("relworx_internal_ref" ∷ [])
      false
  create_index "ix_transactions_tenant_created" "transactions" ("tenant_id" ∷ "created_at" ∷ [])
      false
  create_index "ix_transactions_tenant_id" "transactions" ("tenant_id" ∷ []) false
  create_index "ix_transactions_tenant_status_created" "transactions"
      ("tenant_id" ∷ "status" ∷ "created_at" ∷ []) false
  create_table new_sessions
  create_index "ix_sessions_expires_active" "sessions" ("expires_at" ∷ "is_active" ∷ []) false
  create_index "ix_sessions_tenant_id" "sessions" ("tenant_id" ∷ []) false
  create_index "ix_sessions_tenant_is_active" "sessions" ("tenant_id" ∷ "is_active" ∷ []) false

-- `upgrade`: `users.tenant_id` in three steps, so that existing rows get the default tenant.
unfoldable pub add_tenant_id : ⦃server : Server⦄ → Migration (Unit {0})
add_tenant_id = do
  add_column "users" (column "tenant_id" ColumnType.uuid true)
  update_all "users" "tenant_id" (Value.uuid default_tenant)
  set_not_null "users" "tenant_id"
  create_index "ix_users_tenant_id" "users" ("tenant_id" ∷ []) false
  create_foreign_key "users" (foreign_key "tenant_id" "tenants" (some cascade))

unfoldable pub upgrade : ⦃server : Server⦄ → Migration (Unit {0})
unfolding create_domain create_payments add_tenant_id
upgrade = do create_domain; create_payments; add_tenant_id

unfoldable pub downgrade : Migration (Unit {0})
downgrade = do
  drop_constraint none "users"
  drop_index "ix_users_tenant_id" "users"
  drop_column "users" "tenant_id"
  drop_index "ix_sessions_tenant_is_active" "sessions"
  drop_index "ix_sessions_tenant_id" "sessions"
  drop_index "ix_sessions_expires_active" "sessions"
  drop_table "sessions"
  drop_index "ix_transactions_tenant_status_created" "transactions"
  drop_index "ix_transactions_tenant_id" "transactions"
  drop_index "ix_transactions_tenant_created" "transactions"
  drop_index "ix_transactions_relworx_internal_ref" "transactions"
  drop_table "transactions"
  drop_index "ix_routers_tenant_status" "routers"
  drop_index "ix_routers_tenant_id" "routers"
  drop_table "routers"
  drop_index "ix_plans_tenant_id" "plans"
  drop_table "plans"
  drop_index "ix_payment_configs_tenant_id" "payment_configs"
  drop_table "payment_configs"
  drop_index "ix_audit_logs_tenant_id" "audit_logs"
  drop_index "ix_audit_logs_tenant_created" "audit_logs"
  drop_table "audit_logs"
  drop_index "ix_tenants_slug" "tenants"
  drop_table "tenants"
