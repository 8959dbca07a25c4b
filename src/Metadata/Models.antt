-- ===== src/Metadata/Models.antt =====
-- The model classes: src/auth/models, src/tenant/models, src/audit/models.py, src/payment/models and
-- src/hotspot/models. A column that is not `Mapped[… | None]` is NOT NULL.
use hotspot_payment_gateway.Base.{true, false, none, some, List, [], ◌∷◌}
use hotspot_payment_gateway.Schema.{
  ColumnType, text, boolean, timestamp_tz, integer, big_integer, time, json, varchar, enum, cascade,
  restrict, Table, index,
}
use hotspot_payment_gateway.Metadata.{
  Mapped, mapped, mapped_now, mapped_key, indexed, unique, declared,
}

abbrev pub primary_key : Mapped
primary_key = mapped "id" ColumnType.uuid false

-- `mapped_column(ForeignKey("tenants.id", ondelete="CASCADE"), index=True)`
abbrev pub tenant_key : Mapped
tenant_key = indexed (mapped_key "tenant_id" "tenants" (some cascade))

unfoldable pub user_model : Table
user_model =
    declared "users"
      (primary_key
        ∷ tenant_key
        ∷ mapped "first_name" (varchar 200) true
        ∷ mapped "last_name" (varchar 200) true
        ∷ indexed (unique (mapped "email" (varchar 255) false))
        ∷ mapped "password_hash" (varchar 255) true
        ∷ mapped "is_email_verified" boolean false
        ∷ mapped "profile_photo_url" text true
        ∷ mapped_now "created_at"
        ∷ mapped_now "updated_at"
        ∷ [])
      [] []

unfoldable pub auth_provider_model : Table
auth_provider_model =
    declared "auth_providers"
      (primary_key
        ∷ mapped "provider" (varchar 50) false
        ∷ mapped "provider_user_id" (varchar 255) true
        ∷ mapped_key "user_id" "users" (some cascade)
        ∷ mapped "label" (varchar 100) false
        ∷ mapped "is_active" boolean false
        ∷ mapped_now "created_at"
        ∷ [])
      (record { name = some "uq_provider_user"; columns = "provider" ∷ "user_id" ∷ [] }
        ∷ record {
          name = some "uq_provider_provider_user_id";
          columns = "provider" ∷ "provider_user_id" ∷ [];
        }
        ∷ [])
      []

unfoldable pub refresh_token_model : Table
refresh_token_model =
    declared "refresh_tokens"
      (primary_key
        ∷ indexed (mapped_key "user_id" "users" (some cascade))
        ∷ indexed (unique (mapped "token_hash" (varchar 255) false))
        ∷ mapped_now "created_at"
        ∷ mapped "expires_at" timestamp_tz false
        ∷ mapped "is_revoked" boolean false
        ∷ [])
      [] []

unfoldable pub verification_token_model : Table
verification_token_model =
    declared "verification_tokens"
      (primary_key
        ∷ indexed (mapped_key "user_id" "users" (some cascade))
        ∷ mapped "purpose" (varchar 32) false
        ∷ indexed (unique (mapped "token_hash" (varchar 255) false))
        ∷ mapped "expires_at" timestamp_tz false
        ∷ mapped "used_at" timestamp_tz true
        ∷ mapped_now "created_at"
        ∷ [])
      [] []

-- `TenantStatus`, `RouterStatus`, `TransactionStatus`, `PaymentProvider`: the stored values.
abbrev pub tenant_status : ColumnType
tenant_status =
    enum "tenantstatus" ("pending_verification" ∷ "pending_setup" ∷ "active" ∷ "suspended" ∷ []) 40

abbrev pub router_status : ColumnType
router_status = enum "routerstatus" ("pending_script" ∷ "online" ∷ "offline" ∷ []) 20

abbrev pub transaction_status : ColumnType
transaction_status =
    enum "transactionstatus"
      ("pending" ∷ "success" ∷ "provisioning" ∷ "completed" ∷ "failed" ∷ "expired" ∷ []) 20

abbrev pub payment_provider : ColumnType
payment_provider = enum "paymentprovider" ("mtn_uganda" ∷ "airtel_uganda" ∷ []) 20

unfoldable pub tenant_model : Table
tenant_model =
    declared "tenants"
      (primary_key
        ∷ mapped "business_name" (varchar 150) false
        ∷ indexed (unique (mapped "slug" (varchar 80) false))
        ∷ mapped "owner_email" (varchar 200) false
        ∷ mapped "status" tenant_status false
        ∷ mapped "email_verified_at" timestamp_tz true
        ∷ mapped "setup_completed_at" timestamp_tz true
        ∷ mapped "accent_color" (varchar 7) false
        ∷ mapped "logo_path" (varchar 255) true
        ∷ mapped "welcome_message" text true
        ∷ mapped_now "created_at"
        ∷ [])
      [] []

unfoldable pub audit_log_model : Table
audit_log_model =
    declared "audit_logs"
      (primary_key
        ∷ tenant_key
        ∷ mapped "event_type" (varchar 50) false
        ∷ mapped "entity_type" (varchar 50) false
        ∷ mapped "entity_id" ColumnType.uuid false
        ∷ mapped "actor" (varchar 100) false
        ∷ mapped "payload" json false
        ∷ mapped_now "created_at"
        ∷ [])
      [] (index "ix_audit_logs_tenant_created" ("tenant_id" ∷ "created_at" ∷ []) false ∷ [])

unfoldable pub payment_config_model : Table
payment_config_model =
    declared "payment_configs"
      (primary_key
        ∷ tenant_key
        ∷ mapped "label" (varchar 100) false
        ∷ mapped "account_no" (varchar 80) false
        ∷ mapped "api_key_enc" text false
        ∷ mapped "webhook_secret_enc" text false
        ∷ mapped "is_active" boolean false
        ∷ mapped "last_test_at" timestamp_tz true
        ∷ mapped "last_test_result" (varchar 50) true
        ∷ mapped_now "created_at"
        ∷ [])
      [] []

unfoldable pub plan_model : Table
plan_model =
    declared "plans"
      (primary_key
        ∷ tenant_key
        ∷ mapped "name" (varchar 100) false
        ∷ mapped "price_ugx" integer false
        ∷ mapped "duration_minutes" integer true
        ∷ mapped "speed_down_kbps" integer true
        ∷ mapped "speed_up_kbps" integer true
        ∷ mapped "data_limit_mb" integer true
        ∷ mapped "data_limit_down_mb" integer true
        ∷ mapped "data_limit_up_mb" integer true
        ∷ mapped "separate_limits" boolean false
        ∷ mapped "simultaneous_devices" integer false
        ∷ mapped "available_days" json false
        ∷ mapped "available_from" time true
        ∷ mapped "available_until" time true
        ∷ mapped "sort_order" integer false
        ∷ mapped "display_color" (varchar 7) true
        ∷ mapped "is_featured" boolean false
        ∷ mapped "is_active" boolean false
        ∷ mapped_now "created_at"
        ∷ [])
      [] []

unfoldable pub router_model : Table
router_model =
    declared "routers"
      (primary_key
        ∷ tenant_key
        ∷ mapped "label" (varchar 100) false
        ∷ mapped "registration_token_hash" (varchar 128) false
        ∷ mapped "wireguard_pubkey" (varchar 64) true
        ∷ mapped "tunnel_ip" (varchar 45) true
        ∷ mapped "api_password_enc" text true
        ∷ mapped "router_model" (varchar 50) true
        ∷ mapped "routeros_version" (varchar 20) true
        ∷ mapped "hotspot_server_name" (varchar 80) true
        ∷ mapped "status" router_status false
        ∷ mapped "last_seen_at" timestamp_tz true
        ∷ mapped "is_primary" boolean false
        ∷ mapped_now "created_at"
        ∷ [])
      [] (index "ix_routers_tenant_status" ("tenant_id" ∷ "status" ∷ []) false ∷ [])

unfoldable pub transaction_model : Table
transaction_model =
    declared "transactions"
      (primary_key
        ∷ tenant_key
        ∷ mapped_key "plan_id" "plans" (some restrict)
        ∷ mapped_key "router_id" "routers" (some restrict)
        ∷ mapped "phone_number" (varchar 15) false
        ∷ mapped "amount_ugx" integer false
        ∷ mapped "status" transaction_status false
        ∷ indexed (mapped "relworx_internal_ref" (varchar 100) true)
        ∷ mapped "provider" payment_provider false
        ∷ mapped "relworx_charge_ugx" integer true
        ∷ mapped "mac_address" (varchar 17) true
        ∷ mapped "mikrotik_username_enc" text true
        ∷ mapped "mikrotik_password_enc" text true
        ∷ mapped "webhook_received_at" timestamp_tz true
        ∷ mapped "provisioning_attempts" integer false
        ∷ mapped_now "created_at"
        ∷ mapped "completed_at" timestamp_tz true
        ∷ mapped "expires_at" timestamp_tz true
        ∷ [])
      []
      (index "ix_transactions_tenant_created" ("tenant_id" ∷ "created_at" ∷ []) false
        ∷ index "ix_transactions_tenant_status_created" ("tenant_id" ∷ "status" ∷ "created_at" ∷ [])
            false
        ∷ [])

unfoldable pub session_model : Table
session_model =
    declared "sessions"
      (primary_key
        ∷ tenant_key
        ∷ unique (mapped_key "transaction_id" "transactions" none)
        ∷ mapped_key "router_id" "routers" none
        ∷ mapped "mac_address" (varchar 17) false
        ∷ mapped "ip_address" (varchar 45) true
        ∷ mapped "mikrotik_username" (varchar 80) false
        ∷ mapped "bytes_used" big_integer false
        ∷ mapped "started_at" timestamp_tz false
        ∷ mapped "expires_at" timestamp_tz false
        ∷ mapped "ended_at" timestamp_tz true
        ∷ mapped "is_active" boolean false
        ∷ [])
      []
      (index "ix_sessions_tenant_is_active" ("tenant_id" ∷ "is_active" ∷ []) false
        ∷ index "ix_sessions_expires_active" ("expires_at" ∷ "is_active" ∷ []) false
        ∷ [])

-- `Base.metadata`
unfoldable pub metadata : List Table
unfolding user_model auth_provider_model refresh_token_model verification_token_model tenant_model
    audit_log_model payment_config_model plan_model router_model transaction_model session_model
metadata =
    user_model ∷ auth_provider_model ∷ refresh_token_model ∷ verification_token_model ∷ tenant_model
    ∷ audit_log_model ∷ payment_config_model ∷ plan_model ∷ router_model ∷ transaction_model
    ∷ session_model ∷ []
