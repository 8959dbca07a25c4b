-- ===== src/Migrations/Users.antt =====
-- alembic/versions/2026-05-13_create_users_auth_providers_refresh_.py
use hotspot_payment_gateway.Base.{String, true, false, some, List, [], ◌∷◌}
use hotspot_payment_gateway.Schema.{
  ColumnType, text, boolean, timestamp_tz, varchar, cascade, UniqueConstraint, Table, column,
  now_column, foreign_key, new_table,
}
use hotspot_payment_gateway.Schema.Ddl.{
  Server, Migration, ◌>>◌, create_table, create_index, drop_index, drop_table,
}

-- The arguments of the three calls of `op.create_table`.
abbrev pub new_users : Table
new_users =
    new_table "users"
      (column "id" ColumnType.uuid false
        ∷ column "first_name" (varchar 200) true
        ∷ column "last_name" (varchar 200) true
        ∷ column "email" (varchar 255) false
        ∷ column "password_hash" (varchar 255) true
        ∷ column "is_email_verified" boolean false
        ∷ column "profile_photo_url" text true
        ∷ now_column "created_at"
        ∷ now_column "updated_at"
        ∷ [])
      [] []

abbrev pub unique_key : String → List String → UniqueConstraint
unique_key name columns = record { name = some name; columns = columns }

abbrev pub new_auth_providers : Table
new_auth_providers =
    new_table "auth_providers"
      (column "id" ColumnType.uuid false
        ∷ column "provider" (varchar 50) false
        ∷ column "provider_user_id" (varchar 255) true
        ∷ column "user_id" ColumnType.uuid false
        ∷ column "label" (varchar 100) false
        ∷ column "is_active" boolean false
        ∷ now_column "created_at"
        ∷ [])
      (unique_key "uq_provider_provider_user_id" ("provider" ∷ "provider_user_id" ∷ [])
        ∷ unique_key "uq_provider_user" ("provider" ∷ "user_id" ∷ [])
        ∷ [])
      (foreign_key "user_id" "users" (some cascade) ∷ [])

abbrev pub new_refresh_tokens : Table
new_refresh_tokens =
    new_table "refresh_tokens"
      (column "id" ColumnType.uuid false
        ∷ column "user_id" ColumnType.uuid false
        ∷ column "token_hash" (varchar 255) false
        ∷ now_column "created_at"
        ∷ column "expires_at" timestamp_tz false
        ∷ column "is_revoked" boolean false
        ∷ [])
      [] (foreign_key "user_id" "users" (some cascade) ∷ [])

unfoldable pub upgrade : ⦃server : Server⦄ → Migration (Unit {0})
upgrade = do
  create_table new_users
  create_index "ix_users_email" "users" ("email" ∷ []) true
  create_table new_auth_providers
  create_table new_refresh_tokens
  create_index "ix_refresh_tokens_token_hash" "refresh_tokens" ("token_hash" ∷ []) true
  create_index "ix_refresh_tokens_user_id" "refresh_tokens" ("user_id" ∷ []) false

unfoldable pub downgrade : Migration (Unit {0})
downgrade = do
  drop_index "ix_refresh_tokens_user_id" "refresh_tokens"
  drop_index "ix_refresh_tokens_token_hash" "refresh_tokens"
  drop_table "refresh_tokens"
  drop_table "auth_providers"
  drop_index "ix_users_email" "users"
  drop_table "users"
