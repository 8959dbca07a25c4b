-- ===== src/Migrations/VerificationTokens.antt =====
-- alembic/versions/2026-05-15_create_verification_tokens.py
use hotspot_payment_gateway.Base.{true, false, some, [], ◌∷◌}
use hotspot_payment_gateway.Schema.{
  ColumnType, timestamp_tz, varchar, cascade, Table, column, now_column, foreign_key, new_table,
}
use hotspot_payment_gateway.Schema.Ddl.{
  Server, Migration, ◌>>◌, create_table, create_index, drop_index, drop_table,
}

abbrev pub new_verification_tokens : Table
new_verification_tokens =
    new_table "verification_tokens"
      (column "id" ColumnType.uuid false
        ∷ column "user_id" ColumnType.uuid false
        ∷ column "purpose" (varchar 32) false
        ∷ column "token_hash" (varchar 255) false
        ∷ column "expires_at" timestamp_tz false
        ∷ column "used_at" timestamp_tz true
        ∷ now_column "created_at"
        ∷ [])
      [] (foreign_key "user_id" "users" (some cascade) ∷ [])

unfoldable pub upgrade : ⦃server : Server⦄ → Migration (Unit {0})
upgrade = do
  create_table new_verification_tokens
  create_index "ix_verification_tokens_token_hash" "verification_tokens" ("token_hash" ∷ []) true
  create_index "ix_verification_tokens_user_id" "verification_tokens" ("user_id" ∷ []) false

unfoldable pub downgrade : Migration (Unit {0})
downgrade = do
  drop_index "ix_verification_tokens_user_id" "verification_tokens"
  drop_index "ix_verification_tokens_token_hash" "verification_tokens"
  drop_table "verification_tokens"
