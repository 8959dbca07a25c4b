-- ===== src/Migrations/Encryption/Upgrade.antt =====
-- The upgrade to the revision f29672c8ed8f: every row's credentials are encrypted, by whatever
-- batches, and the keys are renamed.
use text.Mathlib.Text.{◌==◌ as str_eq}
use hotspot_payment_gateway.Base.{
  ℕ, suc, ◌+◌, String, ◌≡◌, refl, ap, ◌∙◌, Bool, true, Option, none, some, List, [], ◌∷◌, ◌++◌, map,
  All, all, distinct, distinct-map, arith,
}
use hotspot_payment_gateway.Core.Encryption.{value, get_key}
use hotspot_payment_gateway.Schema.{
  ColumnType, Column, fits, restrict, ForeignKey, null, Row, Table, column, set_value,
}
use hotspot_payment_gateway.Schema.Ddl.{Server, done, Migration, ◌>>◌, refers, without, drop_column}
use hotspot_payment_gateway.Schema.Runs.{then-done}
use hotspot_payment_gateway.Migrations.Batches.{Param, length}
use hotspot_payment_gateway.Migrations.Batches.OnePass.{draws_after, copy_batches-one_pass}
use hotspot_payment_gateway.Migrations.Batches.Keyed.{same_id, copied, one_pass-copied}
use hotspot_payment_gateway.Migrations.Tenants.{new_transactions}
use hotspot_payment_gateway.Migrations.States.{Front}
use hotspot_payment_gateway.Migrations.Encryption.{
  text_of, drawn, value_of, written, update_row, encrypt_row, encrypt_rows, upgrade,
}
use hotspot_payment_gateway.Migrations.Encryption.Rows.{
  sealed_text, encrypted_param, draws_of, encrypt_row-done,
}
use hotspot_payment_gateway.Migrations.Encryption.Tables.{stage, update_row-done}
use hotspot_payment_gateway.Migrations.Encryption.Keys.{
  Named, tenant_keys, head_keys, recreate_keys, recreate_keys-first,
}

abbrev pub tenant_columns : List Column
tenant_columns = new_transactions.columns

abbrev pub both_columns : List Column
both_columns =
    tenant_columns
    ++ column "mikrotik_username_enc" ColumnType.text true
      ∷ column "mikrotik_password_enc" ColumnType.text true
      ∷ []

abbrev pub head_columns : List Column
head_columns =
    without (λ (c : Column). str_eq c.name "mikrotik_password")
      (without (λ (c : Column). str_eq c.name "mikrotik_username") both_columns)

abbrev pub with_tokens : Param → Row → Row
with_tokens p r =
    set_value "mikrotik_password_enc" p.password (set_value "mikrotik_username_enc" p.username r)

abbrev no_tokens : List Row → List Row
no_tokens rows =
    map (set_value "mikrotik_password_enc" null) (map (set_value "mikrotik_username_enc" null) rows)

abbrev no_texts : List Row → List Row
no_texts rows =
    map (set_value "mikrotik_password" null) (map (set_value "mikrotik_username" null) rows)

no_tokens-distinct : (rows : List Row) → distinct same_id (no_tokens rows) ≡ distinct same_id rows
no_tokens-distinct rows =
    distinct-map same_id (set_value "mikrotik_password_enc" null) (λ r s. refl)
      (map (set_value "mikrotik_username_enc" null) rows)
    ∙ distinct-map same_id (set_value "mikrotik_username_enc" null) (λ r s. refl) rows

fits_value_of : (o : Option String) → fits ColumnType.text (value_of o) ≡ true
fits_value_of none = refl
fits_value_of (some s) = refl

no_tokens-All :
    (rows : List Row)
    → All (λ (r : Row). same_id r r ≡ true) rows
    → All (λ (r : Row). same_id r r ≡ true) (no_tokens rows)
no_tokens-All [] h = tt
no_tokens-All (r ∷ rows) h = (h.0, no_tokens-All rows h.1)

module _ ⦃server : Server⦄ (key : String) where
  -- A row after the upgrade, its first draw having the number `n`.
  unfoldable pub sealed_row : ℕ → Row → Row
  sealed_row n r = set_value "mikrotik_password" null (
      set_value "mikrotik_username" null (
        with_tokens (encrypted_param key r n)
          (set_value "mikrotik_password_enc" null (set_value "mikrotik_username_enc" null r))))

  unfoldable pub sealed_rows : ℕ → List Row → List Row
  unfolding sealed_row
  sealed_rows n [] = []
  sealed_rows n (r ∷ rows) = sealed_row n r ∷ sealed_rows (n + draws_of key r) rows

  copied-sealed_rows :
      (n : ℕ) (rows : List Row)
      → no_texts (copied (encrypted_param key) (draws_of key) with_tokens n (no_tokens rows))
        ≡ sealed_rows n rows
  unfolding sealed_rows copied
  copied-sealed_rows n [] = refl
  copied-sealed_rows n (r ∷ rows) =
      ap (λ rest. sealed_row n r ∷ rest) (copied-sealed_rows (n + draws_of key r) rows)

  -- A test of a column that the upgrade leaves alone, on all rows.
  pub all-sealed_rows :
      (test : Row → Bool)
      → ((m : ℕ) (r : Row) → test (sealed_row m r) ≡ test r)
      → (n : ℕ) (rows : List Row) → all test (sealed_rows n rows) ≡ all test rows
  unfolding sealed_rows
  all-sealed_rows test same n [] = refl
  all-sealed_rows test same n (r ∷ rows) =
      rw (same n r, all-sealed_rows test same (n + draws_of key r) rows) refl

  -- The number of the first draw after the upgrade.
  abbrev pub last_draw : ℕ → List Row → ℕ
  last_draw = draws_after (draws_of key)

  draws_after-no_tokens :
      (n : ℕ) (rows : List Row)
      → draws_after (draws_of key) n (no_tokens rows) ≡ draws_after (draws_of key) n rows
  unfolding draws_after
  draws_after-no_tokens n [] = refl
  draws_after-no_tokens n (r ∷ rows) = draws_after-no_tokens (n + draws_of key r) rows

  module _ (keyed : get_key ⦃lib = server.fernet⦄ server.encryption_key ≡ value key) (front : Front)
      (plans routers : List Row) (others : List Table) where
    encrypt_rows-done :
        (keys : List ForeignKey) (rows : List Row) (n : ℕ)
        → distinct same_id rows ≡ true
        → All (λ (r : Row). same_id r r ≡ true) rows
        → encrypt_rows (stage front plans routers others both_columns keys rows n)
          ≡ done tt (
              stage front plans routers others both_columns keys
                (copied (encrypted_param key) (draws_of key) with_tokens n rows)
                (draws_after (draws_of key) n rows))
    unfolding encrypt_rows
    encrypt_rows-done keys rows n d k =
        copy_batches-one_pass (encrypted_param key) (draws_of key)
          (written "mikrotik_username_enc" "mikrotik_password_enc") encrypt_row
          (update_row "mikrotik_username_enc" "mikrotik_password_enc")
          (stage front plans routers others both_columns keys) (λ r. same_id r r ≡ true)
          (λ r table m h.
            encrypt_row-done key keyed r
              (stage front plans routers others both_columns keys table m))
          (λ r table m l h.
            update_row-done front plans routers others both_columns keys table l
              "mikrotik_username_enc" "mikrotik_password_enc" (encrypted_param key r m) refl
              (rw
                (
                  fits_value_of (sealed_text key (text_of (r "mikrotik_username")) m),
                  fits_value_of (
                      sealed_text key (text_of (r "mikrotik_password"))
                        (m + drawn (text_of (r "mikrotik_username")))),
                )
                refl))
          499 (suc (length rows)) rows rows n (omega arith) k
        ∙ ap
            (λ t. done tt (
              stage front plans routers others both_columns keys t
                (draws_after (draws_of key) n rows)))
            (one_pass-copied (encrypted_param key) (draws_of key) with_tokens (λ r m. refl)
              (λ p r. refl) n rows d k)

    module _ (plan router tenant : String) (named : Named plan router tenant) where
      module _ (rows : List Row) (n : ℕ) (unique : distinct same_id rows ≡ true)
          (present : All (λ (r : Row). same_id r r ≡ true) rows)
          (has_plans : all (refers "plan_id" "id" plans) rows ≡ true)
          (has_routers : all (refers "router_id" "id" routers) rows ≡ true) where
        abbrev drop_link : Migration (Unit {0})
        drop_link = do
          drop_column "transactions" "mikrotik_username"
          drop_column "transactions" "mikrotik_password"
          recreate_keys (some restrict)

        pub upgrade-done :
            upgrade (
              stage front plans routers others tenant_columns
                (tenant_keys plan router tenant)
                rows
                n)
            ≡ done tt (
                stage front plans routers others head_columns
                  (head_keys tenant (some restrict))
                  (sealed_rows n rows)
                  (last_draw n rows))
        unfolding upgrade
        upgrade-done =
            then-done encrypt_rows drop_link
              (stage front plans routers others both_columns (tenant_keys plan router tenant)
                (no_tokens rows) n)
              (encrypt_rows-done (tenant_keys plan router tenant) (no_tokens rows) n
                (no_tokens-distinct rows ∙ unique) (no_tokens-All rows present))
            ∙ (ap
                  (λ m. recreate_keys (some restrict) (
                    stage front plans routers others head_columns (tenant_keys plan router tenant)
                      (no_texts (
                        copied (encrypted_param key) (draws_of key) with_tokens n (no_tokens rows)))
                      m))
                  (draws_after-no_tokens n rows)
                ∙ (ap
                      (λ t. recreate_keys (some restrict) (
                        stage front plans routers others head_columns
                          (tenant_keys plan router tenant) t (last_draw n rows)))
                      (copied-sealed_rows n rows)
                    ∙ recreate_keys-first front plans routers others head_columns refl refl
                        (sealed_rows n rows) (last_draw n rows)
                        (all-sealed_rows (refers "plan_id" "id" plans)
                            (λ m r. unfold sealed_row in refl) n rows
                          ∙ has_plans)
                        (all-sealed_rows (refers "router_id" "id" routers)
                            (λ m r. unfold sealed_row in refl) n rows
                          ∙ has_routers)
                        plan router tenant named))
