-- ===== src/Migrations/Encryption/Downgrade.antt =====
-- The downgrade from the revision f29672c8ed8f: every row's credentials are decrypted.
use text.Mathlib.Text.{◌==◌ as str_eq}
use hotspot_payment_gateway.Base.{
  ℕ, suc, ◌+◌, String, ◌≡◌, refl, ap, ◌∙◌, Bool, true, false, ◌&&◌, none, some, List, [], ◌∷◌, ◌++◌,
  map, All, all, distinct, distinct-map, arith,
}
use hotspot_payment_gateway.Schema.{
  varchar, Column, restrict, ForeignKey, null, Row, Table, column, set_value,
}
use hotspot_payment_gateway.Schema.Ddl.{Server, done, Migration, ◌>>◌, refers, without, drop_column}
use hotspot_payment_gateway.Schema.Runs.{then-done}
use hotspot_payment_gateway.Migrations.Batches.{Param, length}
use hotspot_payment_gateway.Migrations.Batches.OnePass.{draws_after, copy_batches-one_pass}
use hotspot_payment_gateway.Migrations.States.{Front}
use hotspot_payment_gateway.Migrations.Batches.Keyed.{same_id, copied, one_pass-copied}
use hotspot_payment_gateway.Migrations.Encryption.{
  column_fits, written, update_row, decrypt_row, decrypt_rows, downgrade,
}
use hotspot_payment_gateway.Migrations.Encryption.Rows.{decrypted_param, Opens, decrypt_row-done}
use hotspot_payment_gateway.Migrations.Encryption.Tables.{stage, update_row-done}
use hotspot_payment_gateway.Migrations.Encryption.Keys.{
  head_keys, recreate_keys, recreate_keys-again,
}
use hotspot_payment_gateway.Migrations.Encryption.Upgrade.{head_columns}

abbrev pub reopened_columns : List Column
reopened_columns =
    head_columns
    ++ column "mikrotik_username" (varchar 80) true
      ∷ column "mikrotik_password" (varchar 80) true
      ∷ []

abbrev pub back_columns : List Column
back_columns =
    without (λ (c : Column). str_eq c.name "mikrotik_password_enc")
      (without (λ (c : Column). str_eq c.name "mikrotik_username_enc") reopened_columns)

abbrev pub with_texts : Param → Row → Row
with_texts p r =
    set_value "mikrotik_password" p.password (set_value "mikrotik_username" p.username r)

abbrev pub added : List Row → List Row
added rows =
    map (set_value "mikrotik_password" null) (map (set_value "mikrotik_username" null) rows)

abbrev removed : List Row → List Row
removed rows =
    map (set_value "mikrotik_password_enc" null) (map (set_value "mikrotik_username_enc" null) rows)

added-distinct : (rows : List Row) → distinct same_id (added rows) ≡ distinct same_id rows
added-distinct rows =
    distinct-map same_id (set_value "mikrotik_password" null) (λ r s. refl)
      (map (set_value "mikrotik_username" null) rows)
    ∙ distinct-map same_id (set_value "mikrotik_username" null) (λ r s. refl) rows

no_draws : (n : ℕ) (rows : List Row) → draws_after (λ r. 0) n rows ≡ n
unfolding draws_after
no_draws n [] = refl
no_draws n (r ∷ rows) = no_draws (n + 0) rows ∙ omega arith

module _ ⦃server : Server⦄ where
  -- A row whose tokens open, with its identifier.
  abbrev pub CanOpen : Row → Type 0
  CanOpen r = Opens r × (same_id r r ≡ true)

  added-CanOpen : (rows : List Row) → All CanOpen rows → All CanOpen (added rows)
  added-CanOpen [] h = tt
  added-CanOpen (r ∷ rows) h = (
    (
      record {
        username = h.0.0.username;
        password = h.0.0.password;
        username_opens = h.0.0.username_opens;
        password_opens = h.0.0.password_opens;
        username_fits = h.0.0.username_fits;
        password_fits = h.0.0.password_fits;
      },
      h.0.1,
    ),
    added-CanOpen rows h.1,
  )

  ids : (rows : List Row) → All CanOpen rows → All (λ (r : Row). same_id r r ≡ true) rows
  ids [] h = tt
  ids (r ∷ rows) h = (h.0.1, ids rows h.1)

  -- A row after the downgrade.
  unfoldable pub opened_row : Row → Row
  opened_row r = set_value "mikrotik_password_enc" null (
      set_value "mikrotik_username_enc" null (
        with_texts (decrypted_param r 0)
          (set_value "mikrotik_password" null (set_value "mikrotik_username" null r))))

  copied-opened_row :
      (n : ℕ) (rows : List Row)
      → removed (copied decrypted_param (λ r. 0) with_texts n (added rows)) ≡ map opened_row rows
  unfolding opened_row copied
  copied-opened_row n [] = refl
  copied-opened_row n (r ∷ rows) = ap (λ rest. opened_row r ∷ rest) (copied-opened_row (n + 0) rows)

  all-opened_row :
      (test : Row → Bool)
      → ((r : Row) → test (opened_row r) ≡ test r)
      → (rows : List Row) → all test (map opened_row rows) ≡ all test rows
  all-opened_row test same [] = refl
  all-opened_row test same (r ∷ rows) = rw (same r, all-opened_row test same rows) refl

  param-fits :
      (r : Row) (n : ℕ)
      → Opens r
      → (column_fits "mikrotik_username" (decrypted_param r n).username reopened_columns
          && column_fits "mikrotik_password" (decrypted_param r n).password reopened_columns)
        ≡ true
  param-fits r n o = rw (o.username_opens, o.password_opens, o.username_fits, o.password_fits) refl

  module _ (front : Front) (plans routers : List Row) (others : List Table) where
    decrypt_rows-done :
        (keys : List ForeignKey) (rows : List Row) (n : ℕ)
        → distinct same_id rows ≡ true
        → All CanOpen rows
        → decrypt_rows (stage front plans routers others reopened_columns keys rows n)
          ≡ done tt (
              stage front plans routers others reopened_columns keys
                (copied decrypted_param (λ r. 0) with_texts n rows)
                n)
    unfolding decrypt_rows
    decrypt_rows-done keys rows n d k =
        copy_batches-one_pass decrypted_param (λ r. 0)
          (written "mikrotik_username" "mikrotik_password") decrypt_row
          (update_row "mikrotik_username" "mikrotik_password")
          (stage front plans routers others reopened_columns keys) CanOpen
          (λ r table m h.
            decrypt_row-done r (stage front plans routers others reopened_columns keys table m) h.0
            ∙ ap
                (λ l.
                  done (decrypted_param r m)
                    (stage front plans routers others reopened_columns keys table l))
                (omega arith))
          (λ r table m l h.
            update_row-done front plans routers others reopened_columns keys table l
              "mikrotik_username" "mikrotik_password" (decrypted_param r m) refl
              (param-fits r m h.0))
          499 (suc (length rows)) rows rows n (omega arith) k
        ∙ (ap
              (λ t. done tt (
                stage front plans routers others reopened_columns keys t
                  (draws_after (λ r. 0) n rows)))
              (one_pass-copied decrypted_param (λ r. 0) with_texts (λ r m. refl) (λ p r. refl) n
                rows d (ids rows k))
            ∙ ap
                (λ m. done tt (
                  stage front plans routers others reopened_columns keys
                    (copied decrypted_param (λ r. 0) with_texts n rows) m))
                (no_draws n rows))

    module _ (tenant : String) (free : str_eq tenant "fk_transactions_plan_id" ≡ false)
        (other : str_eq tenant "fk_transactions_router_id" ≡ false) (rows : List Row) (n : ℕ)
        (unique : distinct same_id rows ≡ true) (ready : All CanOpen rows)
        (has_plans : all (refers "plan_id" "id" plans) rows ≡ true)
        (has_routers : all (refers "router_id" "id" routers) rows ≡ true) where
      abbrev drop_link : Migration (Unit {0})
      drop_link = do
        drop_column "transactions" "mikrotik_username_enc"
        drop_column "transactions" "mikrotik_password_enc"
        recreate_keys none

      pub downgrade-done :
          downgrade (
            stage front plans routers others head_columns (head_keys tenant (some restrict)) rows n)
          ≡ done tt (
              stage front plans routers others back_columns
                (head_keys tenant none)
                (map opened_row rows)
                n)
      unfolding downgrade
      downgrade-done =
          then-done decrypt_rows drop_link
            (stage front plans routers others reopened_columns (head_keys tenant (some restrict))
              (added rows) n)
            (decrypt_rows-done (head_keys tenant (some restrict)) (added rows) n
              (added-distinct rows ∙ unique) (added-CanOpen rows ready))
          ∙ (ap
                (λ t. recreate_keys none (
                  stage front plans routers others back_columns (head_keys tenant (some restrict)) t
                    n))
                (copied-opened_row n rows)
              ∙ recreate_keys-again front plans routers others back_columns refl refl
                  (map opened_row rows) n
                  (all-opened_row (refers "plan_id" "id" plans) (λ r. unfold opened_row in refl)
                      rows
                    ∙ has_plans)
                  (all-opened_row (refers "router_id" "id" routers) (λ r. unfold opened_row in refl)
                      rows
                    ∙ has_routers)
                  tenant (some restrict) none free other)
