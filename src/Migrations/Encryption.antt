-- ===== src/Migrations/Encryption.antt =====
-- alembic/versions/2026-05-19_transaction_mikrotik_encryption.py
pub mod Rows
pub mod Tables
pub mod Keys
pub mod Upgrade
pub mod Downgrade
pub mod Kept
pub mod RoundTrip
pub mod TooLong
use Prim.Native.String.{◌++◌ as str_append}
use hotspot_payment_gateway.Base.{
  ℕ, suc, ◌+◌, String, Bool, true, false, not, ◌&&◌, ◌||◌, Option, none, some, List, [], ◌∷◌, any,
  all, find, update_where, if◌then◌else◌,
}
use hotspot_payment_gateway.Core.Encryption.{Sealed, value, encrypt_value, decrypt_value}
use hotspot_payment_gateway.Schema.{
  OnDelete, restrict, ForeignKey, Value, null, Row, Column, Table, column, varchar, texts_eq,
  value_eq, fits, set_value, ColumnType,
}
use hotspot_payment_gateway.Schema.Ddl.{
  Server, Failure, Database, Outcome, done, failed, Migration, ◌>>=◌, ◌>>◌, return, require,
  undefined_column, value_too_long, get_table, put_table, has_column, add_column, drop_column,
  drop_found, create_foreign_key,
}
use hotspot_payment_gateway.Migrations.Batches.{length, Param, copy_batches}
use text.Mathlib.Text.{◌==◌ as str_eq}

-- A text column as a Python value, and back.
abbrev pub text_of : Value → Option String
text_of (Value.text s) = some s
text_of _ = none

abbrev pub value_of : Option String → Value
value_of none = null
value_of (some s) = Value.text s

-- `'_'.join(columns)`
abbrev pub joined : List String → String
joined [] = ""
joined (c ∷ []) = c
joined (c ∷ cs) = str_append c (str_append "_" (joined cs))

-- `f"fk_{table_name}_{'_'.join(columns)}"`
abbrev pub foreign_key_name : String → List String → String
foreign_key_name table columns =
    str_append "fk_" (str_append table (str_append "_" (joined columns)))

abbrev pub column_fits : String → Value → List Column → Bool
column_fits name v = all (λ (c : Column). not (str_eq c.name name) || fits c.type v)

-- `UPDATE transactions SET … = :username, … = :password WHERE id = :id`
abbrev pub written : String → String → Param → List Row → List Row
written username password p =
    update_where (λ r. value_eq (r "id") p.id)
      (λ r. set_value password p.password (set_value username p.username r))

abbrev pub update_row : String → String → Param → Migration (Unit {0})
update_row username password p = do
  t ← get_table "transactions"
  require (has_column username t.columns && has_column password t.columns)
      (undefined_column "transactions")
  require
      (column_fits username p.username t.columns && column_fits password p.password t.columns
        || not (any (λ (r : Row). value_eq (r "id") p.id) t.rows))
      (value_too_long "transactions")
  put_table (record t { rows = written username password p t.rows })

abbrev pub batch_size : ℕ
batch_size = 500

abbrev pub drawn : Option String → ℕ
drawn none = 0
drawn (some s) = 1

abbrev pub or_error : Sealed (Option String) → Migration (Option String)
or_error (value a) db = done a db
or_error (Sealed.decryption_error message) db = failed (Failure.decryption_error message)
or_error (Sealed.runtime_error message) db = failed (Failure.runtime_error message)

module _ ⦃server : Server⦄ where
  -- `encrypt_value` draws from the random source where there is a text.
  abbrev pub encrypt : Option String → Migration (Option String)
  encrypt text db =
      or_error (encrypt_value ⦃lib = server.fernet⦄ server.encryption_key text db.draws)
        (record db { draws = db.draws + drawn text })

  abbrev pub decrypt : Option String → Migration (Option String)
  decrypt token = or_error (decrypt_value ⦃lib = server.fernet⦄ server.encryption_key token)

  -- The entry of `params` for one row, in each direction.
  unfoldable pub encrypt_row : Row → Migration Param
  encrypt_row r = do
    username ← encrypt (text_of (r "mikrotik_username"))
    password ← encrypt (text_of (r "mikrotik_password"))
    return (record { id = r "id"; username = value_of username; password = value_of password })

  unfoldable pub decrypt_row : Row → Migration Param
  decrypt_row r = do
    username ← decrypt (text_of (r "mikrotik_username_enc"))
    password ← decrypt (text_of (r "mikrotik_password_enc"))
    return (record { id = r "id"; username = value_of username; password = value_of password })

  -- `_recreate_foreign_key`
  unfoldable pub recreate_foreign_key :
      String → List String → String → List String → Option OnDelete → Migration (Unit {0})
  recreate_foreign_key table columns referred_table referred_columns on_delete = do
    t ← get_table table
    drop_found table (find (λ (fk : ForeignKey). texts_eq fk.columns columns) t.foreign_keys)
    create_foreign_key table (record {
      name = some (foreign_key_name table columns);
      columns = columns;
      referred_table = referred_table;
      referred_columns = referred_columns;
      on_delete = on_delete;
    })

  -- The rows of `SELECT id, … FROM transactions` are copied in batches.
  unfoldable pub encrypt_rows : Migration (Unit {0})
  encrypt_rows = do
    t ← get_table "transactions"
    copy_batches encrypt_row (update_row "mikrotik_username_enc" "mikrotik_password_enc")
        (suc (length t.rows)) batch_size t.rows

  unfoldable pub decrypt_rows : Migration (Unit {0})
  decrypt_rows = do
    t ← get_table "transactions"
    copy_batches decrypt_row (update_row "mikrotik_username" "mikrotik_password")
        (suc (length t.rows)) batch_size t.rows

  unfoldable pub upgrade : Migration (Unit {0})
  upgrade = do
    add_column "transactions" (column "mikrotik_username_enc" ColumnType.text true)
    add_column "transactions" (column "mikrotik_password_enc" ColumnType.text true)
    encrypt_rows
    drop_column "transactions" "mikrotik_username"
    drop_column "transactions" "mikrotik_password"
    recreate_foreign_key "transactions" ("plan_id" ∷ []) "plans" ("id" ∷ []) (some restrict)
    recreate_foreign_key "transactions" ("router_id" ∷ []) "routers" ("id" ∷ []) (some restrict)

  unfoldable pub downgrade : Migration (Unit {0})
  downgrade = do
    add_column "transactions" (column "mikrotik_username" (varchar 80) true)
    add_column "transactions" (column "mikrotik_password" (varchar 80) true)
    decrypt_rows
    drop_column "transactions" "mikrotik_username_enc"
    drop_column "transactions" "mikrotik_password_enc"
    recreate_foreign_key "transactions" ("plan_id" ∷ []) "plans" ("id" ∷ []) none
    recreate_foreign_key "transactions" ("router_id" ∷ []) "routers" ("id" ∷ []) none
