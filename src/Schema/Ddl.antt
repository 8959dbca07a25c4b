-- ===== src/Schema/Ddl.antt =====
-- What the operations of Alembic and the SQL statements of the migrations do to a PostgreSQL database.
use text.Mathlib.Text.{◌==◌ as str_eq}
use hotspot_payment_gateway.Base.{
  String, Bool, false, not, ◌&&◌, ◌||◌, Option, none, some, List, [], ◌∷◌, ◌++◌, map, any, all,
  distinct, find, if◌then◌else◌,
}
use hotspot_payment_gateway.Base.Texts.{is_empty}
use hotspot_payment_gateway.Schema.{
  Column, ForeignKey, Index, Value, null, timestamp, Row, Table, is_null, fits, set_value,
}
pub use hotspot_payment_gateway.Schema.Database.{
  Server, Failure, Database, Outcome, Migration, ◌>>=◌, ◌>>◌, return, fail, require, get_tables,
  set_tables, is_called, require_table_in, get_table, replaced, put_table, has_column, in_key,
  refers_to, or_else, has_name, name_taken, drop_named, references, is_referenced, refers,
  key_refers, same_key, without, no_rows, without_column, done, failed, duplicate_table,
  undefined_table, duplicate_column, undefined_column, duplicate_index, undefined_index,
  duplicate_constraint, undefined_constraint, dependent_objects, unnamed_constraint,
  not_null_violation, value_too_long, foreign_key_violation, unique_violation, decryption_error,
  runtime_error, not_finished,
}

-- `op.create_index` and `op.drop_index`; the names of indexes are those of the whole schema.
abbrev pub create_index : String → String → List String → Bool → Migration (Unit {0})
create_index name table columns unique = do
  ts ← get_tables
  t ← get_table table
  require (not (any (λ (u : Table). any (λ (i : Index). str_eq i.name name) u.indexes) ts))
      (duplicate_index name)
  require (all (λ c. has_column c t.columns) columns) (undefined_column table)
  require (not unique || distinct (same_key columns) t.rows) (unique_violation name)
  put_table (record t {
    indexes = t.indexes ++ record { name = name; columns = columns; unique = unique } ∷ [];
  })

abbrev pub drop_index : String → String → Migration (Unit {0})
drop_index name table = do
  t ← get_table table
  require (any (λ (i : Index). str_eq i.name name) t.indexes) (undefined_index name)
  put_table (record t { indexes = without (λ (i : Index). str_eq i.name name) t.indexes })

-- `op.drop_table`, with its indexes; PostgreSQL refuses it where another table refers to it.
abbrev pub drop_table : String → Migration (Unit {0})
drop_table name = do
  t ← get_table name
  ts ← get_tables
  require (not (is_referenced name ts)) (dependent_objects name)
  set_tables (without (is_called name) ts)

-- `op.add_column` of a column with no default.
abbrev pub add_column : String → Column → Migration (Unit {0})
add_column table c = do
  t ← get_table table
  require (not (has_column c.name t.columns)) (duplicate_column c.name)
  require (c.nullable || no_rows t.rows) (not_null_violation c.name)
  put_table (record t { columns = t.columns ++ c ∷ []; rows = map (set_value c.name null) t.rows })

abbrev pub drop_column : String → String → Migration (Unit {0})
drop_column table name = do
  t ← get_table table
  require (has_column name t.columns) (undefined_column name)
  put_table (without_column name t)

abbrev pub not_nullable : String → Column → Column
not_nullable name c = if str_eq c.name name then record c { nullable = false } else c

-- `op.alter_column(table, name, nullable=False)`
abbrev pub set_not_null : String → String → Migration (Unit {0})
set_not_null table name = do
  t ← get_table table
  require (has_column name t.columns) (undefined_column name)
  require (all (λ (r : Row). not (is_null (r name))) t.rows) (not_null_violation name)
  put_table (record t { columns = map (not_nullable name) t.columns })

-- `UPDATE table SET name = v`; the columns that a migration updates are nullable and in no key.
abbrev pub update_all : String → String → Value → Migration (Unit {0})
update_all table name v = do
  t ← get_table table
  require (has_column name t.columns) (undefined_column name)
  require (all (λ (c : Column). not (str_eq c.name name) || fits c.type v) t.columns)
      (value_too_long name)
  put_table (record t { rows = map (set_value name v) t.rows })

-- `op.drop_constraint(name, table, type_="foreignkey")`: Alembic does not emit the statement for a
-- constraint with no name.
abbrev pub drop_constraint : Option String → String → Migration (Unit {0})
drop_constraint none table = fail (unnamed_constraint table)
drop_constraint (some name) table = do
  t ← get_table table
  require (any (has_name name) t.foreign_keys) (undefined_constraint name)
  put_table (record t { foreign_keys = drop_named name t.foreign_keys })

-- A foreign key with no name, or an empty one, is left in place.
abbrev pub drop_found : String → Option ForeignKey → Migration (Unit {0})
drop_found table none = return tt
drop_found table (some fk) = elim fk.name [
  | none ↦ return tt
  | some name ↦ if is_empty name then return tt else drop_constraint (some name) table
]

-- Every value fits its column.
abbrev pub row_valid : List Column → Row → Bool
row_valid columns r =
    all (λ (c : Column). (c.nullable || not (is_null (r c.name))) && fits c.type (r c.name)) columns

module _ ⦃server : Server⦄ where
  abbrev pub name_key : String → ForeignKey → ForeignKey
  name_key table fk = record fk { name = or_else fk.name (server.automatic_name table fk.columns) }

  -- `op.create_table`
  abbrev pub create_table : Table → Migration (Unit {0})
  create_table t = do
    ts ← get_tables
    require (not (any (is_called t.name) ts)) (duplicate_table t.name)
    require (all (λ fk. any (refers_to fk) ts) t.foreign_keys) (undefined_table t.name)
    set_tables (ts ++ record t { foreign_keys = map (name_key t.name) t.foreign_keys } ∷ [])

  -- `op.create_foreign_key`
  abbrev pub create_foreign_key : String → ForeignKey → Migration (Unit {0})
  create_foreign_key table key = do
    let fk = name_key table key
    t ← get_table table
    ts ← get_tables
    referred ← get_table fk.referred_table
    require (all (λ c. has_column c t.columns) fk.columns) (undefined_column table)
    require (refers_to fk referred) (undefined_column fk.referred_table)
    require (not (name_taken fk.name t.foreign_keys)) (duplicate_constraint table)
    require (all (key_refers fk.columns fk.referred_columns referred.rows) t.rows)
        (foreign_key_violation table)
    put_table (record t { foreign_keys = t.foreign_keys ++ fk ∷ [] })

  -- The value of a column that an INSERT leaves out.
  abbrev pub default_value : Option String → Value
  default_value none = null
  default_value (some _) = timestamp server.now

  abbrev pub filled : List Column → List (String × Value) → Row
  filled columns given name = elim (find (λ (p : String × Value). str_eq p.0 name) given) [
    | some p ↦ p.1
    | none ↦ elim (find (λ (c : Column). str_eq c.name name) columns) [
      | none ↦ null
      | some c ↦ default_value c.server_default
    ]
  ]

  -- `op.bulk_insert` of one row, into a table with no foreign key.
  abbrev pub insert_row : String → List (String × Value) → Migration (Unit {0})
  insert_row table given = do
    t ← get_table table
    let r = filled t.columns given
    require (row_valid t.columns r) (not_null_violation table)
    require (not (any (same_key t.primary_key r) t.rows)) (unique_violation table)
    put_table (record t { rows = t.rows ++ r ∷ [] })
