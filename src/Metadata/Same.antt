-- ===== src/Metadata/Same.antt =====
-- Two schemas that agree up to the order of tables, columns, keys and indexes, the names of foreign keys
-- and the rows: what Alembic's comparison of the metadata with a database reports no change for.
use package.text.Mathlib.Text.{◌==◌ as str_eq}
use hotspot_payment_gateway.Base.{
  String, Bool, true, false, not, ◌&&◌, Option, none, some, List, any, all, ◌==◌,
}
use hotspot_payment_gateway.Schema.{
  ColumnType, text, boolean, timestamp_tz, integer, big_integer, time, json, varchar, enum, Column,
  OnDelete, cascade, restrict, ForeignKey, UniqueConstraint, Index, Table, texts_eq,
}

module _ {A : Type 0} where
  abbrev pub same_set : (A → A → Bool) → List A → List A → Bool
  same_set eq xs ys = all (λ x. any (eq x) ys) xs && all (λ y. any (λ x. eq x y) xs) ys

abbrev pub type_eq : ColumnType → ColumnType → Bool
type_eq ColumnType.uuid ColumnType.uuid = true
type_eq text text = true
type_eq boolean boolean = true
type_eq timestamp_tz timestamp_tz = true
type_eq integer integer = true
type_eq big_integer big_integer = true
type_eq time time = true
type_eq json json = true
type_eq (varchar n) (varchar m) = n == m
type_eq (enum s vs n) (enum t ws m) = str_eq s t && texts_eq vs ws && n == m
type_eq _ _ = false

abbrev pub bool_eq : Bool → Bool → Bool
bool_eq true b = b
bool_eq false b = not b

abbrev pub option_eq : Option String → Option String → Bool
option_eq none none = true
option_eq (some s) (some t) = str_eq s t
option_eq _ _ = false

abbrev pub delete_eq : Option OnDelete → Option OnDelete → Bool
delete_eq none none = true
delete_eq (some cascade) (some cascade) = true
delete_eq (some restrict) (some restrict) = true
delete_eq _ _ = false

abbrev pub column_eq : Column → Column → Bool
column_eq c d =
    str_eq c.name d.name
    && type_eq c.type d.type
    && bool_eq c.nullable d.nullable
    && option_eq c.server_default d.server_default

abbrev pub key_eq : ForeignKey → ForeignKey → Bool
key_eq k l =
    texts_eq k.columns l.columns
    && str_eq k.referred_table l.referred_table
    && texts_eq k.referred_columns l.referred_columns
    && delete_eq k.on_delete l.on_delete

abbrev pub unique_eq : UniqueConstraint → UniqueConstraint → Bool
unique_eq u v = option_eq u.name v.name && texts_eq u.columns v.columns

abbrev pub index_eq : Index → Index → Bool
index_eq i j = str_eq i.name j.name && texts_eq i.columns j.columns && bool_eq i.unique j.unique

abbrev pub table_eq : Table → Table → Bool
table_eq t u =
    str_eq t.name u.name
    && same_set column_eq t.columns u.columns
    && texts_eq t.primary_key u.primary_key
    && same_set unique_eq t.unique_constraints u.unique_constraints
    && same_set key_eq t.foreign_keys u.foreign_keys
    && same_set index_eq t.indexes u.indexes

-- Each table of the one has its like in the other.
unfoldable pub same_schema : List Table → List Table → Bool
same_schema = same_set table_eq
