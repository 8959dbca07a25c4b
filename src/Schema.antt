-- ===== src/Schema.antt =====
-- The relational schema as SQLAlchemy and Alembic describe it: columns, keys, indexes and rows.
pub mod Database
pub mod Ddl
pub mod Runs
use package.text.Mathlib.Text.{◌==◌ as str_eq}
use hotspot_payment_gateway.Base.{
  ℕ, suc, String, Bool, true, false, ◌&&◌, Option, none, some, List, [], ◌∷◌, leb, ◌==◌, any,
  if◌then◌else◌,
}

pub data ColumnType : Type 0 where
  uuid text boolean timestamp_tz integer big_integer time json : ColumnType
  varchar : ℕ → ColumnType
  -- `sa.Enum(…, native_enum=False)`: its name, values and length
  enum : String → List String → ℕ → ColumnType

pub record Column : Type 0 where
  pub name : String
  pub type : ColumnType
  pub nullable : Bool
  -- `server_default`, an SQL expression
  pub server_default : Option String

pub data OnDelete : Type 0 where
  cascade restrict : OnDelete

pub record ForeignKey : Type 0 where
  pub name : Option String
  pub columns : List String
  pub referred_table : String
  pub referred_columns : List String
  pub on_delete : Option OnDelete

pub record UniqueConstraint : Type 0 where
  pub name : Option String
  pub columns : List String

pub record Index : Type 0 where
  pub name : String
  pub columns : List String
  pub unique : Bool

-- A stored value; `uuid` is its 128-bit integer.
pub data Value : Type 0 where
  null : Value
  uuid : ℕ → Value
  text : String → Value
  boolean : Bool → Value
  number : ℕ → Value
  timestamp : ℕ → Value

-- A row gives the value of each of its table's columns.
abbrev pub Row : Type 0
Row = String → Value

pub record Table : Type 0 where
  pub name : String
  pub columns : List Column
  pub primary_key : List String
  pub unique_constraints : List UniqueConstraint
  pub foreign_keys : List ForeignKey
  pub indexes : List Index
  pub rows : List Row

-- A column with no default of the server.
abbrev pub column : String → ColumnType → Bool → Column
column name type nullable = record {
  name = name;
  type = type;
  nullable = nullable;
  server_default = none;
}

-- A required timestamp, `server_default=sa.text('now()')`.
abbrev pub now_column : String → Column
now_column name = record {
  name = name;
  type = timestamp_tz;
  nullable = false;
  server_default = some "now()";
}

-- A foreign key on one column, with no name of its own.
abbrev pub foreign_key : String → String → Option OnDelete → ForeignKey
foreign_key col referred on_delete = record {
  name = none;
  columns = col ∷ [];
  referred_table = referred;
  referred_columns = "id" ∷ [];
  on_delete = on_delete;
}

abbrev pub index : String → List String → Bool → Index
index name columns unique = record { name = name; columns = columns; unique = unique }

-- An empty table with the primary key `id`, and no index.
abbrev pub new_table : String → List Column → List UniqueConstraint → List ForeignKey → Table
new_table name columns unique_constraints foreign_keys = record {
  name = name;
  columns = columns;
  primary_key = "id" ∷ [];
  unique_constraints = unique_constraints;
  foreign_keys = foreign_keys;
  indexes = [];
  rows = [];
}

abbrev pub texts_eq : List String → List String → Bool
texts_eq [] [] = true
texts_eq (s ∷ ss) (t ∷ ts) = str_eq s t && texts_eq ss ts
texts_eq _ _ = false

abbrev pub is_null : Value → Bool
is_null null = true
is_null _ = false

-- SQL's `=`: NULL equals nothing.
abbrev pub value_eq : Value → Value → Bool
value_eq (Value.uuid a) (Value.uuid b) = a == b
value_eq (Value.text a) (Value.text b) = str_eq a b
value_eq (number a) (number b) = a == b
value_eq (timestamp a) (timestamp b) = a == b
value_eq _ _ = false

-- `char_length` of SQL.
abbrev pub char_length : String → ℕ
char_length String.[] = 0
char_length (String.◌∷◌ c s) = suc (char_length s)

-- The value is one of the type, and a text is no longer than its column; NULL is one of every type.
abbrev pub fits : ColumnType → Value → Bool
fits type null = true
fits uuid (Value.uuid a) = true
fits text (Value.text s) = true
fits (varchar n) (Value.text s) = leb (char_length s) n
fits (enum name values n) (Value.text s) = leb (char_length s) n
fits boolean (Value.boolean b) = true
fits integer (number a) = true
fits big_integer (number a) = true
fits timestamp_tz (timestamp t) = true
fits _ _ = false

-- A row with one value changed.
abbrev pub set_value : String → Value → Row → Row
set_value name v r other = if str_eq name other then v else r other

-- Two lists of rows correspond, row by row.
abbrev pub Rowwise : (Row → Row → Type 0) → List Row → List Row → Type 0
Rowwise R [] [] = Unit {0}
Rowwise R (r ∷ rows) (s ∷ others) = R r s × Rowwise R rows others
Rowwise R _ _ = ⊥
