-- ===== src/Metadata.antt =====
-- `Base.metadata` (src/models.py): the tables that SQLAlchemy derives from the model classes.
pub mod Models
pub mod Fitting
pub mod Rows
pub mod Same
use Prim.Native.String.{◌++◌ as str_append}
use hotspot_payment_gateway.Base.{
  String, Bool, true, false, Option, none, some, List, [], ◌∷◌, ◌++◌, map,
}
use hotspot_payment_gateway.Schema.{
  ColumnType, Column, OnDelete, ForeignKey, UniqueConstraint, Index, Table, column, now_column,
  foreign_key,
}

-- `mapped_column(…)`: the column, and what `index=True`, `unique=True` and `ForeignKey(…)` ask for.
pub record Mapped : Type 0 where
  pub column : Column
  pub index : Bool
  pub unique : Bool
  pub references : Option (String × Option OnDelete)

abbrev pub mapped : String → ColumnType → Bool → Mapped
mapped name type nullable = record {
  column = column name type nullable;
  index = false;
  unique = false;
  references = none;
}

-- `server_default=func.now()`
abbrev pub mapped_now : String → Mapped
mapped_now name = record {
  column = now_column name;
  index = false;
  unique = false;
  references = none;
}

-- `mapped_column(ForeignKey("….id", ondelete=…))`
abbrev pub mapped_key : String → String → Option OnDelete → Mapped
mapped_key name referred on_delete = record {
  column = column name ColumnType.uuid false;
  index = false;
  unique = false;
  references = some (referred, on_delete);
}

abbrev pub indexed : Mapped → Mapped
indexed m = record m { index = true }

abbrev pub unique : Mapped → Mapped
unique m = record m { unique = true }

-- `unique=True` without `index=True` is a constraint; with it, the index is unique.
abbrev pub uniques_of : List Mapped → List UniqueConstraint
uniques_of [] = []
uniques_of (m ∷ ms) = elim m.index [
  | true ↦ uniques_of ms
  | false ↦ elim m.unique [
    | true ↦ record { name = none; columns = m.column.name ∷ [] } ∷ uniques_of ms
    | false ↦ uniques_of ms
  ]
]

abbrev pub indexes_of : String → List Mapped → List Index
indexes_of table [] = []
indexes_of table (m ∷ ms) = elim m.index [
  | true ↦
      record {
        name = str_append "ix_" (str_append table (str_append "_" m.column.name));
        columns = m.column.name ∷ [];
        unique = m.unique;
      }
      ∷ indexes_of table ms
  | false ↦ indexes_of table ms
]

abbrev pub keys_of : List Mapped → List ForeignKey
keys_of [] = []
keys_of (m ∷ ms) = elim m.references [
  | none ↦ keys_of ms
  | some (referred, on_delete) ↦ foreign_key m.column.name referred on_delete ∷ keys_of ms
]

-- The table of a class: its name, mapped columns, and the constraints and indexes of
-- `__table_args__`. Every class has the primary key `id`.
abbrev pub declared : String → List Mapped → List UniqueConstraint → List Index → Table
declared name columns unique_constraints indexes = record {
  name = name;
  columns = map (λ (m : Mapped). m.column) columns;
  primary_key = "id" ∷ [];
  unique_constraints = unique_constraints ++ uniques_of columns;
  foreign_keys = keys_of columns;
  indexes = indexes ++ indexes_of name columns;
  rows = [];
}
