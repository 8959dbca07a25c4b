-- ===== src/Schema/Database.antt =====
-- A PostgreSQL database as migrations see it, and the monad in which they run: a migration changes
-- the tables or fails, and draws from the random source where it encrypts.
use text.Mathlib.Text.{◌==◌ as str_eq}
use hotspot_payment_gateway.Base.{
  ℕ, String, Bool, true, false, not, ◌&&◌, ◌||◌, Option, none, some, List, [], ◌∷◌, map, any, find,
  if◌then◌else◌,
}
use hotspot_payment_gateway.Core.Encryption.{FernetLib}
use hotspot_payment_gateway.Schema.{
  Column, ForeignKey, UniqueConstraint, Index, null, Row, Table, texts_eq, is_null, value_eq,
  set_value,
}

-- What a migration meets: the cipher and its environment variable, the value of `now()` in the
-- transaction, and the name that the database gives to a foreign key that is created without one.
pub record Server : Type 0 where
  pub fernet : FernetLib
  pub encryption_key : Option String
  pub now : ℕ
  pub automatic_name : String → List String → Option String

pub data Failure : Type 0 where
  duplicate_table undefined_table duplicate_column undefined_column : String → Failure
  duplicate_index undefined_index duplicate_constraint undefined_constraint : String → Failure
  dependent_objects unnamed_constraint not_null_violation value_too_long : String → Failure
  foreign_key_violation unique_violation : String → Failure
  decryption_error runtime_error : String → Failure
  -- the fuel of a loop of the model
  not_finished : Failure

-- The tables, and how many initialisation vectors were drawn.
pub record Database : Type 0 where
  pub tables : List Table
  pub draws : ℕ

pub data Outcome {ℓ} (A : Type ℓ) : Type ℓ where
  done : A → Database → Outcome A
  failed : Failure → Outcome A

abbrev pub Migration {ℓ} : Type ℓ → Type ℓ
Migration A = Database → Outcome A

infixl 5 ◌>>=◌ ◌>>◌
abbrev pub ◌>>=◌ {ℓ κ} : {A : Type ℓ} {B : Type κ} → Migration A → (A → Migration B) → Migration B
◌>>=◌ m f db = elim (m db) [ done a db' ↦ f a db' | failed e ↦ failed e ]

abbrev pub ◌>>◌ {ℓ} : {B : Type ℓ} → Migration (Unit {0}) → Migration B → Migration B
m >> k = m >>= λ _. k

abbrev pub return {ℓ} : {A : Type ℓ} → A → Migration A
return a db = done a db

abbrev pub fail {ℓ} : {A : Type ℓ} → Failure → Migration A
fail e db = failed e

abbrev pub require : Bool → Failure → Migration (Unit {0})
require true e db = done tt db
require false e db = failed e

abbrev pub get_tables : Migration (List Table)
get_tables db = done db.tables db

abbrev pub set_tables : List Table → Migration (Unit {0})
set_tables ts db = done tt (record db { tables = ts })

abbrev pub is_called : String → Table → Bool
is_called name t = str_eq t.name name

abbrev pub require_table_in : String → Option Table → Migration Table
require_table_in name none db = failed (undefined_table name)
require_table_in name (some t) db = done t db

abbrev pub get_table : String → Migration Table
get_table name = do ts ← get_tables; require_table_in name (find (is_called name) ts)

abbrev pub replaced : String → Table → List Table → List Table
replaced name t [] = []
replaced name t (u ∷ us) = if is_called name u then t ∷ us else u ∷ replaced name t us

abbrev pub put_table : Table → Migration (Unit {0})
put_table t = do ts ← get_tables; set_tables (replaced t.name t ts)

abbrev pub has_column : String → List Column → Bool
has_column name = any (λ (c : Column). str_eq c.name name)

abbrev pub in_key : String → List String → Bool
in_key name = any (λ s. str_eq s name)

-- The referred columns are the primary key or a unique constraint of the referred table.
abbrev pub refers_to : ForeignKey → Table → Bool
refers_to fk t =
    is_called fk.referred_table t
    && (texts_eq t.primary_key fk.referred_columns
        || any (λ (u : UniqueConstraint). texts_eq u.columns fk.referred_columns)
            t.unique_constraints)

abbrev pub or_else {ℓ} : {A : Type ℓ} → Option A → Option A → Option A
or_else none b = b
or_else (some a) b = some a

abbrev pub has_name : String → ForeignKey → Bool
has_name name fk = elim fk.name [ none ↦ false | some n ↦ str_eq n name ]

abbrev pub name_taken : Option String → List ForeignKey → Bool
name_taken none fks = false
name_taken (some name) fks = any (has_name name) fks

-- The first of the keys with the name is dropped; within a table names are unique.
abbrev pub drop_named : String → List ForeignKey → List ForeignKey
drop_named name [] = []
drop_named name (fk ∷ fks) = if has_name name fk then fks else fk ∷ drop_named name fks

abbrev pub references : String → ForeignKey → Bool
references name fk = str_eq fk.referred_table name

-- Another table has a foreign key to the named one.
abbrev pub is_referenced : String → List Table → Bool
is_referenced name =
    any (λ (t : Table). not (is_called name t) && any (references name) t.foreign_keys)

-- A row refers to a row of the referred table, or its key is NULL. Every key here has one column.
abbrev pub refers : String → String → List Row → Row → Bool
refers column remote keys r =
    is_null (r column) || any (λ (k : Row). value_eq (k remote) (r column)) keys

abbrev pub key_refers : List String → List String → List Row → Row → Bool
key_refers (c ∷ []) (k ∷ []) keys r = refers c k keys r
key_refers _ _ keys r = false

abbrev pub same_key : List String → Row → Row → Bool
same_key [] r s = true
same_key (c ∷ cs) r s = value_eq (r c) (s c) && same_key cs r s

abbrev pub without : {A : Type 0} → (A → Bool) → List A → List A
without p [] = []
without p (x ∷ xs) = if p x then without p xs else x ∷ without p xs

abbrev pub no_rows : List Row → Bool
no_rows [] = true
no_rows (r ∷ rs) = false

abbrev pub without_column : String → Table → Table
without_column name t = record t {
  columns = without (λ (c : Column). str_eq c.name name) t.columns;
  unique_constraints =
      without (λ (u : UniqueConstraint). in_key name u.columns) t.unique_constraints;
  foreign_keys = without (λ (fk : ForeignKey). in_key name fk.columns) t.foreign_keys;
  indexes = without (λ (i : Index). in_key name i.columns) t.indexes;
  rows = map (set_value name null) t.rows;
}
