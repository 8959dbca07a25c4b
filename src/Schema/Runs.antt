-- ===== src/Schema/Runs.antt =====
-- Rules for a run of a migration whose tests read stored rows.
use hotspot_payment_gateway.Base.{
  arith, String, ◌≡◌, refl, ap, true, false, not, Option, none, some, List, [], ◌∷◌, ◌++◌, map, all,
  any, find,
}
use hotspot_payment_gateway.Base.Texts.{is_empty}
use hotspot_payment_gateway.Schema.{ForeignKey, Row, Table, is_null}
use hotspot_payment_gateway.Schema.Ddl.{
  Server, Database, Outcome, done, failed, Migration, ◌>>=◌, ◌>>◌, is_called, replaced, has_column,
  refers_to, name_taken, key_refers, not_nullable, name_key, set_not_null, create_foreign_key,
  drop_found, drop_named, has_name,
}

pub bind-done {ℓ κ} :
    {A : Type ℓ} {B : Type κ} (m : Migration A) (f : A → Migration B) (db : Database) {a : A}
    {db' : Database}
    → m db ≡ done a db'
    → (m >>= f) db ≡ f a db'
bind-done {A} {B} m f db h =
    ap
      (λ (o : Outcome A).
        let b : Outcome B = elim o [ done a d ↦ f a d | failed e ↦ failed e ] in b)
      h

pub then-done :
    (m k : Migration (Unit {0})) (db : Database) {db' : Database}
    → m db ≡ done tt db'
    → (m >> k) db ≡ k db'
then-done m k db h =
    ap (λ (o : Outcome (Unit {0})). elim o [ done a d ↦ k d | failed e ↦ failed e ]) h

pub set_not_null-done :
    (table name : String) (t : Table) (db : Database)
    → find (is_called table) db.tables ≡ some t
    → has_column name t.columns ≡ true
    → all (λ (r : Row). not (is_null (r name))) t.rows ≡ true
    → set_not_null table name db
      ≡ done tt (record db {
        tables =
            replaced t.name (record t { columns = map (not_nullable name) t.columns }) db.tables;
      })
set_not_null-done table name t db found has rows = ground arith

-- The first foreign key of a table has a free name.
pub name_taken-nil : (name : Option String) → not (name_taken name []) ≡ true
name_taken-nil none = refl
name_taken-nil (some name) = refl

module _ ⦃server : Server⦄ where
  pub create_foreign_key-done :
      (table : String) (key : ForeignKey) (t referred : Table) (db : Database)
      → find (is_called table) db.tables ≡ some t
      → find (is_called key.referred_table) db.tables ≡ some referred
      → all (λ c. has_column c t.columns) key.columns ≡ true
      → refers_to (name_key table key) referred ≡ true
      → not (name_taken (name_key table key).name t.foreign_keys) ≡ true
      → all (key_refers key.columns key.referred_columns referred.rows) t.rows ≡ true
      → create_foreign_key table key db
        ≡ done tt (record db {
          tables =
              replaced t.name
                (record t { foreign_keys = t.foreign_keys ++ name_key table key ∷ [] })
                db.tables;
        })
  create_foreign_key-done table key t referred db found other has refs free rows = ground arith

-- A foreign key with a name is dropped.
pub drop_found-done :
    (table name : String) (t : Table) (fk : ForeignKey) (db : Database)
    → find (is_called table) db.tables ≡ some t
    → any (has_name name) t.foreign_keys ≡ true
    → fk.name ≡ some name
    → is_empty name ≡ false
    → drop_found table (some fk) db
      ≡ done tt (record db {
        tables =
            replaced t.name (record t { foreign_keys = drop_named name t.foreign_keys }) db.tables;
      })
drop_found-done table name t fk db found has named used = ground arith

pub drop_named-first :
    (name : String) (fk : ForeignKey) (rest : List ForeignKey)
    → has_name name fk ≡ true
    → drop_named name (fk ∷ rest) ≡ rest
drop_named-first name fk rest h = rw h refl

pub drop_named-second :
    (name : String) (other fk : ForeignKey) (rest : List ForeignKey)
    → has_name name other ≡ false
    → has_name name fk ≡ true
    → drop_named name (other ∷ fk ∷ rest) ≡ other ∷ rest
drop_named-second name other fk rest h k = rw (h, k) refl
