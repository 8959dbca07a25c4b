-- ===== src/Migrations/Encryption/Tables.antt =====
-- A database with the tables that the revision f29672c8ed8f reads or changes, and any others.
use hotspot_payment_gateway.Base.{
  ℕ, String, ◌≡◌, refl, ap, ◌∙◌, true, false, ◌&&◌, Option, some, List, [], ◌∷◌, ◌++◌, all, any,
  find, arith,
}
use hotspot_payment_gateway.Base.Texts.{is_empty}
use hotspot_payment_gateway.Schema.{Column, OnDelete, ForeignKey, Row, Table, texts_eq}
use hotspot_payment_gateway.Schema.Ddl.{
  Server, Database, done, is_called, has_column, refers_to, has_name, name_taken, drop_named,
  key_refers, drop_found, create_foreign_key, ◌>>◌,
}
use hotspot_payment_gateway.Schema.Runs.{then-done, drop_found-done, create_foreign_key-done}
use hotspot_payment_gateway.Migrations.Batches.{Param}
use hotspot_payment_gateway.Migrations.Tenants.{new_transactions}
use hotspot_payment_gateway.Migrations.States.{
  Front, front_tables, plans_table, routers_table, transaction_indexes,
}
use hotspot_payment_gateway.Migrations.Encryption.{
  foreign_key_name, column_fits, written, update_row, recreate_foreign_key,
}

-- The foreign key of one column of `transactions`.
abbrev pub key_on : String → String → String → Option OnDelete → ForeignKey
key_on name col referred on_delete = record {
  name = some name;
  columns = col ∷ [];
  referred_table = referred;
  referred_columns = "id" ∷ [];
  on_delete = on_delete;
}

module _ ⦃server : Server⦄ (front : Front) (plans routers : List Row) (others : List Table) where
  abbrev pub transactions : List Column → List ForeignKey → List Row → Table
  transactions columns keys rows = record new_transactions {
    columns = columns;
    foreign_keys = keys;
    indexes = transaction_indexes;
    rows = rows;
  }

  abbrev pub stage : List Column → List ForeignKey → List Row → ℕ → Database
  stage columns keys rows n = record {
    tables =
        front_tables front
        ++ plans_table plans ∷ routers_table routers ∷ transactions columns keys rows ∷ others;
    draws = n;
  }

  module _ (columns : List Column) (keys : List ForeignKey) (rows : List Row) (n : ℕ) where
    pub update_row-done :
        (username password : String) (p : Param)
        → (has_column username columns && has_column password columns) ≡ true
        → (column_fits username p.username columns && column_fits password p.password columns)
          ≡ true
        → update_row username password p (stage columns keys rows n)
          ≡ done tt (stage columns keys (written username password p rows) n)
    update_row-done username password p has fit = ground arith

    pub recreate_foreign_key-done :
        (col referred name : String) (on_delete : Option OnDelete) (fk : ForeignKey)
        (rest : List ForeignKey) (t : Table)
        → find (λ (k : ForeignKey). texts_eq k.columns (col ∷ [])) keys ≡ some fk
        → fk.name ≡ some name
        → is_empty name ≡ false
        → any (has_name name) keys ≡ true
        → find (is_called referred) (stage columns (drop_named name keys) rows n).tables ≡ some t
        → has_column col columns ≡ true
        → refers_to (key_on (foreign_key_name "transactions" (col ∷ [])) col referred on_delete) t
          ≡ true
        → name_taken (some (foreign_key_name "transactions" (col ∷ []))) rest ≡ false
        → drop_named name keys ≡ rest
        → all (key_refers (col ∷ []) ("id" ∷ []) t.rows) rows ≡ true
        → recreate_foreign_key "transactions"
            (col ∷ [])
            referred
            ("id" ∷ [])
            on_delete
            (stage columns keys rows n)
          ≡ done tt (
              stage columns
                (rest
                  ++ key_on (foreign_key_name "transactions" (col ∷ [])) col referred on_delete
                    ∷ [])
                rows
                n)
    unfolding recreate_foreign_key
    recreate_foreign_key-done col referred name on_delete fk rest t found named used has other
          column refs free left refer =
        ap
          (λ (k : Option ForeignKey).
            (drop_found "transactions" k >> create_foreign_key "transactions" key)
              (stage columns keys rows n))
          found
        ∙ (then-done (drop_found "transactions" (some fk)) (create_foreign_key "transactions" key)
              (stage columns keys rows n)
              (drop_found-done "transactions" name (transactions columns keys rows) fk
                (stage columns keys rows n) refl has named used)
            ∙ create_foreign_key-done "transactions" key
                (transactions columns (drop_named name keys) rows) t
                (stage columns (drop_named name keys) rows n) refl other (rw column refl) refs
                (rw (left, free) refl) refer
            ∙ ap (λ ks. done tt (stage columns (ks ++ key ∷ []) rows n)) left)
      where
        key : ForeignKey
        key = key_on (foreign_key_name "transactions" (col ∷ [])) col referred on_delete
