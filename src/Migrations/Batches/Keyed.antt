-- ===== src/Migrations/Batches/Keyed.antt =====
-- One pass of `UPDATE … WHERE id = :id` over rows with a primary key changes each row by its own
-- parameters.
use text.Mathlib.TextEquality.{eq_iff}
use hotspot_payment_gateway.Base.{
  ℕ, ◌+◌, ◌≡◌, refl, ap, ◌∙◌, Bool, true, false, List, [], ◌∷◌, All, any, distinct, update_where,
  if◌then◌else◌, ◌==◌, arith,
}
use hotspot_payment_gateway.Schema.{Value, null, boolean, number, timestamp, Row, value_eq}
use hotspot_payment_gateway.Migrations.Batches.{Param}
use hotspot_payment_gateway.Migrations.Batches.OnePass.{one_pass}

==_comm : (a b : ℕ) → (a == b) ≡ (b == a)
==_comm a b = ground arith

pub value_eq_comm : (v w : Value) → value_eq v w ≡ value_eq w v
value_eq_comm (Value.uuid a) (Value.uuid b) = ==_comm a b
value_eq_comm (Value.text a) (Value.text b) = ground (arith, eq_iff a b, eq_iff b a)
value_eq_comm (number a) (number b) = ==_comm a b
value_eq_comm (timestamp a) (timestamp b) = ==_comm a b
value_eq_comm (boolean a) (boolean b) = refl
value_eq_comm null null = refl
value_eq_comm v w = refl

abbrev pub same_id : Row → Row → Bool
same_id r s = value_eq (r "id") (s "id")

any_swap : (r : Row) (rows : List Row) → any (λ (s : Row). same_id s r) rows ≡ any (same_id r) rows
any_swap r [] = refl
any_swap r (s ∷ rows) = rw (value_eq_comm (s "id") (r "id"), any_swap r rows) refl

-- Each row changed by its own parameters.
module _ (converted : Row → ℕ → Param) (cost : Row → ℕ) (change : Param → Row → Row) where
  unfoldable pub copied : ℕ → List Row → List Row
  copied n [] = []
  copied n (r ∷ rows) = change (converted r n) r ∷ copied (n + cost r) rows

module _ (converted : Row → ℕ → Param) (cost : Row → ℕ) (change : Param → Row → Row)
    (same : (r : Row) (n : ℕ) → (converted r n).id ≡ r "id")
    (kept : (p : Param) (r : Row) → change p r "id" ≡ r "id") where
  abbrev write : Param → List Row → List Row
  write p = update_where (λ r. value_eq (r "id") p.id) (change p)

  write-absent :
      (p : Param) (rows : List Row)
      → any (λ (r : Row). value_eq (r "id") p.id) rows ≡ false
      → write p rows ≡ rows
  write-absent p [] h = refl
  write-absent p (r ∷ rows) h = ground (arith, write-absent p rows)

  -- A row that no parameters name stays at the head of the table.
  one_pass-head :
      (n : ℕ) (r : Row) (rows table : List Row)
      → any (same_id r) rows ≡ false
      → one_pass converted cost write n rows (r ∷ table)
        ≡ r ∷ one_pass converted cost write n rows table
  unfolding one_pass
  one_pass-head n r [] table h = refl
  one_pass-head n r (s ∷ rows) table h =
      ap
        (λ b.
          one_pass converted cost write (n + cost s) rows
            ((if b then change (converted s n) r else r) ∷ write (converted s n) table))
        other
      ∙ one_pass-head (n + cost s) r rows (write (converted s n) table) (ground arith)
    where
      other : value_eq (r "id") (converted s n).id ≡ false
      other = rw (same s n) (ground arith)

  -- With distinct identifiers each row is changed by its own parameters, and once.
  pub one_pass-copied :
      (n : ℕ) (rows : List Row)
      → distinct same_id rows ≡ true
      → All (λ (r : Row). same_id r r ≡ true) rows
      → one_pass converted cost write n rows rows ≡ copied converted cost change n rows
  unfolding one_pass copied
  one_pass-copied n [] d k = refl
  one_pass-copied n (r ∷ rows) d k =
      ap
        (λ b.
          one_pass converted cost write (n + cost r) rows
            ((if b then change p r else r) ∷ write p rows))
        own
      ∙ (one_pass-head (n + cost r) (change p r) rows (write p rows) moved
          ∙ ap (λ table. change p r ∷ table)
              (ap (one_pass converted cost write (n + cost r) rows) (write-absent p rows others)
                ∙ one_pass-copied (n + cost r) rows (ground arith) k.1))
    where
      p : Param
      p = converted r n

      own : value_eq (r "id") (converted r n).id ≡ true
      own = rw (same r n) k.0

      moved : any (same_id (change p r)) rows ≡ false
      moved =
          ap (λ (v : Value). any (λ (s : Row). value_eq v (s "id")) rows) (kept (converted r n) r)
          ∙ ground arith

      others : any (λ (s : Row). value_eq (s "id") (converted r n).id) rows ≡ false
      others = rw (same r n) (rw (any_swap r rows) (ground arith))
