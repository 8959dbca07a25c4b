-- ===== src/Migrations/Batches.antt =====
-- The loop over batches of rows in
-- alembic/versions/2026-05-19_transaction_mikrotik_encryption.py, which both migrations write out:
-- `while True: rows = result.fetchmany(batch_size); if not rows: break; …`.
pub mod OnePass
pub mod Keyed
pub mod Failing
use hotspot_payment_gateway.Base.{
  ℕ, zero, suc, ◌+◌, ◌-◌, ◌<◌, ◌≡◌, refl, Option, List, [], ◌∷◌, ◌++◌, arith,
}
use hotspot_payment_gateway.Schema.{Value, Row}
use hotspot_payment_gateway.Schema.Ddl.{
  Migration, Database, Outcome, done, failed, not_finished, return, fail, ◌>>=◌, ◌>>◌,
}

module _ {A : Type 0} where
  abbrev pub length : List A → ℕ
  length [] = 0
  length (x ∷ xs) = suc (length xs)

  abbrev pub take : ℕ → List A → List A
  take zero xs = []
  take (suc n) [] = []
  take (suc n) (x ∷ xs) = x ∷ take n xs

  abbrev pub drop : ℕ → List A → List A
  drop zero xs = xs
  drop (suc n) [] = []
  drop (suc n) (x ∷ xs) = drop n xs

-- The parameters of one `UPDATE … WHERE id = :id`.
pub record Param : Type 0 where
  pub id : Value
  pub username : Value
  pub password : Value

module _ (convert : Row → Migration Param) where
  -- `params = [… for row in rows]`
  unfoldable pub params : List Row → Migration (List Param)
  params [] = return []
  params (r ∷ rows) = do p ← convert r; ps ← params rows; return (p ∷ ps)

module _ (execute : Param → Migration (Unit {0})) where
  -- `connection.execute(statement, params)` runs the statement for each of the parameters.
  unfoldable pub execute_many : List Param → Migration (Unit {0})
  execute_many [] = return tt
  execute_many (p ∷ ps) = do execute p; execute_many ps

module _ (convert : Row → Migration Param) (execute : Param → Migration (Unit {0})) where
  unfoldable pub copy_batch : List Row → Migration (Unit {0})
  unfolding params execute_many
  copy_batch rows = do ps ← params convert rows; execute_many execute ps

  -- The loop: a round takes at most `size` rows off the result; `not_finished` is no error of the
  -- code but says that the fuel ran out.
  unfoldable pub copy_batches : ℕ → ℕ → List Row → Migration (Unit {0})
  unfolding copy_batch
  copy_batches zero size result = fail not_finished
  copy_batches (suc fuel) size result = elim (take size result) [
    | [] ↦ return tt
    | r ∷ rows ↦ do copy_batch (r ∷ rows); copy_batches fuel size (drop size result)
  ]
