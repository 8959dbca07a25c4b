-- ===== src/Migrations/Batches/OnePass.antt =====
-- The loop over batches does what one pass over the rows does, and ends.
use hotspot_payment_gateway.Base.{
  ℕ, zero, suc, ◌+◌, ◌≤◌, ◌<◌, ◌≡◌, refl, ap, ◌∙◌, List, [], ◌∷◌, ◌++◌, All, arith,
}
use hotspot_payment_gateway.Schema.{Row}
use hotspot_payment_gateway.Schema.Ddl.{Migration, Database, done}
use hotspot_payment_gateway.Schema.Runs.{bind-done, then-done}
use hotspot_payment_gateway.Migrations.Batches.{
  length, take, drop, Param, params, execute_many, copy_batch, copy_batches,
}

module _ {A : Type 0} where
  pub take-append-drop : (n : ℕ) (xs : List A) → take n xs ++ drop n xs ≡ xs
  take-append-drop zero xs = refl
  take-append-drop (suc n) [] = refl
  take-append-drop (suc n) (x ∷ xs) = ap (λ ys. x ∷ ys) (take-append-drop n xs)

  pub length-drop-le : (n : ℕ) (xs : List A) → length (drop n xs) ≤ length xs
  length-drop-le zero xs = omega arith
  length-drop-le (suc n) [] = omega arith
  length-drop-le (suc n) (x ∷ xs) = omega (arith, length-drop-le n xs)

  pub All-take : (P : A → Type 0) (n : ℕ) (xs : List A) → All P xs → All P (take n xs)
  All-take P zero xs h = tt
  All-take P (suc n) [] h = tt
  All-take P (suc n) (x ∷ xs) h = (h.0, All-take P n xs h.1)

  pub All-drop : (P : A → Type 0) (n : ℕ) (xs : List A) → All P xs → All P (drop n xs)
  All-drop P zero xs h = h
  All-drop P (suc n) [] h = tt
  All-drop P (suc n) (x ∷ xs) h = All-drop P n xs h.1

module _ (cost : Row → ℕ) where
  -- The number of the next draw once rows were converted.
  unfoldable pub draws_after : ℕ → List Row → ℕ
  draws_after n [] = n
  draws_after n (r ∷ rows) = draws_after (n + cost r) rows

  draws_after-append :
      (n : ℕ) (xs ys : List Row) → draws_after n (xs ++ ys) ≡ draws_after (draws_after n xs) ys
  unfolding draws_after
  draws_after-append n [] ys = refl
  draws_after-append n (x ∷ xs) ys = draws_after-append (n + cost x) xs ys

-- One pass: every row is converted at its own draw and written, in order.
module _ (converted : Row → ℕ → Param) (cost : Row → ℕ) (write : Param → List Row → List Row) where
  unfoldable pub one_pass : ℕ → List Row → List Row → List Row
  one_pass n [] table = table
  one_pass n (r ∷ rows) table = one_pass (n + cost r) rows (write (converted r n) table)

  one_pass-append :
      (n : ℕ) (xs ys table : List Row)
      → one_pass n (xs ++ ys) table ≡ one_pass (draws_after cost n xs) ys (one_pass n xs table)
  unfolding draws_after one_pass
  one_pass-append n [] ys table = refl
  one_pass-append n (x ∷ xs) ys table =
      one_pass-append (n + cost x) xs ys (write (converted x n) table)

  joined :
      (n : ℕ) (r : Row) (rows : List Row) (size : ℕ) (table : List Row)
      → ◌≡◌ {A = List Row × ℕ}
          (
            one_pass
                (draws_after cost n (r ∷ take size rows))
                (drop size rows)
                (one_pass n (r ∷ take size rows) table),
            draws_after cost (draws_after cost n (r ∷ take size rows)) (drop size rows),
          )
          (one_pass n (r ∷ rows) table, draws_after cost n (r ∷ rows))
  joined n r rows size table =
      rw
        (
          ← one_pass-append n (r ∷ take size rows) (drop size rows) table,
          ← draws_after-append cost n (r ∷ take size rows) (drop size rows),
          take-append-drop size rows,
        )
        refl

  unfoldable pub params_of : ℕ → List Row → List Param
  params_of n [] = []
  params_of n (r ∷ rows) = converted r n ∷ params_of (n + cost r) rows

  module _ (convert : Row → Migration Param) (at : List Row → ℕ → Database) (Ready : Row → Type 0)
      (converts : (r : Row) (table : List Row) (n : ℕ)
        → Ready r
        → convert r (at table n) ≡ done (converted r n) (at table (n + cost r))) where
    pub params-done :
        (rows table : List Row) (n : ℕ)
        → All Ready rows
        → params convert rows (at table n)
          ≡ done (params_of n rows) (at table (draws_after cost n rows))
    unfolding params params_of draws_after
    params-done [] table n h = refl
    params-done (r ∷ rows) table n h =
        bind-done (convert r) _ (at table n) (converts r table n h.0)
        ∙ bind-done (params convert rows) _ (at table (n + cost r))
            (params-done rows table (n + cost r) h.1)

  module _ (convert : Row → Migration Param) (execute : Param → Migration (Unit {0}))
      (at : List Row → ℕ → Database) (Ready : Row → Type 0)
      (converts : (r : Row) (table : List Row) (n : ℕ)
        → Ready r
        → convert r (at table n) ≡ done (converted r n) (at table (n + cost r)))
      (executes : (r : Row) (table : List Row) (n m : ℕ)
        → Ready r
        → execute (converted r n) (at table m) ≡ done tt (at (write (converted r n) table) m)) where
    execute_many-done :
        (rows table : List Row) (n m : ℕ)
        → All Ready rows
        → execute_many execute (params_of n rows) (at table m)
          ≡ done tt (at (one_pass n rows table) m)
    unfolding execute_many params_of one_pass
    execute_many-done [] table n m h = refl
    execute_many-done (r ∷ rows) table n m h =
        then-done (execute (converted r n)) (execute_many execute (params_of (n + cost r) rows))
          (at table m) (executes r table n m h.0)
        ∙ execute_many-done rows (write (converted r n) table) (n + cost r) m h.1

    pub copy_batch-done :
        (rows table : List Row) (n : ℕ)
        → All Ready rows
        → copy_batch convert execute rows (at table n)
          ≡ done tt (at (one_pass n rows table) (draws_after cost n rows))
    unfolding copy_batch
    copy_batch-done rows table n h =
        bind-done (params convert rows) (execute_many execute) (at table n)
          (params-done convert at Ready converts rows table n h)
        ∙ execute_many-done rows table n (draws_after cost n rows) h

    -- With more fuel than rows the loop ends, whatever the size of a batch, and has done what one
    -- pass over the rows does.
    pub copy_batches-one_pass :
        (size fuel : ℕ) (rows table : List Row) (n : ℕ)
        → length rows < fuel
        → All Ready rows
        → copy_batches convert execute fuel (suc size) rows (at table n)
          ≡ done tt (at (one_pass n rows table) (draws_after cost n rows))
    unfolding copy_batches
    copy_batches-one_pass size zero rows table n f h = absurd (omega arith)
    copy_batches-one_pass size (suc fuel) [] table n f h = unfold one_pass draws_after in refl
    copy_batches-one_pass size (suc fuel) (r ∷ rows) table n f h =
        then-done (copy_batch convert execute (r ∷ take size rows))
          (copy_batches convert execute fuel (suc size) (drop size rows)) (at table n)
          (copy_batch-done (r ∷ take size rows) table n (h.0, All-take Ready size rows h.1))
        ∙ (copy_batches-one_pass size fuel (drop size rows) _ _
              (omega (arith, length-drop-le size rows)) (All-drop Ready size rows h.1)
            ∙ ap (λ (p : List Row × ℕ). done tt (at p.0 p.1)) (joined n r rows size table))
