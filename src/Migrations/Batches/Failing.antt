-- ===== src/Migrations/Batches/Failing.antt =====
-- The loop over batches where a row is refused when it is written.
use hotspot_payment_gateway.Base.{
  ℕ, zero, suc, ◌+◌, ◌<◌, ◌≡◌, sym, ap, ◌∙◌, Bool, true, false, ◌||◌, List, [], ◌∷◌, All, any,
  any-append, Bool-cases, inl, inr, arith,
}
use hotspot_payment_gateway.Schema.{Row}
use hotspot_payment_gateway.Schema.Ddl.{Failure, Migration, Database, Outcome, done, failed, ◌>>◌}
use hotspot_payment_gateway.Schema.Runs.{bind-done, then-done}
use hotspot_payment_gateway.Migrations.Batches.{
  length, take, drop, Param, params, execute_many, copy_batch, copy_batches,
}
use hotspot_payment_gateway.Migrations.Batches.OnePass.{
  take-append-drop, length-drop-le, All-take, All-drop, draws_after, one_pass, params_of,
  params-done, copy_batch-done,
}

-- A migration fails on a database.
abbrev pub Fails : Migration (Unit {0}) → Database → Type 0
Fails m db = (e : Failure) × (m db ≡ failed e)

pub then-fails : (m k : Migration (Unit {0})) (db : Database) → Fails m db → Fails (m >> k) db
then-fails m k db (e, h) =
    (e, ap (λ (o : Outcome (Unit {0})). elim o [ done a d ↦ k d | failed f ↦ failed f ]) h)

-- After a step that succeeds, what follows decides.
pub then-fails_after :
    (m k : Migration (Unit {0})) (db : Database) {db' : Database}
    → m db ≡ done tt db'
    → Fails k db'
    → Fails (m >> k) db
then-fails_after m k db h (e, f) = (e, then-done m k db h ∙ f)

All-imp : {P Q : Row → Type 0} (rows : List Row) → ((r : Row) → P r → Q r) → All P rows → All Q rows
All-imp [] f h = tt
All-imp (r ∷ rows) f h = (f r h.0, All-imp rows f h.1)

All-none :
    (P : Row → Type 0) (long : Row → Bool) (rows : List Row)
    → All P rows
    → any long rows ≡ false
    → All (λ r. P r × (long r ≡ false)) rows
All-none P long [] h n = tt
All-none P long (r ∷ rows) h n = ((h.0, ground arith), All-none P long rows h.1 (ground arith))

module _ (converted : Row → ℕ → Param) (cost : Row → ℕ) (write : Param → List Row → List Row)
    (convert : Row → Migration Param) (execute : Param → Migration (Unit {0}))
    (at : List Row → ℕ → Database) (Readable : Row → Type 0) (long : Row → Bool)
    (Known : Row → List Row → Type 0)
    (converts : (r : Row) (table : List Row) (n : ℕ)
      → Readable r
      → convert r (at table n) ≡ done (converted r n) (at table (n + cost r)))
    (executes : (r : Row) (table : List Row) (n m : ℕ)
      → Readable r
      → long r ≡ false
      → execute (converted r n) (at table m) ≡ done tt (at (write (converted r n) table) m))
    (refuses : (r : Row) (table : List Row) (n m : ℕ)
      → Readable r
      → long r ≡ true
      → Known r table
      → Fails (execute (converted r n)) (at table m))
    (stays : (r s : Row) (n : ℕ) (table : List Row)
      → Known s table
      → Known s (write (converted r n) table)) where
  execute_many-fails :
      (rows table : List Row) (n m : ℕ)
      → All Readable rows
      → any long rows ≡ true
      → All (λ r. Known r table) rows
      → Fails (execute_many execute (params_of converted cost write n rows)) (at table m)
  unfolding execute_many params_of
  execute_many-fails [] table n m h y k = cc
  execute_many-fails (r ∷ rows) table n m h y k = elim (Bool-cases (long r)) [
    | inl l ↦ then-fails (execute (converted r n)) _ (at table m) (refuses r table n m h.0 l k.0)
    | inr s ↦
        then-fails_after (execute (converted r n)) _ (at table m) (executes r table n m h.0 s) (
          execute_many-fails rows (write (converted r n) table) (n + cost r) m h.1
            (ap (λ b. b || any long rows) (sym s) ∙ y) (All-imp rows (λ t. stays r t n table) k.1))
  ]

  copy_batch-fails :
      (rows table : List Row) (n : ℕ)
      → All Readable rows
      → any long rows ≡ true
      → All (λ r. Known r table) rows
      → Fails (copy_batch convert execute rows) (at table n)
  unfolding copy_batch
  copy_batch-fails rows table n h y k =
      let (e, f) = execute_many-fails rows table n (draws_after cost n rows) h y k in
      (
        e,
        bind-done (params convert rows) (execute_many execute) (at table n)
              (params-done converted cost write convert at Readable converts rows table n h)
            ∙ f,
      )

  stays-All :
      (xs rows table : List Row) (n : ℕ)
      → All (λ r. Known r table) rows
      → All (λ r. Known r (one_pass converted cost write n xs table)) rows
  unfolding one_pass
  stays-All [] rows table n k = k
  stays-All (x ∷ xs) rows table n k =
      stays-All xs rows (write (converted x n) table) (n + cost x)
        (All-imp rows (λ t. stays x t n table) k)

  -- A row that is refused makes the loop fail, in whatever batch it comes.
  pub copy_batches-fails :
      (size fuel : ℕ) (rows table : List Row) (n : ℕ)
      → length rows < fuel
      → All Readable rows
      → any long rows ≡ true
      → All (λ r. Known r table) rows
      → Fails (copy_batches convert execute fuel (suc size) rows) (at table n)
  unfolding copy_batches
  copy_batches-fails size zero rows table n f h y k = absurd (omega arith)
  copy_batches-fails size (suc fuel) [] table n f h y k = cc
  copy_batches-fails size (suc fuel) (r ∷ rows) table n f h y k =
      let batch = r ∷ take size rows in
      let next = copy_batches convert execute fuel (suc size) (drop size rows) in
      elim (Bool-cases (any long batch)) [
        | inl l ↦ then-fails (copy_batch convert execute batch) next (at table n) (
            copy_batch-fails batch table n (h.0, All-take Readable size rows h.1) l
              (k.0, All-take (λ s. Known s table) size rows k.1))
        | inr s ↦
            let ready = All-none Readable long batch (h.0, All-take Readable size rows h.1) s in
            let later : any long (drop size rows) ≡ true =
              ap (λ b. b || any long (drop size rows)) (sym s)
              ∙ (sym (any-append long batch (drop size rows))
                  ∙ (ap (λ xs. any long (r ∷ xs)) (take-append-drop size rows) ∙ y)) in
            then-fails_after (copy_batch convert execute batch) next (at table n)
              (copy_batch-done converted cost write convert execute at
                (λ t. Readable t × (long t ≡ false)) (λ t table m p. converts t table m p.0)
                (λ t table l m p. executes t table l m p.0 p.1) batch table n ready)
              (copy_batches-fails size fuel (drop size rows) _ _
                (omega (arith, length-drop-le size rows)) (All-drop Readable size rows h.1) later
                (stays-All batch (drop size rows) table n
                  (All-drop (λ t. Known t table) size rows k.1)))
      ]
