-- ===== src/Base/Unique.antt =====
-- Rows that are distinct by a test: what a unique constraint gives to a lookup, and how it fares
-- when a row is appended or rows are updated.
use mathlib.Core.Path.{◌≡◌, refl}
use mathlib.Core.Logic.{inl, inr}
use mathlib.Core.Bool.{Bool, true, not, ◌&&◌}
use mathlib.Core.List.{List, [], ◌∷◌, ◌++◌, map}
use native.Mathlib.Omega.{arith}
use hotspot_payment_gateway.Base.Lists.{Has, any, all, distinct, any_of_Has, any-append}

module _ {A : Type 0} (same : A → A → Bool) where
  -- Two rows of a distinct list that agree on the key are one row.
  pub distinct-eq :
      (swap : (a b : A) → same a b ≡ true → same b a ≡ true) (a b : A) (xs : List A)
      → distinct same xs ≡ true
      → Has a xs
      → Has b xs
      → same a b ≡ true
      → a ≡ b
  distinct-eq swap a b [] d m n h = elim m [ ]
  distinct-eq swap a b (x ∷ xs) d (inl e) (inl k) h = rw (e, k) refl
  distinct-eq swap a b (x ∷ xs) d (inl e) (inr n) h =
      let t : same x b ≡ true = rw (← e) h in ground (arith, any_of_Has (same x) b xs n t)
  distinct-eq swap a b (x ∷ xs) d (inr m) (inl k) h =
      let t : same x a ≡ true = rw (← k) (swap a b h) in
      ground (arith, any_of_Has (same x) a xs m t)
  distinct-eq swap a b (x ∷ xs) d (inr m) (inr n) h = distinct-eq swap a b xs (ground arith) m n h

  pub distinct-append_last :
      (y : A) (xs : List A)
      → distinct same (xs ++ y ∷ []) ≡ (distinct same xs && not (any (λ x. same x y) xs))
  distinct-append_last y [] = refl
  distinct-append_last y (x ∷ xs) =
      ground (arith, distinct-append_last y xs, any-append (same x) xs (y ∷ []))

  module _ (f : A → A) (keep : (a b : A) → same (f a) (f b) ≡ same a b) where
    any-same-map : (a : A) (xs : List A) → any (same (f a)) (map f xs) ≡ any (same a) xs
    any-same-map a [] = refl
    any-same-map a (x ∷ xs) = rw (keep a x, any-same-map a xs) refl

    -- An update that leaves the key alone keeps the rows distinct.
    pub distinct-map : (xs : List A) → distinct same (map f xs) ≡ distinct same xs
    distinct-map [] = refl
    distinct-map (x ∷ xs) = rw (any-same-map x xs, distinct-map xs) refl

module _ {A : Type 0} where
  pub Has-map : (f : A → A) (a : A) (xs : List A) → Has a xs → Has (f a) (map f xs)
  Has-map f a [] m = elim m [ ]
  Has-map f a (x ∷ xs) (inl e) = inl (rw e refl)
  Has-map f a (x ∷ xs) (inr m) = inr (Has-map f a xs m)

  pub Has-map_inv :
      (f : A → A) (b : A) (xs : List A) → Has b (map f xs) → (a : A) × Has a xs × (b ≡ f a)
  Has-map_inv f b [] m = elim m [ ]
  Has-map_inv f b (x ∷ xs) (inl e) = (x, inl refl, e)
  Has-map_inv f b (x ∷ xs) (inr m) = let (a, n, e) = Has-map_inv f b xs m in (a, inr n, e)

  pub any-map :
      (p : A → Bool) (f : A → A) (keep : (a : A) → p (f a) ≡ p a) (xs : List A)
      → any p (map f xs) ≡ any p xs
  any-map p f keep [] = refl
  any-map p f keep (x ∷ xs) = rw (keep x, any-map p f keep xs) refl

  pub all-map :
      (p : A → Bool) (f : A → A) (keep : (a : A) → p (f a) ≡ p a) (xs : List A)
      → all p (map f xs) ≡ all p xs
  all-map p f keep [] = refl
  all-map p f keep (x ∷ xs) = rw (keep x, all-map p f keep xs) refl
