-- ===== src/Base/Lists.antt =====
-- Lists of rows: membership and quantifiers by recursion, and the test that no two rows agree on a
-- key, which is what a unique constraint checks.
use mathlib.Core.Path.{◌≡◌, refl, sym}
use mathlib.Core.Logic.{◌⊎◌, inl, inr}
use mathlib.Core.Bool.{Bool, true, false, not, ◌&&◌, ◌||◌}
use mathlib.Core.Option.{Option, none, some}
use mathlib.Core.List.{List, [], ◌∷◌, ◌++◌, map}
use native.Mathlib.Omega.{arith}
use hotspot_payment_gateway.Base.Tests.{Bool-cases, if◌then◌else◌}

abbrev pub All {ℓ κ} : {A : Type ℓ} → (A → Type κ) → List A → Type κ
All P [] = Unit
All P (x ∷ xs) = P x × All P xs

module _ {A : Type 0} where
  -- `a` is one of the rows.
  abbrev pub Has : A → List A → Type 0
  Has a [] = ⊥
  Has a (x ∷ xs) = (a ≡ x) ⊎ Has a xs

  abbrev pub any : (A → Bool) → List A → Bool
  any p [] = false
  any p (x ∷ xs) = p x || any p xs

  abbrev pub all : (A → Bool) → List A → Bool
  all p [] = true
  all p (x ∷ xs) = p x && all p xs

  -- No row is `same` as a row behind it.
  abbrev pub distinct : (A → A → Bool) → List A → Bool
  distinct same [] = true
  distinct same (x ∷ xs) = not (any (same x) xs) && distinct same xs

  -- `UPDATE … WHERE p SET f`: every row that passes the test is changed.
  abbrev pub update_where : (A → Bool) → (A → A) → List A → List A
  update_where p f = map (λ r. if p r then f r else r)

module _ {A : Type 0} where
  pub All-Has : (P : A → Type 0) (a : A) (xs : List A) → All P xs → Has a xs → P a
  All-Has P a [] h m = elim m [ ]
  All-Has P a (x ∷ xs) h (inl e) = rw e h.0
  All-Has P a (x ∷ xs) h (inr m) = All-Has P a xs h.1 m

  pub all→Has : (p : A → Bool) (a : A) (xs : List A) → all p xs ≡ true → Has a xs → p a ≡ true
  all→Has p a [] h m = elim m [ ]
  all→Has p a (x ∷ xs) h (inl e) = rw e (ground arith)
  all→Has p a (x ∷ xs) h (inr m) = all→Has p a xs (ground arith) m

  pub all_of_Has :
      (p : A → Bool) (xs : List A) → ((a : A) → Has a xs → p a ≡ true) → all p xs ≡ true
  all_of_Has p [] h = refl
  all_of_Has p (x ∷ xs) h = rw (h x (inl refl), all_of_Has p xs (λ a m. h a (inr m))) refl

  pub any_of_Has : (p : A → Bool) (a : A) (xs : List A) → Has a xs → p a ≡ true → any p xs ≡ true
  any_of_Has p a [] m h = elim m [ ]
  any_of_Has p a (x ∷ xs) (inl e) h = let k : p x ≡ true = rw (← e) h in ground arith
  any_of_Has p a (x ∷ xs) (inr m) h = ground (arith, any_of_Has p a xs m h)

  pub any→Has : (p : A → Bool) (xs : List A) → any p xs ≡ true → (a : A) × Has a xs × (p a ≡ true)
  any→Has p (x ∷ xs) h = elim (Bool-cases (p x)) [
    | inl t ↦ (x, inl refl, t)
    | inr f ↦ let (a, m, k) = any→Has p xs (ground arith) in (a, inr m, k)
  ]
  any→Has p [] h = cc

  pub any-append : (p : A → Bool) (xs ys : List A) → any p (xs ++ ys) ≡ (any p xs || any p ys)
  any-append p [] ys = refl
  any-append p (x ∷ xs) ys = ground (arith, any-append p xs ys)

  pub all-append : (p : A → Bool) (xs ys : List A) → all p (xs ++ ys) ≡ (all p xs && all p ys)
  all-append p [] ys = refl
  all-append p (x ∷ xs) ys = ground (arith, all-append p xs ys)

  pub Has-append_left : (a : A) (xs ys : List A) → Has a xs → Has a (xs ++ ys)
  Has-append_left a [] ys m = elim m [ ]
  Has-append_left a (x ∷ xs) ys (inl e) = inl e
  Has-append_left a (x ∷ xs) ys (inr m) = inr (Has-append_left a xs ys m)

  pub Has-append_last : (a : A) (xs : List A) → Has a (xs ++ a ∷ [])
  Has-append_last a [] = inl refl
  Has-append_last a (x ∷ xs) = inr (Has-append_last a xs)

  pub Has-append_cases : (a b : A) (xs : List A) → Has a (xs ++ b ∷ []) → Has a xs ⊎ (a ≡ b)
  Has-append_cases a b [] (inl e) = inr e
  Has-append_cases a b [] (inr m) = absurd m
  Has-append_cases a b (x ∷ xs) (inl e) = inl (inl e)
  Has-append_cases a b (x ∷ xs) (inr m) = elim (Has-append_cases a b xs m) [
    | inl k ↦ inl (inr k)
    | inr e ↦ inr e
  ]

module _ {A : Type 0} where
  -- The first row that passes the test.
  abbrev pub find : (A → Bool) → List A → Option A
  find p [] = none
  find p (x ∷ xs) = if p x then some x else find p xs

  pub find-some :
      (p : A → Bool) (xs : List A) (a : A) → find p xs ≡ some a → Has a xs × (p a ≡ true)
  find-some p [] a h = cc
  find-some p (x ∷ xs) a h = elim (Bool-cases (p x)) [
    | inl t ↦ let e : x ≡ a = ground arith in (inl (sym e), rw e at t)
    | inr f ↦ let (m, k) = find-some p xs a (ground arith) in (inr m, k)
  ]

  pub find-none : (p : A → Bool) (xs : List A) → find p xs ≡ none → All (λ a. p a ≡ false) xs
  find-none p [] h = tt
  find-none p (x ∷ xs) h = ground (arith, find-none p xs)
