-- ===== src/Base/Updates.antt =====
-- Rows and an update of those that pass a test.
use mathlib.Core.Path.{◌≡◌, refl, subst}
use mathlib.Core.Logic.{◌⊎◌, inl, inr}
use mathlib.Core.Bool.{Bool, true, false}
use mathlib.Core.List.{List, [], ◌∷◌, map}
use hotspot_payment_gateway.Base.Tests.{Bool-cases, if◌then◌else◌}
use hotspot_payment_gateway.Base.Lists.{Has, update_where}
use hotspot_payment_gateway.Base.Unique.{Has-map, Has-map_inv}

module _ {R : Type 0} (p : R → Bool) (f : R → R) (rows : List R) where
  pub Has-updated : (r : R) → Has r rows → p r ≡ true → Has (f r) (update_where p f rows)
  Has-updated r m h =
      subst (λ b. Has (if b then f r else r) (update_where p f rows)) h
        (Has-map (λ s. if p s then f s else s) r rows m)

  pub Has-kept : (r : R) → Has r rows → p r ≡ false → Has r (update_where p f rows)
  Has-kept r m h =
      subst (λ b. Has (if b then f r else r) (update_where p f rows)) h
        (Has-map (λ s. if p s then f s else s) r rows m)

  pub updated_cases :
      (r : R)
      → Has r (update_where p f rows)
      → ((s : R) × Has s rows × (p s ≡ true) × (r ≡ f s)) ⊎ (Has r rows × (p r ≡ false))
  updated_cases r m =
      let (s, n, k) = Has-map_inv (λ s. if p s then f s else s) r rows m in
      elim (Bool-cases (p s)) [
        | inl y ↦ inl (s, n, y, rw y at k)
        | inr y ↦ let e : r ≡ s = rw y at k in inr (rw e (n, y))
      ]

-- An update that changes nothing the second time.
pub map-map_idem :
    {R : Type 0} (f : R → R)
    → ((r : R) → f (f r) ≡ f r)
    → (rows : List R) → map f (map f rows) ≡ map f rows
map-map_idem f h [] = refl
map-map_idem f h (r ∷ rows) = rw (h r, map-map_idem f h rows) refl
