-- ===== src/Runtime/Lookup.antt =====
-- What a query gives back, from the laws of `scalar`.
use hotspot_payment_gateway.Base.{
  ◌≡◌, ap, ◌∙◌, inl, inr, Bool, true, false, none, some, List, Has, All-Has, Option-cases,
}
use hotspot_payment_gateway.Runtime.{Env}

module _ ⦃env : Env⦄ {R : Type 0} (p : R → Bool) (rows : List R) where
  -- The only row that passes the test is the one found.
  pub scalar-eq :
      (r : R)
      → Has r rows
      → p r ≡ true
      → ((s : R) → Has s rows → p s ≡ true → s ≡ r)
      → env.scalar p rows ≡ some r
  scalar-eq r m h only = elim (Option-cases (env.scalar p rows)) [
    | inl e ↦ cc (h, All-Has (λ s. p s ≡ false) r rows (env.scalar-none p rows e) m)
    | inr (s, e) ↦ let (n, k) = env.scalar-some p rows s e in e ∙ ap some (only s n k)
  ]

  -- No row passes the test.
  pub scalar-eq-none : ((s : R) → Has s rows → p s ≡ true → ⊥) → env.scalar p rows ≡ none
  scalar-eq-none never = elim (Option-cases (env.scalar p rows)) [
    | inl e ↦ e
    | inr (s, e) ↦ let (n, k) = env.scalar-some p rows s e in absurd (never s n k)
  ]
