-- ===== src/Auth/Utils/Strength.antt =====
-- Which passwords `validate_password_strength` accepts.
use Prim.Native.Char.{code}
use Prim.Native.String.{len, count}
use hotspot_payment_gateway.Base.{
  ℕ, ◌≤◌, String, ◌≡◌, ◌↔◌, ◌⊎◌, inl, inr, Bool, Bool-cases, true, arith,
}
use hotspot_payment_gateway.Runtime.{Env}
use hotspot_payment_gateway.Auth.Utils.{
  accepted, search_class, is_upper, is_lower, is_special, validate_password_strength,
}

-- Some character of the text has the property.
abbrev pub Somewhere : (ℕ → Type 0) → String → Type 0
Somewhere P String.[] = ⊥
Somewhere P (String.◌∷◌ c s) = P (code c) ⊎ Somewhere P s

-- The independent description: lengths, and a character of each kind.
pub record IsStrong ⦃env : Env⦄ (val : String) : Type 0 where
  pub bytes : len val ≤ 72
  pub characters : 8 ≤ count val
  pub upper : Somewhere (λ c. (b'A' ≤ c) × (c ≤ b'Z')) val
  pub lower : Somewhere (λ c. (b'a' ≤ c) × (c ≤ b'z')) val
  pub digit : Somewhere (λ c. env.is_decimal c ≡ true) val
  pub special : Somewhere (λ c. is_special c ≡ true) val

search_class_iff :
    (p : ℕ → Bool) (P : ℕ → Type 0)
    → ((c : ℕ) → (p c ≡ true) ↔ P c)
    → (s : String) → (search_class p s ≡ true) ↔ Somewhere P s
unfolding search_class
search_class_iff p P h String.[] = (λ e. cc, λ e. absurd e)
search_class_iff p P h (String.◌∷◌ c s) =
    let (f, g) = search_class_iff p P h s in
    let (j, k) = h (code c) in
    (
      λ e. elim (Bool-cases (p (code c))) [ inl y ↦ inl (j y) | inr y ↦ inr (f (ground arith)) ],
      λ e. elim e [ inl y ↦ let z = k y in ground arith | inr y ↦ let z = g y in ground arith ],
    )

module _ ⦃env : Env⦄ where
  -- A password is accepted, unchanged, exactly if it has at most 72 bytes, at least 8 characters
  -- and an upper-case letter, a lower-case letter, a digit and a special character.
  pub validate_password_strength_iff :
      (val : String) → (validate_password_strength val ≡ accepted val) ↔ IsStrong val
  unfolding validate_password_strength
  validate_password_strength_iff val =
      let (u, u') =
        search_class_iff is_upper (λ c. (b'A' ≤ c) × (c ≤ b'Z')) (λ c. ground arith) val in
      let (l, l') =
        search_class_iff is_lower (λ c. (b'a' ≤ c) × (c ≤ b'z')) (λ c. ground arith) val in
      let (d, d') =
        search_class_iff env.is_decimal (λ c. env.is_decimal c ≡ true) (λ c. (λ h. h, λ h. h))
          val in
      let (s, s') =
        search_class_iff is_special (λ c. is_special c ≡ true) (λ c. (λ h. h, λ h. h)) val in
      (
        λ h. record {
          bytes = ground arith;
          characters = ground arith;
          upper = u (ground arith);
          lower = l (ground arith);
          digit = d (ground arith);
          special = s (ground arith);
        },
        λ h.
            let a = u' h.upper in
            let b = l' h.lower in
            let c = d' h.digit in
            let e = s' h.special in let m = h.bytes in let n = h.characters in ground arith,
      )
