-- ===== src/Auth/Utils.antt =====
-- src/auth/utils.py
pub mod Strength
use Prim.Native.Char.{code}
use Prim.Native.String.{len, count}
use hotspot_payment_gateway.Base.{
  ℕ, String, Bool, false, ◌||◌, ◌&&◌, not, ltb, leb, ◌==◌, if◌then◌else◌,
}
use hotspot_payment_gateway.Base.Texts.{strip}
use hotspot_payment_gateway.Runtime.{Env}

-- A checked text, or the message of the `ValueError`.
pub data Checked : Type 0 where
  accepted : String → Checked
  rejected : String → Checked

-- `re.search(r"[…]", val)`: some character is in the class.
unfoldable pub search_class : (ℕ → Bool) → String → Bool
search_class p String.[] = false
search_class p (String.◌∷◌ c s) = p (code c) || search_class p s

abbrev pub is_upper : ℕ → Bool
is_upper c = leb b'A' c && leb c b'Z'

abbrev pub is_lower : ℕ → Bool
is_lower c = leb b'a' c && leb c b'z'

-- The characters of [!@#$%^&*(),.?":{}|<>].
unfoldable pub is_special : ℕ → Bool
is_special c = search_class (λ d. d == c) "!@#$%^&*(),.?\":{}|<>"

module _ ⦃env : Env⦄ where
  unfoldable pub normalize_email : String → String
  normalize_email val = env.lower (strip val)

  unfoldable pub validate_password_strength : String → Checked
  unfolding search_class is_special
  validate_password_strength val =
      if ltb 72 (len val)
      then rejected "Password must be at most 72 bytes long"
      else if ltb (count val) 8
      then rejected "Password must be at least 8 characters long"
      else if not (search_class is_upper val)
      then rejected "Password must contain at least one uppercase letter"
      else if not (search_class is_lower val)
      then rejected "Password must contain at least one lowercase letter"
      else if not (search_class env.is_decimal val)
      then rejected "Password must contain at least one number"
      else if not (search_class is_special val)
      then rejected "Password must contain at least one special character"
      else accepted val
