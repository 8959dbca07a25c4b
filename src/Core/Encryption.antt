-- ===== src/Core/Encryption.antt =====
-- src/core/encryption.py: fields that are encrypted before they are stored. The package
-- cryptography and the hash and base64 of Python are fields of `FernetLib`.
pub mod RoundTrip
use hotspot_payment_gateway.Base.{ℕ, String, ◌≡◌, Option, none, some, if◌then◌else◌}
use hotspot_payment_gateway.Base.Texts.{is_empty}

-- Fernet on texts: `fernet_encrypt(key, text)` at the n-th draw of an initialisation vector;
-- `fernet_decrypt(key, token)` is `none` where it raises `InvalidToken`, or where the token is not
-- ASCII or the plaintext no UTF-8.
pub record FernetLib : Type 0 where
  pub sha256_digest : String → String
  pub urlsafe_b64encode : String → String
  pub fernet_encrypt : String → String → ℕ → String
  pub fernet_decrypt : String → String → Option String
  pub decrypt-encrypt :
      (key text : String) (n : ℕ) → fernet_decrypt key (fernet_encrypt key text n) ≡ some text

-- A value, the `DecryptionError`, or the `RuntimeError` of a missing key.
pub data Sealed {ℓ} (A : Type ℓ) : Type ℓ where
  value : A → Sealed A
  decryption_error : String → Sealed A
  runtime_error : String → Sealed A

abbrev pub missing_key : String
missing_key = "ENCRYPTION_KEY environment variable must be set for encryption/decryption"

abbrev pub corrupted : String
corrupted = "Encrypted value is invalid or corrupted"

module _ ⦃lib : FernetLib⦄ where
  -- `_get_key`, by the value of the environment variable.
  unfoldable pub get_key : Option String → Sealed String
  get_key none = runtime_error missing_key
  get_key (some secret) =
      if is_empty secret
      then runtime_error missing_key
      else value (lib.urlsafe_b64encode (lib.sha256_digest secret))

  abbrev pub encrypt_with : Sealed String → String → ℕ → Sealed (Option String)
  encrypt_with (value key) text n = value (some (lib.fernet_encrypt key text n))
  encrypt_with (decryption_error message) text n = decryption_error message
  encrypt_with (runtime_error message) text n = runtime_error message

  unfoldable pub encrypt_value : Option String → Option String → ℕ → Sealed (Option String)
  unfolding get_key
  encrypt_value secret none n = value none
  encrypt_value secret (some text) n = encrypt_with (get_key secret) text n

  abbrev pub opened_token : Option String → Sealed (Option String)
  opened_token none = decryption_error corrupted
  opened_token (some text) = value (some text)

  -- A missing key is no error that the `except` catches.
  abbrev pub decrypt_with : Sealed String → String → Sealed (Option String)
  decrypt_with (value key) token = opened_token (lib.fernet_decrypt key token)
  decrypt_with (decryption_error message) token = decryption_error message
  decrypt_with (runtime_error message) token = runtime_error message

  unfoldable pub decrypt_value : Option String → Option String → Sealed (Option String)
  unfolding get_key
  decrypt_value secret none = value none
  decrypt_value secret (some token) = decrypt_with (get_key secret) token
