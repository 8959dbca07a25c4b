-- ===== src/Core/Encryption/RoundTrip.antt =====
-- What is encrypted is read back, and how decryption fails.
use hotspot_payment_gateway.Base.{
  ℕ, String, ◌≡◌, ◌⊎◌, refl, ap, inl, inr, Option, none, some, Option-cases, Bool-cases,
}
use hotspot_payment_gateway.Base.Texts.{is_empty}
use hotspot_payment_gateway.Core.Encryption.{
  FernetLib, value, decryption_error, runtime_error, missing_key, corrupted, get_key, encrypt_with,
  encrypt_value, decrypt_with, decrypt_value,
}

module _ ⦃lib : FernetLib⦄ where
  key_cases :
      (secret : Option String)
      → ((key : String) × (get_key secret ≡ value key))
        ⊎ (get_key secret ≡ runtime_error missing_key)
  unfolding get_key
  key_cases none = inr refl
  key_cases (some s) = elim (Bool-cases (is_empty s)) [
    | inl h ↦ inr (rw h refl)
    | inr h ↦ inl (lib.urlsafe_b64encode (lib.sha256_digest s), rw h refl)
  ]

  -- What encrypt_value returns, decrypt_value turns back with the same secret, a missing value
  -- included; encrypt_value fails only where the secret is missing or empty.
  pub encrypt_value-decrypt_value :
      (secret text : Option String) (n : ℕ)
      → ((token : Option String) × (encrypt_value secret text n ≡ value token)
          × (decrypt_value secret token ≡ value text))
        ⊎ ((encrypt_value secret text n ≡ runtime_error missing_key)
            × (get_key secret ≡ runtime_error missing_key))
  unfolding encrypt_value decrypt_value
  encrypt_value-decrypt_value secret none n = inl (none, refl, refl)
  encrypt_value-decrypt_value secret (some t) n = elim (key_cases secret) [
    | inl (key, k) ↦ inl (
      some (lib.fernet_encrypt key t n),
      ap (λ r. encrypt_with r t n) k,
      rw (k, lib.decrypt-encrypt key t n) refl,
    )
    | inr k ↦ inr (ap (λ r. encrypt_with r t n) k, k)
  ]

  -- decrypt_value gives a value, the one DecryptionError, or the RuntimeError of a missing key.
  pub decrypt_value-cases :
      (secret token : Option String)
      → ((text : Option String) × (decrypt_value secret token ≡ value text))
        ⊎ (decrypt_value secret token ≡ decryption_error corrupted)
        ⊎ (decrypt_value secret token ≡ runtime_error missing_key)
  unfolding decrypt_value
  decrypt_value-cases secret none = inl (none, refl)
  decrypt_value-cases secret (some t) = elim (key_cases secret) [
    | inl (key, k) ↦ elim (Option-cases (lib.fernet_decrypt key t)) [
      | inl e ↦ inr (inl (rw (k, e) refl))
      | inr (text, e) ↦ inl (some text, rw (k, e) refl)
    ]
    | inr k ↦ inr (inr (ap (λ r. decrypt_with r t) k))
  ]
