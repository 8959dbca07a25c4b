-- ===== src/Payment/Credentials.antt =====
-- The credentials of a transaction are read back as they were set.
use hotspot_payment_gateway.Base.{
  ℕ, String, ◌≡◌, refl, ap, ◌∙◌, false, Option, none, some, if◌then◌else◌,
}
use hotspot_payment_gateway.Base.Texts.{is_empty}
use hotspot_payment_gateway.Core.Encryption.{
  FernetLib, value, get_key, encrypt_with, encrypt_value, decrypt_with, decrypt_value, opened_token,
}
use hotspot_payment_gateway.Payment.{
  Transaction, assigned, sealed_or_none, opened_or_none, mikrotik_username, set_mikrotik_username,
  mikrotik_password, set_mikrotik_password,
}

module _ ⦃lib : FernetLib⦄ (secret : Option String) (key : String)
    (keyed : get_key secret ≡ value key)
    -- A Fernet token is no empty text.
    (token_used : (text : String) (n : ℕ) → is_empty (lib.fernet_encrypt key text n) ≡ false) where
  opened-sealed :
      (v : Option String) (n : ℕ)
      → (token : Option String) × (sealed_or_none secret v n ≡ value token)
        × (opened_or_none secret token ≡ value v)
  unfolding sealed_or_none opened_or_none encrypt_value decrypt_value
  opened-sealed none n = (none, refl, refl)
  opened-sealed (some v) n = (
    some (lib.fernet_encrypt key v n),
    ap (λ k. encrypt_with k v n) keyed,
    ap (λ b. if b then value none else decrypt_with (get_key secret) (lib.fernet_encrypt key v n))
          (token_used v n)
        ∙ (ap (λ k. decrypt_with k (lib.fernet_encrypt key v n)) keyed
            ∙ ap opened_token (lib.decrypt-encrypt key v n)),
  )

  -- Where a key is configured and Fernet tokens are no empty texts, setting the two MikroTik
  -- credentials of a transaction succeeds for every value, None included; both are read back as
  -- set, and setting one leaves the other.
  pub set-mikrotik_credentials :
      (username password : Option String) (n m : ℕ) (t : Transaction)
      → (u : Transaction) × (w : Transaction) × (set_mikrotik_username secret username n t
          ≡ value u)
        × (set_mikrotik_password secret password m u ≡ value w)
        × (mikrotik_username secret u ≡ value username)
        × (mikrotik_password secret u ≡ mikrotik_password secret t)
        × (mikrotik_username secret w ≡ value username)
        × (mikrotik_password secret w ≡ value password)
  unfolding mikrotik_username mikrotik_password set_mikrotik_username set_mikrotik_password
  set-mikrotik_credentials username password n m t =
      let (a, ha, oa) = opened-sealed username n in
      let (b, hb, ob) = opened-sealed password m in
      (
        record t { mikrotik_username_enc = a },
        record t { mikrotik_username_enc = a; mikrotik_password_enc = b },
        ap (assigned (λ token. record t { mikrotik_username_enc = token })) ha,
        ap
            (assigned
              (λ token. record t { mikrotik_username_enc = a; mikrotik_password_enc = token }))
            hb,
        oa,
        refl,
        oa,
        ob,
      )
