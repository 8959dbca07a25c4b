-- ===== src/Payment.antt =====
-- src/payment/models/transaction.py: a transaction, whose hotspot credentials are stored encrypted.
pub mod Credentials
use hotspot_payment_gateway.Base.{ℕ, String, Option, none, some, if◌then◌else◌}
use hotspot_payment_gateway.Base.Texts.{is_empty}
use hotspot_payment_gateway.Runtime.{DateTime}
use hotspot_payment_gateway.Core.Encryption.{
  FernetLib, Sealed, value, decryption_error, runtime_error, encrypt_value, decrypt_value,
}

pub data TransactionStatus : Type 0 where
  pending success provisioning completed failed expired : TransactionStatus

pub data PaymentProvider : Type 0 where
  mtn_uganda airtel_uganda : PaymentProvider

pub record Transaction : Type 0 where
  pub id : ℕ
  pub tenant_id : ℕ
  pub plan_id : ℕ
  pub router_id : ℕ
  pub phone_number : String
  pub amount_ugx : ℕ
  pub status : TransactionStatus
  pub relworx_internal_ref : Option String
  pub provider : PaymentProvider
  pub relworx_charge_ugx : Option ℕ
  pub mac_address : Option String
  pub mikrotik_username_enc : Option String
  pub mikrotik_password_enc : Option String
  pub webhook_received_at : Option DateTime
  pub provisioning_attempts : ℕ
  pub created_at : DateTime
  pub completed_at : Option DateTime
  pub expires_at : Option DateTime

-- An assignment of what `encrypt_value` gives, or its exception.
abbrev pub assigned {ℓ κ} : {A : Type ℓ} {B : Type κ} → (A → B) → Sealed A → Sealed B
assigned f (value a) = value (f a)
assigned f (decryption_error m) = decryption_error m
assigned f (runtime_error m) = runtime_error m

module _ ⦃lib : FernetLib⦄ (secret : Option String) where
  -- `encrypt_value(value) if value is not None else None`, at the n-th draw.
  unfoldable pub sealed_or_none : Option String → ℕ → Sealed (Option String)
  unfolding encrypt_value
  sealed_or_none none n = value none
  sealed_or_none (some v) n = encrypt_value secret (some v) n

  -- `decrypt_value(token) if token else None`: an empty token counts as none.
  unfoldable pub opened_or_none : Option String → Sealed (Option String)
  unfolding decrypt_value
  opened_or_none none = value none
  opened_or_none (some token) =
      if is_empty token then value none else decrypt_value secret (some token)

  -- The property `mikrotik_username` and its setter.
  unfoldable pub mikrotik_username : Transaction → Sealed (Option String)
  unfolding opened_or_none
  mikrotik_username t = opened_or_none t.mikrotik_username_enc

  unfoldable pub set_mikrotik_username : Option String → ℕ → Transaction → Sealed Transaction
  unfolding sealed_or_none
  set_mikrotik_username v n t =
      assigned (λ token. record t { mikrotik_username_enc = token }) (sealed_or_none v n)

  -- The property `mikrotik_password` and its setter.
  unfoldable pub mikrotik_password : Transaction → Sealed (Option String)
  unfolding opened_or_none
  mikrotik_password t = opened_or_none t.mikrotik_password_enc

  unfoldable pub set_mikrotik_password : Option String → ℕ → Transaction → Sealed Transaction
  unfolding sealed_or_none
  set_mikrotik_password v n t =
      assigned (λ token. record t { mikrotik_password_enc = token }) (sealed_or_none v n)
