-- ===== src/Migrations/Encryption/Rows.antt =====
-- What the two migrations compute for one row.
use hotspot_payment_gateway.Base.{
  ℕ, ◌+◌, String, ◌≡◌, refl, ap, ◌∙◌, true, Option, none, some, arith,
}
use hotspot_payment_gateway.Core.Encryption.{
  Sealed, value, get_key, encrypt_with, encrypt_value, decrypt_with, decrypt_value, opened_token,
}
use hotspot_payment_gateway.Schema.{Row, fits, varchar}
use hotspot_payment_gateway.Schema.Ddl.{Server, Database, done}
use hotspot_payment_gateway.Schema.Runs.{bind-done}
use hotspot_payment_gateway.Migrations.Batches.{Param}
use hotspot_payment_gateway.Migrations.Encryption.{
  text_of, value_of, drawn, or_error, encrypt, decrypt, encrypt_row, decrypt_row,
}

pub text_of-value_of : (t : Option String) → text_of (value_of t) ≡ t
text_of-value_of none = refl
text_of-value_of (some s) = refl

add_assoc : (a b c : ℕ) → a + b + c ≡ a + (b + c)
add_assoc a b c = omega arith

module _ ⦃server : Server⦄ where
  -- `decrypt_value` with the server's secret.
  abbrev pub decrypted : Option String → Sealed (Option String)
  decrypted = decrypt_value ⦃lib = server.fernet⦄ server.encryption_key

  abbrev pub opened : Sealed (Option String) → Option String
  opened (value a) = a
  opened (Sealed.decryption_error m) = none
  opened (Sealed.runtime_error m) = none

  abbrev pub decrypted_param : Row → ℕ → Param
  decrypted_param r n = record {
    id = r "id";
    username = value_of (opened (decrypted (text_of (r "mikrotik_username_enc"))));
    password = value_of (opened (decrypted (text_of (r "mikrotik_password_enc"))));
  }

  -- Both tokens of a row are decrypted, to texts that a column of 80 characters holds.
  pub record Opens (r : Row) : Type 0 where
    pub username : Option String
    pub password : Option String
    pub username_opens : decrypted (text_of (r "mikrotik_username_enc")) ≡ value username
    pub password_opens : decrypted (text_of (r "mikrotik_password_enc")) ≡ value password
    pub username_fits : fits (varchar 80) (value_of username) ≡ true
    pub password_fits : fits (varchar 80) (value_of password) ≡ true

  pub decrypt_row-opens :
      (r : Row) (db : Database) {username password : Option String}
      → decrypted (text_of (r "mikrotik_username_enc")) ≡ value username
      → decrypted (text_of (r "mikrotik_password_enc")) ≡ value password
      → decrypt_row r db ≡ done (decrypted_param r db.draws) db
  unfolding decrypt_row
  decrypt_row-opens r db h k =
      bind-done (decrypt (text_of (r "mikrotik_username_enc"))) _ db
        (ap (λ (s : Sealed (Option String)). or_error s db) h)
      ∙ bind-done (decrypt (text_of (r "mikrotik_password_enc"))) _ db
          (ap (λ (s : Sealed (Option String)). or_error s db) k)
      ∙ rw (h, k) refl

  pub decrypt_row-done :
      (r : Row) (db : Database) → Opens r → decrypt_row r db ≡ done (decrypted_param r db.draws) db
  decrypt_row-done r db o = decrypt_row-opens r db o.username_opens o.password_opens

  module _ (key : String) where
    abbrev pub sealed_text : Option String → ℕ → Option String
    sealed_text none n = none
    sealed_text (some s) n = some (server.fernet.fernet_encrypt key s n)

    abbrev pub encrypted_param : Row → ℕ → Param
    encrypted_param r n = record {
      id = r "id";
      username = value_of (sealed_text (text_of (r "mikrotik_username")) n);
      password = value_of (
          sealed_text (text_of (r "mikrotik_password"))
            (n + drawn (text_of (r "mikrotik_username"))));
    }

    abbrev pub draws_of : Row → ℕ
    draws_of r = drawn (text_of (r "mikrotik_username")) + drawn (text_of (r "mikrotik_password"))

    module _ (keyed : get_key ⦃lib = server.fernet⦄ server.encryption_key ≡ value key) where
      encrypt-done :
          (text : Option String) (db : Database)
          → encrypt text db
            ≡ done (sealed_text text db.draws) (record db { draws = db.draws + drawn text })
      unfolding encrypt_value
      encrypt-done none db = refl
      encrypt-done (some s) db =
          ap
            (λ k.
              or_error (encrypt_with ⦃lib = server.fernet⦄ k s db.draws)
                (record db { draws = db.draws + 1 }))
            keyed

      pub encrypt_row-done :
          (r : Row) (db : Database)
          → encrypt_row r db
            ≡ done (encrypted_param r db.draws) (record db { draws = db.draws + draws_of r })
      unfolding encrypt_row
      encrypt_row-done r db =
          bind-done (encrypt user) _ db (encrypt-done user db)
          ∙ (bind-done (encrypt (text_of (r "mikrotik_password"))) _
                (record db { draws = db.draws + drawn user })
                (encrypt-done (text_of (r "mikrotik_password"))
                  (record db { draws = db.draws + drawn user }))
              ∙ ap (λ d. done (encrypted_param r db.draws) (record db { draws = d }))
                  (add_assoc db.draws (drawn user) (drawn (text_of (r "mikrotik_password")))))
        where
          user : Option String
          user = text_of (r "mikrotik_username")

      -- The cipher gives the text back.
      pub decrypted-sealed_text :
          (text : Option String) (n : ℕ) → decrypted (sealed_text text n) ≡ value text
      unfolding decrypt_value
      decrypted-sealed_text none n = refl
      decrypted-sealed_text (some s) n =
          ap (λ k. decrypt_with ⦃lib = server.fernet⦄ k (server.fernet.fernet_encrypt key s n))
            keyed
          ∙ ap (opened_token ⦃lib = server.fernet⦄) (server.fernet.decrypt-encrypt key s n)
