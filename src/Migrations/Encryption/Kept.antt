-- ===== src/Migrations/Encryption/Kept.antt =====
-- The rows of transactions as the upgrade to f29672c8ed8f encrypts them and the downgrade decrypts
-- them.
use text.Mathlib.Text.{◌==◌ as str_eq}
use text.Mathlib.TextEquality.{eq_iff}
use hotspot_payment_gateway.Base.{
  ℕ, ◌+◌, String, ◌≡◌, refl, sym, ap, ◌∙◌, true, false, ◌||◌, Option, List, [], ◌∷◌, map, All,
  distinct, Bool-cases, inl, inr, arith, subst, any,
}
use hotspot_payment_gateway.Core.Encryption.{value, get_key}
use hotspot_payment_gateway.Schema.{varchar, Value, null, Row, fits, set_value, Rowwise}
use hotspot_payment_gateway.Schema.Ddl.{Server, in_key}
use hotspot_payment_gateway.Migrations.Batches.Keyed.{same_id}
use hotspot_payment_gateway.Migrations.Encryption.{text_of, value_of, drawn}
use hotspot_payment_gateway.Migrations.Encryption.Rows.{
  decrypted, opened, sealed_text, decrypted-sealed_text, text_of-value_of, draws_of,
}
use hotspot_payment_gateway.Migrations.Encryption.Upgrade.{sealed_row, sealed_rows}
use hotspot_payment_gateway.Migrations.Encryption.Downgrade.{CanOpen, opened_row}

abbrev pub text_names : List String
text_names = "mikrotik_username" ∷ "mikrotik_password" ∷ []

abbrev pub token_names : List String
token_names = "mikrotik_username_enc" ∷ "mikrotik_password_enc" ∷ []

-- A column that is written keeps its value under every other name.
set_value-kept :
    (name other : String) (v : Value) (r : Row)
    → str_eq name other ≡ false
    → set_value name v r other ≡ r other
set_value-kept name other v r h = rw h refl

module _ ⦃server : Server⦄ where
  -- The row `s` has the credentials of `r` as tokens that open to them, and nothing else changed.
  pub record Encrypted (r s : Row) : Type 0 where
    pub no_username : s "mikrotik_username" ≡ null
    pub no_password : s "mikrotik_password" ≡ null
    pub username_opens :
        decrypted (text_of (s "mikrotik_username_enc")) ≡ value (text_of (r "mikrotik_username"))
    pub password_opens :
        decrypted (text_of (s "mikrotik_password_enc")) ≡ value (text_of (r "mikrotik_password"))
    pub kept :
        (name : String)
        → in_key name text_names ≡ false
        → in_key name token_names ≡ false
        → s name ≡ r name

  -- The row `s` is `r` up to the two columns of tokens.
  pub record Restored (r s : Row) : Type 0 where
    pub same : (name : String) → in_key name token_names ≡ false → s name ≡ r name

  -- A row of the revision before: it has an identifier, and credentials that its columns hold.
  pub record Stored (r : Row) : Type 0 where
    pub has_id : same_id r r ≡ true
    pub username : Option String
    pub password : Option String
    pub username_is : r "mikrotik_username" ≡ value_of username
    pub password_is : r "mikrotik_password" ≡ value_of password
    pub username_fits : fits (varchar 80) (value_of username) ≡ true
    pub password_fits : fits (varchar 80) (value_of password) ≡ true

  pub Stored-ids : (rows : List Row) → All Stored rows → All (λ (r : Row). same_id r r ≡ true) rows
  Stored-ids [] h = tt
  Stored-ids (r ∷ rows) h = (h.0.has_id, Stored-ids rows h.1)

  module _ (key : String)
      (keyed : get_key ⦃lib = server.fernet⦄ server.encryption_key ≡ value key) where
    token_opens :
        (t : Option String) (n : ℕ) → decrypted (text_of (value_of (sealed_text key t n))) ≡ value t
    token_opens t n =
        rw (text_of-value_of (sealed_text key t n)) (decrypted-sealed_text key keyed t n)

    sealed_row-Encrypted : (n : ℕ) (r : Row) → Encrypted r (sealed_row key n r)
    unfolding sealed_row
    sealed_row-Encrypted n r = record {
      no_username = refl;
      no_password = refl;
      username_opens = token_opens (text_of (r "mikrotik_username")) n;
      password_opens =
          token_opens (text_of (r "mikrotik_password"))
            (n + drawn (text_of (r "mikrotik_username")));
      kept = λ name h k. ground arith;
    }

    pub sealed_rows-Encrypted :
        (n : ℕ) (rows : List Row) → Rowwise Encrypted rows (sealed_rows key n rows)
    unfolding sealed_rows
    sealed_rows-Encrypted n [] = tt
    sealed_rows-Encrypted n (r ∷ rows) =
        (sealed_row-Encrypted n r, sealed_rows-Encrypted (n + draws_of key r) rows)

    sealed_username :
        (n : ℕ) (r : Row) (s : Stored r)
        → decrypted (text_of (sealed_row key n r "mikrotik_username_enc")) ≡ value s.username
    unfolding sealed_row
    sealed_username n r s =
        token_opens (text_of (r "mikrotik_username")) n
        ∙ ap value (ap text_of s.username_is ∙ text_of-value_of s.username)

    sealed_password :
        (n : ℕ) (r : Row) (s : Stored r)
        → decrypted (text_of (sealed_row key n r "mikrotik_password_enc")) ≡ value s.password
    unfolding sealed_row
    sealed_password n r s =
        token_opens (text_of (r "mikrotik_password")) (n + drawn (text_of (r "mikrotik_username")))
        ∙ ap value (ap text_of s.password_is ∙ text_of-value_of s.password)

    sealed_row-CanOpen : (n : ℕ) (r : Row) → Stored r → CanOpen (sealed_row key n r)
    unfolding sealed_row
    sealed_row-CanOpen n r s = (
      record {
        username = s.username;
        password = s.password;
        username_opens = sealed_username n r s;
        password_opens = sealed_password n r s;
        username_fits = s.username_fits;
        password_fits = s.password_fits;
      },
      s.has_id,
    )

    opened_username :
        (n : ℕ) (r : Row)
        → Stored r
        → opened_row (sealed_row key n r) "mikrotik_username" ≡ r "mikrotik_username"
    unfolding opened_row
    opened_username n r s =
        ap (λ d. value_of (opened d)) (sealed_username n r s) ∙ sym s.username_is

    opened_password :
        (n : ℕ) (r : Row)
        → Stored r
        → opened_row (sealed_row key n r) "mikrotik_password" ≡ r "mikrotik_password"
    unfolding opened_row
    opened_password n r s =
        ap (λ d. value_of (opened d)) (sealed_password n r s) ∙ sym s.password_is

    opened_other :
        (n : ℕ) (r : Row) (name : String)
        → in_key name token_names ≡ false
        → str_eq "mikrotik_username" name ≡ false
        → str_eq "mikrotik_password" name ≡ false
        → opened_row (sealed_row key n r) name ≡ r name
    unfolding opened_row sealed_row
    opened_other n r name h u p = ground arith

    opened-Restored : (n : ℕ) (r : Row) → Stored r → Restored r (opened_row (sealed_row key n r))
    opened-Restored n r s = record {
      same = λ name h. elim (Bool-cases (str_eq "mikrotik_username" name)) [
        | inl e ↦
            subst (λ m. opened_row (sealed_row key n r) m ≡ r m)
              ((eq_iff "mikrotik_username" name).0 e) (opened_username n r s)
        | inr u ↦ elim (Bool-cases (str_eq "mikrotik_password" name)) [
          | inl e ↦
              subst (λ m. opened_row (sealed_row key n r) m ≡ r m)
                ((eq_iff "mikrotik_password" name).0 e) (opened_password n r s)
          | inr p ↦ opened_other n r name h u p
        ]
      ];
    }

    pub sealed_rows-CanOpen :
        (n : ℕ) (rows : List Row) → All Stored rows → All CanOpen (sealed_rows key n rows)
    unfolding sealed_rows
    sealed_rows-CanOpen n [] h = tt
    sealed_rows-CanOpen n (r ∷ rows) h =
        (sealed_row-CanOpen n r h.0, sealed_rows-CanOpen (n + draws_of key r) rows h.1)

    pub opened-sealed_rows :
        (n : ℕ) (rows : List Row)
        → All Stored rows
        → Rowwise Restored rows (map opened_row (sealed_rows key n rows))
    unfolding sealed_rows
    opened-sealed_rows n [] h = tt
    opened-sealed_rows n (r ∷ rows) h =
        (opened-Restored n r h.0, opened-sealed_rows (n + draws_of key r) rows h.1)

    any-sealed_rows :
        (r : Row) (m n : ℕ) (rows : List Row)
        → any (same_id (sealed_row key m r)) (sealed_rows key n rows) ≡ any (same_id r) rows
    unfolding sealed_rows sealed_row
    any-sealed_rows r m n [] = refl
    any-sealed_rows r m n (s ∷ rows) =
        ap (λ b. same_id r s || b) (any-sealed_rows r m (n + draws_of key s) rows)

    pub distinct-sealed_rows :
        (n : ℕ) (rows : List Row)
        → distinct same_id (sealed_rows key n rows) ≡ distinct same_id rows
    unfolding sealed_rows
    distinct-sealed_rows n [] = refl
    distinct-sealed_rows n (r ∷ rows) =
        rw
          (
            any-sealed_rows r n (n + draws_of key r) rows,
            distinct-sealed_rows (n + draws_of key r) rows,
          )
          refl
