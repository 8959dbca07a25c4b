-- ===== src/Metadata/Fitting.antt =====
-- Which rows of src/auth/models fit the column types, and what a signup does with one that does not.
use hotspot_payment_gateway.Base.{
  ℕ, ◌≤◌, ◌++◌, String, ◌≡◌, refl, ◌↔◌, true, false, Bool, Bool-cases, ◌⊎◌, inl, inr, Option, none,
  some, [], ◌∷◌, any, ltb, arith,
}
use text.Mathlib.Text.{◌==◌ as str_eq}
use Prim.Native.String.{len}
use hotspot_payment_gateway.Runtime.{Env, DateTime}
use hotspot_payment_gateway.Schema.{char_length}
use hotspot_payment_gateway.Schema.Ddl.{row_valid}
use hotspot_payment_gateway.Metadata.Models.{
  user_model, refresh_token_model, verification_token_model,
}
use hotspot_payment_gateway.Metadata.Rows.{user_row, refresh_token_row, verification_token_row}
use hotspot_payment_gateway.Auth.Models.{User, RefreshToken, VerificationToken, consistent}
use hotspot_payment_gateway.Auth.Session.{Conn, ok, raised, data_error, with_session, view}
use hotspot_payment_gateway.Auth.Schemas.{SignupRequest}
use hotspot_payment_gateway.Auth.Tokens.{
  generate_refresh_token, generate_verification_token, hash_token, hash_refresh_token,
}
use hotspot_payment_gateway.Auth.Accounts.{create_user}
use hotspot_payment_gateway.Auth.Accounts.Signup.{
  new_user, CanRegister, create_user-created, create_user-IsStorable, too_wide,
}
use hotspot_payment_gateway.Auth.Refresh.{build_refresh_token}
use hotspot_payment_gateway.Auth.Mail.{purpose_email_verify, purpose_password_reset, add_token}

abbrev pub IsShort : ℕ → Option String → Type 0
IsShort n none = Unit
IsShort n (some s) = char_length s ≤ n

-- The row of a user with a password and no picture fits if the names are short, the address and the
-- hash being so.
user-row_valid :
    (id tenant_id : ℕ) (first : String) (last : Option String) (email hash : String)
    (is_email_verified : Bool) (created updated : DateTime)
    → char_length email ≤ 255
    → char_length hash ≤ 255
    → (row_valid user_model.columns (
          user_row (record {
            id = id;
            tenant_id = tenant_id;
            first_name = some first;
            last_name = last;
            email = email;
            password_hash = some hash;
            is_email_verified = is_email_verified;
            profile_photo_url = none;
            created_at = created;
            updated_at = updated;
          }))
        ≡ true)
      ↔ ((char_length first ≤ 200) × IsShort 200 last)
unfolding user_model
user-row_valid id tenant_id first none email hash b c d h k =
    (λ e. (ground arith, tt), λ e. ground arith)
user-row_valid id tenant_id first (some last) email hash b c d h k =
    (λ e. ground arith, λ e. ground arith)

module _ ⦃env : Env⦄ where
  -- On consistent rows, with a free address, fresh identifiers, the default tenant and a password
  -- of at most 72 bytes, where the address and the hash have at most 255 characters, a signup
  -- succeeds exactly if each of its names has at most 200 characters; else it raises the data
  -- error of the database and changes no row.
  pub create_user-IsShort :
      (signup : SignupRequest) (c : Conn)
      → consistent c.db ≡ true
      → CanRegister c
      → any (λ (v : User). str_eq v.email signup.email) c.db.users ≡ false
      → ltb 72 (len signup.password) ≡ false
      → char_length signup.email ≤ 255
      → ((salt : String) → char_length (env.hashpw signup.password salt) ≤ 255)
      → let (r, c') = with_session (create_user signup) c in
        ((r ≡ ok (new_user signup c.draws))
          ↔ ((char_length signup.first_name ≤ 200) × IsShort 200 signup.last_name))
        × ((r ≡ ok (new_user signup c.draws)) ⊎ ((r ≡ raised data_error) × (c'.db ≡ c.db)))
  create_user-IsShort signup c h r f o e k =
      let u = new_user signup c.draws in
      let (r', c') = with_session (create_user signup) c in
      let short =
        user-row_valid u.id u.tenant_id signup.first_name signup.last_name signup.email
          (env.hashpw signup.password (env.gensalt c.draws)) false u.created_at u.updated_at e
          (k (env.gensalt c.draws)) in
      let made : row_valid user_model.columns (user_row u) ≡ true → r' ≡ ok u =
        λ v. (create_user-created signup c (record { short = o; fits = v }) h r f).0 in
      (
        (
          λ x. short.0 (create_user-IsStorable signup c (λ i. (x i, c'))).fits,
          λ x. made (short.1 x),
        ),
        elim (Bool-cases (row_valid user_model.columns (user_row u))) [
          | inl v ↦ inl (made v)
          | inr v ↦ inr (too_wide signup c o v)
        ],
      )

  module _ (digits : (s : String) → char_length (env.sha256_hexdigest s) ≡ 64) where
    built-row_valid :
        (user_id : ℕ) (c : Conn)
        → (raw : String) × (row : RefreshToken) × ((build_refresh_token user_id c).0
            ≡ ok (raw, row))
          × (row_valid refresh_token_model.columns (refresh_token_row row) ≡ true)
    unfolding build_refresh_token generate_refresh_token hash_refresh_token hash_token
        refresh_token_model
    built-row_valid user_id c = (_, _, refl, rw (digits (env.token_urlsafe 64 c.draws)) refl)

    added-row_valid :
        (user_id : ℕ) (purpose : String) (lifetime : ℕ) (c : Conn)
        → char_length purpose ≤ 32
        → (row : VerificationToken) × ((view
              (add_token user_id purpose lifetime c).1).verification_tokens
            ≡ (view c).verification_tokens ++ row ∷ [])
          × (row_valid verification_token_model.columns (verification_token_row row) ≡ true)
    unfolding add_token generate_verification_token hash_token verification_token_model
    added-row_valid user_id purpose lifetime c k =
        (_, refl, rw (digits (env.token_urlsafe 48 c.draws)) (ground arith))

    -- Every refresh token that the service builds, and every token that it mails, fits the types
    -- of the columns of its table, where a hexadecimal SHA-256 digest has 64 characters.
    pub tokens-row_valid :
        (user_id lifetime : ℕ) (c : Conn)
        → ((raw : String) × (row : RefreshToken) × ((build_refresh_token user_id c).0
              ≡ ok (raw, row))
            × (row_valid refresh_token_model.columns (refresh_token_row row) ≡ true))
          × ((purpose : String)
              → (purpose ≡ purpose_email_verify) ⊎ (purpose ≡ purpose_password_reset)
              → (row : VerificationToken) × ((view
                    (add_token user_id purpose lifetime c).1).verification_tokens
                  ≡ (view c).verification_tokens ++ row ∷ [])
                × (row_valid verification_token_model.columns (verification_token_row row) ≡ true))
    tokens-row_valid user_id lifetime c = (
      built-row_valid user_id c,
      λ purpose p.
          added-row_valid user_id purpose lifetime c
            (elim p [ inl e ↦ rw e (omega arith) | inr e ↦ rw e (omega arith) ]),
    )
