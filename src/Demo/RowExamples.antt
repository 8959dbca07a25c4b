-- ===== src/Demo/RowExamples.antt =====
-- Whether rows fit their columns, at concrete states.
use hotspot_payment_gateway.Base.{◌≤◌, ◌++◌, String, ◌≡◌, ◌⊎◌, ◌↔◌, refl, true, [], ◌∷◌, arith}
use hotspot_payment_gateway.Runtime.{Env}
use hotspot_payment_gateway.Demo.{demo}
use hotspot_payment_gateway.Demo.Flows.{run, start, jane}
use hotspot_payment_gateway.Schema.{char_length}
use hotspot_payment_gateway.Schema.Ddl.{row_valid}
use hotspot_payment_gateway.Metadata.Models.{refresh_token_model, verification_token_model}
use hotspot_payment_gateway.Metadata.Rows.{refresh_token_row, verification_token_row}
use hotspot_payment_gateway.Metadata.Fitting.{IsShort, create_user-IsShort, tokens-row_valid}
use hotspot_payment_gateway.Auth.Models.{RefreshToken, VerificationToken}
use hotspot_payment_gateway.Auth.Session.{ok, raised, data_error, with_session, view}
use hotspot_payment_gateway.Auth.Accounts.{create_user}
use hotspot_payment_gateway.Auth.Accounts.Signup.{new_user}
use hotspot_payment_gateway.Auth.Refresh.{build_refresh_token}
use hotspot_payment_gateway.Auth.Mail.{purpose_email_verify, purpose_password_reset, add_token}

create_user-IsShort_example :
    (((with_session (create_user ⦃env = demo⦄ jane) start).0 ≡ ok (new_user ⦃env = demo⦄ jane 0))
      ↔ ((char_length jane.first_name ≤ 200) × IsShort 200 jane.last_name))
    × (((with_session (create_user ⦃env = demo⦄ jane) start).0 ≡ ok (new_user ⦃env = demo⦄ jane 0))
        ⊎ (((with_session (create_user ⦃env = demo⦄ jane) start).0 ≡ raised data_error)
            × ((with_session (create_user ⦃env = demo⦄ jane) start).1.db ≡ start.db)))
unfolding run
create_user-IsShort_example =
    create_user-IsShort ⦃env = demo⦄ jane start refl
      (record { user_id = refl; provider_id = refl; tenant = refl }) refl refl (omega arith)
      (λ salt. omega arith)

-- A hash of 64 digits.
abbrev digested : Env
digested = record demo {
  sha256_hexdigest = λ raw. "0123456789abcdef0123456789abcdef0123456789abcdef0123456789abcdef";
}

tokens-row_valid_example :
    ((raw : String) × (row : RefreshToken) × ((build_refresh_token ⦃env = digested⦄ 7 start).0
        ≡ ok (raw, row))
      × (row_valid refresh_token_model.columns (refresh_token_row row) ≡ true))
    × ((purpose : String)
        → (purpose ≡ purpose_email_verify) ⊎ (purpose ≡ purpose_password_reset)
        → (row : VerificationToken) × ((view
              (add_token ⦃env = digested⦄ 7 purpose 3600 start).1).verification_tokens
            ≡ (view start).verification_tokens ++ row ∷ [])
          × (row_valid verification_token_model.columns (verification_token_row row) ≡ true))
tokens-row_valid_example = tokens-row_valid ⦃env = digested⦄ (λ s. refl) 7 3600 start
