-- ===== src/Demo/MailExamples.antt =====
-- The properties of mailed tokens and password resets at concrete states.
use Prim.Native.String.{len}
use hotspot_payment_gateway.Auth.Mail.Request.{requested}
use hotspot_payment_gateway.Base.{
  ltb, false, String, ◌≡◌, ◌⊎◌, refl, true, some, List, [], ◌∷◌, ◌++◌, ◌≤◌, Has, Has-append_last,
  ◌+◌,
}
use hotspot_payment_gateway.Demo.{demo, tally, Signed}
use hotspot_payment_gateway.Demo.Flows.{run, after, start, jane, signed_up, logged_in, first_token}
use hotspot_payment_gateway.Auth.Models.{User, RefreshToken, VerificationToken}
use hotspot_payment_gateway.Auth.Schemas.{ResetPasswordRequest, validate_email_field}
use hotspot_payment_gateway.Auth.Session.{
  Conn, ok, raised, with_session, invalid_password_reset_token_error,
}
use hotspot_payment_gateway.Auth.Tokens.{hash_refresh_token}
use hotspot_payment_gateway.Auth.Http.{read_refresh_cookie}
use hotspot_payment_gateway.Auth.Mail.{
  purpose_password_reset, request_password_reset, reset_password, verify_email,
}
use hotspot_payment_gateway.Auth.Mail.Consume.{IsUsable, consume_token_iff}
use hotspot_payment_gateway.Auth.Times.{minutes, hours}
use hotspot_payment_gateway.Auth.Accounts.Signup.{new_user}
use hotspot_payment_gateway.Auth.Mail.{request_email_verification}
use hotspot_payment_gateway.Auth.Mail.Mailed.{
  verification_mail, reset_mail, request_email_verification-verify_email,
  request_password_reset-reset_password,
}
use hotspot_payment_gateway.Auth.Mail.Sessions.{EndsSessions, reset_password-EndsSessions}
use hotspot_payment_gateway.App
use hotspot_payment_gateway.App.{Request, serve, serve_all}
use hotspot_payment_gateway.App.Ended.{reset_password-serve_all}
use hotspot_payment_gateway.App.Enumeration.{mail_answer, forgot_password-mail_answer}

-- A reset token, drawn at the reading 15, is on its way.
abbrev pub forgotten : Conn
forgotten = after (request_password_reset ⦃env = demo⦄ "jane@example.com") logged_in

abbrev pub raw_reset : String
raw_reset = tally 15

abbrev pub fresh_password : String
fresh_password = "NewPassword1!"

abbrev pub changed : Conn
changed = after (reset_password ⦃env = demo⦄ raw_reset fresh_password) forgotten

abbrev body : ResetPasswordRequest
body = record {
  token = raw_reset;
  new_password = fresh_password;
  confirm_password = fresh_password;
}

-- The row of the reset token, behind the one of the verification.
abbrev pub second_of : List VerificationToken → VerificationToken → VerificationToken
second_of (v ∷ w ∷ rows) other = w
second_of _ other = other

abbrev pub reset_row : VerificationToken
reset_row = second_of forgotten.db.verification_tokens (first_token forgotten)

-- The token is usable at the reading that the next request makes, and at the one after.
pub reset-IsUsable :
    IsUsable ⦃env = demo⦄ forgotten.db raw_reset purpose_password_reset forgotten.draws reset_row
unfolding run
reset-IsUsable =
    (consume_token_iff ⦃env = demo⦄ raw_reset purpose_password_reset
        invalid_password_reset_token_error forgotten reset_row refl).0
      refl

pub reset-IsUsable_later :
    IsUsable ⦃env = demo⦄ forgotten.db raw_reset purpose_password_reset
      (forgotten.draws + 1)
      reset_row
unfolding run
reset-IsUsable_later =
    (consume_token_iff ⦃env = demo⦄ raw_reset purpose_password_reset
        invalid_password_reset_token_error (record forgotten { draws = forgotten.draws + 1 })
        reset_row refl).0
      refl

reset_password-serve_all_example :
    (token : VerificationToken) × IsUsable ⦃env = demo⦄ forgotten.db raw_reset
      purpose_password_reset
      (forgotten.draws + 1)
      token
    × ((cookies : List (String × String)) (raw : String) (row : RefreshToken)
          (requests : List (Request Signed))
        → read_refresh_cookie ⦃env = demo⦄ cookies ≡ some raw
        → Has row forgotten.db.refresh_tokens
        → row.user_id ≡ token.user_id
        → row.token_hash ≡ hash_refresh_token ⦃env = demo⦄ raw
        → let later =
            serve_all ⦃env = demo⦄ requests
              (serve ⦃env = demo⦄ (App.reset_password body) forgotten).1 in
          ((serve ⦃env = demo⦄ (App.refresh cookies) later).0.status ≡ 401)
          ⊎ ((serve ⦃env = demo⦄ (App.refresh cookies) later).0.status ≡ 429))
unfolding run
reset_password-serve_all_example = reset_password-serve_all ⦃env = demo⦄ body forgotten refl

reset_password-EndsSessions_example :
    (row : VerificationToken) × IsUsable ⦃env = demo⦄ forgotten.db raw_reset purpose_password_reset
      forgotten.draws row
    × EndsSessions ⦃env = demo⦄ row fresh_password forgotten.db changed.db
unfolding run
reset_password-EndsSessions_example =
    reset_password-EndsSessions ⦃env = demo⦄ raw_reset fresh_password forgotten refl

forgot_password-mail_answer_example :
    (serve ⦃env = demo⦄ (App.forgot_password "jane@example.com") logged_in).0
    ≡ mail_answer ⦃env = demo⦄
        (validate_email_field ⦃env = demo⦄ "jane@example.com")
        logged_in.draws
unfolding run
forgot_password-mail_answer_example =
    forgot_password-mail_answer ⦃env = demo⦄ "jane@example.com" logged_in refl
      (record { fresh_id = refl; fresh_hash = refl })

jane-Has : Has (new_user ⦃env = demo⦄ jane 0) signed_up.db.users
unfolding run
jane-Has = Has-append_last (new_user ⦃env = demo⦄ jane 0) start.db.users

request_email_verification-verify_email_example :
    let c' =
      (with_session
        (request_email_verification ⦃env = demo⦄ (new_user ⦃env = demo⦄ jane 0))
        signed_up).1 in
    ((with_session
        (request_email_verification ⦃env = demo⦄ (new_user ⦃env = demo⦄ jane 0))
        signed_up).0
      ≡ ok tt)
    × (raw : String) × (c'.tasks
        ≡ signed_up.tasks ++ verification_mail ⦃env = demo⦄ (new_user ⦃env = demo⦄ jane 0) raw ∷ [])
    × ((d : Conn)
        → d.db ≡ c'.db
        → demo.now d.draws
          ≤ demo.now (signed_up.draws + 1) + hours demo.settings.email_verify_token_ttl_hours
        → (u : User) × ((with_session (verify_email ⦃env = demo⦄ raw) d).0 ≡ ok u)
          × (u.id ≡ (new_user ⦃env = demo⦄ jane 0).id)
          × (u.is_email_verified ≡ true)
          × Has u (with_session (verify_email ⦃env = demo⦄ raw) d).1.db.users)
unfolding run
request_email_verification-verify_email_example =
    request_email_verification-verify_email ⦃env = demo⦄ (new_user ⦃env = demo⦄ jane 0) signed_up
      refl jane-Has (record { fresh_id = refl; fresh_hash = refl })

request_password_reset-reset_password_example :
    let c' = (with_session (request_password_reset ⦃env = demo⦄ "jane@example.com") signed_up).1 in
    ((with_session (request_password_reset ⦃env = demo⦄ "jane@example.com") signed_up).0 ≡ ok tt)
    × (raw : String) × (c'.tasks
        ≡ signed_up.tasks ++ reset_mail ⦃env = demo⦄ (new_user ⦃env = demo⦄ jane 0) raw ∷ [])
    × ((new_password : String) (d : Conn)
        → d.db ≡ c'.db
        → demo.now d.draws
          ≤ demo.now (signed_up.draws + 1) + minutes demo.settings.password_reset_token_ttl_minutes
        → ltb 72 (len new_password) ≡ false
        → let (r', d') = with_session (reset_password ⦃env = demo⦄ raw new_password) d in
          (r' ≡ ok tt)
          × EndsSessions ⦃env = demo⦄
              (requested ⦃env = demo⦄
                (new_user ⦃env = demo⦄ jane 0).id
                purpose_password_reset
                (minutes demo.settings.password_reset_token_ttl_minutes)
                signed_up.draws)
              new_password
              d.db
              d'.db
          × ((other : String)
              → with_session (reset_password ⦃env = demo⦄ raw other) d' ≡ (
                raised (invalid_password_reset_token_error "Token is invalid or already used"),
                d',
              )))
unfolding run
request_password_reset-reset_password_example =
    request_password_reset-reset_password ⦃env = demo⦄ "jane@example.com"
      (new_user ⦃env = demo⦄ jane 0) signed_up refl jane-Has refl
      (record { fresh_id = refl; fresh_hash = refl })
