-- ===== src/App/Enumeration.antt =====
-- The answers to a request for a mail do not tell whether the address belongs to an account.
use text.Mathlib.Text.{◌==◌ as str_eq}
use hotspot_payment_gateway.Base.{
  ℕ, ◌+◌, String, ◌≡◌, refl, true, Bool-cases, Option, none, some, Option-cases, Has, inl, inr,
  if◌then◌else◌, arith,
}
use hotspot_payment_gateway.Runtime.{Env}
use hotspot_payment_gateway.Core.RateLimit.{email_request_rate_limit}
use hotspot_payment_gateway.Auth.Models.{User, consistent}
use hotspot_payment_gateway.Auth.Utils.{normalize_email}
use hotspot_payment_gateway.Auth.Schemas.{validate_email_field}
use hotspot_payment_gateway.Auth.Session.{Conn, ok, opened}
use hotspot_payment_gateway.Auth.Http.{Response, respond, no_body, detail, validation_errors}
use hotspot_payment_gateway.Auth.Accounts.{get_user_by_email}
use hotspot_payment_gateway.Auth.Mail.{request_password_reset}
use hotspot_payment_gateway.Auth.Mail.Request.{
  CanMail, send_reset_token-eq, request_email_verification-eq,
}
use hotspot_payment_gateway.Auth.Router
use hotspot_payment_gateway.App
use hotspot_payment_gateway.App.{serve}

module _ ⦃env : Env⦄ where
  -- The answer by the address and the verdict of the rate limiter at the n-th reading; the database
  -- has no say in it.
  abbrev pub mail_answer : Option String → ℕ → Response env.Jwt
  mail_answer none n = respond 422 validation_errors
  mail_answer (some _) n =
      if env.admits email_request_rate_limit n
      then respond 202 no_body
      else respond 429 (detail "Too many requests. Please try again later.")

  resend_to-eq :
      (o : Option User) (c : Conn)
      → consistent c.db ≡ true
      → ((u : User) → o ≡ some u → Has u c.db.users)
      → CanMail c.db c.draws
      → (Router.resend_to o (opened c)).0 ≡ ok tt
  resend_to-eq none c h m f = refl
  resend_to-eq (some u) c h m f = elim (Bool-cases u.is_email_verified) [
    | inl v ↦ rw v refl
    | inr v ↦ let k = request_email_verification-eq u (opened c) refl h (m u refl) f in ground arith
  ]

  -- On consistent rows with fresh draws, the response to POST /forgot-password depends on the
  -- address and the rate limiter only, not on whether an account exists.
  pub forgot_password-mail_answer :
      (email : String) (c : Conn)
      → consistent c.db ≡ true
      → CanMail c.db (c.draws + 1)
      → (serve (App.forgot_password email) c).0 ≡ mail_answer (validate_email_field email) c.draws
  unfolding serve Router.forgot_password request_password_reset get_user_by_email
  forgot_password-mail_answer email c h f = elim (Option-cases (validate_email_field email)) [
    | inl n ↦ rw n refl
    | inr (e, v) ↦ elim (Bool-cases (env.admits email_request_rate_limit c.draws)) [
      | inl a ↦
          let found = env.scalar (λ (u : User). str_eq u.email (normalize_email e)) c.db.users in
          let k =
            send_reset_token-eq found (opened (record c { draws = c.draws + 1 })) refl h
              (λ u q. (env.scalar-some _ c.db.users u q).0) f in
          rw (v, a, k) refl
      | inr a ↦ rw (v, a) refl
    ]
  ]

  -- On consistent rows with fresh draws, the response to POST /verify-email/request depends on the
  -- address and the rate limiter only, not on whether an account exists or is verified.
  pub resend_verification-mail_answer :
      (email : String) (c : Conn)
      → consistent c.db ≡ true
      → CanMail c.db (c.draws + 1)
      → (serve (App.resend_verification email) c).0
        ≡ mail_answer (validate_email_field email) c.draws
  unfolding serve Router.resend_verification get_user_by_email
  resend_verification-mail_answer email c h f = elim (Option-cases (validate_email_field email)) [
    | inl n ↦ rw n refl
    | inr (e, v) ↦ elim (Bool-cases (env.admits email_request_rate_limit c.draws)) [
      | inl a ↦
          let found = env.scalar (λ (u : User). str_eq u.email (normalize_email e)) c.db.users in
          let k =
            resend_to-eq found (record c { draws = c.draws + 1 }) h
              (λ u q. (env.scalar-some _ c.db.users u q).0) f in
          rw (v, a, k) refl
      | inr a ↦ rw (v, a) refl
    ]
  ]
