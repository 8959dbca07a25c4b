-- ===== src/Auth/Mail/Mailed.antt =====
-- The link that a request mails carries a token that works.
use Prim.Native.String.{len, ◌++◌ as str_append}
use text.Mathlib.Text.{◌==◌ as str_eq}
use hotspot_payment_gateway.Base.{
  ltb, false, ℕ, ◌+◌, ◌++◌, ◌≤◌, String, ◌≡◌, refl, ◌∙◌, true, some, [], ◌∷◌, Has, Has-append_last,
}
use hotspot_payment_gateway.Runtime.{Env}
use hotspot_payment_gateway.Auth.Models.{User, Tables, consistent}
use hotspot_payment_gateway.Auth.Models.Preserve.{with_verification}
use hotspot_payment_gateway.Auth.Session.{
  Conn, Mail, ok, raised, commit, with_session, invalid_password_reset_token_error,
}
use hotspot_payment_gateway.Auth.Times.{minutes, hours}
use hotspot_payment_gateway.Auth.Utils.{normalize_email}
use hotspot_payment_gateway.Auth.Accounts.{get_user_by_email}
use hotspot_payment_gateway.Auth.Accounts.Login.{find_address}
use hotspot_payment_gateway.Auth.Refresh.Liveness.{instant-stored}
use hotspot_payment_gateway.Auth.Tokens.{hash_token}
use hotspot_payment_gateway.Auth.Mail.{
  purpose_email_verify, purpose_password_reset, token_link, add_token, request_email_verification,
  send_reset_token, request_password_reset, verify_email, reset_password,
}
use hotspot_payment_gateway.Auth.Mail.Consume.{IsUsable}
use hotspot_payment_gateway.Auth.Mail.Verify.{verify_email-owner}
use hotspot_payment_gateway.Auth.Mail.Sessions.{
  EndsSessions, reset_password-owner, reset_password-reset_password,
}
use hotspot_payment_gateway.Auth.Mail.Request.{requested, CanMail, requested-consistent}
use hotspot_payment_gateway.Auth.Mail.Liveness.{verify_email-IsUsable, reset_password-IsUsable}

module _ ⦃env : Env⦄ where
  abbrev pub verification_mail : User → String → Mail
  verification_mail user raw = record {
    to = user.email;
    subject = "Verify your email address";
    body =
        str_append "Confirm your email to activate your account:\n\n"
          (token_link env.settings.frontend_verify_email_url raw);
  }

  abbrev pub reset_mail : User → String → Mail
  reset_mail user raw = record {
    to = user.email;
    subject = "Reset your password";
    body =
        str_append "Reset your password using this link:\n\n"
          (token_link env.settings.frontend_reset_password_url raw);
  }

  requested-IsUsable :
      (user_id lifetime n m : ℕ) (purpose : String) (t : Tables)
      → env.now m ≤ env.now (n + 1) + lifetime
      → IsUsable
          (with_verification t (requested user_id purpose lifetime n))
          (env.token_urlsafe 48 n)
          purpose
          m
          (requested user_id purpose lifetime n)
  unfolding hash_token
  requested-IsUsable user_id lifetime n m purpose t l = record {
    here = Has-append_last (requested user_id purpose lifetime n) t.verification_tokens;
    hashed = refl;
    meant = refl;
    unused = refl;
    unexpired = rw (instant-stored (env.now (n + 1) + lifetime)) l;
  }

  verification_sent :
      (user : User) (c : Conn)
      → consistent (
          with_verification c.db (
            requested user.id purpose_email_verify
              (hours env.settings.email_verify_token_ttl_hours)
              c.draws))
        ≡ true
      → let (r, c') = with_session (request_email_verification user) c in
        (r ≡ ok tt)
        × (c'.db
            ≡ with_verification c.db (
                requested user.id purpose_email_verify
                  (hours env.settings.email_verify_token_ttl_hours)
                  c.draws))
        × (c'.tasks ≡ c.tasks ++ verification_mail user (env.token_urlsafe 48 c.draws) ∷ [])
  unfolding with_session request_email_verification add_token commit hash_token
  verification_sent user c k = rw k (refl, refl, refl)

  -- On consistent rows, for a stored user, where the drawn text and identifier are fresh, a
  -- request for verification succeeds and queues one mail to the address of the user, with a link
  -- whose token then verifies the account of that user, from every later state with those rows,
  -- until the lifetime of the token is over.
  pub request_email_verification-verify_email :
      (user : User) (c : Conn)
      → consistent c.db ≡ true
      → Has user c.db.users
      → CanMail c.db c.draws
      → let (r, c') = with_session (request_email_verification user) c in
        (r ≡ ok tt)
        × (raw : String) × (c'.tasks ≡ c.tasks ++ verification_mail user raw ∷ [])
        × ((d : Conn)
            → d.db ≡ c'.db
            → env.now d.draws
              ≤ env.now (c.draws + 1) + hours env.settings.email_verify_token_ttl_hours
            → (u : User) × ((with_session (verify_email raw) d).0 ≡ ok u)
              × (u.id ≡ user.id)
              × (u.is_email_verified ≡ true)
              × Has u (with_session (verify_email raw) d).1.db.users)
  request_email_verification-verify_email user c h m f =
      let lifetime = hours env.settings.email_verify_token_ttl_hours in
      let row = requested user.id purpose_email_verify lifetime c.draws in
      let k = requested-consistent user purpose_email_verify lifetime c.draws c.db h m f in
      let (a, db, tasks) = verification_sent user c k in
      (
        a,
        env.token_urlsafe 48 c.draws,
        tasks,
        λ d e l.
            let same : d.db ≡ with_verification c.db row = e ∙ db in
            let raw = env.token_urlsafe 48 c.draws in
            let valid : consistent d.db ≡ true = rw same k in
            let usable : IsUsable d.db raw purpose_email_verify d.draws row =
              rw same
                (requested-IsUsable user.id lifetime c.draws d.draws purpose_email_verify c.db l) in
            let (u, r) = verify_email-IsUsable raw d row valid usable in
            let after = (with_session (verify_email raw) d).1 in
            let (owner, verified, here) =
              verify_email-owner raw d row valid usable (λ i. (r i, after)) in
            (u, r, owner, verified, here),
      )

  reset_sent :
      (email : String) (user : User) (c : Conn)
      → env.scalar (λ v. str_eq v.email (normalize_email email)) c.db.users ≡ some user
      → consistent (
          with_verification c.db (
            requested user.id purpose_password_reset
              (minutes env.settings.password_reset_token_ttl_minutes)
              c.draws))
        ≡ true
      → let (r, c') = with_session (request_password_reset email) c in
        (r ≡ ok tt)
        × (c'.db
            ≡ with_verification c.db (
                requested user.id purpose_password_reset
                  (minutes env.settings.password_reset_token_ttl_minutes)
                  c.draws))
        × (c'.tasks ≡ c.tasks ++ reset_mail user (env.token_urlsafe 48 c.draws) ∷ [])
  unfolding with_session request_password_reset get_user_by_email send_reset_token add_token commit
      hash_token
  reset_sent email user c f k = rw (f, k) (refl, refl, refl)

  -- On consistent rows, for the address of a stored user, where the drawn text and identifier are
  -- fresh, a request for a reset succeeds and queues one mail to that user, with a link whose
  -- token, from every later state with those rows and until its lifetime is over, resets the
  -- password of that user, and of no other, to any new one of at most 72 bytes: the new password
  -- passes, every session of the user has ended and no other, and the token is refused for a
  -- second reset.
  pub request_password_reset-reset_password :
      (email : String) (user : User) (c : Conn)
      → consistent c.db ≡ true
      → Has user c.db.users
      → user.email ≡ normalize_email email
      → CanMail c.db c.draws
      → let (r, c') = with_session (request_password_reset email) c in
        (r ≡ ok tt)
        × (raw : String) × (c'.tasks ≡ c.tasks ++ reset_mail user raw ∷ [])
        × ((new_password : String) (d : Conn)
            → d.db ≡ c'.db
            → env.now d.draws
              ≤ env.now (c.draws + 1) + minutes env.settings.password_reset_token_ttl_minutes
            → ltb 72 (len new_password) ≡ false
            → let (r', d') = with_session (reset_password raw new_password) d in
              (r' ≡ ok tt)
              × EndsSessions
                  (requested user.id purpose_password_reset
                    (minutes env.settings.password_reset_token_ttl_minutes)
                    c.draws)
                  new_password
                  d.db
                  d'.db
              × ((other : String)
                  → with_session (reset_password raw other) d' ≡ (
                    raised (invalid_password_reset_token_error "Token is invalid or already used"),
                    d',
                  )))
  request_password_reset-reset_password email user c h m n f =
      let lifetime = minutes env.settings.password_reset_token_ttl_minutes in
      let row = requested user.id purpose_password_reset lifetime c.draws in
      let k = requested-consistent user purpose_password_reset lifetime c.draws c.db h m f in
      let (a, db, tasks) =
        reset_sent email user c (find_address (normalize_email email) c.db user h m n) k in
      (
        a,
        env.token_urlsafe 48 c.draws,
        tasks,
        λ new_password d e l o.
            let same : d.db ≡ with_verification c.db row = e ∙ db in
            let raw = env.token_urlsafe 48 c.draws in
            let valid : consistent d.db ≡ true = rw same k in
            let usable : IsUsable d.db raw purpose_password_reset d.draws row =
              rw same (
                requested-IsUsable user.id lifetime c.draws d.draws purpose_password_reset c.db
                  l) in
            let r = reset_password-IsUsable raw new_password d row o valid usable in
            let after = (with_session (reset_password raw new_password) d).1 in
            (
              r,
              reset_password-owner raw new_password d row valid usable (λ i. (r i, after)),
              λ other. reset_password-reset_password raw new_password other d (λ i. (r i, after)),
            ),
      )
