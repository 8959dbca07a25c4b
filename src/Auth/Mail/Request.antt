-- ===== src/Auth/Mail/Request.antt =====
-- Requests for a verification or a reset mail: among consistent rows their commit goes through.
use text.Mathlib.Text.{◌==◌ as str_eq}
use hotspot_payment_gateway.Base.{
  ℕ, ◌+◌, String, ◌≡◌, refl, true, false, Option, none, some, Has, any, any_of_Has, ◌==◌, ==_iff,
}
use hotspot_payment_gateway.Runtime.{Env}
use hotspot_payment_gateway.Auth.Models.{User, VerificationToken, Tables, consistent}
use hotspot_payment_gateway.Auth.Models.Preserve.{with_verification, consistent-with_verification}
use hotspot_payment_gateway.Auth.Session.{Conn, unchanged, ok, commit}
use hotspot_payment_gateway.Auth.Times.{minutes, hours}
use hotspot_payment_gateway.Auth.Tokens.{hash_token}
use hotspot_payment_gateway.Auth.Mail.{
  add_token, request_email_verification, send_reset_token, purpose_email_verify,
  purpose_password_reset,
}

module _ ⦃env : Env⦄ where
  -- The row of a token that is requested when the n-th reading is the next.
  abbrev pub requested : ℕ → String → ℕ → ℕ → VerificationToken
  requested user_id purpose lifetime n = record {
    id = env.uuid7 (n + 1 + 1);
    user_id = user_id;
    purpose = purpose;
    token_hash = hash_token (env.token_urlsafe 48 n);
    expires_at = env.stored (env.now (n + 1) + lifetime);
    used_at = none;
    created_at = env.server_now (n + 1 + 1 + 1);
  }

  -- The text and the identifier that the next request draws are not in use.
  pub record CanMail (t : Tables) (n : ℕ) : Type 0 where
    pub fresh_id :
        any (λ (v : VerificationToken). v.id == env.uuid7 (n + 1 + 1)) t.verification_tokens ≡ false
    pub fresh_hash :
        any
          (λ (v : VerificationToken). str_eq v.token_hash (hash_token (env.token_urlsafe 48 n)))
          t.verification_tokens
        ≡ false

  pub requested-consistent :
      (u : User) (purpose : String) (lifetime n : ℕ) (t : Tables)
      → consistent t ≡ true
      → Has u t.users
      → CanMail t n
      → consistent (with_verification t (requested u.id purpose lifetime n)) ≡ true
  requested-consistent u purpose lifetime n t h m f =
      consistent-with_verification t (requested u.id purpose lifetime n) h (record {
        fresh_id = f.fresh_id;
        fresh_hash = f.fresh_hash;
        owned = any_of_Has (λ (w : User). w.id == u.id) u t.users m ((==_iff u.id u.id).1 refl);
      })

  pub send_reset_token-eq :
      (o : Option User) (c : Conn)
      → c.pending ≡ unchanged
      → consistent c.db ≡ true
      → ((u : User) → o ≡ some u → Has u c.db.users)
      → CanMail c.db c.draws
      → (send_reset_token o c).0 ≡ ok tt
  unfolding send_reset_token add_token commit hash_token
  send_reset_token-eq none c p h m f = refl
  send_reset_token-eq (some u) c p h m f =
      let k =
        requested-consistent u purpose_password_reset
          (minutes env.settings.password_reset_token_ttl_minutes) c.draws c.db h (m u refl) f in
      rw (p, k) refl

  pub request_email_verification-eq :
      (u : User) (c : Conn)
      → c.pending ≡ unchanged
      → consistent c.db ≡ true
      → Has u c.db.users
      → CanMail c.db c.draws
      → (request_email_verification u c).0 ≡ ok tt
  unfolding request_email_verification add_token commit hash_token
  request_email_verification-eq u c p h m f =
      let k =
        requested-consistent u purpose_email_verify
          (hours env.settings.email_verify_token_ttl_hours) c.draws c.db h m f in
      rw (p, k) refl
