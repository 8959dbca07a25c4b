-- ===== src/Auth/Mail/Reads.antt =====
-- `verify_email` and `reset_password` as the reads they begin with and the writes that follow.
use hotspot_payment_gateway.Base.{String, ◌≡◌, refl, Option, none, some}
use hotspot_payment_gateway.Runtime.{Env}
use hotspot_payment_gateway.Auth.Models.{User, VerificationToken}
use hotspot_payment_gateway.Auth.Session.{
  M, Conn, Exn, Result, ok, raised, pure, continue, ◌>>=◌, or_raise,
  invalid_verification_token_error, invalid_password_reset_token_error,
}
use hotspot_payment_gateway.Auth.Accounts.{get_user}
use hotspot_payment_gateway.Auth.Mail.{
  purpose_email_verify, purpose_password_reset, consume_token, confirm, verify_email,
  replace_password, reset_password,
}

module _ {A U B : Type 0} (e : Exn) (f : A → M (Option U)) (k : A → U → M B) where
  found_split :
      (a : A) (r : Result (Option U)) (c : Conn)
      → continue r (λ o. or_raise o e >>= k a) c
        ≡ (continue r (λ o. or_raise o e >>= λ u. pure (a, u)) >>= λ (p : A × U). k p.0 p.1) c
  found_split a (raised x) c = refl
  found_split a (ok none) c = refl
  found_split a (ok (some u)) c = refl

  -- A run that looks something up, then its owner, and goes on with both.
  lookup_split :
      (r : Result A) (c : Conn)
      → continue r (λ a. f a >>= λ o. or_raise o e >>= k a) c
        ≡ (continue r (λ a. f a >>= λ o. or_raise o e >>= λ u. pure (a, u)) >>= λ (p : A × U).
              k p.0 p.1)
            c
  lookup_split (raised x) c = refl
  lookup_split (ok a) c = found_split a (f a c).0 (f a c).1

module _ ⦃env : Env⦄ where
  -- The reads of `verify_email`, up to the check of the user.
  unfoldable pub read_verification : String → M (VerificationToken × User)
  unfolding consume_token get_user
  read_verification raw_token = do
    token ← consume_token raw_token purpose_email_verify invalid_verification_token_error
    found ← get_user token.user_id
    user ← or_raise found (invalid_verification_token_error "Account no longer exists")
    pure (token, user)

  -- The reads of `reset_password`, likewise.
  unfoldable pub read_reset : String → M (VerificationToken × User)
  unfolding consume_token get_user
  read_reset raw_token = do
    token ← consume_token raw_token purpose_password_reset invalid_password_reset_token_error
    found ← get_user token.user_id
    user ← or_raise found (invalid_password_reset_token_error "Account no longer exists")
    pure (token, user)

  verification_split :
      (raw : String) (c : Conn)
      → verify_email raw c
        ≡ (read_verification raw >>= λ (p : VerificationToken × User). confirm p.0 p.1) c
  unfolding verify_email read_verification
  verification_split raw c =
      let (r, c') = consume_token raw purpose_email_verify invalid_verification_token_error c in
      lookup_split (invalid_verification_token_error "Account no longer exists")
        (λ token. get_user token.user_id) confirm r c'

  reset_split :
      (raw new_password : String) (c : Conn)
      → reset_password raw new_password c
        ≡ (read_reset raw >>= λ (p : VerificationToken × User).
              replace_password new_password p.0 p.1)
            c
  unfolding reset_password read_reset
  reset_split raw new_password c =
      let (r, c') = consume_token raw purpose_password_reset invalid_password_reset_token_error c in
      lookup_split (invalid_password_reset_token_error "Account no longer exists")
        (λ token. get_user token.user_id) (replace_password new_password) r c'
