-- ===== src/Auth/History/Operations.antt =====
-- Every operation of the service lets the rows evolve and keeps their constraints, whether it
-- returns or raises.
use hotspot_payment_gateway.Base.{ℕ, String, Option, none, some}
use hotspot_payment_gateway.Runtime.{Env}
use hotspot_payment_gateway.Auth.Models.{User, RefreshToken, VerificationToken}
use hotspot_payment_gateway.Auth.Schemas.{SignupRequest}
use hotspot_payment_gateway.Auth.Session.{Exn, Result, ok, raised, integrity_error}
use hotspot_payment_gateway.Auth.Accounts.{signup_outcome, create_user, login_outcome, authenticate}
use hotspot_payment_gateway.Auth.Refresh.{
  build_refresh_token, issue_refresh_token, check_refresh_token, verify_refresh_token,
  replace_token, read_rotation, rotate_refresh_token, revoke_refresh_token,
}
use hotspot_payment_gateway.Auth.Mail.{
  check_token, consume_token, add_token, request_email_verification, confirm, verify_email,
  replace_password, send_reset_token, request_password_reset, reset_password,
}
use hotspot_payment_gateway.Auth.History.Rules.{
  flush_user-Evolving, Evolving, evolving, is_past-Evolving, refresh_user-Evolving,
  get_user-Evolving, get_user_by_email-Evolving,
}
use hotspot_payment_gateway.Auth.History.SignIn.{link_or_create_google_user-Evolving}

module _ ⦃env : Env⦄ where
  signup_outcome-Evolving :
      (signup : SignupRequest) (id : ℕ) (r : Result (Unit {0}))
      → Evolving (signup_outcome signup id r)
  unfolding signup_outcome
  signup_outcome-Evolving signup id (ok _) = search (evolving, refresh_user-Evolving)
  signup_outcome-Evolving signup id (raised integrity_error) = search evolving
  signup_outcome-Evolving signup id (raised _) = search evolving

  pub create_user-Evolving : (signup : SignupRequest) → Evolving (create_user signup)
  unfolding create_user
  create_user-Evolving signup =
      search (evolving, flush_user-Evolving, signup_outcome-Evolving) depth 14

  login_outcome-Evolving :
      (email password : String) (o : Option (User × String))
      → Evolving (login_outcome email password o)
  unfolding login_outcome
  login_outcome-Evolving email password none = search evolving
  login_outcome-Evolving email password (some (user, hash)) = search evolving

  pub authenticate-Evolving : (email password : String) → Evolving (authenticate email password)
  unfolding authenticate
  authenticate-Evolving email password = search (evolving, login_outcome-Evolving)

  check_refresh_token-Evolving : (o : Option RefreshToken) → Evolving (check_refresh_token o)
  unfolding check_refresh_token
  check_refresh_token-Evolving none = search evolving
  check_refresh_token-Evolving (some row) = search (evolving, is_past-Evolving)

  pub verify_refresh_token-Evolving : (raw : String) → Evolving (verify_refresh_token raw)
  unfolding verify_refresh_token
  verify_refresh_token-Evolving raw = search (evolving, check_refresh_token-Evolving)

  build_refresh_token-Evolving : (user_id : ℕ) → Evolving (build_refresh_token user_id)
  unfolding build_refresh_token
  build_refresh_token-Evolving user_id = search evolving depth 8

  pub issue_refresh_token-Evolving : (user : User) → Evolving (issue_refresh_token user)
  unfolding issue_refresh_token
  issue_refresh_token-Evolving user = search (evolving, build_refresh_token-Evolving) depth 8

  pub replace_token-Evolving :
      (old : RefreshToken) (user : User) → Evolving (replace_token old user)
  unfolding replace_token
  replace_token-Evolving old user = search (evolving, build_refresh_token-Evolving) depth 12

  pub read_rotation-Evolving : (raw : String) → Evolving (read_rotation raw)
  unfolding read_rotation
  read_rotation-Evolving raw =
      search (evolving, verify_refresh_token-Evolving, get_user-Evolving) depth 8

  pub rotate_refresh_token-Evolving : (raw : String) → Evolving (rotate_refresh_token raw)
  unfolding rotate_refresh_token
  rotate_refresh_token-Evolving raw =
      search (evolving, verify_refresh_token-Evolving, get_user-Evolving, replace_token-Evolving)
        depth 8

  pub revoke_refresh_token-Evolving : (raw : String) → Evolving (revoke_refresh_token raw)
  unfolding revoke_refresh_token
  revoke_refresh_token-Evolving raw = search evolving

  check_token-Evolving :
      (error_cls : String → Exn) (o : Option VerificationToken) → Evolving (check_token error_cls o)
  unfolding check_token
  check_token-Evolving error_cls none = search evolving
  check_token-Evolving error_cls (some token) = search (evolving, is_past-Evolving)

  pub consume_token-Evolving :
      (raw purpose : String) (error_cls : String → Exn)
      → Evolving (consume_token raw purpose error_cls)
  unfolding consume_token
  consume_token-Evolving raw purpose error_cls = search (evolving, check_token-Evolving)

  add_token-Evolving :
      (id : ℕ) (purpose : String) (lifetime : ℕ) → Evolving (add_token id purpose lifetime)
  unfolding add_token
  add_token-Evolving id purpose lifetime = search evolving depth 12

  pub request_email_verification-Evolving : (u : User) → Evolving (request_email_verification u)
  unfolding request_email_verification
  request_email_verification-Evolving u = search (evolving, add_token-Evolving) depth 8

  pub confirm-Evolving : (token : VerificationToken) (u : User) → Evolving (confirm token u)
  unfolding confirm
  confirm-Evolving token u = search (evolving, refresh_user-Evolving) depth 10

  pub verify_email-Evolving : (raw : String) → Evolving (verify_email raw)
  unfolding verify_email
  verify_email-Evolving raw =
      search (evolving, consume_token-Evolving, get_user-Evolving, confirm-Evolving) depth 8

  send_reset_token-Evolving : (o : Option User) → Evolving (send_reset_token o)
  unfolding send_reset_token
  send_reset_token-Evolving none = search evolving
  send_reset_token-Evolving (some u) = search (evolving, add_token-Evolving) depth 8

  pub request_password_reset-Evolving : (email : String) → Evolving (request_password_reset email)
  unfolding request_password_reset
  request_password_reset-Evolving email =
      search (evolving, get_user_by_email-Evolving, send_reset_token-Evolving)

  pub replace_password-Evolving :
      (new_password : String) (token : VerificationToken) (u : User)
      → Evolving (replace_password new_password token u)
  unfolding replace_password
  replace_password-Evolving new_password token u = search evolving depth 12

  pub reset_password-Evolving :
      (raw new_password : String) → Evolving (reset_password raw new_password)
  unfolding reset_password
  reset_password-Evolving raw new_password =
      search (evolving, consume_token-Evolving, get_user-Evolving, replace_password-Evolving) depth
        8

pub ruleset service_evolving = (
  evolving, get_user-Evolving, get_user_by_email-Evolving, create_user-Evolving,
  authenticate-Evolving, issue_refresh_token-Evolving, rotate_refresh_token-Evolving,
  revoke_refresh_token-Evolving, link_or_create_google_user-Evolving,
  request_email_verification-Evolving, verify_email-Evolving, request_password_reset-Evolving,
  reset_password-Evolving,
)
