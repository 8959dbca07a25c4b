-- ===== src/Demo/Flows.antt =====
-- States that the service functions reach on the demo runtime, one request after the other.
use hotspot_payment_gateway.Base.{◌≡◌, Bool, List, Has, inl, refl, true, false, none, [], ◌∷◌, map}
use hotspot_payment_gateway.Demo.{demo, tally}
use hotspot_payment_gateway.Metadata.Models.{user_model}
use hotspot_payment_gateway.Auth.Models.{User, RefreshToken, VerificationToken, Tables, consistent}
use hotspot_payment_gateway.Base.Texts.{strip}
use hotspot_payment_gateway.Auth.Utils.{validate_password_strength, normalize_email}
use hotspot_payment_gateway.Auth.Google.{link_or_create_google_user}
use hotspot_payment_gateway.Auth.Schemas.{SignupRequest, validate_reset_password}
use hotspot_payment_gateway.Auth.Session.{
  Conn, M, raised, unchanged, commit, with_session, email_conflict_error,
}
use hotspot_payment_gateway.Auth.Accounts.{create_user, authenticate}
use hotspot_payment_gateway.Auth.Refresh.{
  issue_refresh_token, rotate_refresh_token, revoke_refresh_token,
}
use hotspot_payment_gateway.Auth.Mail.{
  request_email_verification, verify_email, request_password_reset, reset_password,
}
use hotspot_payment_gateway.Auth.Tokens.{encode_access_token, decode_access_token}
use hotspot_payment_gateway.Auth.Dependencies.{get_current_user}
use hotspot_payment_gateway.Auth.Router
use hotspot_payment_gateway.App.{serve, serve_all}

abbrev pub empty_tables : Tables
empty_tables = record {
  tenants = 1 ∷ [];
  users = [];
  auth_providers = [];
  refresh_tokens = [];
  verification_tokens = [];
}

abbrev pub start : Conn
start = record { db = empty_tables; pending = unchanged; draws = 0; tasks = []; log = [] }

abbrev pub jane : SignupRequest
jane = record {
  first_name = "Jane";
  last_name = none;
  email = "jane@example.com";
  password = "StrongPassword1!";
}

-- The state after a request.
abbrev pub after {ℓ} : {A : Type ℓ} → M A → Conn → Conn
after m c = (with_session m c).1

abbrev pub signed_up : Conn
signed_up = after (create_user ⦃env = demo⦄ jane) start

-- The row of the first user of a state; the default is never met.
abbrev pub first_user : Conn → User
first_user c = elim c.db.users [
  | [] ↦ record {
    id = 0;
    tenant_id = 0;
    first_name = none;
    last_name = none;
    email = "";
    password_hash = none;
    is_email_verified = false;
    profile_photo_url = none;
    created_at = demo.stored 0;
    updated_at = demo.stored 0;
  }
  | u ∷ _ ↦ u
]

-- The first session of a state, likewise.
abbrev pub session_row : List RefreshToken → RefreshToken
session_row [] = record {
  id = 0;
  user_id = 0;
  token_hash = "";
  created_at = demo.stored 0;
  expires_at = demo.stored 0;
  is_revoked = true;
}
session_row (r ∷ rows) = r

abbrev pub first_session : Conn → RefreshToken
first_session c = session_row c.db.refresh_tokens

abbrev pub is_cons : List RefreshToken → Bool
is_cons [] = false
is_cons (r ∷ rows) = true

pub session_row-Has : (rows : List RefreshToken) → is_cons rows ≡ true → Has (session_row rows) rows
session_row-Has [] h = cc
session_row-Has (r ∷ rows) h = inl refl

-- The first token that was mailed.
abbrev pub first_token : Conn → VerificationToken
first_token c = elim c.db.verification_tokens [
  | [] ↦ record {
    id = 0;
    user_id = 0;
    purpose = "";
    token_hash = "";
    expires_at = demo.stored 0;
    used_at = none;
    created_at = demo.stored 0;
  }
  | v ∷ _ ↦ v
]

abbrev pub mailed : Conn
mailed = after (request_email_verification ⦃env = demo⦄ (first_user signed_up)) signed_up

-- The mail carries the token that was drawn at the fourth reading.
abbrev pub confirmed : Conn
confirmed = after (verify_email ⦃env = demo⦄ (tally 4)) mailed

abbrev pub logged_in : Conn
logged_in = after (issue_refresh_token ⦃env = demo⦄ (first_user confirmed)) confirmed

-- One line for all that the runs compute with.
unfoldable pub run : Unit {0}
unfolding create_user consistent commit with_session request_email_verification verify_email
    issue_refresh_token rotate_refresh_token revoke_refresh_token serve serve_all Router.refresh
    Router.logout Router.me Router.reset_password reset_password request_password_reset
    encode_access_token decode_access_token get_current_user authenticate validate_reset_password
    strip validate_password_strength link_or_create_google_user normalize_email user_model
run = tt

signup_twice :
    (with_session (create_user ⦃env = demo⦄ jane) signed_up).0
    ≡ raised (email_conflict_error "Email already registered")
unfolding run
signup_twice = refl

email_confirmed : map (λ (u : User). u.is_email_verified) confirmed.db.users ≡ true ∷ []
unfolding run
email_confirmed = refl

session_stored :
    map (λ (r : RefreshToken). r.token_hash) logged_in.db.refresh_tokens
    ≡ demo.sha256_hexdigest (tally 11) ∷ []
unfolding run
session_stored = refl

pub logged_in-Has : Has (first_session logged_in) logged_in.db.refresh_tokens
unfolding run
logged_in-Has = session_row-Has logged_in.db.refresh_tokens refl
