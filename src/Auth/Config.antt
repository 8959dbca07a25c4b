-- ===== src/Auth/Config.antt =====
-- src/auth/config.py
use hotspot_payment_gateway.Base.{ℕ, String, Bool, true, Option, none}

-- `AuthConfig`. Lifetimes are read from the environment and are taken as non-negative.
pub record AuthConfig : Type 0 where
  pub secret_key : String
  pub algorithm : String
  pub access_token_ttl_minutes : ℕ
  pub refresh_token_ttl_days : ℕ
  pub refresh_cookie_name : String
  pub refresh_cookie_secure : Bool
  pub refresh_cookie_samesite : String
  pub refresh_cookie_domain : Option String
  pub bcrypt_rounds : ℕ
  pub google_client_id : String
  pub google_client_secret : String
  pub google_redirect_uri : String
  pub frontend_oauth_callback_uri : String
  pub email_verify_token_ttl_hours : ℕ
  pub password_reset_token_ttl_minutes : ℕ
  pub frontend_verify_email_url : String
  pub frontend_reset_password_url : String

-- The defaults of `AuthConfig`; the secret key has none.
abbrev pub default_config : String → AuthConfig
default_config key = record {
  secret_key = key;
  algorithm = "HS256";
  access_token_ttl_minutes = 15;
  refresh_token_ttl_days = 30;
  refresh_cookie_name = "refresh_token";
  refresh_cookie_secure = true;
  refresh_cookie_samesite = "lax";
  refresh_cookie_domain = none;
  bcrypt_rounds = 12;
  google_client_id = "";
  google_client_secret = "";
  google_redirect_uri = "http://localhost:8000/api/v1/auth/google/callback";
  frontend_oauth_callback_uri = "http://localhost:3000/auth/callback";
  email_verify_token_ttl_hours = 24;
  password_reset_token_ttl_minutes = 30;
  frontend_verify_email_url = "http://localhost:3000/verify-email";
  frontend_reset_password_url = "http://localhost:3000/reset-password";
}
