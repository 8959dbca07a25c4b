-- ===== src/Auth/Http.antt =====
-- Requests to the auth API and its responses (src/auth/router.py, src/core/rate_limit.py): the parts
-- that the handlers read and write.
use Prim.Native.String.{◌++◌ as str_append}
use text.Mathlib.Text.{◌==◌ as str_eq}
use hotspot_payment_gateway.Base.{
  ℕ, ◌*◌, String, Bool, true, Option, none, some, List, [], ◌∷◌, if◌then◌else◌,
}
use hotspot_payment_gateway.Base.Texts.{partition, is_empty}
use hotspot_payment_gateway.Runtime.{Env}
use hotspot_payment_gateway.Auth.Schemas.{UserResponse}

-- `response.set_cookie`
pub record Cookie : Type 0 where
  pub key : String
  pub value : String
  pub max_age : ℕ
  pub httponly : Bool
  pub secure : Bool
  pub samesite : String
  pub domain : Option String
  pub path : String

pub data CookieAction : Type 0 where
  set_cookie : Cookie → CookieAction
  -- with an empty value and no lifetime
  delete_cookie : Cookie → CookieAction

-- A response body; `J` is the type of access tokens.
pub data Body (J : Type 0) : Type 0 where
  no_body : Body J
  health_ok : Body J
  -- FastAPI's list of validation errors, and the server's plain text for an uncaught exception
  validation_errors internal_error : Body J
  detail : String → Body J
  user_body : UserResponse → Body J
  login_body : J → UserResponse → Body J
  refresh_body : J → Body J

pub record Response (J : Type 0) : Type 0 where
  pub status : ℕ
  pub body : Body J
  pub cookies : List CookieAction
  pub location : Option String

abbrev pub respond : {J : Type 0} → ℕ → Body J → Response J
respond status body = record { status = status; body = body; cookies = []; location = none }

-- `dict.get`
abbrev pub get_cookie : String → List (String × String) → Option String
get_cookie key [] = none
get_cookie key ((k, v) ∷ rest) = if str_eq k key then some v else get_cookie key rest

module _ ⦃env : Env⦄ where
  -- `_set_refresh_cookie`
  unfoldable pub refresh_cookie : String → CookieAction
  refresh_cookie raw_token = set_cookie (record {
    key = env.settings.refresh_cookie_name;
    value = raw_token;
    max_age = env.settings.refresh_token_ttl_days * 86400;
    httponly = true;
    secure = env.settings.refresh_cookie_secure;
    samesite = env.settings.refresh_cookie_samesite;
    domain = env.settings.refresh_cookie_domain;
    path = "/api/v1/auth";
  })

  -- `_clear_refresh_cookie`
  unfoldable pub cleared_refresh_cookie : CookieAction
  cleared_refresh_cookie = delete_cookie (record {
    key = env.settings.refresh_cookie_name;
    value = "";
    max_age = 0;
    httponly = true;
    secure = env.settings.refresh_cookie_secure;
    samesite = env.settings.refresh_cookie_samesite;
    domain = env.settings.refresh_cookie_domain;
    path = "/api/v1/auth";
  })

  -- `_read_refresh_cookie`
  unfoldable pub read_refresh_cookie : List (String × String) → Option String
  read_refresh_cookie cookies = get_cookie env.settings.refresh_cookie_name cookies

  abbrev query_separator : String → String
  query_separator url = elim (partition b'?' url) [ none ↦ "?" | some _ ↦ "&" ]

  -- `_frontend_redirect`: an empty error counts as none.
  unfoldable pub frontend_redirect : {J : Type 0} → Option String → Response J
  unfolding partition
  frontend_redirect error =
      let url = env.settings.frontend_oauth_callback_uri in
      let target : String = elim error [
        | none ↦ url
        | some e ↦
            if is_empty e
            then url
            else str_append url (str_append (query_separator url) (str_append "error=" e))
      ] in
      record { status = 302; body = no_body; cookies = []; location = some target }
