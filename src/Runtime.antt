-- ===== src/Runtime.antt =====
-- What the program calls and this repository does not implement: the database driver's choice of a
-- row, bcrypt, SHA-256, the random source, the clock, UUIDs, PyJWT and Python's Unicode tables.
-- `Env` has them as fields, with the behaviour that their documentation promises, and the settings
-- (auth/config.py) that the program reads. A read of the clock or of a random source is numbered:
-- the field takes the number of the read.
pub mod Lookup
use Prim.Native.String.{len}
use hotspot_payment_gateway.Base.{
  ltb, ℕ, ◌*◌, ◌≤◌, ◌<◌, String, ◌≡◌, ◌⊎◌, Bool, true, false, Option, none, some, List, Has, All,
  leb, ◌&&◌,
}
use hotspot_payment_gateway.Auth.Config.{AuthConfig}

-- A Python `datetime` as microseconds since the epoch in UTC; `naive` has no `tzinfo`.
pub data DateTime : Type 0 where
  naive aware : ℕ → DateTime

-- The claims of a JWT that the program reads or writes; `iat` and `exp` are in seconds.
pub record Claims : Type 0 where
  pub sub : Option String
  pub iat : ℕ
  pub exp : ℕ
  pub typ : Option String

abbrev pub micros_per_second : ℕ
micros_per_second = 1000000

pub record Env : Type 1 where
  pub settings : AuthConfig
  -- `session.scalar(select(…).where(p))`: one of the rows that pass the test, if there is any.
  pub scalar : {R : Type 0} → (R → Bool) → List R → Option R
  pub scalar-some :
      {R : Type 0} (p : R → Bool) (rows : List R) (r : R)
      → scalar p rows ≡ some r
      → Has r rows × (p r ≡ true)
  pub scalar-none :
      {R : Type 0} (p : R → Bool) (rows : List R)
      → scalar p rows ≡ none
      → All (λ r. p r ≡ false) rows
  -- A timezone-aware value as the database gives it back: PostgreSQL keeps the zone, SQLite drops it.
  pub stored : ℕ → DateTime
  pub stored_cases : (t : ℕ) → (stored t ≡ naive t) ⊎ (stored t ≡ aware t)
  -- `datetime.now(UTC)`, the server's `now()`, `uuid7()`, `secrets.token_urlsafe(n)`, `bcrypt.gensalt()`
  pub now : ℕ → ℕ
  pub server_now : ℕ → DateTime
  pub uuid7 : ℕ → ℕ
  pub token_urlsafe : ℕ → ℕ → String
  pub gensalt : ℕ → String
  pub now_mono : (m n : ℕ) → m ≤ n → now m ≤ now n
  -- `hashlib.sha256(raw.encode("utf-8")).hexdigest()`
  pub sha256_hexdigest : String → String
  -- bcrypt, which refuses passwords of more than 72 bytes
  pub hashpw : String → String → String
  pub checkpw : String → String → Bool
  pub checkpw-hashpw :
      (password salt : String)
      → ltb 72 (len password) ≡ false
      → checkpw password (hashpw password salt) ≡ true
  pub checkpw_short :
      (password hash : String) → checkpw password hash ≡ true → ltb 72 (len password) ≡ false
  -- `str(uuid)` and `UUID(text)`, which raises on other texts.
  pub uuid_str : ℕ → String
  pub parse_uuid : String → Option ℕ
  pub parse_uuid-uuid_str : (u : ℕ) → parse_uuid (uuid_str u) ≡ some u
  -- A signed token, of which the program reads nothing but by `jwt.decode`. `jwt.encode(claims, key,
  -- algorithm)`; `jwt.decode(token, key, [algorithm])` at a time in microseconds, `none` where it
  -- raises `InvalidTokenError`.
  pub Jwt : Type 0
  pub jwt_encode : Claims → String → String → Jwt
  pub jwt_decode : Jwt → String → String → ℕ → Option Claims
  pub jwt_decode-jwt_encode :
      (c : Claims) (key algorithm : String) (t : ℕ)
      → c.iat * micros_per_second ≤ t
      → t < c.exp * micros_per_second
      → jwt_decode (jwt_encode c key algorithm) key algorithm t ≡ some c
  pub jwt_decode_unexpired :
      (token : Jwt) (key algorithm : String) (t : ℕ) (c : Claims)
      → jwt_decode token key algorithm t ≡ some c
      → t < c.exp * micros_per_second
  -- `str.lower`, over Python's Unicode tables.
  pub lower : String → String
  pub lower_idem : (s : String) → lower (lower s) ≡ lower s
  -- Whether `\d` of a text pattern matches the code point; in ASCII these are the digits.
  pub is_decimal : ℕ → Bool
  pub is_decimal_ascii : (c : ℕ) → c < 128 → is_decimal c ≡ (leb 48 c && leb c 57)
  -- Pydantic's `EmailStr`: the normalised address, or `none` where it refuses the text.
  pub validate_email : String → Option String
  pub validate_email_idem : (s t : String) → validate_email s ≡ some t → validate_email t ≡ some t
  -- Whether slowapi lets the request pass a limit such as "5/minute;30/hour".
  pub admits : String → ℕ → Bool
  -- `get_remote_address(request)`
  pub remote_address : ℕ → String
  -- Authlib's `authorize_redirect(request, redirect_uri)`: where the browser is sent.
  pub authorize_redirect : String → ℕ → String
