-- ===== src/Auth/Session.antt =====
-- The exceptions (auth/exceptions.py), and code that runs against a database session
-- (src/database.py) and may raise.
-- A session sees the committed rows with its own changes on top; `commit` writes these in one step
-- if every constraint holds and raises otherwise, and what is not committed is lost with the
-- session.
pub mod Steps
pub mod Within
pub mod Raises
use hotspot_payment_gateway.Base.{
  ℕ, ◌+◌, String, Bool, Option, none, some, List, [], ◌∷◌, ◌++◌, if◌then◌else◌,
}
use hotspot_payment_gateway.Runtime.{Env}
use hotspot_payment_gateway.Auth.Models.{
  User, AuthProvider, RefreshToken, VerificationToken, Tables, consistent,
}

pub data Exn : Type 0 where
  email_conflict_error : String → Exn
  invalid_password_reset_token_error : String → Exn
  invalid_verification_token_error : String → Exn
  account_locked_error : String → Exn
  invalid_credentials_error : String → Exn
  email_not_verified_error : String → Exn
  invalid_refresh_token_error : String → Exn
  -- a message and the HTTP status
  google_oauth_error : String → ℕ → Exn
  -- SQLAlchemy's `IntegrityError`, and its `InvalidRequestError` from `refresh`
  integrity_error : Exn
  invalid_request_error : Exn
  -- Python's `TypeError`, PyJWT's `InvalidTokenError`
  type_error : Exn
  -- the `ValueError` of bcrypt, SQLAlchemy's `DBAPIError` for a text that is too long
  value_error : Exn
  data_error : Exn
  invalid_token_error : Exn
  -- FastAPI's `HTTPException`, and Pydantic's `ValidationError`
  http_exception : ℕ → String → Exn
  validation_error : Exn
  -- slowapi's `RateLimitExceeded`: the path and the limit
  rate_limit_exceeded : String → String → Exn

pub data Result {ℓ} (A : Type ℓ) : Type ℓ where
  ok : A → Result A
  raised : Exn → Result A

-- What a log call records: text, or a UUID turned to text.
pub data Detail : Type 0 where
  str : String → Detail
  uuid : ℕ → Detail

pub record Event : Type 0 where
  pub name : String
  pub details : List (String × Detail)

-- `background_tasks.add_task(_safe_send_email, to, subject, body)`
pub record Mail : Type 0 where
  pub to : String
  pub subject : String
  pub body : String

pub record Conn : Type 0 where
  -- the committed rows
  pub db : Tables
  -- the changes of the open session
  pub pending : Tables → Tables
  -- how often the clock or a random source was read
  pub draws : ℕ
  pub tasks : List Mail
  pub log : List Event

abbrev pub unchanged : Tables → Tables
unchanged t = t

-- What a query of the session reads.
abbrev pub view : Conn → Tables
view c = c.pending c.db

abbrev pub M {ℓ} : Type ℓ → Type ℓ
M A = Conn → Result A × Conn

module _ {ℓ} {A : Type ℓ} where
  abbrev pub pure : A → M A
  pure a c = (ok a, c)

  abbrev pub raise : Exn → M A
  raise e c = (raised e, c)

  abbrev pub or_raise : Option A → Exn → M A
  or_raise none e = raise e
  or_raise (some a) e = pure a

  -- `try`: the exception becomes a value that the handler looks at.
  abbrev pub attempt : M A → M (Result A)
  attempt m c = let (r, c') = m c in (ok r, c')

  -- `try: … except …: raise …`: the exception is turned into another one.
  abbrev pub rethrow : (Exn → Exn) → M A → M A
  rethrow handle m c =
      let (r, c') = m c in elim r [ ok a ↦ (ok a, c') | raised e ↦ (raised (handle e), c') ]

abbrev pub continue {ℓ κ} : {A : Type ℓ} {B : Type κ} → Result A → (A → M B) → M B
continue (ok a) f c = f a c
continue (raised e) f c = (raised e, c)

infixl 5 ◌>>=◌ ◌>>◌
abbrev pub ◌>>=◌ {ℓ κ} : {A : Type ℓ} {B : Type κ} → M A → (A → M B) → M B
◌>>=◌ m f c = let (r, c') = m c in continue r f c'

abbrev pub ◌>>◌ {ℓ} : {B : Type ℓ} → M (Unit {0}) → M B → M B
m >> k = m >>= λ _. k

abbrev pub change : (Tables → Tables) → M (Unit {0})
change f c = (ok tt, record c { pending = λ t. f (c.pending t) })

-- The test of the unique and foreign keys; the lengths of a new user are those of `flush_user`.
unfoldable pub commit : M (Unit {0})
commit c =
    if consistent (view c)
    then (ok tt, record c { db = view c; pending = unchanged })
    else (raised integrity_error, c)

abbrev pub rollback : M (Unit {0})
rollback c = (ok tt, record c { pending = unchanged })

-- The connection with a session that has changed nothing.
abbrev pub opened : Conn → Conn
opened c = record c { pending = unchanged }

-- `get_db`: a session for one request; closing it drops what was not committed.
unfoldable pub with_session {ℓ} : {A : Type ℓ} → M A → M A
with_session m c = let (r, c') = m (opened c) in (r, opened c')

abbrev pub log_event : String → List (String × Detail) → M (Unit {0})
log_event name details c =
    (ok tt, record c { log = c.log ++ record { name = name; details = details } ∷ [] })

abbrev pub add_task : Mail → M (Unit {0})
add_task m c = (ok tt, record c { tasks = c.tasks ++ m ∷ [] })

-- A read of the clock or of a random source.
abbrev pub draw {ℓ} : {A : Type ℓ} → (ℕ → A) → M A
draw f c = (ok (f c.draws), record c { draws = c.draws + 1 })

abbrev pub add_user : User → M (Unit {0})
add_user u = change (λ t. record t { users = t.users ++ u ∷ [] })

abbrev pub add_provider : AuthProvider → M (Unit {0})
add_provider p = change (λ t. record t { auth_providers = t.auth_providers ++ p ∷ [] })

abbrev pub add_refresh_token : RefreshToken → M (Unit {0})
add_refresh_token r = change (λ t. record t { refresh_tokens = t.refresh_tokens ++ r ∷ [] })

abbrev pub add_verification_token : VerificationToken → M (Unit {0})
add_verification_token v =
    change (λ t. record t { verification_tokens = t.verification_tokens ++ v ∷ [] })

module _ ⦃env : Env⦄ where
  abbrev pub select_user : (User → Bool) → M (Option User)
  select_user p c = (ok (env.scalar p (view c).users), c)

  abbrev pub select_provider : (AuthProvider → Bool) → M (Option AuthProvider)
  select_provider p c = (ok (env.scalar p (view c).auth_providers), c)

  abbrev pub select_refresh_token : (RefreshToken → Bool) → M (Option RefreshToken)
  select_refresh_token p c = (ok (env.scalar p (view c).refresh_tokens), c)

  abbrev pub select_verification_token : (VerificationToken → Bool) → M (Option VerificationToken)
  select_verification_token p c = (ok (env.scalar p (view c).verification_tokens), c)
