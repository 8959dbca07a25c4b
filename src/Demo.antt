-- ===== src/Demo.antt =====
-- A concrete runtime that meets the laws of `Env`, for the examples: tokens and identifiers are
-- counted, the clock moves one second with each read, hashes are tagged texts, and datetimes come
-- back without their zone, as from SQLite.
pub mod Flows
pub mod SessionExamples
pub mod MailExamples
pub mod AccountExamples
pub mod GoogleExamples
pub mod OutsideExamples
pub mod MigrationExamples
pub mod RefinementExamples
pub mod StackExamples
pub mod InterleavingExamples
pub mod RowExamples
use Prim.Native.String.{count, len, ◌++◌ as str_append}
use text.Mathlib.Text.{◌==◌ as str_eq}
use text.Mathlib.TextLemmas.{length-nil, length-cons}
use text.Mathlib.TextPositions.{eq_refl}
use hotspot_payment_gateway.Base.{
  not, ℕ, zero, suc, ◌+◌, ◌*◌, ◌≤◌, ◌<◌, String, ◌≡◌, refl, inl, Bool, ◌&&◌, Option, none, some,
  ltb, leb, true, ap, ◌∙◌, if◌then◌else◌, find, find-some, find-none, arith,
}
use hotspot_payment_gateway.Runtime.{Env, Claims, naive, aware, micros_per_second}
use hotspot_payment_gateway.Auth.Config.{default_config}

-- A text of `n` characters.
abbrev pub tally : ℕ → String
tally zero = ""
tally (suc n) = String.◌∷◌ "x" (tally n)

pub count-tally : (n : ℕ) → count (tally n) ≡ n
count-tally zero = length-nil
count-tally (suc n) = length-cons "x" (tally n) ∙ ap suc (count-tally n)

-- A token is the claims beside the key that signed them.
abbrev pub Signed : Type 0
Signed = Claims × String

abbrev pub decode : Signed → String → ℕ → Option Claims
decode (claims, signer) key t =
    if str_eq signer key && ltb t (claims.exp * micros_per_second) then some claims else none

pub decode_signed :
    (c : Claims) (key : String) (t : ℕ)
    → t < c.exp * micros_per_second
    → decode (c, key) key t ≡ some c
decode_signed c key t h = ground (arith, eq_refl key)

pub decode_unexpired :
    (s : Signed) (key : String) (t : ℕ) (c : Claims)
    → decode s key t ≡ some c
    → t < c.exp * micros_per_second
decode_unexpired (claims, signer) key t c h = ground arith

abbrev pub now_at : ℕ → ℕ
now_at n = n * micros_per_second

pub now_at_mono : (m n : ℕ) → m ≤ n → now_at m ≤ now_at n
now_at_mono m n h = omega arith

abbrev pub demo : Env
demo = record {
  settings = default_config "secret";
  scalar = find;
  scalar-some = find-some;
  scalar-none = find-none;
  stored = naive;
  stored_cases = λ t. inl refl;
  now = now_at;
  server_now = λ n. aware (now_at n);
  uuid7 = λ n. n + 100;
  token_urlsafe = λ bytes n. tally n;
  gensalt = tally;
  now_mono = now_at_mono;
  sha256_hexdigest = λ raw. str_append "sha:" raw;
  hashpw = λ password salt. str_append "bcrypt:" password;
  checkpw =
      λ password hash. not (ltb 72 (len password)) && str_eq (str_append "bcrypt:" password) hash;
  checkpw-hashpw = λ password salt h. rw (h, eq_refl (str_append "bcrypt:" password)) refl;
  checkpw_short = λ password hash h. ground arith;
  uuid_str = tally;
  parse_uuid = λ s. some (count s);
  parse_uuid-uuid_str = λ u. ap some (count-tally u);
  Jwt = Signed;
  jwt_encode = λ c key algorithm. (c, key);
  jwt_decode = λ token key algorithm t. decode token key t;
  jwt_decode-jwt_encode = λ c key algorithm t _ h. decode_signed c key t h;
  jwt_decode_unexpired = λ token key algorithm t c h. decode_unexpired token key t c h;
  lower = λ s. s;
  lower_idem = λ s. refl;
  is_decimal = λ c. leb 48 c && leb c 57;
  is_decimal_ascii = λ c _. refl;
  validate_email = some;
  validate_email_idem = λ s t h. refl;
  admits = λ limit n. true;
  remote_address = λ n. "127.0.0.1";
  authorize_redirect = λ uri n. uri;
}
