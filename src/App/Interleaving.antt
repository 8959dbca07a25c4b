-- ===== src/App/Interleaving.antt =====
-- Requests of src/main.py that run at the same time. `rotate_refresh_token`, `verify_email` and
-- `reset_password` of src/auth/service.py read a token and its user without a lock and write
-- afterwards, and PostgreSQL shows a read what is committed at the time, so any other request can
-- come between the two.
pub mod Evolving
pub mod Spent
pub mod Verified
pub mod Resets
use text.Mathlib.Text.{◌==◌ as str_eq}
use hotspot_payment_gateway.Base.{
  ℕ, zero, suc, ◌+◌, String, Bool, false, Option, none, some, List, [], ◌∷◌, if◌then◌else◌,
}
use hotspot_payment_gateway.Runtime.{Env}
use hotspot_payment_gateway.Auth.Models.{User, RefreshToken, VerificationToken}
use hotspot_payment_gateway.Auth.Session.{M, Conn, Result, ok, raised, pure, ◌>>=◌, with_session}
use hotspot_payment_gateway.Auth.Refresh.{read_rotation, replace_token}
use hotspot_payment_gateway.Auth.Mail.{confirm, replace_password}
use hotspot_payment_gateway.Auth.Mail.Reads.{read_verification, read_reset}
use hotspot_payment_gateway.App.{Request, serve}

-- What a raw token is good for once.
pub data Ticket : Type 0 where
  session verification reset : String → Ticket

abbrev pub same_ticket : Ticket → Ticket → Bool
same_ticket (session x) (session y) = str_eq x y
same_ticket (verification x) (verification y) = str_eq x y
same_ticket (reset x) (reset y) = str_eq x y
same_ticket _ _ = false

-- A call of the service with a raw token; a reset has the new password too.
pub data Job : Type 0 where
  rotate verify : String → Job
  replace : String → String → Job

abbrev pub ticket : Job → Ticket
ticket (rotate raw) = session raw
ticket (verify raw) = verification raw
ticket (replace raw new_password) = reset raw

-- What a call has read when it goes on to write.
pub data Reading : Type 0 where
  rotation : RefreshToken → User → Reading
  confirmation : VerificationToken → User → Reading
  replacement : String → VerificationToken → User → Reading

-- The calls that have read and not written yet, and the tickets of those that succeeded, latest
-- first.
pub record Server : Type 0 where
  pub conn : Conn
  pub under_way : List (Ticket × Reading)
  pub succeeded : List Ticket

pub data Step (J : Type 0) : Type 0 where
  -- a call reads
  begin : Job → Step J
  -- the n-th call under way writes
  finish : ℕ → Step J
  -- a request runs alone
  whole : Request J → Step J

-- The n-th item, and the others.
abbrev pub taken : {A : Type 0} → ℕ → List A → Option (A × List A)
taken n [] = none
taken zero (x ∷ xs) = some (x, xs)
taken (suc n) (x ∷ xs) = elim (taken n xs) [ none ↦ none | some (y, ys) ↦ some (y, x ∷ ys) ]

abbrev pub point : Bool → ℕ
point b = if b then 1 else 0

-- The calls with a ticket that succeeded or may still.
abbrev pub count_succeeded : Ticket → List Ticket → ℕ
count_succeeded t [] = 0
count_succeeded t (x ∷ xs) = point (same_ticket x t) + count_succeeded t xs

abbrev pub count_under_way : Ticket → List (Ticket × Reading) → ℕ
count_under_way t [] = 0
count_under_way t ((x, r) ∷ xs) = point (same_ticket x t) + count_under_way t xs

-- A read that is refused ends the call.
abbrev pub begun : Ticket → Result Reading → Server → Server
begun t (ok r) s = record s { under_way = (t, r) ∷ s.under_way }
begun t (raised e) s = s

abbrev pub finished : Ticket → Result (Unit {0}) → Server → Server
finished t (ok _) s = record s { succeeded = t ∷ s.succeeded }
finished t (raised e) s = s

module _ ⦃env : Env⦄ where
  unfoldable pub read_job : Job → M Reading
  unfolding read_rotation read_verification read_reset
  read_job (rotate raw) = read_rotation raw >>= λ (p : RefreshToken × User). pure (rotation p.0 p.1)
  read_job (verify raw) =
      read_verification raw >>= λ (p : VerificationToken × User). pure (confirmation p.0 p.1)
  read_job (replace raw new_password) =
      read_reset raw >>= λ (p : VerificationToken × User). pure (replacement new_password p.0 p.1)

  unfoldable pub write_job : Reading → M (Unit {0})
  unfolding replace_token confirm replace_password
  write_job (rotation old user) = replace_token old user >>= λ _. pure tt
  write_job (confirmation token user) = confirm token user >>= λ _. pure tt
  write_job (replacement new_password token user) = replace_password new_password token user

  abbrev pub begin_job : Job → Server → Server
  begin_job job s =
      let (r, c) = with_session (read_job job) s.conn in
      begun (ticket job) r (record s { conn = c })

  abbrev pub finish_job : Option ((Ticket × Reading) × List (Ticket × Reading)) → Server → Server
  finish_job none s = s
  finish_job (some ((t, reading), others)) s =
      let (r, c) = with_session (write_job reading) s.conn in
      finished t r (record s { conn = c; under_way = others })

  abbrev pub step : Step env.Jwt → Server → Server
  step (begin job) s = begin_job job s
  step (finish n) s = finish_job (taken n s.under_way) s
  step (whole request) s = record s { conn = (serve request s.conn).1 }

  -- Steps in the order in which they happen.
  unfoldable pub run_steps : List (Step env.Jwt) → Server → Server
  run_steps [] s = s
  run_steps (event ∷ rest) s = run_steps rest (step event s)
