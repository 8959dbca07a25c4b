-- ===== src/App/Interleaving/Evolving.antt =====
-- Requests that run at the same time let the rows evolve as they do one by one.
use hotspot_payment_gateway.Base.{◌≡◌, refl, true, String, Option, none, some, List, [], ◌∷◌}
use hotspot_payment_gateway.Runtime.{Env}
use hotspot_payment_gateway.Auth.Models.{consistent}
use hotspot_payment_gateway.Auth.Session.{M, Result, ok, raised, with_session}
use hotspot_payment_gateway.Auth.Session.Within
use hotspot_payment_gateway.Auth.Mail.Reads.{read_verification, read_reset}
use hotspot_payment_gateway.Auth.History.{Evolves, Evolves-order, Evolves-refl}
use hotspot_payment_gateway.Auth.History.Rules.{Evolving, evolving, get_user-Evolving}
use hotspot_payment_gateway.Auth.History.Operations.{
  read_rotation-Evolving, replace_token-Evolving, consume_token-Evolving, confirm-Evolving,
  replace_password-Evolving,
}
use hotspot_payment_gateway.App.History.{serve-Evolves}
use hotspot_payment_gateway.App.Interleaving.{
  Ticket, ticket, Job, rotate, verify, replace, Reading, rotation, confirmation, replacement,
  Server, Step, begin, finish, whole, taken, begun, finished, read_job, write_job, begin_job,
  finish_job, step, run_steps,
}

-- The rows of the one server may become those of the other.
abbrev pub MayBecome : Server → Server → Type 0
MayBecome s s' =
    Evolves s.conn.db s'.conn.db × (consistent s.conn.db ≡ true → consistent s'.conn.db ≡ true)

conn-begun : (t : Ticket) (r : Result Reading) (s : Server) → (begun t r s).conn ≡ s.conn
conn-begun t (ok p) s = refl
conn-begun t (raised e) s = refl

conn-finished : (t : Ticket) (r : Result (Unit {0})) (s : Server) → (finished t r s).conn ≡ s.conn
conn-finished t (ok p) s = refl
conn-finished t (raised e) s = refl

module _ ⦃env : Env⦄ where
  read_verification-Evolving : (raw : String) → Evolving (read_verification raw)
  unfolding read_verification
  read_verification-Evolving raw =
      search (evolving, consume_token-Evolving, get_user-Evolving) depth 8

  read_reset-Evolving : (raw : String) → Evolving (read_reset raw)
  unfolding read_reset
  read_reset-Evolving raw = search (evolving, consume_token-Evolving, get_user-Evolving) depth 8

  read_job-Evolving : (job : Job) → Evolving (read_job job)
  unfolding read_job
  read_job-Evolving (rotate raw) = search (evolving, read_rotation-Evolving)
  read_job-Evolving (verify raw) = search (evolving, read_verification-Evolving)
  read_job-Evolving (replace raw new_password) = search (evolving, read_reset-Evolving)

  write_job-Evolving : (r : Reading) → Evolving (write_job r)
  unfolding write_job
  write_job-Evolving (rotation old user) = search (evolving, replace_token-Evolving)
  write_job-Evolving (confirmation token user) = search (evolving, confirm-Evolving)
  write_job-Evolving (replacement new_password token user) =
      replace_password-Evolving new_password token user

  module _ {A : Type 0} (m : M A) (h : Evolving m) (s s' : Server) where
    -- A server after a session.
    session-MayBecome : s'.conn ≡ (with_session m s.conn).1 → MayBecome s s'
    session-MayBecome e =
        let a = Within.Within-with_session Evolves Evolves-order m h s.conn in
        rw e (a.rows, a.valid)

  finish_job-MayBecome :
      (o : Option ((Ticket × Reading) × List (Ticket × Reading))) (s : Server)
      → MayBecome s (finish_job o s)
  finish_job-MayBecome none s = (Evolves-refl s.conn.db, λ h. h)
  finish_job-MayBecome (some ((t, reading), others)) s =
      let (r, c) = with_session (write_job reading) s.conn in
      session-MayBecome (write_job reading) (write_job-Evolving reading) s
        (finish_job (some ((t, reading), others)) s)
        (conn-finished t r (record s { conn = c; under_way = others }))

  pub step-MayBecome : (event : Step env.Jwt) (s : Server) → MayBecome s (step event s)
  step-MayBecome (begin job) s =
      let (r, c) = with_session (read_job job) s.conn in
      session-MayBecome (read_job job) (read_job-Evolving job) s (begin_job job s)
        (conn-begun (ticket job) r (record s { conn = c }))
  step-MayBecome (finish n) s = finish_job-MayBecome (taken n s.under_way) s
  step-MayBecome (whole request) s = serve-Evolves request s.conn

  -- Whatever requests are served, and wherever others come between the reads and the writes of
  -- rotations, verifications and resets, no user, provider link or token is deleted and no
  -- verified, revoked or used row is turned back; rows that meet every unique and foreign-key
  -- constraint still do.
  pub run_steps-MayBecome :
      (steps : List (Step env.Jwt)) (s : Server) → MayBecome s (run_steps steps s)
  unfolding run_steps
  run_steps-MayBecome [] s = (Evolves-refl s.conn.db, λ h. h)
  run_steps-MayBecome (event ∷ rest) s =
      let (e, k) = step-MayBecome event s in
      let (f, l) = run_steps-MayBecome rest (step event s) in
      (Evolves-order.chain e f, λ h. l (k h))
