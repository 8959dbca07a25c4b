-- ===== src/Demo/InterleavingExamples.antt =====
-- Requests that run at the same time, at concrete states.
use hotspot_payment_gateway.Base.{◌+◌, ◌≤◌, ◌≡◌, refl, true, List, [], ◌∷◌, Has}
use hotspot_payment_gateway.Demo.{demo, tally, Signed}
use hotspot_payment_gateway.Demo.Flows.{
  run, first_session, logged_in, session_row-Has, mailed, confirmed, first_user,
}
use hotspot_payment_gateway.Demo.MailExamples.{
  forgotten, raw_reset, fresh_password, reset_row, reset-IsUsable, reset-IsUsable_later,
}
use hotspot_payment_gateway.Auth.Session.{
  Conn, Exn, raised, with_session, opened, invalid_verification_token_error,
}
use hotspot_payment_gateway.Auth.Models.{User}
use hotspot_payment_gateway.Auth.Mail.{verify_email}
use hotspot_payment_gateway.Auth.Refresh.{read_rotation}
use hotspot_payment_gateway.App
use hotspot_payment_gateway.App.Interleaving.{
  Ticket, session, reset, Job, rotate, replace, ticket, Server, Step, begin, finish, whole,
  count_succeeded, count_under_way, read_job, write_job, run_steps,
}
use hotspot_payment_gateway.App.Interleaving.Evolving.{MayBecome, run_steps-MayBecome}
use hotspot_payment_gateway.App.Interleaving.Spent.{IsSpent, run_steps-IsSpent}
use hotspot_payment_gateway.App.Interleaving.Verified.{verify_email-run_steps}
use hotspot_payment_gateway.App.Interleaving.Resets.{run_steps-replace}

abbrev idle : Conn → Server
idle c = record { conn = c; under_way = []; succeeded = [] }

abbrev key : Ticket
key = session (tally 11)

-- Two rotations of the session have read its token when it is logged out.
abbrev overtaken : List (Step Signed)
overtaken =
    begin (rotate (tally 11))
    ∷ begin (rotate (tally 11))
    ∷ whole (App.logout (("refresh_token", tally 11) ∷ []))
    ∷ []

abbrev logged_out : Server
logged_out = run_steps ⦃env = demo⦄ overtaken (idle logged_in)

-- Another one comes too late; one of the two writes.
abbrev late : List (Step Signed)
late = begin (rotate (tally 11)) ∷ finish 1 ∷ whole App.health ∷ finish 7 ∷ []

-- The one that writes succeeds, and the other is still under way.
late_succeeded : count_succeeded key (run_steps ⦃env = demo⦄ late logged_out).succeeded ≡ 1
unfolding run run_steps read_job write_job read_rotation
late_succeeded = refl

late_under_way : count_under_way key (run_steps ⦃env = demo⦄ late logged_out).under_way ≡ 1
unfolding run run_steps read_job write_job read_rotation
late_under_way = refl

logged_out-Has : Has (first_session logged_out.conn) logged_out.conn.db.refresh_tokens
unfolding run run_steps read_job read_rotation
logged_out-Has = session_row-Has logged_out.conn.db.refresh_tokens refl

logged_out-IsSpent : IsSpent ⦃env = demo⦄ logged_out.conn.db key
unfolding run run_steps read_job read_rotation
logged_out-IsSpent = record {
  row = first_session logged_out.conn;
  here = logged_out-Has;
  hashed = refl;
  off = refl;
  valid = refl;
}

run_steps-MayBecome_example :
    MayBecome (idle logged_in) (run_steps ⦃env = demo⦄ overtaken (idle logged_in))
run_steps-MayBecome_example = run_steps-MayBecome ⦃env = demo⦄ overtaken (idle logged_in)

run_steps-IsSpent_example :
    (count_succeeded key (run_steps ⦃env = demo⦄ late logged_out).succeeded
        + count_under_way key (run_steps ⦃env = demo⦄ late logged_out).under_way
      ≤ count_succeeded key logged_out.succeeded + count_under_way key logged_out.under_way)
    × ((job : Job)
        → ticket job ≡ key
        → (e : Exn) × ((with_session
              (read_job ⦃env = demo⦄ job)
              (run_steps ⦃env = demo⦄ late logged_out).conn).0
            ≡ raised e))
run_steps-IsSpent_example = run_steps-IsSpent ⦃env = demo⦄ key late logged_out logged_out-IsSpent

run_steps-replace_example :
    (run_steps ⦃env = demo⦄
      (begin (replace raw_reset fresh_password)
        ∷ begin (replace raw_reset "Another1!")
        ∷ finish 0
        ∷ finish 0
        ∷ [])
      (idle forgotten)).succeeded
    ≡ reset raw_reset ∷ reset raw_reset ∷ []
unfolding run
run_steps-replace_example =
    run_steps-replace ⦃env = demo⦄ raw_reset fresh_password "Another1!" (idle forgotten) reset_row
      refl refl refl reset-IsUsable reset-IsUsable_later

verify_email-run_steps_example :
    ((first_user confirmed).is_email_verified ≡ true)
    × Has (first_user confirmed) confirmed.db.users
    × ((steps : List (Step Signed)) (s : Server)
        → s.conn ≡ confirmed
        → let later = (run_steps ⦃env = demo⦄ steps s).conn in
          ((v : User) × Has v later.db.users
            × (v.id ≡ (first_user confirmed).id)
            × (v.is_email_verified ≡ true))
          × (with_session (verify_email ⦃env = demo⦄ (tally 4)) later ≡ (
            raised (invalid_verification_token_error "Token is invalid or already used"),
            opened later,
          )))
unfolding run
verify_email-run_steps_example = verify_email-run_steps ⦃env = demo⦄ (tally 4) mailed refl
