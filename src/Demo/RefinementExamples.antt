-- ===== src/Demo/RefinementExamples.antt =====
-- The properties of sessions without their rows, at concrete states.
use hotspot_payment_gateway.Base.{◌+◌, ◌≤◌, String, ◌≡◌, ◌≢◌, refl, none, some, arith}
use hotspot_payment_gateway.Demo.{demo, tally, Signed}
use hotspot_payment_gateway.Demo.Flows.{
  run, first_user, first_session, after, logged_in, logged_in-Has,
}
use hotspot_payment_gateway.Demo.MailExamples.{forgotten, raw_reset, fresh_password, changed}
use hotspot_payment_gateway.Auth.Models.{User, VerificationToken}
use hotspot_payment_gateway.Auth.Session.{Conn, ok, pure, ◌>>=◌, with_session}
use hotspot_payment_gateway.Auth.Tokens.{hash_refresh_token}
use hotspot_payment_gateway.Auth.Refresh.{rotate_refresh_token, revoke_refresh_token}
use hotspot_payment_gateway.Auth.Refresh.Validity.{IsLive, instant}
use hotspot_payment_gateway.Auth.Mail.{purpose_password_reset}
use hotspot_payment_gateway.Auth.Mail.Consume.{IsUsable}
use hotspot_payment_gateway.Auth.Sessions.{Session, sessions, opened, closed, closed_user}
use hotspot_payment_gateway.Auth.Sessions.Refines.{expiry, rotate-refines, reset_password-refines}
use hotspot_payment_gateway.Auth.Sessions.Race.{rotate_around}
use hotspot_payment_gateway.Auth.Sessions.Twice.{between, overtaken, rotate_around-rotate}
use hotspot_payment_gateway.Auth.Sessions.Overtaken.{rotate_around-revoke}

abbrev rotated_once : Conn
rotated_once = after (rotate_refresh_token ⦃env = demo⦄ (tally 11)) logged_in

rotate-refines_example :
    (s : Session) × (sessions logged_in.db (hash_refresh_token ⦃env = demo⦄ (tally 11)) ≡ some s)
    × (s.user_id ≡ (first_user rotated_once).id)
    × (demo.now logged_in.draws ≤ instant s.expires_at)
    × (sessions rotated_once.db
        ≡ opened
            (hash_refresh_token ⦃env = demo⦄ (tally 16))
            (record {
              user_id = (first_user rotated_once).id;
              expires_at = expiry ⦃env = demo⦄ (logged_in.draws + 1 + 1);
            })
            (closed (hash_refresh_token ⦃env = demo⦄ (tally 11)) (sessions logged_in.db)))
unfolding run
rotate-refines_example = rotate-refines ⦃env = demo⦄ (tally 11) logged_in refl refl

session-IsLive :
    IsLive ⦃env = demo⦄ logged_in.db (tally 11) logged_in.draws (first_session logged_in)
unfolding run
session-IsLive = record {
  here = logged_in-Has;
  hashed = refl;
  active = refl;
  unexpired = omega arith;
}

rotate_around-revoke_example :
    (user : User) × (access : Signed) × (new_raw : String) × (c' : Conn) × (rotate_around
        ⦃env = demo⦄
        (tally 11)
        (with_session (revoke_refresh_token ⦃env = demo⦄ (tally 11)))
        logged_in
      ≡ (ok (access, new_raw, user), c'))
    × (user.id ≡ (first_session logged_in).user_id)
    × (sessions c'.db (hash_refresh_token ⦃env = demo⦄ (tally 11)) ≡ none)
    × (sessions c'.db (hash_refresh_token ⦃env = demo⦄ new_raw)
        ≡ some (record {
          user_id = user.id;
          expires_at = expiry ⦃env = demo⦄ (logged_in.draws + 1 + 1);
        }))
unfolding run
rotate_around-revoke_example =
    rotate_around-revoke ⦃env = demo⦄ (tally 11) logged_in (first_session logged_in) refl
      session-IsLive (record { fresh_id = refl; fresh_hash = refl })

reset_password-refines_example :
    (row : VerificationToken) × IsUsable ⦃env = demo⦄ forgotten.db raw_reset purpose_password_reset
      forgotten.draws row
    × (sessions changed.db ≡ closed_user row.user_id (sessions forgotten.db))
unfolding run
reset_password-refines_example =
    reset_password-refines ⦃env = demo⦄ raw_reset fresh_password forgotten refl refl

rotate_around-rotate_example :
    (inner outer : Signed × String × User) × (c' : Conn) × ((with_session
        (rotate_refresh_token ⦃env = demo⦄ (tally 11))
        (between ⦃env = demo⦄ logged_in)).0
      ≡ ok inner)
    × (rotate_around ⦃env = demo⦄
          (tally 11)
          (with_session (rotate_refresh_token ⦃env = demo⦄ (tally 11)) >>= λ _. pure tt)
          logged_in
        ≡ (ok outer, c'))
    × (sessions c'.db (hash_refresh_token ⦃env = demo⦄ inner.1)
        ≡ some (record {
          user_id = (first_session logged_in).user_id;
          expires_at = expiry ⦃env = demo⦄ (logged_in.draws + 1 + 1 + 1);
        }))
    × (sessions c'.db (hash_refresh_token ⦃env = demo⦄ outer.1)
        ≡ some (record {
          user_id = (first_session logged_in).user_id;
          expires_at =
              expiry ⦃env = demo⦄ ((overtaken ⦃env = demo⦄ (tally 11) logged_in).draws + 1);
        }))
    × (hash_refresh_token ⦃env = demo⦄ outer.1 ≢ hash_refresh_token ⦃env = demo⦄ inner.1)
unfolding run
rotate_around-rotate_example =
    rotate_around-rotate ⦃env = demo⦄ (tally 11) logged_in (first_session logged_in) refl
      (record { here = logged_in-Has; hashed = refl; active = refl; unexpired = omega arith })
      (record { fresh_id = refl; fresh_hash = refl })
      (record { fresh_id = refl; fresh_hash = refl })
