-- ===== src/Demo/SessionExamples.antt =====
-- The properties of sessions at concrete states.
use hotspot_payment_gateway.Base.{String, ◌≡◌, ◌⊎◌, ◌↔◌, refl, none, List, [], ◌∷◌, Has, arith, ◌≢◌}
use hotspot_payment_gateway.Demo.{demo, tally, Signed}
use hotspot_payment_gateway.Demo.Flows.{
  run, first_user, first_session, after, logged_in, logged_in-Has,
}
use hotspot_payment_gateway.Auth.Models.{User, RefreshToken}
use hotspot_payment_gateway.Auth.Session.{Conn, ok, raised, view, with_session}
use hotspot_payment_gateway.Auth.Refresh.{
  rotate_refresh_token, revoke_refresh_token, verify_refresh_token,
}
use hotspot_payment_gateway.Auth.Refresh.Validity.{IsLive, refused, verify_refresh_token_iff}
use hotspot_payment_gateway.Auth.Refresh.Liveness.{rotate-IsLive, rotate-verify}
use hotspot_payment_gateway.Auth.Refresh.Revoke.{revoke-verify}
use hotspot_payment_gateway.App
use hotspot_payment_gateway.App.{Request, serve, serve_all}
use hotspot_payment_gateway.App.Revocation.{refresh-serve_all}
use hotspot_payment_gateway.App.Ended.{logout-serve_all}
use hotspot_payment_gateway.Auth.Tokens.{hash_refresh_token}

-- The cookie of the session that is open in `logged_in`.
abbrev jar : List (String × String)
jar = ("refresh_token", tally 11) ∷ []

abbrev traffic : List (Request Signed)
traffic = App.refresh jar ∷ App.me (none) ∷ App.health ∷ []

refresh-serve_all_example :
    ((serve ⦃env = demo⦄ (App.refresh jar) (
        serve_all ⦃env = demo⦄ traffic (serve ⦃env = demo⦄ (App.refresh jar) logged_in).1)).0.status
      ≡ 401)
    ⊎ ((serve ⦃env = demo⦄ (App.refresh jar) (
          serve_all ⦃env = demo⦄ traffic
            (serve ⦃env = demo⦄ (App.refresh jar) logged_in).1)).0.status
        ≡ 429)
unfolding run
refresh-serve_all_example =
    refresh-serve_all ⦃env = demo⦄ jar (tally 11) logged_in traffic refl refl

logout-serve_all_example :
    ((serve ⦃env = demo⦄ (App.logout jar) logged_in).0.status ≡ 204)
    × (((serve ⦃env = demo⦄ (App.refresh jar) (
            serve_all ⦃env = demo⦄ traffic
              (serve ⦃env = demo⦄ (App.logout jar) logged_in).1)).0.status
          ≡ 401)
        ⊎ ((serve ⦃env = demo⦄ (App.refresh jar) (
              serve_all ⦃env = demo⦄ traffic
                (serve ⦃env = demo⦄ (App.logout jar) logged_in).1)).0.status
            ≡ 429))
unfolding run
logout-serve_all_example =
    logout-serve_all ⦃env = demo⦄ jar (tally 11) logged_in traffic (first_session logged_in) refl
      refl logged_in-Has refl

-- The state after the session was rotated.
abbrev rotated_once : Conn
rotated_once = after (rotate_refresh_token ⦃env = demo⦄ (tally 11)) logged_in

verify_refresh_token_iff_example :
    ((verify_refresh_token ⦃env = demo⦄ (tally 11) logged_in).0 ≡ ok (first_session logged_in))
    ↔ IsLive ⦃env = demo⦄ (view logged_in) (tally 11) logged_in.draws (first_session logged_in)
unfolding run
verify_refresh_token_iff_example =
    verify_refresh_token_iff ⦃env = demo⦄ (tally 11) logged_in (first_session logged_in) refl

session-IsLive :
    IsLive ⦃env = demo⦄ logged_in.db (tally 11) logged_in.draws (first_session logged_in)
unfolding run
session-IsLive = record {
  here = logged_in-Has;
  hashed = refl;
  active = refl;
  unexpired = omega arith;
}

rotate-IsLive_example :
    (granted : Signed × String × User) × ((with_session
        (rotate_refresh_token ⦃env = demo⦄ (tally 11))
        logged_in).0
      ≡ ok granted)
unfolding run
rotate-IsLive_example =
    rotate-IsLive ⦃env = demo⦄ (tally 11) logged_in (first_session logged_in) refl session-IsLive
      (record { fresh_id = refl; fresh_hash = refl })

rotate-verify_example :
    (row : RefreshToken) × ((verify_refresh_token ⦃env = demo⦄ (tally 16) rotated_once).0 ≡ ok row)
    × (row.user_id ≡ (first_user rotated_once).id)
unfolding run
rotate-verify_example =
    rotate-verify ⦃env = demo⦄ (tally 11) logged_in refl rotated_once refl (omega arith)

revoke-verify_example :
    let (r, c') = with_session (revoke_refresh_token ⦃env = demo⦄ (tally 11)) logged_in in
    (r ≡ ok tt)
    × ((d : Conn)
        → view d ≡ c'.db
        → verify_refresh_token ⦃env = demo⦄ (tally 11) d ≡ (raised refused, d))
    × ((row : RefreshToken)
        → Has row logged_in.db.refresh_tokens
        → row.token_hash ≢ hash_refresh_token ⦃env = demo⦄ (tally 11)
        → Has row c'.db.refresh_tokens)
    × (with_session (revoke_refresh_token ⦃env = demo⦄ (tally 11)) c' ≡ (ok tt, c'))
unfolding run
revoke-verify_example = revoke-verify ⦃env = demo⦄ (tally 11) logged_in refl
