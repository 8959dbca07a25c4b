-- ===== src/Demo/AccountExamples.antt =====
-- The properties of signup, login and access tokens at concrete states.
use hotspot_payment_gateway.Base.{◌≡◌, ◌↔◌, refl, true, some, none, inl, arith}
use hotspot_payment_gateway.Demo.{demo, Signed}
use hotspot_payment_gateway.Demo.Flows.{run, start, jane, confirmed, first_user}
use hotspot_payment_gateway.Auth.Models.{consistent}
use hotspot_payment_gateway.Auth.Session.{Conn, ok, view, with_session}
use hotspot_payment_gateway.Auth.Accounts.{create_user, authenticate}
use hotspot_payment_gateway.Auth.Accounts.Login.{IsAdmitted, authenticate_iff}
use hotspot_payment_gateway.Auth.Accounts.Signup.{new_user, registered, create_user-created}
use hotspot_payment_gateway.Auth.Tokens.{access_claims, encode_access_token}
use hotspot_payment_gateway.Auth.Dependencies.{get_current_user}
use hotspot_payment_gateway.Auth.Dependencies.Current.{encode-get_current_user}
use hotspot_payment_gateway.Auth.Utils.{accepted, validate_password_strength}
use hotspot_payment_gateway.Auth.Utils.Strength.{IsStrong, validate_password_strength_iff}

create_user-created_example :
    ((with_session (create_user ⦃env = demo⦄ jane) start).0 ≡ ok (new_user ⦃env = demo⦄ jane 0))
    × ((with_session (create_user ⦃env = demo⦄ jane) start).1.db
        ≡ registered ⦃env = demo⦄ jane start)
    × (consistent (registered ⦃env = demo⦄ jane start) ≡ true)
unfolding run
create_user-created_example =
    create_user-created ⦃env = demo⦄ jane start (record { short = refl; fits = refl }) refl
      (record { user_id = refl; provider_id = refl; tenant = refl }) refl

authenticate_iff_example :
    ((authenticate ⦃env = demo⦄ "jane@example.com" "StrongPassword1!" confirmed).0
      ≡ ok (first_user confirmed))
    ↔ IsAdmitted ⦃env = demo⦄
        (view confirmed)
        "jane@example.com"
        "StrongPassword1!"
        (first_user confirmed)
unfolding run
authenticate_iff_example =
    authenticate_iff ⦃env = demo⦄ "jane@example.com" "StrongPassword1!" confirmed
      (first_user confirmed) refl

-- The access token that is signed for the user in `confirmed`, and the state after it.
abbrev signed_at : Conn
signed_at = (encode_access_token ⦃env = demo⦄ (first_user confirmed).id none confirmed).1

abbrev key_card : Signed
key_card =
    (access_claims ⦃env = demo⦄ (first_user confirmed).id none (demo.now confirmed.draws), "secret")

encode-get_current_user_example :
    (get_current_user ⦃env = demo⦄ (some ("bearer", key_card)) signed_at).0
    ≡ ok (first_user confirmed)
unfolding run
encode-get_current_user_example =
    encode-get_current_user ⦃env = demo⦄ (first_user confirmed) "bearer" confirmed signed_at refl
      (omega arith) (omega arith) refl refl (inl refl)

validate_password_strength_iff_example :
    (validate_password_strength ⦃env = demo⦄ "StrongPassword1!" ≡ accepted "StrongPassword1!")
    ↔ IsStrong ⦃env = demo⦄ "StrongPassword1!"
validate_password_strength_iff_example =
    validate_password_strength_iff ⦃env = demo⦄ "StrongPassword1!"
