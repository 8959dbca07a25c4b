-- ===== src/Demo/GoogleExamples.antt =====
-- The properties of the sign-in with Google at concrete states.
use hotspot_payment_gateway.Base.{
  String, ◌≡◌, ◌≢◌, refl, sym, ap, ◌∙◌, Option, true, none, some, inl, inr, Has, List, [], ◌∷◌,
}
use hotspot_payment_gateway.Demo.{demo, tally}
use hotspot_payment_gateway.Demo.Flows.{run, after, signed_up, first_user}
use hotspot_payment_gateway.Auth.Models.{AuthProvider}
use hotspot_payment_gateway.Auth.Session.{Conn, ok, raised, with_session, integrity_error}
use hotspot_payment_gateway.Auth.Accounts.{authenticate}
use hotspot_payment_gateway.Auth.Google.{GoogleProfile, google_link, link_or_create_google_user}
use hotspot_payment_gateway.Auth.Google.Again.{link_or_create_google_user_again}
use hotspot_payment_gateway.Auth.Google.Existing.{
  authenticate-google_link, link_or_create_google_user-integrity_error,
}
use hotspot_payment_gateway.Demo.{Signed}
use hotspot_payment_gateway.Auth.Router.{oauth_token}
use hotspot_payment_gateway.App
use hotspot_payment_gateway.App.Interleaving.{verify, Step, begin, finish, whole, run_steps}
use hotspot_payment_gateway.App.Links.{LinksVerified, run_steps-LinksVerified}

abbrev profile : String → String → GoogleProfile
profile google_sub email = record {
  google_sub = google_sub;
  email = email;
  first_name = some "Jane";
  last_name = none;
  profile_photo_url = none;
}

abbrev linked : Conn
linked =
    after (link_or_create_google_user ⦃env = demo⦄ (profile "alpha" "jane@example.com")) signed_up

link_or_create_google_user_again_example :
    ((with_session
        (link_or_create_google_user ⦃env = demo⦄ (profile "alpha" "j@example.org"))
        linked).0
      ≡ ok (first_user linked))
    × ((with_session
          (link_or_create_google_user ⦃env = demo⦄ (profile "alpha" "j@example.org"))
          linked).1.db
        ≡ linked.db)
unfolding run
link_or_create_google_user_again_example =
    link_or_create_google_user_again ⦃env = demo⦄ (profile "alpha" "jane@example.com")
      (profile "alpha" "j@example.org") signed_up refl refl refl

authenticate-google_link_example :
    (with_session
      (authenticate ⦃env = demo⦄ "jane@example.com" "StrongPassword1!")
      (after (google_link ⦃env = demo⦄ "alpha" (first_user signed_up)) signed_up)).0
    ≡ ok (first_user (after (google_link ⦃env = demo⦄ "alpha" (first_user signed_up)) signed_up))
unfolding run
authenticate-google_link_example =
    authenticate-google_link ⦃env = demo⦄ "alpha" (first_user signed_up) "StrongPassword1!"
      "bcrypt:StrongPassword1!" signed_up refl (inl refl) refl refl

-- The link that the first sign-in made.
abbrev first_link : AuthProvider
first_link = record {
  id = 104;
  provider = "google";
  provider_user_id = some "alpha";
  user_id = (first_user linked).id;
  label = "Google";
  is_active = true;
  created_at = demo.server_now 5;
}

other_sub : ◌≢◌ {A = Option String} (some "alpha") (some "beta")
other_sub h = cc

no_sub : ◌≢◌ {A = Option String} none (some "beta")
no_sub h = cc

other_account :
    (q : AuthProvider) → Has q linked.db.auth_providers → q.provider_user_id ≢ some "beta"
unfolding run
other_account q (inl e) h = no_sub (sym (ap (λ p. p.provider_user_id) e) ∙ h)
other_account q (inr (inl e)) h = other_sub (sym (ap (λ p. p.provider_user_id) e) ∙ h)
other_account q (inr (inr m)) h = elim m [ ]

link_or_create_google_user-integrity_error_example :
    (with_session
      (link_or_create_google_user ⦃env = demo⦄ (profile "beta" "jane@example.com"))
      linked).0
    ≡ raised integrity_error
unfolding run
link_or_create_google_user-integrity_error_example =
    link_or_create_google_user-integrity_error ⦃env = demo⦄ (profile "beta" "jane@example.com")
      (first_user linked) linked first_link refl other_account (inl refl) refl (inr (inl refl)) refl
      refl

-- Before any sign-in with Google the one link is that of the password.
signed_up-LinksVerified : LinksVerified signed_up.db
unfolding run
signed_up-LinksVerified p u m g n e = elim m [
  | inl same ↦ cc (ap (λ (q : AuthProvider). q.provider) same, g)
  | inr x ↦ absurd x
]

-- The first sign-in with Google comes between the reads and the writes of the verification.
abbrev callbacks : List (Step Signed)
callbacks =
    begin (verify (tally 4))
    ∷ whole (
        App.google_callback (
          oauth_token (
            some (record {
              sub = some "alpha";
              email = some "jane@example.com";
              given_name = some "Jane";
              family_name = none;
              picture = none;
            }))))
    ∷ finish 0
    ∷ []

run_steps-LinksVerified_example :
    LinksVerified
      (run_steps ⦃env = demo⦄ callbacks
        (record { conn = signed_up; under_way = []; succeeded = [] })).conn.db
unfolding run
run_steps-LinksVerified_example =
    run_steps-LinksVerified ⦃env = demo⦄ callbacks
      (record { conn = signed_up; under_way = []; succeeded = [] }) refl signed_up-LinksVerified
