-- ===== src/Demo/OutsideExamples.antt =====
-- The properties of the delivery of mails and of encrypted fields at concrete states.
use hotspot_payment_gateway.Base.{
  All, String, ◌≡◌, refl, true, Option, none, some, List, [], ◌∷◌, ◌++◌, map, if◌then◌else◌, ◌==◌,
}
use hotspot_payment_gateway.Base.Texts.{strip}
use hotspot_payment_gateway.Auth.Session.{Mail}
use hotspot_payment_gateway.Integrations.Email.{
  Smtp, sent, refused, crashed, Outbox, done, message, run_tasks,
}
use hotspot_payment_gateway.Integrations.Email.Delivery.{run_tasks-calls}
use hotspot_payment_gateway.Core.Config.{text, split_cors}
use hotspot_payment_gateway.Core.Config.Origins.{IsOrigin, joined, split_cors-IsOrigin}
use hotspot_payment_gateway.Core.Encryption.{FernetLib}

-- A server that refuses the first message and breaks down at the second.
abbrev bad_server : Smtp
bad_server = record {
  config = record {
    email_from = "noreply@hotspot-gateway.local";
    smtp_host = "sandbox.smtp.mailtrap.io";
    smtp_port = 2525;
    smtp_username = "";
    smtp_password = "";
    smtp_start_tls = true;
  };
  send = λ m n. if n == 0 then refused else if n == 1 then crashed "no route" else sent;
}

abbrev letter : String → Mail
letter to = record { to = to; subject = "Reset your password"; body = "…" }

abbrev empty_outbox : Outbox
empty_outbox = record { calls = []; count = 0; log = [] }

abbrev letters : List Mail
letters = letter "a@example.com" ∷ letter "b@example.com" ∷ letter "c@example.com" ∷ []

run_tasks-calls_example :
    ((run_tasks ⦃smtp = bad_server⦄ letters empty_outbox).0 ≡ done)
    × ((run_tasks ⦃smtp = bad_server⦄ letters empty_outbox).1.calls
        ≡ empty_outbox.calls ++ map (message ⦃smtp = bad_server⦄) letters)
run_tasks-calls_example = run_tasks-calls ⦃smtp = bad_server⦄ letters empty_outbox

-- A cipher that marks a text by one character.
abbrev unmark : String → Option String
unmark String.[] = none
unmark (String.◌∷◌ c s) = some s

abbrev pub marking : FernetLib
marking = record {
  sha256_digest = λ s. s;
  urlsafe_b64encode = λ s. s;
  fernet_encrypt = λ key text n. String.◌∷◌ "g" text;
  fernet_decrypt = λ key token. unmark token;
  decrypt-encrypt = λ key text n. refl;
}

split_cors-IsOrigin_example :
    All IsOrigin (split_cors (text " http://localhost:3000 ,, http://localhost:5173,"))
    × (split_cors
          (text (joined (split_cors (text " http://localhost:3000 ,, http://localhost:5173,"))))
        ≡ split_cors (text " http://localhost:3000 ,, http://localhost:5173,"))
split_cors-IsOrigin_example = split_cors-IsOrigin " http://localhost:3000 ,, http://localhost:5173,"

split_cors_two :
    split_cors (text " http://localhost:3000 ,, http://localhost:5173,")
    ≡ "http://localhost:3000" ∷ "http://localhost:5173" ∷ []
unfolding split_cors strip
split_cors_two = refl
