-- ===== src/Integrations/Email.antt =====
-- src/integrations/email.py and `_safe_send_email` of src/auth/service.py: the mails of a request are
-- sent after its response, one by one. The SMTP client is a field of `Smtp`.
pub mod Delivery
use Prim.Native.String.{◌++◌ as str_append}
use hotspot_payment_gateway.Base.{
  ℕ, suc, String, Bool, Option, none, some, List, [], ◌∷◌, ◌++◌, if◌then◌else◌,
}
use hotspot_payment_gateway.Base.Texts.{is_empty}
use hotspot_payment_gateway.Auth.Session.{Event, Mail, str}

-- The settings that `send_email` reads (core/config.py).
pub record EmailConfig : Type 0 where
  pub email_from : String
  pub smtp_host : String
  pub smtp_port : ℕ
  pub smtp_username : String
  pub smtp_password : String
  pub smtp_start_tls : Bool

-- What `aiosmtplib.send` is called with.
pub record Message : Type 0 where
  pub sender : String
  pub to : String
  pub subject : String
  pub content : String
  pub hostname : String
  pub port : ℕ
  pub username : Option String
  pub password : Option String
  pub start_tls : Bool

-- How the call ends: it returns, it raises `SMTPException` or `OSError`, or another exception with
-- the given text.
pub data Ending : Type 0 where
  sent refused : Ending
  crashed : String → Ending

pub record Smtp : Type 0 where
  pub config : EmailConfig
  -- by the message and the number of calls before
  pub send : Message → ℕ → Ending

-- The calls so far, in order, and the log.
pub record Outbox : Type 0 where
  pub calls : List Message
  pub count : ℕ
  pub log : List Event

-- How a piece of the delivery ends: `EmailDeliveryError` and other exceptions have a text.
pub data Delivered : Type 0 where
  done : Delivered
  email_delivery_error unexpected : String → Delivered

-- `text or None`
abbrev pub or_none : String → Option String
or_none text = if is_empty text then none else some text

abbrev pub delivery_error : String → Ending → Delivered
delivery_error to sent = done
delivery_error to refused = email_delivery_error (str_append "Failed to send email to " to)
delivery_error to (crashed reason) = unexpected reason

module _ ⦃smtp : Smtp⦄ where
  abbrev pub message : Mail → Message
  message mail = record {
    sender = smtp.config.email_from;
    to = mail.to;
    subject = mail.subject;
    content = mail.body;
    hostname = smtp.config.smtp_host;
    port = smtp.config.smtp_port;
    username = or_none smtp.config.smtp_username;
    password = or_none smtp.config.smtp_password;
    start_tls = smtp.config.smtp_start_tls;
  }

  unfoldable pub send_email : Mail → Outbox → Delivered × Outbox
  send_email mail o = (
    delivery_error mail.to (smtp.send (message mail) o.count),
    record o { calls = o.calls ++ message mail ∷ []; count = suc o.count },
  )

  abbrev pub log_failure : Mail → Delivered → Outbox → Delivered × Outbox
  log_failure mail done o = (done, o)
  log_failure mail (email_delivery_error reason) o = (
    done,
    record o {
      log =
          o.log
          ++ record {
            name = "email.delivery_failed";
            details = ("to", str mail.to) ∷ ("reason", str reason) ∷ [];
          }
            ∷ [];
    },
  )
  log_failure mail (unexpected reason) o = (
    done,
    record o {
      log =
          o.log
          ++ record {
            name = "email.delivery_failed_unexpected";
            details =
                ("to", str mail.to) ∷ ("subject", str mail.subject) ∷ ("reason", str reason) ∷ [];
          }
            ∷ [];
    },
  )

  -- `_safe_send_email`
  unfoldable pub safe_send_email : Mail → Outbox → Delivered × Outbox
  unfolding send_email
  safe_send_email mail o = let (r, o') = send_email mail o in log_failure mail r o'

  -- Starlette's background tasks: an exception of one drops those behind it.
  abbrev pub go_on : Delivered → (Outbox → Delivered × Outbox) → Outbox → Delivered × Outbox
  go_on done rest o = rest o
  go_on (email_delivery_error reason) rest o = (email_delivery_error reason, o)
  go_on (unexpected reason) rest o = (unexpected reason, o)

  unfoldable pub run_tasks : List Mail → Outbox → Delivered × Outbox
  unfolding safe_send_email
  run_tasks [] o = (done, o)
  run_tasks (mail ∷ rest) o = let (r, o') = safe_send_email mail o in go_on r (run_tasks rest) o'
