-- ===== src/Auth/History/Rules.antt =====
-- The rules by which a run is shown to let the rows evolve, and the operations that all others use.
use hotspot_payment_gateway.Base.{ℕ, String}
use hotspot_payment_gateway.Runtime.{Env, DateTime}
use hotspot_payment_gateway.Auth.Models.{User}
use hotspot_payment_gateway.Auth.Session.{M}
use hotspot_payment_gateway.Auth.Session.Within
use hotspot_payment_gateway.Auth.Times.{is_past}
use hotspot_payment_gateway.Auth.Accounts.{flush_user, get_user, get_user_by_email, refresh_user}
use hotspot_payment_gateway.Auth.History.{Evolves, Evolves-order}
use hotspot_payment_gateway.Auth.History.Changes.{
  Evolves-add_user, Evolves-add_password, Evolves-add_refresh_token, Evolves-add_verification_token,
  Evolves-revoke_by_id, Evolves-revoke_by_hash, Evolves-revoke_by_user, Evolves-mark_verified,
  Evolves-set_verified, Evolves-set_password, Evolves-mark_used, Evolves-link, Evolves-add_account,
}

abbrev pub Evolving : {A : Type 0} → M A → Type 0
Evolving m = Within.Within Evolves Evolves-order m

-- One rule for each way to build a run, and one for each change.
pub ruleset evolving = (
  Within.Within-bind, Within.Within-pure, Within.Within-raise, Within.Within-draw,
  Within.Within-gets, Within.Within-log_event, Within.Within-add_task, Within.Within-change,
  Within.Within-commit, Within.Within-rollback, Within.Within-attempt, Within.Within-or_raise,
  Within.Within-if, Within.Within-rethrow, Evolves-add_user, Evolves-add_password,
  Evolves-add_refresh_token, Evolves-add_verification_token, Evolves-revoke_by_id,
  Evolves-revoke_by_hash, Evolves-revoke_by_user, Evolves-mark_verified, Evolves-set_verified,
  Evolves-set_password, Evolves-mark_used,
)

module _ ⦃env : Env⦄ where
  pub is_past-Evolving : (d : DateTime) → Evolving (is_past d)
  unfolding is_past
  is_past-Evolving d = search evolving

  pub refresh_user-Evolving : (id : ℕ) → Evolving (refresh_user id)
  unfolding refresh_user
  refresh_user-Evolving id = search evolving

  pub get_user-Evolving : (id : ℕ) → Evolving (get_user id)
  unfolding get_user
  get_user-Evolving id = search evolving

  pub get_user_by_email-Evolving : (email : String) → Evolving (get_user_by_email email)
  unfolding get_user_by_email
  get_user_by_email-Evolving email = search evolving

  pub flush_user-Evolving : (u : User) → Evolving (flush_user u)
  unfolding flush_user
  flush_user-Evolving u = search evolving
