-- ===== src/Auth/Mail/Liveness.antt =====
-- `reset_password` and `verify_email` go through where the token is usable: no constraint of the
-- database stands against their writes.
use Prim.Native.String.{len}
use hotspot_payment_gateway.Base.{
  ltb, false, not, ◌&&◌, ℕ, ◌+◌, ◌==◌, ==_iff, String, ◌≡◌, refl, ◌∙◌, true, some, Has, Has-map,
  all→Has, any→Has, arith, if◌then◌else◌,
}
use hotspot_payment_gateway.Runtime.{Env, DateTime}
use hotspot_payment_gateway.Auth.Models.{User, VerificationToken, Tables, has_user, consistent}
use hotspot_payment_gateway.Auth.Models.Constraints.{consistent→IsConsistent}
use hotspot_payment_gateway.Auth.Models.Preserve.{consistent-map_refresh}
use hotspot_payment_gateway.Auth.Models.Edits.{consistent-map_users, consistent-map_verification}
use hotspot_payment_gateway.Auth.Session.{
  Conn, Exn, ok, opened, commit, with_session, invalid_verification_token_error,
  invalid_password_reset_token_error,
}
use hotspot_payment_gateway.Auth.Accounts.{get_user, refresh_user}
use hotspot_payment_gateway.Core.Security.{hash_password}
use hotspot_payment_gateway.Auth.Refresh.{revoke_by_user}
use hotspot_payment_gateway.Auth.Refresh.Liveness.{find_user}
use hotspot_payment_gateway.Auth.Mail.{
  purpose_email_verify, purpose_password_reset, mark_used, mark_verified, set_password,
  consume_token, confirm, verify_email, replace_password, reset_password,
}
use hotspot_payment_gateway.Auth.Mail.Consume.{IsUsable, consume_token_iff, consume-eq-ok}

pub consistent-mark_used :
    (id : ℕ) (at : DateTime) (t : Tables) → consistent (mark_used id at t) ≡ consistent t
consistent-mark_used id at t =
    consistent-map_verification _ t
      (record { ids = λ v. ground arith; hashes = λ v. ground arith; owners = λ v. ground arith })

consistent-set_password :
    (id : ℕ) (hash : String) (at : DateTime) (t : Tables)
    → consistent (set_password id hash at t) ≡ consistent t
consistent-set_password id hash at t =
    consistent-map_users _ t
      (record { ids = λ u. ground arith; emails = λ u. ground arith; tenants = λ u. ground arith })

pub consistent-mark_verified :
    (user : User) (at : DateTime) (t : Tables) → consistent (mark_verified user at t) ≡ consistent t
consistent-mark_verified user at t =
    consistent-map_users _ t
      (record { ids = λ u. ground arith; emails = λ u. ground arith; tenants = λ u. ground arith })

consistent-revoke_by_user : (id : ℕ) (t : Tables) → consistent (revoke_by_user id t) ≡ consistent t
consistent-revoke_by_user id t =
    consistent-map_refresh _ t
      (record { ids = λ r. ground arith; hashes = λ r. ground arith; owners = λ r. ground arith })

-- The owner of a mailed token is there.
pub mailed_to :
    (t : Tables) (v : VerificationToken)
    → consistent t ≡ true
    → Has v t.verification_tokens
    → (u : User) × Has u t.users × (u.id ≡ v.user_id)
mailed_to t v h m =
    let i = consistent→IsConsistent t h in
    let k =
      all→Has (λ (w : VerificationToken). has_user t w.user_id) v t.verification_tokens
        i.verification_owners m in
    let (u, n, e) = any→Has (λ (w : User). w.id == v.user_id) t.users k in
    (u, n, (==_iff u.id v.user_id).0 e)

module _ ⦃env : Env⦄ where
  -- The writes of a reset meet no constraint, and a password of at most 72 bytes has a hash.
  pub replace_password-ok :
      (new_password : String) (token : VerificationToken) (user : User) (c : Conn)
      → ltb 72 (len new_password) ≡ false
      → consistent c.db ≡ true
      → (replace_password new_password token user (opened c)).0 ≡ ok tt
  unfolding replace_password hash_password commit
  replace_password-ok new_password token user c o h =
      let k =
        consistent-revoke_by_user user.id _
        ∙ (consistent-mark_used token.id (env.stored (env.now (c.draws + 1 + 1))) _
            ∙ (consistent-set_password user.id (env.hashpw new_password (env.gensalt c.draws))
                  (env.server_now (c.draws + 1)) c.db
                ∙ h)) in
      rw (o, k) refl

  -- A usable token is read, at the cost of a reading of the clock.
  pub consume-eq :
      (raw purpose : String) (error_cls : String → Exn) (c : Conn) (row : VerificationToken)
      → consistent c.db ≡ true
      → IsUsable c.db raw purpose c.draws row
      → consume_token raw purpose error_cls (opened c)
        ≡ (ok row, opened (record c { draws = c.draws + 1 }))
  consume-eq raw purpose error_cls c row h l =
      let v = (consume_token_iff raw purpose error_cls (opened c) row h).1 l in
      let (again, same) =
        consume-eq-ok raw purpose error_cls (opened c)
          (λ i. (v i, (consume_token raw purpose error_cls (opened c)).1)) in
      λ i. (v i, same i)

  reset_found :
      (raw new_password : String) (c : Conn) (row : VerificationToken) (user : User)
      → consume_token raw purpose_password_reset invalid_password_reset_token_error (opened c)
        ≡ (ok row, opened (record c { draws = c.draws + 1 }))
      → env.scalar (λ v. v.id == row.user_id) c.db.users ≡ some user
      → ltb 72 (len new_password) ≡ false
      → consistent c.db ≡ true
      → (with_session (reset_password raw new_password) c).0 ≡ ok tt
  unfolding with_session reset_password get_user
  reset_found raw new_password c row user v f o h =
      rw (v, f) (replace_password-ok new_password row user (record c { draws = c.draws + 1 }) o h)

  -- On consistent rows a password reset with a usable token and a password of at most 72 bytes
  -- always succeeds: its user exists, and no constraint stands against the commit.
  pub reset_password-IsUsable :
      (raw new_password : String) (c : Conn) (row : VerificationToken)
      → ltb 72 (len new_password) ≡ false
      → consistent c.db ≡ true
      → IsUsable c.db raw purpose_password_reset c.draws row
      → (with_session (reset_password raw new_password) c).0 ≡ ok tt
  reset_password-IsUsable raw new_password c row o h l =
      let (user, m, e) = mailed_to c.db row h l.here in
      reset_found raw new_password c row user
        (consume-eq raw purpose_password_reset invalid_password_reset_token_error c row h l)
        (find_user c.db row.user_id user h m e) o h

  -- The row that a verification of `user` leaves of another one.
  abbrev marked : User → DateTime → User → User
  marked user at u =
      if not user.is_email_verified && (u.id == user.id)
      then record u { is_email_verified = true; updated_at = at }
      else u

  -- The user that `session.refresh` reads back.
  confirm-ok :
      (token : VerificationToken) (user : User) (c : Conn)
      → consistent c.db ≡ true
      → Has user c.db.users
      → (u : User) × ((confirm token user (opened c)).0 ≡ ok u)
  unfolding confirm commit refresh_user get_user
  confirm-ok token user c h m =
      let at = env.server_now c.draws in
      let k =
        consistent-mark_used token.id (env.stored (env.now (c.draws + 1))) _
        ∙ (consistent-mark_verified user at c.db ∙ h) in
      let f =
        find_user _ user.id (marked user at user) k (Has-map (marked user at) user c.db.users m)
          (ground arith) in
      rw (k, f) (_, refl)

  verification_found :
      (raw : String) (c : Conn) (row : VerificationToken) (user : User)
      → consume_token raw purpose_email_verify invalid_verification_token_error (opened c)
        ≡ (ok row, opened (record c { draws = c.draws + 1 }))
      → env.scalar (λ v. v.id == row.user_id) c.db.users ≡ some user
      → consistent c.db ≡ true
      → Has user c.db.users
      → (u : User) × ((with_session (verify_email raw) c).0 ≡ ok u)
  unfolding with_session verify_email get_user
  verification_found raw c row user v f h m =
      let (u, k) = confirm-ok row user (record c { draws = c.draws + 1 }) h m in rw (v, f) (u, k)

  -- On consistent rows a verification with a usable token always succeeds.
  pub verify_email-IsUsable :
      (raw : String) (c : Conn) (row : VerificationToken)
      → consistent c.db ≡ true
      → IsUsable c.db raw purpose_email_verify c.draws row
      → (u : User) × ((with_session (verify_email raw) c).0 ≡ ok u)
  verify_email-IsUsable raw c row h l =
      let (user, m, e) = mailed_to c.db row h l.here in
      verification_found raw c row user
        (consume-eq raw purpose_email_verify invalid_verification_token_error c row h l)
        (find_user c.db row.user_id user h m e) h m
