-- ===== src/App/Interleaving/Verified.antt =====
-- A verified account stays verified, and the token of a verification is spent for good.
use hotspot_payment_gateway.Base.{String, ◌≡◌, true, Has, List}
use hotspot_payment_gateway.Runtime.{Env}
use hotspot_payment_gateway.Auth.Mail.{verify_email}
use hotspot_payment_gateway.Auth.Mail.Verify.{verify_email-used, refuse_used}
use hotspot_payment_gateway.Auth.Models.{User}
use hotspot_payment_gateway.Auth.Session.{
  Conn, ok, raised, with_session, opened, invalid_verification_token_error,
}
use hotspot_payment_gateway.Auth.Mail.{purpose_email_verify}
use hotspot_payment_gateway.App.Interleaving.{Server, Step, run_steps}
use hotspot_payment_gateway.App.Interleaving.Evolving.{run_steps-MayBecome}
use hotspot_payment_gateway.App.Interleaving.Spent.{IsUsedUp, IsUsedUp-Evolves}

module _ ⦃env : Env⦄ where
  -- A verification that succeeded returns a stored, verified user; whatever requests and calls
  -- follow, with their steps in any order, the account stays verified, and the token is refused
  -- without a change of the rows.
  pub verify_email-run_steps :
      (raw : String) (c : Conn) {user : User} {c' : Conn}
      → with_session (verify_email raw) c ≡ (ok user, c')
      → (user.is_email_verified ≡ true)
        × Has user c'.db.users
        × ((steps : List (Step env.Jwt)) (s : Server)
            → s.conn ≡ c'
            → let later = (run_steps steps s).conn in
              ((v : User) × Has v later.db.users × (v.id ≡ user.id) × (v.is_email_verified ≡ true))
              × (with_session (verify_email raw) later ≡ (
                raised (invalid_verification_token_error "Token is invalid or already used"),
                opened later,
              )))
  verify_email-run_steps raw c {user} {c'} h =
      let (verified, here, valid, row, m, hashed, meant, off) = verify_email-used raw c h in
      (
        verified,
        here,
        λ steps s e.
            let before : IsUsedUp c'.db raw purpose_email_verify = record {
              row = row;
              here = m;
              hashed = hashed;
              meant = meant;
              off = off;
              valid = valid;
            } in
            let (evolves, kept) = run_steps-MayBecome steps s in
            let after =
              IsUsedUp-Evolves s.conn.db _ raw purpose_email_verify evolves kept (rw e before) in
            let (v, n, l) = evolves.users user (rw e here) in
            (
              (v, n, l.id, l.verified verified),
              refuse_used raw (run_steps steps s).conn after.row after.valid after.here after.hashed
                  after.meant after.off,
            ),
      )
