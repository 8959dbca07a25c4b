-- ===== src/Core/Security.antt =====
-- src/core/security.py. bcrypt raises `ValueError` for a password of more than 72 bytes, after the
-- salt was drawn.
use Prim.Native.String.{len}
use hotspot_payment_gateway.Base.{String, Bool, ltb, if◌then◌else◌}
use hotspot_payment_gateway.Runtime.{Env}
use hotspot_payment_gateway.Auth.Session.{M, pure, raise, ◌>>=◌, draw, value_error}

module _ ⦃env : Env⦄ where
  unfoldable pub hash_password : String → M String
  hash_password password = do
    salt ← draw env.gensalt
    if ltb 72 (len password) then raise value_error else pure (env.hashpw password salt)

  unfoldable pub verify_password : String → String → M Bool
  verify_password plain_password hashed_password =
      if ltb 72 (len plain_password)
      then raise value_error
      else pure (env.checkpw plain_password hashed_password)
