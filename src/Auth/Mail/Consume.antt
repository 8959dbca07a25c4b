-- ===== src/Auth/Mail/Consume.antt =====
-- When `_consume_token` accepts a verification or reset token, and how it refuses one.
use text.Mathlib.Text.{◌==◌ as str_eq}
use text.Mathlib.TextEquality.{eq_iff}
use hotspot_payment_gateway.Base.{
  subst, ==_refl, ◌==◌, Has-map, if◌then◌else◌, ℕ, ◌≤◌, String, ◌≡◌, ◌≢◌, refl, sym, ap, ◌∙◌, ◌↔◌,
  true, false, Option, none, some, Has, ◌+◌, ◌&&◌, arith,
}
use hotspot_payment_gateway.Runtime.{Env, DateTime}
use hotspot_payment_gateway.Runtime.Lookup.{scalar-eq, scalar-eq-none}
use hotspot_payment_gateway.Auth.Models.{VerificationToken, Tables, consistent}
use hotspot_payment_gateway.Auth.Models.Constraints.{verification-eq_of_hash}
use hotspot_payment_gateway.Auth.Session.{Conn, Exn, view, ok, raised}
use hotspot_payment_gateway.Auth.Refresh.Validity.{instant}
use hotspot_payment_gateway.Auth.Mail.{is_used, mark_used, check_token, consume_token}
use hotspot_payment_gateway.Auth.Tokens.{hash_token}

-- The row of a token once it is used.
abbrev pub used : DateTime → VerificationToken → VerificationToken
used at v = record v { used_at = some at }

-- A row that was marked is still there, used.
pub Has-mark_used :
    (row : VerificationToken) (at : DateTime) (t : Tables)
    → Has row t.verification_tokens
    → Has (used at row) (mark_used row.id at t).verification_tokens
Has-mark_used row at t m =
    subst (λ b. Has (if b then used at row else row) (mark_used row.id at t).verification_tokens)
      (==_refl row.id)
      (Has-map (λ v. if v.id == row.id then used at v else v) row t.verification_tokens m)

module _ ⦃env : Env⦄ where
  -- `row` is stored for the raw token and the purpose, unused, and has not expired at the n-th
  -- reading.
  pub record IsUsable (t : Tables) (raw purpose : String) (n : ℕ) (row : VerificationToken)
      : Type 0 where
    pub here : Has row t.verification_tokens
    pub hashed : row.token_hash ≡ hash_token raw
    pub meant : row.purpose ≡ purpose
    pub unused : is_used row ≡ false
    pub unexpired : env.now n ≤ instant row.expires_at

  check_usable :
      (error_cls : String → Exn) (row : VerificationToken) (c : Conn)
      → is_used row ≡ false
      → env.now c.draws ≤ instant row.expires_at
      → (check_token error_cls (some row) c).0 ≡ ok row
  unfolding check_token
  check_usable error_cls row c a u = ground arith

  check-eq-ok :
      (error_cls : String → Exn) (found : Option VerificationToken) (c : Conn)
      {row : VerificationToken} {c' : Conn}
      → check_token error_cls found c ≡ (ok row, c')
      → (found ≡ some row)
        × (is_used row ≡ false)
        × (env.now c.draws ≤ instant row.expires_at)
        × (c' ≡ record c { draws = c.draws + 1 })
  unfolding check_token
  check-eq-ok error_cls none c h = cc
  check-eq-ok error_cls (some row) c h = ground arith

  both_inv : {s t u v : String} → (str_eq s t && str_eq u v) ≡ true → (s ≡ t) × (u ≡ v)
  both_inv {s} {t} {u} {v} h =
      let a : str_eq s t ≡ true = ground arith in
      let b : str_eq u v ≡ true = ground arith in ((eq_iff s t).0 a, (eq_iff u v).0 b)

  -- An accepted token is usable, and only the clock was read.
  pub consume-eq-ok :
      (raw purpose : String) (error_cls : String → Exn) (c : Conn) {row : VerificationToken}
      {c' : Conn}
      → consume_token raw purpose error_cls c ≡ (ok row, c')
      → IsUsable (view c) raw purpose c.draws row × (c' ≡ record c { draws = c.draws + 1 })
  unfolding consume_token
  consume-eq-ok raw purpose error_cls c {row} h =
      let (found, unused, fresh, same) = check-eq-ok error_cls _ c h in
      let (m, k) = env.scalar-some _ (view c).verification_tokens _ found in
      let (a, b) = both_inv k in
      (record { here = m; hashed = a; meant = b; unused = unused; unexpired = fresh }, same)

  both : {s t u v : String} → s ≡ t → u ≡ v → (str_eq s t && str_eq u v) ≡ true
  both {s} {t} {u} {v} h k = rw ((eq_iff s t).1 h, (eq_iff u v).1 k) refl

  find_token :
      (raw purpose : String) (t : Tables) (row : VerificationToken)
      → consistent t ≡ true
      → Has row t.verification_tokens
      → row.token_hash ≡ hash_token raw
      → row.purpose ≡ purpose
      → env.scalar
          (λ v. str_eq v.token_hash (hash_token raw) && str_eq v.purpose purpose)
          t.verification_tokens
        ≡ some row
  find_token raw purpose t row h m e p =
      scalar-eq _ t.verification_tokens row m (both e p)
        λ s n k. verification-eq_of_hash t h s row n m ((both_inv k).0 ∙ sym e)

  -- On consistent rows _consume_token returns a row exactly if it is stored for the raw token and
  -- the purpose, unused and not expired.
  pub consume_token_iff :
      (raw purpose : String) (error_cls : String → Exn) (c : Conn) (row : VerificationToken)
      → consistent (view c) ≡ true
      → ((consume_token raw purpose error_cls c).0 ≡ ok row)
        ↔ IsUsable (view c) raw purpose c.draws row
  unfolding consume_token
  consume_token_iff raw purpose error_cls c row h = (
    λ e.
        (consume-eq-ok raw purpose error_cls c
          (λ i. (e i, (consume_token raw purpose error_cls c).1))).0,
    λ l.
        rw (find_token raw purpose (view c) row h l.here l.hashed l.meant)
          (check_usable error_cls row c l.unused l.unexpired),
  )

  -- A used token is refused, for as long as its row is there.
  pub consume_used :
      (raw purpose : String) (error_cls : String → Exn) (c : Conn) (row : VerificationToken)
      → consistent (view c) ≡ true
      → Has row (view c).verification_tokens
      → row.token_hash ≡ hash_token raw
      → row.purpose ≡ purpose
      → is_used row ≡ true
      → consume_token raw purpose error_cls c
        ≡ (raised (error_cls "Token is invalid or already used"), c)
  unfolding consume_token check_token
  consume_used raw purpose error_cls c row h m e p k =
      rw (find_token raw purpose (view c) row h m e p, k) refl

  -- On consistent rows a stored token is refused for every purpose other than its own, and nothing
  -- changes.
  pub consume_other_purpose :
      (raw purpose : String) (error_cls : String → Exn) (c : Conn) (row : VerificationToken)
      → consistent (view c) ≡ true
      → Has row (view c).verification_tokens
      → row.token_hash ≡ hash_token raw
      → row.purpose ≢ purpose
      → consume_token raw purpose error_cls c
        ≡ (raised (error_cls "Token is invalid or already used"), c)
  unfolding consume_token check_token
  consume_other_purpose raw purpose error_cls c row h m e p =
      rw
        (scalar-eq-none _ (view c).verification_tokens λ s n k.
          let (a, b) = both_inv k in
          p (
            ap (λ v. v.purpose) (sym (verification-eq_of_hash (view c) h s row n m (a ∙ sym e)))
            ∙ b))
        refl
