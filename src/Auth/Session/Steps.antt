-- ===== src/Auth/Session/Steps.antt =====
-- Taking a successful run apart, step by step.
use hotspot_payment_gateway.Base.{◌≡◌, refl, sym, ap, true, Option, none, some, arith}
use hotspot_payment_gateway.Auth.Models.{consistent}
use hotspot_payment_gateway.Auth.Session.{
  Conn, Exn, M, opened, with_session, Result, ok, raised, continue, ◌>>=◌, commit, or_raise, view,
  unchanged,
}

module _ {ℓ κ} {A : Type ℓ} {B : Type κ} where
  pub continue-eq-ok :
      (r : Result A) (f : A → M B) (c : Conn) {b : B} {c' : Conn}
      → continue r f c ≡ (ok b, c')
      → (a : A) × (r ≡ ok a) × (f a c ≡ (ok b, c'))
  continue-eq-ok (ok a) f c h = (a, refl, h)
  continue-eq-ok (raised e) f c h = cc

  -- A chain that succeeds has a first part that does, and a rest that goes on from there.
  pub bind-eq-ok :
      (m : M A) (f : A → M B) (c : Conn) {b : B} {c' : Conn}
      → (m >>= f) c ≡ (ok b, c')
      → (a : A) × (c₁ : Conn) × (m c ≡ (ok a, c₁)) × (f a c₁ ≡ (ok b, c'))
  bind-eq-ok m f c h =
      let (r, c₁) = m c in let (a, e, k) = continue-eq-ok r f c₁ h in (a, c₁, (λ i. (e i, c₁)), k)

-- A commit that succeeds has written consistent rows.
pub commit-eq-ok :
    (c : Conn) {c' : Conn}
    → commit c ≡ (ok tt, c')
    → (consistent (view c) ≡ true) × (c' ≡ record c { db = view c; pending = unchanged })
unfolding commit
commit-eq-ok c h = ground arith

pub or_raise-eq-ok {ℓ} :
    {A : Type ℓ} (o : Option A) (e : Exn) (c : Conn) {a : A} {c' : Conn}
    → or_raise o e c ≡ (ok a, c')
    → (o ≡ some a) × (c' ≡ c)
or_raise-eq-ok none e c h = cc
or_raise-eq-ok (some a) e c h = ground arith

-- A request that succeeds, as a run of its body on an open session.
pub with_session-eq {ℓ} :
    {A : Type ℓ} (m : M A) (c : Conn) {r : Result A} {c' : Conn}
    → with_session m c ≡ (r, c')
    → (c₁ : Conn) × (m (opened c) ≡ (r, c₁)) × (c' ≡ opened c₁)
unfolding with_session
with_session-eq m c h =
    let (r, c₁) = m (opened c) in (c₁, (λ i. ((h i).0, c₁)), sym (ap (λ p. p.1) h))
