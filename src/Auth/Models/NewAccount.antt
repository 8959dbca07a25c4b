-- ===== src/Auth/Models/NewAccount.antt =====
-- When a new user with a first provider link fits the constraints.
use hotspot_payment_gateway.Base.{
  ℕ, ◌≡◌, refl, ◌∙◌, Bool, true, false, List, [], ◌∷◌, ◌++◌, Has, any, all, all-append, any-append,
  all→Has, all_of_Has, any→Has, distinct-append_last, ◌==◌, Bool-cases, inl, inr, arith,
}
use hotspot_payment_gateway.Auth.Models.{
  User, AuthProvider, Tables, same_user_id, same_email, same_provider_id, same_provider_user,
  same_provider_account, has_tenant, has_user, consistent,
}
use hotspot_payment_gateway.Auth.Models.Constraints.{
  IsConsistent, consistent→IsConsistent, IsConsistent→consistent,
}

abbrev pub with_account : User → AuthProvider → Tables → Tables
with_account u p t = record t {
  users = t.users ++ u ∷ [];
  auth_providers = t.auth_providers ++ p ∷ [];
}

-- Neither the keys nor the address nor the outside account are in use, and the tenant is there.
pub record IsNewAccount (t : Tables) (u : User) (p : AuthProvider) : Type 0 where
  pub fresh_id : any (λ v. same_user_id v u) t.users ≡ false
  pub fresh_email : any (λ v. same_email v u) t.users ≡ false
  pub tenant : has_tenant t u.tenant_id ≡ true
  pub fresh_provider : any (λ q. same_provider_id q p) t.auth_providers ≡ false
  pub fresh_account : any (λ q. same_provider_account q p) t.auth_providers ≡ false
  pub owner : p.user_id ≡ u.id

any-none :
    {A : Type 0} (p : A → Bool) (xs : List A)
    → ((a : A) → Has a xs → p a ≡ true → ⊥)
    → any p xs ≡ false
any-none p xs h = elim (Bool-cases (any p xs)) [
  | inl k ↦ let (a, m, e) = any→Has p xs k in absurd (h a m e)
  | inr k ↦ k
]

module _ (t : Tables) (u : User) (p : AuthProvider) where
  has_user-with_account : (k : ℕ) → has_user t k ≡ true → has_user (with_account u p t) k ≡ true
  has_user-with_account k h = ground (arith, any-append (λ (v : User). v.id == k) t.users (u ∷ []))

  -- Rows that belonged to users before still do.
  owned-with_account :
      {R : Type 0} (owner : R → ℕ) (rows : List R)
      → all (λ r. has_user t (owner r)) rows ≡ true
      → all (λ r. has_user (with_account u p t) (owner r)) rows ≡ true
  owned-with_account owner rows h =
      all_of_Has (λ r. has_user (with_account u p t) (owner r)) rows
        (λ r m. has_user-with_account (owner r) (all→Has (λ r. has_user t (owner r)) r rows h m))

  has_new_user : has_user (with_account u p t) u.id ≡ true
  has_new_user = ground (arith, any-append (λ (v : User). v.id == u.id) t.users (u ∷ []))

  -- A user who is not there yet has no link.
  fresh_link :
      IsConsistent t
      → IsNewAccount t u p
      → any (λ q. same_provider_user q p) t.auth_providers ≡ false
  fresh_link h n =
      any-none (λ q. same_provider_user q p) t.auth_providers
        λ q m e.
          let k : q.user_id ≡ p.user_id = ground arith in
          let o =
            all→Has (λ (q : AuthProvider). has_user t q.user_id) q t.auth_providers
              h.provider_owners m in
          let o' : has_user t u.id ≡ true = rw (k ∙ n.owner) at o in absurd (cc (o', n.fresh_id))

  all_owned :
      all (λ (q : AuthProvider). has_user t q.user_id) t.auth_providers ≡ true
      → p.user_id ≡ u.id
      → all
          (λ (q : AuthProvider). has_user (with_account u p t) q.user_id)
          (t.auth_providers ++ p ∷ [])
        ≡ true
  all_owned h e =
      let old = owned-with_account (λ (q : AuthProvider). q.user_id) t.auth_providers h in
      let new : has_user (with_account u p t) p.user_id ≡ true = rw e has_new_user in
      rw
        (
          all-append (λ (q : AuthProvider). has_user (with_account u p t) q.user_id)
              t.auth_providers (p ∷ []),
          old,
          new,
        )
        refl

  pub consistent-with_account :
      consistent t ≡ true → IsNewAccount t u p → consistent (with_account u p t) ≡ true
  consistent-with_account h n =
      let i = consistent→IsConsistent t h in
      IsConsistent→consistent (with_account u p t) (record {
        user_ids = ground (arith, distinct-append_last same_user_id u t.users);
        emails = ground (arith, distinct-append_last same_email u t.users);
        user_tenants =
            ground (arith, all-append (λ (v : User). has_tenant t v.tenant_id) t.users (u ∷ []));
        provider_ids = ground (arith, distinct-append_last same_provider_id p t.auth_providers);
        provider_users =
            ground
              (arith, fresh_link i n, distinct-append_last same_provider_user p t.auth_providers);
        provider_accounts =
            ground (arith, distinct-append_last same_provider_account p t.auth_providers);
        provider_owners = all_owned i.provider_owners n.owner;
        refresh_ids = i.refresh_ids;
        refresh_hashes = i.refresh_hashes;
        refresh_owners = owned-with_account (λ r. r.user_id) t.refresh_tokens i.refresh_owners;
        verification_ids = i.verification_ids;
        verification_hashes = i.verification_hashes;
        verification_owners =
            owned-with_account (λ r. r.user_id) t.verification_tokens i.verification_owners;
      })

  -- Rows that are consistent with the account had no user of the address before.
  pub fresh_email_of_consistent :
      consistent (with_account u p t) ≡ true → any (λ v. same_email v u) t.users ≡ false
  fresh_email_of_consistent h =
      let i = consistent→IsConsistent (with_account u p t) h in
      let e = distinct-append_last same_email u t.users in let k = i.emails in ground arith
