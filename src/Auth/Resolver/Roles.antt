-- ===== src/Auth/Resolver/Roles.antt =====
-- Who becomes a platform admin.
use postulate.Base.{
  eq_iff, ℕ, ◌≡◌, refl, ◌⊎◌, inl, inr, String, true, Option, none, some, arith, Option-cases,
}
use postulate.Base.Result.{M, ok, Result-cases}
use postulate.Domain.{User, OAuthAccount, role_platform_admin, member-ne-admin}
use postulate.Auth.ProviderUser.{ProviderUser}
use postulate.Auth.Resolver.{
  UserResolver, str_ptr, new_user, is_bootstrap_email, apply_bootstrap_upgrade,
  resolve_role_for_new_user, create_in_transaction, resolve_by_account, resolve_by_email,
  resolve_account, resolve_unlinked, resolve_or_create_user,
}

module _ {S : Type 0} (r : UserResolver S) where
  -- What the roles rest on in a store: a new row has the role and email that were given, and a
  -- transaction that succeeds did what its function did.
  pub record KeepsRole : Type 0 where
    pub create_role :
        (u u' : User) (s : S)
        → (r.user_repo.create u s).0 ≡ ok u'
        → (u'.role ≡ u.role) × (u'.email ≡ u.email)
    pub transaction_ok :
        (fn : M S User) (s s' : S) (u : User)
        → r.transactor.with_transaction fn s ≡ (ok u, s')
        → fn s ≡ (ok u, s')

  -- The reasons for which a login may return an admin: the user's email is the configured one; the
  -- user is, unchanged, a row that was found by id or by email; or the table was empty and the dev
  -- fallback is on.
  pub data Reason (pu : ProviderUser) (s : S) (u : User) : Type 0 where
    configured : is_bootstrap_email r u.email ≡ true → Reason pu s u
    stored_by_id : (id : ℕ) → (r.user_repo.find_by_id id s).value ≡ some u → Reason pu s u
    stored_by_email : (r.user_repo.find_by_email pu.email s).value ≡ some u → Reason pu s u
    first_user :
        r.bootstrap.dev_fallback_enabled ≡ true
        → (r.user_repo.count_all s).value ≡ 0
        → Reason pu s u

  upgrade-role :
      (u u' : User) (s s' : S)
      → apply_bootstrap_upgrade r u s ≡ (ok u', s')
      → u'.role ≡ role_platform_admin
      → (is_bootstrap_email r u'.email ≡ true) ⊎ (u ≡ u')
  unfolding apply_bootstrap_upgrade
  upgrade-role u u' s s' h e = ground arith

  upgrade-admin :
      (u u' : User) (s s' : S)
      → apply_bootstrap_upgrade r u s ≡ (ok u', s')
      → is_bootstrap_email r u'.email ≡ true
      → u'.role ≡ role_platform_admin
  unfolding apply_bootstrap_upgrade
  upgrade-admin u u' s s' h e =
      ground (arith, eq_iff u.email r.bootstrap.admin_email, eq_iff u.role role_platform_admin)

  role-cases :
      (email : String) (s s' : S)
      → resolve_role_for_new_user r email s ≡ (ok role_platform_admin, s')
      → (is_bootstrap_email r email ≡ true)
        ⊎ ((r.bootstrap.dev_fallback_enabled ≡ true) × ((r.user_repo.count_all s).value ≡ 0))
  unfolding resolve_role_for_new_user
  role-cases email s s' h = ground (arith, member-ne-admin)

  module _ (l : KeepsRole) (pu : ProviderUser) where
    by_account-Reason :
        (a : OAuthAccount) (s s' : S) (u : User)
        → resolve_by_account r pu a s ≡ (ok u, s')
        → u.role ≡ role_platform_admin
        → Reason pu s u
    unfolding resolve_by_account
    by_account-Reason a s s' u h e =
        elim (Option-cases (r.user_repo.find_by_id a.user_id s).value) [
          | inl nil ↦ absurd (ground arith)
          | inr (found, value) ↦
              let renewed = record a {
                access_token = str_ptr pu.access_token;
                refresh_token = str_ptr pu.refresh_token;
                token_expiry = some pu.token_expiry;
              } in
              let saved = (r.oauth_account_repo.upsert renewed s).1 in
              let last : apply_bootstrap_upgrade r found saved ≡ (ok u, s') = ground arith in
              elim (upgrade-role found u saved s' last e) [
                | inl email ↦ configured email
                | inr same ↦ stored_by_id a.user_id (cc)
              ]
        ]

    by_email-Reason :
        (found : User) (s s' : S) (u : User)
        → (r.user_repo.find_by_email pu.email s).value ≡ some found
        → resolve_by_email r pu found s ≡ (ok u, s')
        → u.role ≡ role_platform_admin
        → Reason pu s u
    unfolding resolve_by_email
    by_email-Reason found s s' u value h e =
        let raised : apply_bootstrap_upgrade r found s
            ≡ (ok u, (apply_bootstrap_upgrade r found s).1) =
          ground arith in
        elim (upgrade-role found u s (apply_bootstrap_upgrade r found s).1 raised e) [
          | inl email ↦ configured email
          | inr same ↦ stored_by_email (cc)
        ]

    role-state : (s : S) → (resolve_role_for_new_user r pu.email s).1 ≡ s
    unfolding resolve_role_for_new_user
    role-state s = ground arith

    create-Reason :
        (s s' : S) (u : User)
        → create_in_transaction r pu s ≡ (ok u, s')
        → u.role ≡ role_platform_admin
        → Reason pu s u
    unfolding create_in_transaction
    create-Reason s s' u h e = elim (Result-cases (resolve_role_for_new_user r pu.email s).0) [
      | inr (bad, failed) ↦ absurd (ground arith)
      | inl (role, decided) ↦
          let row = new_user r pu role in
          let s₀ = (resolve_role_for_new_user r pu.email s).1 in
          let made : (r.user_repo.create row s₀).0 ≡ ok u = ground arith in
          let kept = l.create_role row u s₀ made in
          let admin : resolve_role_for_new_user r pu.email s ≡ (ok role_platform_admin, s₀) =
            ground (arith, kept) in
          elim (role-cases pu.email s s₀ admin) [
            | inl email ↦ configured (rw kept.1 email)
            | inr (on, empty) ↦ first_user on empty
          ]
    ]

    unlinked-Reason :
        (found : Option User) (s s' : S) (u : User)
        → (r.user_repo.find_by_email pu.email s).value ≡ found
        → resolve_unlinked r pu found s ≡ (ok u, s')
        → u.role ≡ role_platform_admin
        → Reason pu s u
    unlinked-Reason (some found) s s' u value h e = by_email-Reason found s s' u value h e
    unlinked-Reason none s s' u value h e =
        create-Reason s s' u (l.transaction_ok (create_in_transaction r pu) s s' u h) e

    account-Reason :
        (account : Option OAuthAccount) (s s' : S) (u : User)
        → resolve_account r pu account s ≡ (ok u, s')
        → u.role ≡ role_platform_admin
        → Reason pu s u
    account-Reason (some a) s s' u h e = by_account-Reason a s s' u h e
    account-Reason none s s' u h e =
        unlinked-Reason (r.user_repo.find_by_email pu.email s).value s s' u refl (ground arith) e

    -- A login returns a platform admin only for one of the four reasons: the user's email is the
    -- configured admin email, the user is a stored row just as it was found by id or by email, or
    -- the table of users was empty and the dev fallback is enabled.
    pub resolve-Reason :
        (s s' : S) (u : User)
        → resolve_or_create_user r pu s ≡ (ok u, s')
        → u.role ≡ role_platform_admin
        → Reason pu s u
    unfolding resolve_or_create_user
    resolve-Reason s s' u h e =
        account-Reason (r.oauth_account_repo.find_by_provider pu.provider pu.provider_uid s).value s
          s' u (ground arith) e

    by_account-admin :
        (a : OAuthAccount) (s s' : S) (u : User)
        → resolve_by_account r pu a s ≡ (ok u, s')
        → is_bootstrap_email r u.email ≡ true
        → u.role ≡ role_platform_admin
    unfolding resolve_by_account
    by_account-admin a s s' u h e = elim (Option-cases (r.user_repo.find_by_id a.user_id s).value) [
      | inl nil ↦ absurd (ground arith)
      | inr (found, value) ↦
          let renewed = record a {
            access_token = str_ptr pu.access_token;
            refresh_token = str_ptr pu.refresh_token;
            token_expiry = some pu.token_expiry;
          } in
          upgrade-admin found u (r.oauth_account_repo.upsert renewed s).1 s' (ground arith) e
    ]

    by_email-admin :
        (found : User) (s s' : S) (u : User)
        → resolve_by_email r pu found s ≡ (ok u, s')
        → is_bootstrap_email r u.email ≡ true
        → u.role ≡ role_platform_admin
    unfolding resolve_by_email
    by_email-admin found s s' u h e =
        upgrade-admin found u s (apply_bootstrap_upgrade r found s).1 (ground arith) e

    create-admin :
        (s s' : S) (u : User)
        → create_in_transaction r pu s ≡ (ok u, s')
        → is_bootstrap_email r u.email ≡ true
        → u.role ≡ role_platform_admin
    unfolding create_in_transaction resolve_role_for_new_user
    create-admin s s' u h e = elim (Result-cases (resolve_role_for_new_user r pu.email s).0) [
      | inr (bad, failed) ↦ absurd (ground arith)
      | inl (role, decided) ↦
          let kept =
            l.create_role (new_user r pu role) u (resolve_role_for_new_user r pu.email s).1
              (ground arith) in
          ground (arith, kept)
    ]

    unlinked-admin :
        (found : Option User) (s s' : S) (u : User)
        → resolve_unlinked r pu found s ≡ (ok u, s')
        → is_bootstrap_email r u.email ≡ true
        → u.role ≡ role_platform_admin
    unlinked-admin (some found) s s' u h e = by_email-admin found s s' u h e
    unlinked-admin none s s' u h e =
        create-admin s s' u (l.transaction_ok (create_in_transaction r pu) s s' u h) e

    account-admin :
        (account : Option OAuthAccount) (s s' : S) (u : User)
        → resolve_account r pu account s ≡ (ok u, s')
        → is_bootstrap_email r u.email ≡ true
        → u.role ≡ role_platform_admin
    account-admin (some a) s s' u h e = by_account-admin a s s' u h e
    account-admin none s s' u h e =
        unlinked-admin (r.user_repo.find_by_email pu.email s).value s s' u (ground arith) e

    -- A login of the user with the configured admin email, if it succeeds, always returns a platform
    -- admin: a new user is created as one, and a member is raised.
    pub resolve-admin :
        (s s' : S) (u : User)
        → resolve_or_create_user r pu s ≡ (ok u, s')
        → is_bootstrap_email r u.email ≡ true
        → u.role ≡ role_platform_admin
    unfolding resolve_or_create_user
    resolve-admin s s' u h e =
        account-admin (r.oauth_account_repo.find_by_provider pu.provider pu.provider_uid s).value s
          s' u (ground arith) e
