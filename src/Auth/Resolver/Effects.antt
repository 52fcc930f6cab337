-- ===== src/Auth/Resolver/Effects.antt =====
-- What a login can do to the store: whatever each write keeps, the whole login keeps.
use postulate.Base.{
  String, ◌≡◌, ◌≢◌, ◌==◌, text_Eq, ◌||◌, not, Option, none, some, arith, eq_iff, Bool-cases,
  Option-cases, inl, inr,
}
use postulate.Base.Result.{Reply, M, ok, is_not_found}
use postulate.Base.Keeps.{
  Keeps, Keeps-fail, Keeps-either, Keeps-pure, Keeps-bind, Keeps-bind_given, Keeps-with_context,
  keeps_rules,
}
use postulate.Domain.{User, UserRole, OAuthAccount, role_platform_admin}
use postulate.Auth.ProviderUser.{ProviderUser}
use postulate.Auth.Resolver.{
  UserResolver, unless_missing, present, apply_bootstrap_upgrade, resolve_role_for_new_user,
  new_user, create_in_transaction, resolve_by_account, resolve_by_email, resolve_unlinked,
  resolve_account, resolve_or_create_user,
}

module _ {S A : Type 0} {P : S → Type 0} where
  Keeps-unless_missing :
      (context : String) (read : S → Reply (Option A)) → Keeps P (unless_missing context read)
  Keeps-unless_missing context read = record {
    leads = λ s h. elim (Option-cases (read s).error) [
      | inl fine ↦ rw (fine, unless_missing) h
      | inr (e, failed) ↦ elim (Bool-cases (is_not_found e)) [
        | inl missing ↦ rw (failed, missing, unless_missing) h
        | inr other ↦ rw (failed, other, unless_missing) h
      ]
    ];
  }

  Keeps-present : (context : String) (read : S → Reply (Option A)) → Keeps P (present context read)
  Keeps-present context read = record {
    leads = λ s h. elim (Option-cases (read s).error) [
      | inl fine ↦ rw (fine, present) h
      | inr (e, failed) ↦ rw (failed, present) h
    ];
  }

module _ {S : Type 0} (P : S → Type 0) (r : UserResolver S) (Grants : UserRole → Type 0) where
  -- What is asked of the writes: a user is created with a role that is granted, and updated only to
  -- be an admin, if an admin email is configured.
  pub record WritesKeep : Type 0 where
    pub grants :
        (email : String) (s : S) (role : UserRole)
        → (resolve_role_for_new_user r email s).0 ≡ ok role
        → Grants role
    pub creates :
        (pu : ProviderUser) (role : UserRole)
        → Grants role
        → Keeps P (r.user_repo.create (new_user r pu role))
    pub raises :
        (user : User)
        → r.bootstrap.admin_email ≢ ""
        → Keeps P (r.user_repo.update (record user { role = role_platform_admin }))
    pub upserts : (account : OAuthAccount) → Keeps P (r.oauth_account_repo.upsert account)
    pub transacts : (fn : M S User) → Keeps P fn → Keeps P (r.transactor.with_transaction fn)

  module _ (w : WritesKeep) where
    upgrade-Keeps : (user : User) → Keeps P (apply_bootstrap_upgrade r user)
    unfolding apply_bootstrap_upgrade
    upgrade-Keeps user =
        Keeps-either (r.bootstrap.admin_email == "" || not (user.email == r.bootstrap.admin_email))
          (λ e.
            Keeps-either (user.role == role_platform_admin)
              (λ f.
                Keeps-bind _ _
                  (Keeps-with_context _ _ (
                    w.raises user
                      (λ none_set. absurd (ground (arith, e, eq_iff r.bootstrap.admin_email "")))))
                  (λ done. Keeps-pure _))
              (λ f. Keeps-pure user))
          (λ e. Keeps-pure user)

    role_same : (email : String) (s : S) → (resolve_role_for_new_user r email s).1 ≡ s
    unfolding resolve_role_for_new_user
    role_same email s = ground arith

    role-Keeps : (email : String) → Keeps P (resolve_role_for_new_user r email)
    role-Keeps email = record { leads = λ s h. rw (role_same email s) h }

    create-Keeps : (pu : ProviderUser) → Keeps P (create_in_transaction r pu)
    unfolding create_in_transaction
    create-Keeps pu = Keeps-bind_given _ _ (role-Keeps pu.email) (λ role s e.
        Keeps-bind _ _ (Keeps-with_context _ _ (w.creates pu role (w.grants pu.email s role e)))
          (λ user. search (keeps_rules, w.upserts)))

    account-Keeps :
        (pu : ProviderUser) (account : OAuthAccount) → Keeps P (resolve_by_account r pu account)
    unfolding resolve_by_account
    account-Keeps pu account = search (keeps_rules, Keeps-present, w.upserts, upgrade-Keeps)

    email-Keeps : (pu : ProviderUser) (found : User) → Keeps P (resolve_by_email r pu found)
    unfolding resolve_by_email
    email-Keeps pu found = search (keeps_rules, w.upserts, upgrade-Keeps)

    unlinked-Keeps :
        (pu : ProviderUser) (found : Option User) → Keeps P (resolve_unlinked r pu found)
    unlinked-Keeps pu none = w.transacts _ (create-Keeps pu)
    unlinked-Keeps pu (some user) = email-Keeps pu user

    known-Keeps :
        (pu : ProviderUser) (found : Option OAuthAccount) → Keeps P (resolve_account r pu found)
    known-Keeps pu (some account) = account-Keeps pu account
    known-Keeps pu none =
        Keeps-bind _ _
          (Keeps-unless_missing "find user by email" (r.user_repo.find_by_email pu.email))
          (unlinked-Keeps pu)

    pub resolve-Keeps : (pu : ProviderUser) → Keeps P (resolve_or_create_user r pu)
    unfolding resolve_or_create_user
    resolve-Keeps pu =
        Keeps-either (pu.email == "")
          (λ e.
            Keeps-bind _ _
              (Keeps-unless_missing "find oauth account"
                (r.oauth_account_repo.find_by_provider pu.provider pu.provider_uid))
              (known-Keeps pu))
          (λ e. Keeps-fail _)
