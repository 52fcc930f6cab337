-- ===== src/Auth/Resolver.antt =====
-- auth/resolve_user.go: a user is resolved or created from the identity that an OAuth provider gave.
-- The repositories are those of any store.
pub mod FirstLogin
pub mod Effects
pub mod InContext
pub mod History
pub mod Roles
pub mod Contract
pub mod Race
use postulate.Base.{
  ℕ, String, Bool, not, ◌&&◌, ◌||◌, Option, none, some, ◌==◌, text_Eq, nat_Eq, if◌then◌else◌,
}
use postulate.Base.Result.{
  Reply, Result, M, ok, err, pure, fail, ◌>>=◌, ◌>>◌, with_context, message, wrap, panic,
  is_not_found,
}
use postulate.Domain.{
  User, UserRole, OAuthAccount, zero_user, zero_account, role_platform_admin, role_platform_member,
  status_active,
}
use postulate.Repository.{UserRepository, OAuthAccountRepository, Transactor}
use postulate.Auth.ProviderUser.{ProviderUser}

pub record BootstrapConfig : Type 0 where
  pub admin_email : String
  pub dev_fallback_enabled : Bool

pub record UserResolver (S : Type 0) : Type 0 where
  pub user_repo : UserRepository S
  pub oauth_account_repo : OAuthAccountRepository S
  pub transactor : Transactor S
  pub bootstrap : BootstrapConfig

-- NewUserResolver
abbrev pub new_user_resolver :
    {S : Type 0}
    → UserRepository S
    → OAuthAccountRepository S
    → Transactor S
    → BootstrapConfig
    → UserResolver S
new_user_resolver user_repo oauth_account_repo transactor bootstrap = record {
  user_repo = user_repo;
  oauth_account_repo = oauth_account_repo;
  transactor = transactor;
  bootstrap = bootstrap;
}

-- strPtr
abbrev pub str_ptr : String → Option String
str_ptr s = if s == "" then none else some s

-- buildOAuthAccount
abbrev pub build_oauth_account : ℕ → ProviderUser → OAuthAccount
build_oauth_account user_id pu = record zero_account {
  user_id = user_id;
  provider = pu.provider;
  provider_uid = pu.provider_uid;
  email = pu.email;
  access_token = str_ptr pu.access_token;
  refresh_token = str_ptr pu.refresh_token;
  token_expiry = some pu.token_expiry;
}

-- `if err != nil && !errors.Is(err, domain.ErrNotFound) { return …%w }`, and the pointer if not.
abbrev pub unless_missing : {S A : Type 0} → String → (S → Reply (Option A)) → M S (Option A)
unless_missing context read s = elim (read s).error [
  | none ↦ (ok (read s).value, s)
  | some e ↦ if is_not_found e then (ok (read s).value, s) else (err (wrap context e), s)
]

-- `if err != nil { return …%w }`, and the value that the pointer points to. A nil pointer with no
-- error would be dereferenced.
abbrev pub deref : {A : Type 0} → Option A → Result A
deref none = err panic
deref (some a) = ok a

abbrev pub present : {S A : Type 0} → String → (S → Reply (Option A)) → M S A
present context read s = elim (read s).error [
  | none ↦ (deref (read s).value, s)
  | some e ↦ (err (wrap context e), s)
]

module _ {S : Type 0} (r : UserResolver S) where
  -- Is the user named by the configured admin email?
  abbrev pub is_bootstrap_email : String → Bool
  is_bootstrap_email email = not (r.bootstrap.admin_email == "") && email == r.bootstrap.admin_email

  -- applyBootstrapUpgrade: it gives the user back, whose role it may have raised.
  unfoldable pub apply_bootstrap_upgrade : User → M S User
  apply_bootstrap_upgrade user =
      if r.bootstrap.admin_email == "" || not (user.email == r.bootstrap.admin_email)
      then pure user
      else if user.role == role_platform_admin
      then pure user
      else let raised = record user { role = role_platform_admin } in
        with_context "upgrade bootstrap admin role" (r.user_repo.update raised) >> pure raised

  -- The dev fallback: whoever comes first on an empty database.
  abbrev role_by_count : Reply ℕ → S → Result UserRole × S
  role_by_count count s = elim count.error [
    | some e ↦ (err (wrap "count users" e), s)
    | none ↦ (ok (if count.value == 0 then role_platform_admin else role_platform_member), s)
  ]

  -- resolveRoleForNewUser
  unfoldable pub resolve_role_for_new_user : String → M S UserRole
  resolve_role_for_new_user email s =
      if is_bootstrap_email email
      then (ok role_platform_admin, s)
      else if r.bootstrap.dev_fallback_enabled
      then role_by_count (r.user_repo.count_all s) s
      else (ok role_platform_member, s)

  abbrev pub new_user : ProviderUser → UserRole → User
  new_user pu role = record zero_user {
    email = pu.email;
    full_name = pu.name;
    role = role;
    status = status_active;
  }

  -- What runs inside the transaction for a new user.
  unfoldable pub create_in_transaction : ProviderUser → M S User
  unfolding resolve_role_for_new_user
  create_in_transaction pu = do
    role ← resolve_role_for_new_user pu.email
    user ← with_context "create user" (r.user_repo.create (new_user pu role))
    _ ←
        with_context "upsert oauth account"
          (r.oauth_account_repo.upsert (build_oauth_account user.id pu))
    pure user

  -- Case 1: the account is known.
  unfoldable pub resolve_by_account : ProviderUser → OAuthAccount → M S User
  unfolding apply_bootstrap_upgrade
  resolve_by_account pu account = do
    user ← present "find user by id" (r.user_repo.find_by_id account.user_id)
    _ ← with_context "update oauth account tokens" (
        r.oauth_account_repo.upsert (record account {
          access_token = str_ptr pu.access_token;
          refresh_token = str_ptr pu.refresh_token;
          token_expiry = some pu.token_expiry;
        }))
    apply_bootstrap_upgrade user

  -- Case 2: the email is known.
  unfoldable pub resolve_by_email : ProviderUser → User → M S User
  unfolding apply_bootstrap_upgrade
  resolve_by_email pu found = do
    user ← apply_bootstrap_upgrade found
    _ ←
        with_context "upsert oauth account"
          (r.oauth_account_repo.upsert (build_oauth_account user.id pu))
    pure user

  -- Case 3 is the transaction.
  abbrev pub resolve_unlinked : ProviderUser → Option User → M S User
  resolve_unlinked pu (some user) = resolve_by_email pu user
  resolve_unlinked pu none = r.transactor.with_transaction (create_in_transaction pu)

  abbrev pub resolve_account : ProviderUser → Option OAuthAccount → M S User
  resolve_account pu (some account) = resolve_by_account pu account
  resolve_account pu none = do
    user ← unless_missing "find user by email" (r.user_repo.find_by_email pu.email)
    resolve_unlinked pu user

  -- ResolveOrCreateUser
  unfoldable pub resolve_or_create_user : ProviderUser → M S User
  resolve_or_create_user pu =
      if pu.email == "" then fail (message "provider returned no email address") else do
        account ←
            unless_missing "find oauth account"
              (r.oauth_account_repo.find_by_provider pu.provider pu.provider_uid)
        resolve_account pu account
