-- ===== src/Auth/Resolver/InContext.antt =====
-- The resolver over repositories that run in the transaction of their context, as the program does,
-- against the resolver over tables on which transactions are single steps.
use postulate.Base.{String, not, ◌||◌, ◌≡◌, ◌==◌, text_Eq, Option, none, some, arith}
use postulate.Base.Result.{Reply}
use postulate.Base.Lifts.{Lifts, Lifts-pure, Lifts-fail, Lifts-if, Lifts-with_context, Lifts-bind}
use postulate.Domain.{User, OAuthAccount, role_platform_admin}
use postulate.Postgres.{Db}
use postulate.Postgres.Transactions.{transactor}
use postulate.Repository.{UserRepository, OAuthAccountRepository}
use postulate.Postgres.Contexts.{
  Scope, outside, query, scoped_user_repo, scoped_account_repo, scoped_transactor,
}
use postulate.Postgres.Contexts.Atomic.{IsPlace, outside-IsPlace, inside-IsPlace, transaction-Lifts}
use postulate.Auth.ProviderUser.{ProviderUser}
use postulate.Auth.Resolver.{
  BootstrapConfig, UserResolver, new_user_resolver, unless_missing, present,
  apply_bootstrap_upgrade, resolve_role_for_new_user, create_in_transaction, resolve_by_account,
  resolve_by_email, resolve_unlinked, resolve_account, resolve_or_create_user,
}

-- The resolver over repositories of one database, as cmd/api/main.go makes it, with the choice
-- between pool and transaction left in.
abbrev pub scoped_resolver :
    UserRepository Db → OAuthAccountRepository Db → BootstrapConfig → UserResolver Scope
scoped_resolver users accounts b =
    new_user_resolver (scoped_user_repo users) (scoped_account_repo accounts) scoped_transactor b

-- The same with transactions as single steps.
abbrev pub atomic_resolver :
    UserRepository Db → OAuthAccountRepository Db → BootstrapConfig → UserResolver Db
atomic_resolver users accounts b = new_user_resolver users accounts transactor b

module _ {f : Db → Scope} (place : IsPlace f) {A : Type 0} where
  present-Lifts :
      (context : String) (read : Db → Reply (Option A))
      → Lifts f (present context (query read)) (present context read)
  present-Lifts context read = record { at = λ db. ground (arith, place.reads read db) }

  unless_missing-Lifts :
      (context : String) (read : Db → Reply (Option A))
      → Lifts f (unless_missing context (query read)) (unless_missing context read)
  unless_missing-Lifts context read = record { at = λ db. ground (arith, place.reads read db) }

module _ {f : Db → Scope} (place : IsPlace f) (users : UserRepository Db)
    (accounts : OAuthAccountRepository Db) (b : BootstrapConfig) where
  upgrade-Lifts :
      (user : User)
      → Lifts f
          (apply_bootstrap_upgrade (scoped_resolver users accounts b) user)
          (apply_bootstrap_upgrade (atomic_resolver users accounts b) user)
  unfolding apply_bootstrap_upgrade
  upgrade-Lifts user =
      Lifts-if (b.admin_email == "" || not (user.email == b.admin_email)) (Lifts-pure user) (
        Lifts-if (user.role == role_platform_admin) (Lifts-pure user)
          (Lifts-bind (Lifts-with_context _ (place.writes _)) (λ done. Lifts-pure _)))

  role-Lifts :
      (email : String)
      → Lifts f
          (resolve_role_for_new_user (scoped_resolver users accounts b) email)
          (resolve_role_for_new_user (atomic_resolver users accounts b) email)
  unfolding resolve_role_for_new_user
  role-Lifts email = record { at = λ db. ground (arith, place.reads users.count_all db) }

  create-Lifts :
      (pu : ProviderUser)
      → Lifts f
          (create_in_transaction (scoped_resolver users accounts b) pu)
          (create_in_transaction (atomic_resolver users accounts b) pu)
  unfolding create_in_transaction
  create-Lifts pu = Lifts-bind (role-Lifts pu.email) (λ role.
      Lifts-bind (Lifts-with_context _ (place.writes _))
        (λ user. Lifts-bind (Lifts-with_context _ (place.writes _)) (λ account. Lifts-pure user)))

  account-Lifts :
      (pu : ProviderUser) (account : OAuthAccount)
      → Lifts f
          (resolve_by_account (scoped_resolver users accounts b) pu account)
          (resolve_by_account (atomic_resolver users accounts b) pu account)
  unfolding resolve_by_account
  account-Lifts pu account =
      Lifts-bind (present-Lifts place "find user by id" (users.find_by_id account.user_id))
        (λ user. Lifts-bind (Lifts-with_context _ (place.writes _)) (λ updated. upgrade-Lifts user))

  email-Lifts :
      (pu : ProviderUser) (found : User)
      → Lifts f
          (resolve_by_email (scoped_resolver users accounts b) pu found)
          (resolve_by_email (atomic_resolver users accounts b) pu found)
  unfolding resolve_by_email
  email-Lifts pu found =
      Lifts-bind (upgrade-Lifts found)
        (λ user. Lifts-bind (Lifts-with_context _ (place.writes _)) (λ account. Lifts-pure user))

module _ (users : UserRepository Db) (accounts : OAuthAccountRepository Db)
    (b : BootstrapConfig) where
  unlinked-Lifts :
      (pu : ProviderUser) (found : Option User)
      → Lifts outside
          (resolve_unlinked (scoped_resolver users accounts b) pu found)
          (resolve_unlinked (atomic_resolver users accounts b) pu found)
  unlinked-Lifts pu (some user) = email-Lifts outside-IsPlace users accounts b pu user
  unlinked-Lifts pu none =
      transaction-Lifts (λ base. create-Lifts (inside-IsPlace base) users accounts b pu)

  known-Lifts :
      (pu : ProviderUser) (found : Option OAuthAccount)
      → Lifts outside
          (resolve_account (scoped_resolver users accounts b) pu found)
          (resolve_account (atomic_resolver users accounts b) pu found)
  known-Lifts pu (some account) = account-Lifts outside-IsPlace users accounts b pu account
  known-Lifts pu none =
      Lifts-bind
        (unless_missing-Lifts outside-IsPlace "find user by email" (users.find_by_email pu.email))
        (unlinked-Lifts pu)

  resolve-Lifts :
      (pu : ProviderUser)
      → Lifts outside
          (resolve_or_create_user (scoped_resolver users accounts b) pu)
          (resolve_or_create_user (atomic_resolver users accounts b) pu)
  unfolding resolve_or_create_user
  resolve-Lifts pu = Lifts-if (pu.email == "") (Lifts-fail _) (
      Lifts-bind
        (unless_missing-Lifts outside-IsPlace "find oauth account"
          (accounts.find_by_provider pu.provider pu.provider_uid))
        (known-Lifts pu))

  -- Over any repositories of the tables: the resolver whose repositories run each statement in the
  -- transaction of its context, or else on the pool, and whose transactor begins, commits and rolls
  -- back, gives what the resolver gives for which a transaction is a single step, and leaves the same
  -- tables, with no transaction open.
  pub resolve-refines :
      (pu : ProviderUser) (db : Db)
      → let (result, db') = resolve_or_create_user (atomic_resolver users accounts b) pu db in
        resolve_or_create_user (scoped_resolver users accounts b) pu (outside db)
        ≡ (result, outside db')
  resolve-refines pu db = (resolve-Lifts pu).at db
