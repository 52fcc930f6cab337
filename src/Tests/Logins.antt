-- ===== src/Tests/Logins.antt =====
-- Logins at work.
use postulate.Base.{Option, none, true, ◌∷◌, some, ◌≡◌, refl, some, [], ◌∷◌, find, update}
use postulate.Base.Result.{Result, Reply, ok}
use postulate.Domain.{User, role_platform_admin}
use postulate.Postgres.{Db, empty_db}
use postulate.Repository.{UserRepository, OAuthAccountRepository}
use postulate.Postgres.Users.{user_repo, find_user_by_email, find_user_by_id, update_user, set_user}
use postulate.Postgres.Accounts.{
  oauth_account_repo, find_by_provider, upsert_account, merge_account,
}
use postulate.Auth.Resolver.{apply_bootstrap_upgrade, resolve_by_account, resolve_or_create_user}
use postulate.Postgres.Contexts.{outside}
use postulate.Auth.Resolver.InContext.{scoped_resolver, atomic_resolver, resolve-refines}
use postulate.Auth.ProviderUser.{ProviderUser}
use postulate.Auth.Resolver.{BootstrapConfig}
use postulate.Auth.Resolver.History.{after_logins}
use postulate.Auth.Resolver.Roles.{Reason, resolve-Reason, resolve-admin}
use postulate.Auth.Resolver.Contract.{postgres-KeepsRole}
use postulate.Auth.Resolver.FirstLogin.{postgres_resolver}
use postulate.Tests.{ada, household, no_fallback, ada_at_github}

-- Ada logs in. Her email is the configured admin email, so she is raised.
abbrev login : Db → Result User × Db
login db = resolve_or_create_user (postgres_resolver no_fallback) ada_at_github db

abbrev ada_raised : User
ada_raised = record ada { role = role_platform_admin }

abbrev after : Db
after = (login household).1

logs_in : login household ≡ (ok ada_raised, after)
unfolding resolve_or_create_user resolve_by_account apply_bootstrap_upgrade find_by_provider
    find_user_by_id upsert_account merge_account update_user set_user find update
logs_in = refl

-- Bob, who is not linked, tries in between.
abbrev bob_at_github : ProviderUser
bob_at_github = record ada_at_github { provider_uid = "bob"; email = "bob@example.org" }

abbrev meanwhile : Db
meanwhile = after_logins no_fallback (bob_at_github ∷ []) after

abbrev again : Db
again = (login meanwhile).1

resolve-Reason_example : Reason (postgres_resolver no_fallback) ada_at_github household ada_raised
resolve-Reason_example =
    resolve-Reason (postgres_resolver no_fallback) (postgres-KeepsRole no_fallback) ada_at_github
      household after ada_raised logs_in refl

resolve-admin_example : ada_raised.role ≡ role_platform_admin
resolve-admin_example =
    resolve-admin (postgres_resolver no_fallback) (postgres-KeepsRole no_fallback) ada_at_github
      household after ada_raised logs_in refl

-- An installation of a developer.
abbrev fallback : BootstrapConfig
fallback = record { admin_email = ""; dev_fallback_enabled = true }

-- Tables whose look-ups hand out nil beside an error.
abbrev nil_beside : {A : Type 0} → Reply (Option A) → Reply (Option A)
nil_beside reply = elim reply.error [
  | none ↦ reply
  | some e ↦ record { value = none; error = some e }
]

abbrev users : UserRepository Db
users = record user_repo { find_by_email = λ email db. nil_beside (find_user_by_email email db) }

abbrev links : OAuthAccountRepository Db
links = record oauth_account_repo {
  find_by_provider = λ p q db. nil_beside (find_by_provider p q db);
}

-- A stranger on an empty database, with each statement run in its place.
resolve-refines_example :
    let (result, db) =
      resolve_or_create_user (atomic_resolver users links fallback) bob_at_github empty_db in
    resolve_or_create_user (scoped_resolver users links fallback) bob_at_github (outside empty_db)
    ≡ (result, outside db)
resolve-refines_example = resolve-refines users links fallback bob_at_github empty_db
