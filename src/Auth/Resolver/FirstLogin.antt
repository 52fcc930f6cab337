-- ===== src/Auth/Resolver/FirstLogin.antt =====
-- The resolver over the repositories of postgres, as cmd/api/main.go puts them together.
use postulate.Base.{refl, List, [], ◌∷◌, Bool, All, ◌≡◌, false, none, find, text_Eq, nat_Eq, arith}
use postulate.Base.Result.{is_ok}
use postulate.Domain.{nil_uuid}
use postulate.Postgres.{Db}
use postulate.Postgres.Users.{user_repo, has_id, find_user_by_id}
use postulate.Postgres.Accounts.{oauth_account_repo, has_provider, find_by_provider}
use postulate.Postgres.Transactions.{transactor}
use postulate.Auth.ProviderUser.{ProviderUser}
use postulate.Auth.Resolver.{
  BootstrapConfig, UserResolver, new_user_resolver, resolve_or_create_user, resolve_by_account,
}

-- The wiring of the resolver in cmd/api/main.go.
abbrev pub postgres_resolver : BootstrapConfig → UserResolver Db
postgres_resolver b = new_user_resolver user_repo oauth_account_repo transactor b

-- A login whose provider account is not in the database fails and changes nothing, whatever the
-- database holds under the email, as long as no user has the nil UUID: the pointer that comes with
-- "not found" is not nil, so the code takes it for an account.
pub unlinked_login_fails :
    (b : BootstrapConfig) (pu : ProviderUser) (db : Db)
    → find (has_provider pu.provider pu.provider_uid) db.accounts ≡ none
    → find (has_id nil_uuid) db.users ≡ none
    → (is_ok (resolve_or_create_user (postgres_resolver b) pu db).0 ≡ false)
      × ((resolve_or_create_user (postgres_resolver b) pu db).1 ≡ db)
unfolding resolve_or_create_user resolve_by_account find_by_provider find_user_by_id
unlinked_login_fails b pu db missing no_nil = ground arith

-- The outcomes of a sequence of logins, and the tables that it leaves.
abbrev pub logins : BootstrapConfig → List ProviderUser → Db → List Bool × Db
logins b [] db = ([], db)
logins b (pu ∷ pus) db =
    let (r, db') = resolve_or_create_user (postgres_resolver b) pu db in
    let (rs, db'') = logins b pus db' in (is_ok r ∷ rs, db'')

abbrev pub AllFail : List Bool → Type 0
AllFail = All (λ passed. passed ≡ false)

-- No sequence of logins ever lets anybody into an installation that has no linked account yet: every
-- login of it fails, and the tables stay as they were.
pub logins_without_accounts :
    (b : BootstrapConfig) (pus : List ProviderUser) (db : Db)
    → db.accounts ≡ []
    → find (has_id nil_uuid) db.users ≡ none
    → AllFail (logins b pus db).0 × ((logins b pus db).1 ≡ db)
unfolding find
logins_without_accounts b [] db e h = (tt, refl)
logins_without_accounts b (pu ∷ pus) db e h =
    let (failed, same) = unlinked_login_fails b pu db (rw e) h in
    let (rest, same') = logins_without_accounts b pus db e h in
    ((failed, rw same rest), rw same same')
