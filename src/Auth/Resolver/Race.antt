-- ===== src/Auth/Resolver/Race.antt =====
-- Two first logins at once. PostgresTransactor begins a transaction with the default options, so its
-- isolation is READ COMMITTED: the count of a transaction sees what others have committed by then,
-- and nothing orders it against their inserts. This is about the transaction alone: Api/Locked shows
-- that over the repositories of postgres no first login of a new installation comes that far.
use postulate.Base.{
  ℕ, suc, ◌≡◌, ◌≢◌, refl, true, false, Option, none, some, List, [], ◌∷◌, find, ◌==◌, text_Eq,
  arith, eq_iff,
}
use postulate.Base.Result.{Result, M, ok, err, pure, ◌>>=◌, with_context}
use postulate.Domain.{OAuthAccount, User, UserRole, role_platform_admin, role_platform_member}
use postulate.Postgres.{Db, empty_db, account_upsert}
use postulate.Postgres.Users.{is_row, has_id, create_user, insert_user, count_all_users}
use postulate.Postgres.Accounts.{
  has_account_id, returned_account, inserted_account, upsert_account, merge_account, has_provider,
}
use postulate.Auth.ProviderUser.{ProviderUser}
use postulate.Auth.Resolver.{
  BootstrapConfig, new_user, build_oauth_account, is_bootstrap_email, resolve_role_for_new_user,
  create_in_transaction,
}
use postulate.Auth.Resolver.FirstLogin.{postgres_resolver}

-- The second half of the transaction: what it does once the role is decided, up to its commit.
unfoldable pub store_user : BootstrapConfig → ProviderUser → UserRole → M Db User
store_user b pu role = do
  user ← with_context "create user" (create_user (new_user (postgres_resolver b) pu role))
  _ ← with_context "upsert oauth account" (upsert_account (build_oauth_account user.id pu))
  pure user

-- The two halves are the transaction.
pub create_in_transaction-store_user :
    (b : BootstrapConfig) (pu : ProviderUser) (db : Db)
    → create_in_transaction (postgres_resolver b) pu db
      ≡ (resolve_role_for_new_user (postgres_resolver b) pu.email >>= store_user b pu) db
unfolding create_in_transaction store_user
create_in_transaction-store_user b pu db = refl

-- Where a login stands: before its count, with a role decided, or committed with its user.
pub data Phase : Type 0 where
  begun : Phase
  decided : UserRole → Phase
  finished : Result User → Phase

pub record Race : Type 0 where
  pub db : Db
  pub one : Phase
  pub two : Phase

abbrev after_role : Result UserRole → Phase
after_role (ok role) = decided role
after_role (err e) = finished (err e)

-- One half of a login's transaction, on the tables as they are committed.
unfoldable pub advance : BootstrapConfig → ProviderUser → Phase → Db → Phase × Db
advance b pu begun db =
    (after_role (resolve_role_for_new_user (postgres_resolver b) pu.email db).0, db)
advance b pu (decided role) db = let (r, db') = store_user b pu role db in (finished r, db')
advance b pu (finished r) db = (finished r, db)

pub data Turn : Type 0 where
  first second : Turn

unfoldable pub turn : BootstrapConfig → ProviderUser → ProviderUser → Turn → Race → Race
turn b pu₁ pu₂ first race =
    let (p, db) = advance b pu₁ race.one race.db in record race { db = db; one = p }
turn b pu₁ pu₂ second race =
    let (p, db) = advance b pu₂ race.two race.db in record race { db = db; two = p }

unfoldable pub play : BootstrapConfig → ProviderUser → ProviderUser → List Turn → Race → Race
play b pu₁ pu₂ [] race = race
play b pu₁ pu₂ (t ∷ ts) race = play b pu₁ pu₂ ts (turn b pu₁ pu₂ t race)

abbrev pub new_installation : Race
new_installation = record { db = empty_db; one = begun; two = begun }

abbrev pub role_of : Phase → Option UserRole
role_of (finished (ok u)) = some u.role
role_of _ = none

-- The upsert of an account that is not there.
upsert-fresh :
    (a : OAuthAccount) (db : Db)
    → db.fault account_upsert ≡ none
    → find (has_provider a.provider a.provider_uid) db.accounts ≡ none
    → find (has_account_id (db.uuids db.drawn)) db.accounts ≡ none
    → is_row (find (has_id a.user_id) db.users) ≡ true
    → upsert_account a db ≡ (
      ok (returned_account a (inserted_account a db)),
      record db { accounts = inserted_account a db ∷ db.accounts; drawn = suc db.drawn },
    )
unfolding upsert_account merge_account
upsert-fresh a db f p k u = ground arith

-- Two logins on a new installation with the dev fallback, of people with different emails and
-- provider accounts, neither with the configured email.
pub record AreFirstLogins (b : BootstrapConfig) (pu₁ pu₂ : ProviderUser) : Type 0 where
  pub fallback : b.dev_fallback_enabled ≡ true
  pub emails : pu₁.email ≢ pu₂.email
  pub accounts : pu₁.provider_uid ≢ pu₂.provider_uid
  pub not_configured₁ : is_bootstrap_email (postgres_resolver b) pu₁.email ≡ false
  pub not_configured₂ : is_bootstrap_email (postgres_resolver b) pu₂.email ≡ false

module _ (b : BootstrapConfig) (pu₁ pu₂ : ProviderUser) (h : AreFirstLogins b pu₁ pu₂) where
  -- The row of a first user, and the tables after one and after both.
  abbrev row : ProviderUser → UserRole → ℕ → User
  row pu role n = record (new_user (postgres_resolver b) pu role) { id = n }

  abbrev account_row : ProviderUser → ℕ → ℕ → OAuthAccount
  account_row pu user n = record (build_oauth_account user pu) { id = n }

  abbrev after_one : Db
  after_one = record empty_db {
    users = row pu₁ role_platform_admin 1 ∷ [];
    accounts = account_row pu₁ 1 2 ∷ [];
    drawn = 2;
  }

  emails_differ : (pu₁.email == pu₂.email) ≡ false
  emails_differ = ground (arith, h.emails, eq_iff pu₁.email pu₂.email)

  store_first :
      store_user b pu₁ role_platform_admin empty_db
      ≡ (ok (row pu₁ role_platform_admin 1), after_one)
  unfolding store_user create_user insert_user upsert_account merge_account find
  store_first = refl

  count_first :
      resolve_role_for_new_user (postgres_resolver b) pu₂.email after_one
      ≡ (ok role_platform_member, after_one)
  unfolding resolve_role_for_new_user count_all_users
  count_first = ground (arith, h.fallback, h.not_configured₂)

  count_empty_first :
      resolve_role_for_new_user (postgres_resolver b) pu₁.email empty_db
      ≡ (ok role_platform_admin, empty_db)
  unfolding resolve_role_for_new_user count_all_users
  count_empty_first = ground (arith, h.fallback, h.not_configured₁)

  count_empty_second :
      resolve_role_for_new_user (postgres_resolver b) pu₂.email empty_db
      ≡ (ok role_platform_admin, empty_db)
  unfolding resolve_role_for_new_user count_all_users
  count_empty_second = ground (arith, h.fallback, h.not_configured₂)

  accounts_differ : has_provider pu₂.provider pu₂.provider_uid (account_row pu₁ 1 2) ≡ false
  accounts_differ = ground (
    arith,
    h.accounts,
    eq_iff pu₁.provider pu₂.provider,
    eq_iff pu₁.provider_uid pu₂.provider_uid,
  )

  -- The tables once the second user is in.
  abbrev after_create : UserRole → Db
  after_create role = record after_one { users = row pu₂ role 3 ∷ after_one.users; drawn = 3 }

  not_linked : find (has_provider pu₂.provider pu₂.provider_uid) after_one.accounts ≡ none
  unfolding find
  not_linked = ground (arith, accounts_differ)

  user_there : (role : UserRole) → find (has_id 3) (after_create role).users ≡ some (row pu₂ role 3)
  unfolding find
  user_there role = refl

  upsert_second :
      (role : UserRole)
      → upsert_account (build_oauth_account 3 pu₂) (after_create role) ≡ (
        ok (account_row pu₂ 3 4),
        record (after_create role) {
          accounts = account_row pu₂ 3 4 ∷ after_one.accounts;
          drawn = 4;
        },
      )
  unfolding find
  upsert_second role =
      upsert-fresh (build_oauth_account 3 pu₂) (after_create role) refl not_linked refl refl

  store_admin :
      (store_user b pu₂ role_platform_admin after_one).0 ≡ ok (row pu₂ role_platform_admin 3)
  unfolding store_user create_user insert_user find
  store_admin = rw (emails_differ, upsert_second role_platform_admin) refl

  store_member :
      (store_user b pu₂ role_platform_member after_one).0 ≡ ok (row pu₂ role_platform_member 3)
  unfolding store_user create_user insert_user find
  store_member = rw (emails_differ, upsert_second role_platform_member) refl

  -- Of two transactions that create the first users on empty tables with the dev fallback, for people
  -- with different emails and account ids, neither with the configured email, which both count before
  -- either inserts, both create platform admins.
  pub race_two_admins :
      let end = play b pu₁ pu₂ (first ∷ second ∷ first ∷ second ∷ []) new_installation in
      (role_of end.one ≡ some role_platform_admin) × (role_of end.two ≡ some role_platform_admin)
  unfolding play turn advance
  race_two_admins =
      rw (count_empty_first, count_empty_second, store_first, store_admin) (refl, refl)

  -- Of the same two transactions one after the other, the first creates a platform admin and the second
  -- a member.
  pub serial_one_admin :
      let end = play b pu₁ pu₂ (first ∷ first ∷ second ∷ second ∷ []) new_installation in
      (role_of end.one ≡ some role_platform_admin) × (role_of end.two ≡ some role_platform_member)
  unfolding play turn advance
  serial_one_admin = rw (count_empty_first, store_first, count_first, store_member) (refl, refl)
