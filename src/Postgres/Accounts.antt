-- ===== src/Postgres/Accounts.antt =====
-- postgres/oauth_account_repository.go, over the table `oauth_accounts`.
use postulate.Base.{
  ℕ, suc, String, Bool, not, ◌&&◌, Option, none, some, List, ◌∷◌, find, update, select, ◌==◌,
  text_Eq, nat_Eq, if◌then◌else◌,
}
use postulate.Base.Result.{Reply, M}
use postulate.Domain.{OAuthAccount, zero_account}
use postulate.Repository.{OAuthAccountRepository}
use postulate.Postgres.{
  Db, pg_error, Written, refused, written, execute, scan_row, scan_rows, unique_violation,
  foreign_key_violation, account_upsert, account_find_by_provider, account_find_by_user_id,
}
use postulate.Postgres.Users.{has_id, is_row}

abbrev pub has_provider : String → String → OAuthAccount → Bool
has_provider provider uid a = a.provider == provider && a.provider_uid == uid

abbrev pub has_account_id : ℕ → OAuthAccount → Bool
has_account_id id a = a.id == id

abbrev pub inserted_account : OAuthAccount → Db → OAuthAccount
inserted_account a db = record a {
  id = db.uuids db.drawn;
  created_at = db.clock;
  updated_at = db.clock;
}

-- ON CONFLICT (provider, provider_uid) DO UPDATE: the row keeps its id, user and creation time.
abbrev pub merged_account : OAuthAccount → Db → OAuthAccount → OAuthAccount
merged_account a db row = record row {
  email = a.email;
  access_token = a.access_token;
  refresh_token = a.refresh_token;
  token_expiry = a.token_expiry;
  updated_at = db.clock;
}

abbrev pub returned_account : OAuthAccount → OAuthAccount → OAuthAccount
returned_account a row = record a {
  id = row.id;
  created_at = row.created_at;
  updated_at = row.updated_at;
}

abbrev insert_account : OAuthAccount → Db → Written OAuthAccount
insert_account a db =
    if is_row (find (has_account_id (db.uuids db.drawn)) db.accounts)
    then refused (pg_error unique_violation)
    else if not (is_row (find (has_id a.user_id) db.users))
    then refused (pg_error foreign_key_violation)
    else written (returned_account a (inserted_account a db))
        (record db { accounts = inserted_account a db ∷ db.accounts; drawn = suc db.drawn })

-- INSERT INTO oauth_accounts … ON CONFLICT … RETURNING id, created_at, updated_at
unfoldable pub merge_account : OAuthAccount → Db → Written OAuthAccount
merge_account a db = elim (find (has_provider a.provider a.provider_uid) db.accounts) [
  | none ↦ insert_account a db
  | some row ↦ written (returned_account a (merged_account a db row)) (record db {
    accounts = update (has_provider a.provider a.provider_uid) (merged_account a db) db.accounts;
    drawn = suc db.drawn;
  })
]

-- OAuthAccountRepo.Upsert
unfoldable pub upsert_account : OAuthAccount → M Db OAuthAccount
upsert_account a = execute account_upsert (merge_account a)

-- OAuthAccountRepo.FindByProvider
unfoldable pub find_by_provider : String → String → Db → Reply (Option OAuthAccount)
find_by_provider provider uid db =
    scan_row zero_account (db.fault account_find_by_provider)
      (find (has_provider provider uid) db.accounts)

-- OAuthAccountRepo.FindByUserID
unfoldable pub find_accounts_by_user_id : ℕ → Db → Reply (List OAuthAccount)
find_accounts_by_user_id id db =
    scan_rows (db.fault account_find_by_user_id) (select (λ a. a.user_id == id) db.accounts)

abbrev pub oauth_account_repo : OAuthAccountRepository Db
oauth_account_repo = record {
  upsert = upsert_account;
  find_by_provider = find_by_provider;
  find_by_user_id = find_accounts_by_user_id;
}
