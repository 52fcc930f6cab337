-- ===== src/Auth/Resolver/History.antt =====
-- Whom an account of a provider belongs to, over sequences of logins on the tables.
use postulate.Base.{
  ℕ, ◌≡◌, refl, String, none, some, List, [], ◌∷◌, find, update, arith, eq_iff, find-passes,
  Option-cases, inl, inr, nat_eq_iff,
}
use postulate.Base.Result.{ok}
use postulate.Domain.{User, OAuthAccount, nil_uuid, zero_account}
use postulate.Postgres.{Db}
use postulate.Postgres.Users.{has_id, find_user_by_id, update_user, set_user}
use postulate.Postgres.Accounts.{
  has_provider, merged_account, merge_account, upsert_account, find_by_provider,
}
use postulate.Auth.ProviderUser.{ProviderUser}
use postulate.Auth.Resolver.{
  BootstrapConfig, str_ptr, apply_bootstrap_upgrade, resolve_by_account, resolve_or_create_user,
}
use postulate.Auth.Resolver.FirstLogin.{postgres_resolver}

-- The user that the row names, or the nil UUID of the zero account that a missing row is read as.
abbrev pub holder : Db → String → String → ℕ
holder db p q = elim (find (has_provider p q) db.accounts) [ none ↦ nil_uuid | some a ↦ a.user_id ]

-- The tables after a sequence of logins.
abbrev pub after_logins : BootstrapConfig → List ProviderUser → Db → Db
after_logins b [] db = db
after_logins b (pu ∷ pus) db =
    after_logins b pus (resolve_or_create_user (postgres_resolver b) pu db).1

-- An upsert of a row that is there hands it to nobody else.
update-holder :
    (a : OAuthAccount) (db : Db) (x y p q : String) (l : List OAuthAccount)
    → holder (record db { accounts = update (has_provider x y) (merged_account a db) l }) p q
      ≡ holder (record db { accounts = l }) p q
unfolding find update
update-holder a db x y p q [] = refl
update-holder a db x y p q (b ∷ l) = ground (arith, update-holder a db x y p q l)

-- Nor does an upsert of a row that is not there and that names nobody.
upsert-holder :
    (a : OAuthAccount) (db : Db) (p q : String)
    → (find (has_provider a.provider a.provider_uid) db.accounts ≡ none → a.user_id ≡ nil_uuid)
    → holder (upsert_account a db).1 p q ≡ holder db p q
unfolding upsert_account merge_account find
upsert-holder a db p q names = ground (
  arith,
  names,
  update-holder a db a.provider a.provider_uid p q db.accounts,
  eq_iff a.provider p,
  eq_iff a.provider_uid q,
)

module _ (b : BootstrapConfig) where
  upgrade-accounts :
      (user : User) (db : Db)
      → (apply_bootstrap_upgrade (postgres_resolver b) user db).1.accounts ≡ db.accounts
  unfolding apply_bootstrap_upgrade update_user set_user
  upgrade-accounts user db = ground arith

  upgrade-id :
      (user user' : User) (db db' : Db)
      → apply_bootstrap_upgrade (postgres_resolver b) user db ≡ (ok user', db')
      → user'.id ≡ user.id
  unfolding apply_bootstrap_upgrade
  upgrade-id user user' db db' h = ground arith

  by_account-holder :
      (pu : ProviderUser) (a : OAuthAccount) (db : Db) (p q : String)
      → (find (has_provider a.provider a.provider_uid) db.accounts ≡ none → a.user_id ≡ nil_uuid)
      → holder (resolve_by_account (postgres_resolver b) pu a db).1 p q ≡ holder db p q
  unfolding resolve_by_account find_user_by_id
  by_account-holder pu a db p q names =
      let renewed = record a {
        access_token = str_ptr pu.access_token;
        refresh_token = str_ptr pu.refresh_token;
        token_expiry = some pu.token_expiry;
      } in
      elim (Option-cases (find (has_id a.user_id) db.users)) [
        | inl gone ↦ ground arith
        | inr (user, stored) ↦ ground (
          arith,
          upsert-holder renewed db p q names,
          upgrade-accounts user (upsert_account renewed db).1,
        )
      ]

  by_account-id :
      (pu : ProviderUser) (a : OAuthAccount) (db db' : Db) (u : User)
      → resolve_by_account (postgres_resolver b) pu a db ≡ (ok u, db')
      → u.id ≡ a.user_id
  unfolding resolve_by_account find_user_by_id
  by_account-id pu a db db' u h =
      let renewed = record a {
        access_token = str_ptr pu.access_token;
        refresh_token = str_ptr pu.refresh_token;
        token_expiry = some pu.token_expiry;
      } in
      elim (Option-cases (find (has_id a.user_id) db.users)) [
        | inl gone ↦ absurd (ground arith)
        | inr (user, stored) ↦ ground (
          arith,
          upgrade-id user u (upsert_account renewed db).1 db',
          find-passes (has_id a.user_id) db.users {a = user},
          nat_eq_iff user.id a.user_id,
        )
      ]

  -- A login, whether it succeeds or fails and at whatever step, hands no account to another user.
  pub resolve-holder :
      (pu : ProviderUser) (db : Db) (p q : String)
      → holder (resolve_or_create_user (postgres_resolver b) pu db).1 p q ≡ holder db p q
  unfolding resolve_or_create_user find_by_provider
  resolve-holder pu db p q =
      elim (Option-cases (find (has_provider pu.provider pu.provider_uid) db.accounts)) [
        | inl missing ↦ ground (arith, by_account-holder pu zero_account db p q (λ e. refl))
        | inr (a, stored) ↦ ground (
          arith,
          by_account-holder pu a db p q,
          find-passes (has_provider pu.provider pu.provider_uid) db.accounts {a = a},
          eq_iff a.provider pu.provider,
          eq_iff a.provider_uid pu.provider_uid,
        )
      ]

  -- And one that succeeds returns the user to whom the account belongs.
  pub resolve-id :
      (pu : ProviderUser) (db db' : Db) (u : User)
      → resolve_or_create_user (postgres_resolver b) pu db ≡ (ok u, db')
      → u.id ≡ holder db pu.provider pu.provider_uid
  unfolding resolve_or_create_user find_by_provider
  resolve-id pu db db' u h =
      elim (Option-cases (find (has_provider pu.provider pu.provider_uid) db.accounts)) [
        | inl missing ↦ ground (arith, by_account-id pu zero_account db db' u)
        | inr (a, stored) ↦ ground (arith, by_account-id pu a db db' u)
      ]
