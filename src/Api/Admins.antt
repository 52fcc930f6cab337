-- ===== src/Api/Admins.antt =====
-- Who is an admin over the life of an API.
use postulate.Base.{
  false, ℕ, ◌≡◌, refl, ap, ◌∙◌, Bool, String, List, select, ◌==◌, text_Eq, arith, eq_iff,
}
use postulate.Base.Result.{M, ok}
use postulate.Base.Keeps.{Keeps}
use postulate.Domain.{
  User, UserRole, OAuthAccount, RefreshToken, role_platform_admin, role_platform_member,
  member-ne-admin,
}
use postulate.Postgres.{Db}
use postulate.Postgres.Transactions.{with_transaction-Keeps}
use postulate.Postgres.Users.{create_user, insert_user}
use postulate.Postgres.Accounts.{upsert_account, merge_account}
use postulate.Postgres.Tokens.{create_token, insert_token, delete_by_user_id}
use postulate.Auth.Resolver.{new_user, resolve_role_for_new_user}
use postulate.Auth.Resolver.Effects.{WritesKeep, resolve-Keeps}
use postulate.Startup.{bootstrap_config}
use postulate.Api.{ApiState, Api, Event, resolver, history}
use postulate.Api.Routing.{IsRouter}
use postulate.Api.Histories.{KeepsStore, history-keeps}

abbrev is_admin : User → Bool
is_admin u = u.role == role_platform_admin

-- The platform admins of the table.
abbrev pub admins : Db → List User
admins db = select is_admin db.users

-- The writes that leave the table of users as it is.
upsert-users : (a : OAuthAccount) (db : Db) → (upsert_account a db).1.users ≡ db.users
unfolding upsert_account merge_account
upsert-users a db = ground arith

create_token-users : (t : RefreshToken) (db : Db) → (create_token t db).1.users ≡ db.users
unfolding create_token insert_token
create_token-users t db = ground arith

delete-users : (id : ℕ) (db : Db) → (delete_by_user_id id db).1.users ≡ db.users
unfolding delete_by_user_id
delete-users id db = ground arith

-- A new member is no admin.
create-admins :
    (u : User) (db : Db) → u.role ≡ role_platform_member → admins (create_user u db).1 ≡ admins db
unfolding create_user insert_user select
create-admins u db member =
    let no_admin : is_admin u ≡ false =
      ground (arith, eq_iff u.role role_platform_admin, member-ne-admin) in
    ground (arith, no_admin)

module _ {E : Type 0} (api : Api E) (who : List User) where
  abbrev AdminsAre : Db → Type 0
  AdminsAre db = admins db ≡ who

  -- A write that leaves the users keeps the admins.
  same-AdminsAre :
      {A : Type 0} (m : M Db A) → ((db : Db) → (m db).1.users ≡ db.users) → Keeps AdminsAre m
  same-AdminsAre m same = record { leads = λ db h. ap (select is_admin) (same db) ∙ h }

  module _ (production : api.cfg.server.environment ≡ "production")
      (no_email : api.cfg.auth.bootstrap_admin_email ≡ "") where
    role_member :
        (email : String) (db : Db) (role : UserRole)
        → (resolve_role_for_new_user (resolver api) email db).0 ≡ ok role
        → role ≡ role_platform_member
    unfolding resolve_role_for_new_user bootstrap_config
    role_member email db role e = ground (
      arith,
      eq_iff api.cfg.server.environment "production",
      eq_iff api.cfg.auth.bootstrap_admin_email "",
    )

    writes-AdminsAre : WritesKeep AdminsAre (resolver api) (λ role. role ≡ role_platform_member)
    unfolding bootstrap_config
    writes-AdminsAre = record {
      grants = role_member;
      creates = λ pu role member. record {
        leads = λ db h. create-admins (new_user (resolver api) pu role) db member ∙ h;
      };
      raises = λ user set. absurd (set no_email);
      upserts = λ account. same-AdminsAre _ (upsert-users account);
      transacts = with_transaction-Keeps AdminsAre;
    }

    store-AdminsAre : KeepsStore api AdminsAre
    store-AdminsAre = record {
      resolves =
          resolve-Keeps AdminsAre (resolver api) (λ role. role ≡ role_platform_member)
            writes-AdminsAre;
      creates = λ t. same-AdminsAre _ (create_token-users t);
      deletes = λ user. same-AdminsAre _ (delete-users user);
      changes = λ clock fault db h. h;
    }

-- In production with no admin email configured, nobody becomes an admin, and no admin ceases to be
-- one: whatever requests an API serves, in any order, at any times, with any statements of the
-- database failing, the rows of platform admins are those that it started with; if chi routes by the
-- longest mounted prefix.
pub history-admins :
    {E : Type 0} (api : Api E) (es : List (Event E)) (s : ApiState)
    → IsRouter api
    → api.cfg.server.environment ≡ "production"
    → api.cfg.auth.bootstrap_admin_email ≡ ""
    → admins (history api es s).1.shared.store ≡ admins s.shared.store
history-admins api es s router production no_email =
    let who = admins s.shared.store in
    history-keeps api router (AdminsAre api who) (store-AdminsAre api who production no_email) es s
      refl
