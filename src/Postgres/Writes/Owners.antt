-- ===== src/Postgres/Writes/Owners.antt =====
-- Writes of users and OAuth accounts keep the constraints.
use postulate.Base.{
  ℕ, suc, ◌≡◌, refl, true, ◌&&◌, not, none, ◌∷◌, find, update, arith, Option-cases, inl, inr,
  nat_Eq,
}
use postulate.Base.Counts.{All-update, count-update}
use postulate.Domain.{User, OAuthAccount}
use postulate.Postgres.{Db, written, execute, user_soft_delete}
use postulate.Postgres.Users.{
  has_id, has_email, is_row, inserted_user, insert_user, create_user, updated_user, set_user,
  update_user, deleted_user, soft_delete_user,
}
use postulate.Postgres.Accounts.{
  has_provider, inserted_account, merged_account, merge_account, upsert_account,
}
use postulate.Postgres.Consistent.{
  IsValidUser, IsConsistent, grow-accounts, grow-tokens, insert-AreUsers, insert-Covers,
  update-AreUsers, update-Covers, insert-AreAccounts, merge-AreAccounts, found-one,
}
use postulate.Postgres.Writes.{execute-keeps}

insert_user-written :
    (u u' : User) (db db' : Db)
    → insert_user u db ≡ written u' db'
    → IsConsistent db
    → IsConsistent db'
unfolding insert_user
insert_user-written u u' db db' e h =
    let new : find (has_id (db.uuids db.drawn)) db.users ≡ none = ground arith in
    let fresh : find (has_email u.email) db.users ≡ none = ground arith in
    let valid : IsValidUser u = (ground arith, ground arith) in
    let same : db' ≡ record db { users = inserted_user u db ∷ db.users; drawn = suc db.drawn } =
      ground arith in
    let covers = insert-Covers (inserted_user u db) db.users new in
    rw same (record {
      users = insert-AreUsers (inserted_user u db) db.users new fresh valid h.users;
      accounts = grow-accounts db.users _ db.accounts covers h.accounts;
      tokens = grow-tokens db.users _ db.tokens covers h.tokens;
    })

-- UserRepo.Create keeps the constraints.
pub create_user-IsConsistent :
    (u : User) (db : Db) → IsConsistent db → IsConsistent (create_user u db).1
unfolding create_user
create_user-IsConsistent u db h =
    execute-keeps IsConsistent _ (insert_user u) db h
      (λ u' db' e. insert_user-written u u' db db' e h)

set_user-written :
    (u : User) (done : Unit {0}) (db db' : Db)
    → set_user u db ≡ written done db'
    → IsConsistent db
    → IsConsistent db'
unfolding set_user
set_user-written u done db db' e h = elim (Option-cases (find (has_id u.id) db.users)) [
  | inl missing ↦ let same : db' ≡ db = ground arith in rw same h
  | inr (row, found) ↦
      let alone : find (λ row. has_email u.email row && not (has_id u.id row)) db.users ≡ none =
        ground arith in
      let valid : IsValidUser u = (ground arith, ground arith) in
      let same : db' ≡ record db { users = update (has_id u.id) (updated_user u db) db.users } =
        ground arith in
      let covers = update-Covers (has_id u.id) (updated_user u db) db.users (λ id row. refl) in
      rw same (record {
        users = update-AreUsers u db alone valid h.users;
        accounts = grow-accounts db.users _ db.accounts covers h.accounts;
        tokens = grow-tokens db.users _ db.tokens covers h.tokens;
      })
]

pub update_user-IsConsistent :
    (u : User) (db : Db) → IsConsistent db → IsConsistent (update_user u db).1
unfolding update_user
update_user-IsConsistent u db h =
    execute-keeps IsConsistent _ (set_user u) db h (λ d db' e. set_user-written u d db db' e h)

pub soft_delete-IsConsistent :
    (id : ℕ) (db : Db) → IsConsistent db → IsConsistent (soft_delete_user id db).1
unfolding soft_delete_user
soft_delete-IsConsistent id db h = elim (Option-cases (db.fault user_soft_delete)) [
  | inr (e, f) ↦ rw (f, execute) h
  | inl f ↦
      let covers = update-Covers (has_id id) (deleted_user db) db.users (λ i row. refl) in
      rw (f, execute)
        (record {
          users = record {
            ids = λ i.
                rw (count-update (has_id i) (has_id id) (deleted_user db) db.users (λ row. refl))
                  (h.users.ids i);
            emails = λ email.
                rw
                  (count-update (has_email email) (has_id id) (deleted_user db) db.users
                    (λ row. refl))
                  (h.users.emails email);
            checked =
                All-update IsValidUser (has_id id) (deleted_user db) db.users (λ row k. k)
                  h.users.checked;
          };
          accounts = grow-accounts db.users _ db.accounts covers h.accounts;
          tokens = grow-tokens db.users _ db.tokens covers h.tokens;
        })
]

merge_account-written :
    (a a' : OAuthAccount) (db db' : Db)
    → merge_account a db ≡ written a' db'
    → IsConsistent db
    → IsConsistent db'
unfolding merge_account
merge_account-written a a' db db' e h =
    elim (Option-cases (find (has_provider a.provider a.provider_uid) db.accounts)) [
      | inr (row, found) ↦
          let same : db' ≡ record db {
            accounts =
                update (has_provider a.provider a.provider_uid) (merged_account a db) db.accounts;
            drawn = suc db.drawn;
          } =
            ground arith in
          rw same (record {
            users = h.users;
            accounts =
                merge-AreAccounts a db db.users db.accounts a.provider a.provider_uid h.accounts;
            tokens = h.tokens;
          })
      | inl fresh ↦
          let user : is_row (find (has_id a.user_id) db.users) ≡ true = ground arith in
          let same : db'
              ≡ record db { accounts = inserted_account a db ∷ db.accounts; drawn = suc db.drawn } =
            ground arith in
          rw same (record {
            users = h.users;
            accounts =
                insert-AreAccounts (inserted_account a db) db.users db.accounts fresh
                  (found-one db.users a.user_id h.users user) h.accounts;
            tokens = h.tokens;
          })
    ]

pub upsert_account-IsConsistent :
    (a : OAuthAccount) (db : Db) → IsConsistent db → IsConsistent (upsert_account a db).1
unfolding upsert_account
upsert_account-IsConsistent a db h =
    execute-keeps IsConsistent _ (merge_account a) db h
      (λ a' db' e. merge_account-written a a' db db' e h)
