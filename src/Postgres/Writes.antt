-- ===== src/Postgres/Writes.antt =====
-- Every write of the repositories keeps the constraints of the schema, whatever fails. The children
-- go through the writes.
pub mod Owners
pub mod Grants
use postulate.Base.{
  ℕ, suc, ◌≡◌, refl, Bool, true, ◌&&◌, not, none, List, ◌∷◌, find, update, delete, arith,
  Option-cases, inl, inr, nat_Eq,
}
use postulate.Base.Counts.{All-update, count-update}
use postulate.Domain.{User, OAuthAccount, RefreshToken, Session}
use postulate.Postgres.{
  Db, TokenRow, Statement, Written, refused, written, outcome, execute, user_soft_delete,
  token_mark_used, token_delete_by_user, token_delete_by_session, token_delete_expired,
  session_delete_expired,
}
use postulate.Postgres.Users.{
  has_id, has_email, is_row, inserted_user, insert_user, create_user, updated_user, set_user,
  update_user, deleted_user, soft_delete_user,
}
use postulate.Postgres.Accounts.{
  has_provider, inserted_account, merged_account, merge_account, upsert_account,
}
use postulate.Postgres.Tokens.{
  has_hash, has_token_id, of_user, of_session, expires_before, marked, insert_token, inserted_token,
  create_token, mark_used, delete_by_session_id, delete_by_user_id, delete_expired_tokens,
}
use postulate.Postgres.Sessions.{
  insert_session, create_session, update_last_active, revoke_session, revoke_all_for_user,
  delete_expired_sessions, cascades, session_expires_before,
}
use postulate.Postgres.Consistent.{
  IsValidUser, IsConsistent, grow-accounts, grow-tokens, insert-AreUsers, insert-Covers,
  update-AreUsers, update-Covers, delete-AreTokens, insert-AreTokens, insert-AreAccounts,
  merge-AreAccounts, found-one,
}

outcome-keeps :
    {A : Type 0} (P : Db → Type 0) (run : Written A) (db : Db)
    → P db
    → ((a : A) (db' : Db) → run ≡ written a db' → P db')
    → P (outcome db run).1
outcome-keeps P (refused e) db h k = h
outcome-keeps P (written a db') db h k = k a db' refl

-- What a statement that writes leaves behind.
pub execute-keeps :
    {A : Type 0} (P : Db → Type 0) (statement : Statement) (run : Db → Written A) (db : Db)
    → P db
    → ((a : A) (db' : Db) → run db ≡ written a db' → P db')
    → P (execute statement run db).1
execute-keeps P statement run db h k = elim (Option-cases (db.fault statement)) [
  | inr (e, f) ↦ rw (f, execute) h
  | inl f ↦ rw (f, execute) (outcome-keeps P (run db) db h k)
]
