-- ===== src/Postgres/Histories.antt =====
-- Sequences of writes of the repositories.
use postulate.Base.{ℕ, Option, List, [], ◌∷◌, count, arith}
use postulate.Domain.{User, OAuthAccount, RefreshToken, Session}
use postulate.Postgres.{Db, Statement, Fault, empty_db}
use postulate.Postgres.Users.{create_user, update_user, soft_delete_user}
use postulate.Postgres.Accounts.{upsert_account}
use postulate.Postgres.Tokens.{
  create_token, mark_used, delete_by_session_id, delete_by_user_id, delete_expired_tokens,
}
use postulate.Postgres.Sessions.{
  Inet, create_session, update_last_active, revoke_session, revoke_all_for_user,
  delete_expired_sessions,
}
use postulate.Postgres.Consistent.{IsConsistent}
use postulate.Postgres.Writes.Owners.{
  create_user-IsConsistent, update_user-IsConsistent, soft_delete-IsConsistent,
  upsert_account-IsConsistent,
}
use postulate.Postgres.Writes.Grants.{
  create_token-IsConsistent, mark_used-IsConsistent, delete_by_user_id-IsConsistent,
  delete_by_session_id-IsConsistent, delete_expired-IsConsistent,
  delete_expired_sessions-IsConsistent, create_session-IsConsistent,
  update_last_active-IsConsistent, revoke_session-IsConsistent, revoke_all-IsConsistent,
}

-- One write of a repository, or a change of what surrounds the database.
pub data Write : Type 0 where
  user_creates user_updates : User → Write
  user_soft_deletes : ℕ → Write
  account_upserts : OAuthAccount → Write
  token_creates : RefreshToken → Write
  token_marks_used : ℕ → ℕ → Write
  tokens_of_session_go tokens_of_user_go tokens_before_go : ℕ → Write
  session_creates : Inet → Session → Write
  session_becomes_active : ℕ → ℕ → Write
  session_is_revoked sessions_of_user_are_revoked sessions_before_go : ℕ → Write
  surroundings : ℕ → (Statement → Option Fault) → Write

unfoldable pub perform : Write → Db → Db
perform (user_creates u) db = (create_user u db).1
perform (user_updates u) db = (update_user u db).1
perform (user_soft_deletes id) db = (soft_delete_user id db).1
perform (account_upserts a) db = (upsert_account a db).1
perform (token_creates t) db = (create_token t db).1
perform (token_marks_used id at) db = (mark_used id at db).1
perform (tokens_of_session_go id) db = (delete_by_session_id id db).1
perform (tokens_of_user_go id) db = (delete_by_user_id id db).1
perform (tokens_before_go t) db = (delete_expired_tokens t db).1
perform (sessions_before_go t) db = (delete_expired_sessions t db).1
perform (session_creates inet s) db = (create_session inet s db).1
perform (session_becomes_active id at) db = (update_last_active id at db).1
perform (session_is_revoked id) db = (revoke_session id db).1
perform (sessions_of_user_are_revoked id) db = (revoke_all_for_user id db).1
perform (surroundings clock fault) db = record db { clock = clock; fault = fault }

perform-IsConsistent : (w : Write) (db : Db) → IsConsistent db → IsConsistent (perform w db)
unfolding perform
perform-IsConsistent (user_creates u) db h = create_user-IsConsistent u db h
perform-IsConsistent (user_updates u) db h = update_user-IsConsistent u db h
perform-IsConsistent (user_soft_deletes id) db h = soft_delete-IsConsistent id db h
perform-IsConsistent (account_upserts a) db h = upsert_account-IsConsistent a db h
perform-IsConsistent (token_creates t) db h = create_token-IsConsistent t db h
perform-IsConsistent (token_marks_used id at) db h = mark_used-IsConsistent id at db h
perform-IsConsistent (tokens_of_session_go id) db h = delete_by_session_id-IsConsistent id db h
perform-IsConsistent (tokens_of_user_go id) db h = delete_by_user_id-IsConsistent id db h
perform-IsConsistent (tokens_before_go t) db h = delete_expired-IsConsistent t db h
perform-IsConsistent (sessions_before_go t) db h = delete_expired_sessions-IsConsistent t db h
perform-IsConsistent (session_creates inet s) db h = create_session-IsConsistent inet s db h
perform-IsConsistent (session_becomes_active id at) db h =
    update_last_active-IsConsistent id at db h
perform-IsConsistent (session_is_revoked id) db h = revoke_session-IsConsistent id db h
perform-IsConsistent (sessions_of_user_are_revoked id) db h = revoke_all-IsConsistent id db h
perform-IsConsistent (surroundings clock fault) db h = record {
  users = h.users;
  accounts = h.accounts;
  tokens = h.tokens;
}

unfoldable pub perform_all : List Write → Db → Db
perform_all [] db = db
perform_all (w ∷ ws) db = perform_all ws (perform w db)

perform_all-keeps : (ws : List Write) (db : Db) → IsConsistent db → IsConsistent (perform_all ws db)
unfolding perform_all
perform_all-keeps [] db h = h
perform_all-keeps (w ∷ ws) db h = perform_all-keeps ws (perform w db) (perform-IsConsistent w db h)

empty-IsConsistent : IsConsistent empty_db
unfolding count
empty-IsConsistent = record {
  users = record { ids = λ _. omega arith; emails = λ _. omega arith; checked = tt };
  accounts = record { keys = λ _ _. omega arith; owned = tt };
  tokens = record { hashes = λ _. omega arith; held = tt };
}

-- From a new installation on, after any writes of the repositories in any order, with any of their
-- statements failing and whatever UUIDs are drawn: user ids and emails are unique and every user
-- has a listed role and status, provider accounts and token hashes are unique, and every account
-- and refresh token belongs to exactly one user of the table.
pub perform_all-IsConsistent :
    (ws : List Write) (uuids : ℕ → ℕ)
    → IsConsistent (perform_all ws (record empty_db { uuids = uuids }))
perform_all-IsConsistent ws uuids = perform_all-keeps ws _ (record {
  users = empty-IsConsistent.users;
  accounts = empty-IsConsistent.accounts;
  tokens = empty-IsConsistent.tokens;
})
