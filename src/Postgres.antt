-- ===== src/Postgres.antt =====
-- The tables of api/internal/migrate/migrations as they are after every migration, and the parts
-- that the repositories of api/internal/repository/postgres share (common.go).
-- The children have one repository each, and the transactor.
pub mod Users
pub mod Accounts
pub mod Tokens
pub mod Sessions
pub mod Transactions
pub mod Contexts
pub mod Consistent
pub mod Writes
pub mod Histories
pub mod RowOrder
use postulate.Base.{
  ℕ, suc, ◌+◌, String, Bool, true, false, ◌||◌, Option, none, some, List, [], ◌==◌, text_Eq, nat_Eq,
  if◌then◌else◌,
}
use postulate.Base.Result.{Error, Result, Reply, M, ok, err, not_found, conflict, driver}
use postulate.Domain.{User, OAuthAccount, RefreshToken, Session, nil_uuid}

-- How a statement fails: a PostgreSQL error with its SQLSTATE, or anything else, such as a lost
-- connection.
pub data Fault : Type 0 where
  pg_error : String → Fault
  broken : String → Fault

-- What the driver reports: no row, or that the statement failed.
pub data DriverError : Type 0 where
  no_rows : DriverError
  failed : Fault → DriverError

-- One name for each statement that the repositories send, and for the two ends of a transaction.
pub data Statement : Type 0 where
  user_create user_find_by_id user_find_by_email user_update user_soft_delete : Statement
  user_count_all account_upsert account_find_by_provider account_find_by_user_id : Statement
  token_create token_find token_mark_used token_delete_by_session token_delete_by_user : Statement
  token_delete_expired session_create session_find session_find_by_user : Statement
  session_update_last_active session_revoke session_revoke_all session_delete_expired : Statement
  begin commit : Statement

-- A row of refresh_tokens. `session_id` may be NULL, which scans into the nil UUID.
pub record TokenRow : Type 0 where
  pub id : ℕ
  pub session_id : Option ℕ
  pub user_id : ℕ
  pub token_hash : String
  pub expires_at : ℕ
  pub used_at : Option ℕ
  pub created_at : ℕ

-- `clock` is NOW(), `uuids` what gen_random_uuid() returns, one after the other, and `drawn` how
-- many were taken. `fault` is the failure that the environment has in store for each statement.
pub record Db : Type 0 where
  pub users : List User
  pub accounts : List OAuthAccount
  pub tokens : List TokenRow
  pub sessions : List Session
  pub clock : ℕ
  pub uuids : ℕ → ℕ
  pub drawn : ℕ
  pub fault : Statement → Option Fault

abbrev pub unique_violation : String
unique_violation = "23505"

abbrev pub foreign_key_violation : String
foreign_key_violation = "23503"

abbrev pub check_violation : String
check_violation = "23514"

-- `mapErr` on an error that is not nil.
abbrev pub map_err : DriverError → Error
map_err no_rows = not_found
map_err (failed (pg_error code)) = if code == unique_violation then conflict else driver code
map_err (failed (broken text)) = driver text

-- A driver's error that is passed on as it is.
abbrev pub raw_err : Fault → Error
raw_err (pg_error code) = driver code
raw_err (broken text) = driver text

-- `Scan` into `zero`, and `return v, mapErr(err)`: the pointer is never nil.
abbrev pub scan_row : {A : Type 0} → A → Option Fault → Option A → Reply (Option A)
scan_row zero (some e) row = record { value = some zero; error = some (map_err (failed e)) }
scan_row zero none none = record { value = some zero; error = some (map_err no_rows) }
scan_row zero none (some a) = record { value = some a; error = none }

-- The rows of a query. The slice is nil if the query fails.
abbrev pub scan_rows : {A : Type 0} → Option Fault → List A → Reply (List A)
scan_rows (some e) rows = record { value = []; error = some (map_err (failed e)) }
scan_rows none rows = record { value = rows; error = none }

-- A statement that writes: it fails and changes nothing, or gives its result and the new tables.
pub data Written (A : Type 0) : Type 0 where
  refused : Fault → Written A
  written : A → Db → Written A

abbrev pub outcome : {A : Type 0} → Db → Written A → Result A × Db
outcome db (refused e) = (err (map_err (failed e)), db)
outcome db (written a db') = (ok a, db')

abbrev pub execute : {A : Type 0} → Statement → (Db → Written A) → M Db A
execute statement run db = elim (db.fault statement) [
  | some e ↦ (err (map_err (failed e)), db)
  | none ↦ outcome db (run db)
]

-- A new installation, where nothing fails.
abbrev pub empty_db : Db
empty_db = record {
  users = [];
  accounts = [];
  tokens = [];
  sessions = [];
  clock = 0;
  uuids = suc;
  drawn = 0;
  fault = λ _. none;
}
