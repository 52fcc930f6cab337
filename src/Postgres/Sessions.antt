-- ===== src/Postgres/Sessions.antt =====
-- postgres/session_repository.go, over the table `sessions`. No other part of the API calls it.
use postulate.Base.{
  ℕ, suc, String, Bool, not, ◌&&◌, ◌||◌, Option, none, some, List, [], ◌∷◌, find, update, delete,
  count, select, ltb, ◌==◌, text_Eq, nat_Eq, if◌then◌else◌, false,
}
use postulate.Base.Result.{Error, Reply, M}
use postulate.Domain.{Session, zero_session}
use postulate.Repository.{SessionRepository}
use postulate.Postgres.{
  Db, Fault, failed, map_err, TokenRow, pg_error, Written, refused, written, execute, scan_row,
  raw_err, unique_violation, foreign_key_violation, session_create, session_find,
  session_find_by_user, session_update_last_active, session_revoke, session_revoke_all,
  session_delete_expired,
}
use postulate.Postgres.Users.{has_id, is_row}
use postulate.Postgres.Tokens.{has_session_id}

-- What becomes of an INET column that is scanned into a Go string.
pub data InetText : Type 0 where
  unreadable : Fault → InetText
  reads_as : String → InetText

-- How PostgreSQL refuses a text for an INET column, if it does, and how pgx reads one of that text.
pub record Inet : Type 0 where
  pub refuses : String → Option Fault
  pub scans : String → InetText

abbrev pub has_session_hash : String → Session → Bool
has_session_hash hash s = s.token_hash == hash

abbrev store_session : Session → Db → Written Session
store_session s db =
    if is_row (find (has_session_id (db.uuids db.drawn)) db.sessions)
      || is_row (find (has_session_hash s.token_hash) db.sessions)
    then refused (pg_error unique_violation)
    else if not (is_row (find (has_id s.user_id) db.users))
    then refused (pg_error foreign_key_violation)
    else let row = record s { id = db.uuids db.drawn; created_at = db.clock } in
      written row (record db {
        sessions = record row { revoked_at = none } ∷ db.sessions;
        drawn = suc db.drawn;
      })

-- INSERT INTO sessions … RETURNING id, created_at. The ip_address is read as an INET first.
unfoldable pub insert_session : Inet → Session → Db → Written Session
insert_session inet s db = elim (inet.refuses s.ip_address) [
  | some e ↦ refused e
  | none ↦ store_session s db
]

-- SessionRepo.Create
unfoldable pub create_session : Inet → Session → M Db Session
create_session inet s = execute session_create (insert_session inet s)

-- Scan, column after column: when the ip_address cannot be scanned, only those before it are set.
abbrev scan_session : (Fault → Error) → Inet → Session → Reply Session
scan_session reported inet row = elim (inet.scans row.ip_address) [
  | reads_as text ↦ record { value = record row { ip_address = text }; error = none }
  | unreadable e ↦ record {
    value = record zero_session { id = row.id; user_id = row.user_id; token_hash = row.token_hash };
    error = some (reported e);
  }
]

abbrev scan_found : Inet → Option Session → Reply (Option Session)
scan_found inet none = scan_row zero_session none none
scan_found inet (some row) =
    let s = scan_session (λ e. map_err (failed e)) inet row in
    record { value = some s.value; error = s.error }

-- SessionRepo.FindByTokenHash
unfoldable pub find_session_by_token_hash : Inet → String → Db → Reply (Option Session)
find_session_by_token_hash inet hash db = elim (db.fault session_find) [
  | some e ↦ scan_row zero_session (some e) none
  | none ↦ scan_found inet (find (has_session_hash hash) db.sessions)
]

-- The first row that cannot be scanned ends the loop with a nil slice.
scan_sessions : Inet → List Session → Reply (List Session)
scan_sessions inet [] = record { value = []; error = none }
scan_sessions inet (row ∷ rows) =
    let s = scan_session raw_err inet row in
    let rest = scan_sessions inet rows in
    elim s.error [
      | some e ↦ record { value = []; error = some e }
      | none ↦ elim rest.error [
        | some e ↦ record { value = []; error = some e }
        | none ↦ record { value = s.value ∷ rest.value; error = none }
      ]
    ]

-- SessionRepo.FindByUserID: the driver's error is passed on as it is.
unfoldable pub find_sessions_by_user_id : Inet → ℕ → Db → Reply (List Session)
unfolding scan_sessions
find_sessions_by_user_id inet id db = elim (db.fault session_find_by_user) [
  | some e ↦ record { value = []; error = some (raw_err e) }
  | none ↦ scan_sessions inet (select (λ s. s.user_id == id) db.sessions)
]

abbrev active_at : ℕ → Session → Session
active_at at s = record s { last_active_at = at }

-- SessionRepo.UpdateLastActive
unfoldable pub update_last_active : ℕ → ℕ → M Db (Unit {0})
update_last_active id at = execute session_update_last_active (λ db.
    written tt (record db { sessions = update (has_session_id id) (active_at at) db.sessions }))

abbrev pub is_live : Session → Bool
is_live s = not (is_row s.revoked_at)

abbrev pub revoked : Db → Session → Session
revoked db s = record s { revoked_at = some db.clock }

-- SessionRepo.Revoke: a session that is revoked keeps its time.
unfoldable pub revoke_session : ℕ → M Db (Unit {0})
revoke_session id = execute session_revoke (λ db. written tt (record db {
  sessions = update (λ s. has_session_id id s && is_live s) (revoked db) db.sessions;
}))

-- SessionRepo.RevokeAllForUser
unfoldable pub revoke_all_for_user : ℕ → M Db (Unit {0})
revoke_all_for_user id = execute session_revoke_all (λ db. written tt (record db {
  sessions = update (λ s. (s.user_id == id) && is_live s) (revoked db) db.sessions;
}))

abbrev pub session_expires_before : ℕ → Session → Bool
session_expires_before t s = ltb s.expires_at t

-- Does the row refer to a session that is to go? Then ON DELETE CASCADE takes it too.
abbrev pub cascades : ℕ → List Session → TokenRow → Bool
cascades before sessions row = elim row.session_id [
  | none ↦ false
  | some id ↦ is_row (find (λ s. has_session_id id s && session_expires_before before s) sessions)
]

-- SessionRepo.DeleteExpired
unfoldable pub delete_expired_sessions : ℕ → M Db ℕ
delete_expired_sessions before = execute session_delete_expired (λ db.
    written (count (session_expires_before before) db.sessions) (record db {
      sessions = delete (session_expires_before before) db.sessions;
      tokens = delete (cascades before db.sessions) db.tokens;
    }))

abbrev pub session_repo : Inet → SessionRepository Db
session_repo inet = record {
  create = create_session inet;
  find_by_token_hash = find_session_by_token_hash inet;
  find_by_user_id = find_sessions_by_user_id inet;
  update_last_active = update_last_active;
  revoke = revoke_session;
  revoke_all_for_user = revoke_all_for_user;
  delete_expired = delete_expired_sessions;
}
