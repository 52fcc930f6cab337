-- ===== src/Postgres/Tokens.antt =====
-- postgres/refresh_token_repository.go, over the table `refresh_tokens`.
use postulate.Base.{
  ℕ, suc, String, Bool, false, not, ◌||◌, Option, none, some, ◌∷◌, find, update, delete, count, ltb,
  ◌==◌, text_Eq, nat_Eq, if◌then◌else◌,
}
use postulate.Base.Result.{Reply, M}
use postulate.Domain.{RefreshToken, Session, zero_token, nil_uuid}
use postulate.Repository.{RefreshTokenRepository}
use postulate.Postgres.{
  Db, TokenRow, pg_error, Written, refused, written, execute, scan_row, unique_violation,
  foreign_key_violation, token_create, token_find, token_mark_used, token_delete_by_session,
  token_delete_by_user, token_delete_expired,
}
use postulate.Postgres.Users.{has_id, is_row}

abbrev pub has_token_id : ℕ → TokenRow → Bool
has_token_id id t = t.id == id

abbrev pub has_hash : String → TokenRow → Bool
has_hash hash t = t.token_hash == hash

abbrev pub of_user : ℕ → TokenRow → Bool
of_user id t = t.user_id == id

-- `session_id=$1` is not true of a NULL.
abbrev pub of_session : ℕ → TokenRow → Bool
of_session id t = elim t.session_id [ none ↦ false | some s ↦ s == id ]

abbrev pub has_session_id : ℕ → Session → Bool
has_session_id id s = s.id == id

-- The insert sends `t.SessionID`, which is never NULL.
abbrev pub inserted_token : RefreshToken → Db → TokenRow
inserted_token t db = record {
  id = db.uuids db.drawn;
  session_id = some t.session_id;
  user_id = t.user_id;
  token_hash = t.token_hash;
  expires_at = t.expires_at;
  used_at = none;
  created_at = db.clock;
}

-- `uuid.UUID` scans NULL as the nil UUID.
abbrev pub scanned_token : TokenRow → RefreshToken
scanned_token row = record {
  id = row.id;
  session_id = elim row.session_id [ none ↦ nil_uuid | some s ↦ s ];
  user_id = row.user_id;
  token_hash = row.token_hash;
  expires_at = row.expires_at;
  used_at = row.used_at;
  created_at = row.created_at;
}

abbrev pub scanned : Option TokenRow → Option RefreshToken
scanned none = none
scanned (some row) = some (scanned_token row)

-- INSERT INTO refresh_tokens … RETURNING id, created_at
unfoldable pub insert_token : RefreshToken → Db → Written RefreshToken
insert_token t db =
    if is_row (find (has_token_id (db.uuids db.drawn)) db.tokens)
      || is_row (find (has_hash t.token_hash) db.tokens)
    then refused (pg_error unique_violation)
    else if not (is_row (find (has_session_id t.session_id) db.sessions))
        || not (is_row (find (has_id t.user_id) db.users))
    then refused (pg_error foreign_key_violation)
    else written (record t { id = db.uuids db.drawn; created_at = db.clock })
        (record db { tokens = inserted_token t db ∷ db.tokens; drawn = suc db.drawn })

-- RefreshTokenRepo.Create
unfoldable pub create_token : RefreshToken → M Db RefreshToken
create_token t = execute token_create (insert_token t)

-- RefreshTokenRepo.FindByTokenHash
unfoldable pub find_by_token_hash : String → Db → Reply (Option RefreshToken)
find_by_token_hash hash db =
    scan_row zero_token (db.fault token_find) (scanned (find (has_hash hash) db.tokens))

abbrev pub marked : ℕ → TokenRow → TokenRow
marked at row = record row { used_at = some at }

-- RefreshTokenRepo.MarkUsed
unfoldable pub mark_used : ℕ → ℕ → M Db (Unit {0})
mark_used id at =
    execute token_mark_used
      (λ db. written tt (record db { tokens = update (has_token_id id) (marked at) db.tokens }))

-- RefreshTokenRepo.DeleteBySessionID
unfoldable pub delete_by_session_id : ℕ → M Db (Unit {0})
delete_by_session_id id =
    execute token_delete_by_session
      (λ db. written tt (record db { tokens = delete (of_session id) db.tokens }))

-- RefreshTokenRepo.DeleteByUserID
unfoldable pub delete_by_user_id : ℕ → M Db (Unit {0})
delete_by_user_id id =
    execute token_delete_by_user
      (λ db. written tt (record db { tokens = delete (of_user id) db.tokens }))

abbrev pub expires_before : ℕ → TokenRow → Bool
expires_before t row = ltb row.expires_at t

-- RefreshTokenRepo.DeleteExpired: how many rows went.
unfoldable pub delete_expired_tokens : ℕ → M Db ℕ
delete_expired_tokens before = execute token_delete_expired (λ db.
    written (count (expires_before before) db.tokens)
      (record db { tokens = delete (expires_before before) db.tokens }))

abbrev pub refresh_token_repo : RefreshTokenRepository Db
refresh_token_repo = record {
  create = create_token;
  find_by_token_hash = find_by_token_hash;
  mark_used = mark_used;
  delete_by_session_id = delete_by_session_id;
  delete_by_user_id = delete_by_user_id;
  delete_expired = delete_expired_tokens;
}
