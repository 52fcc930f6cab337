-- ===== src/Auth/Issuer/Postgres.antt =====
-- The token issuer over the repositories of postgres, as cmd/api/main.go puts them together.
use postulate.Base.{[], ℕ, ◌≡◌, ◌≤◌, String, false, none, some, find, delete, arith}
use postulate.Base.Result.{Result, is_ok}
use postulate.Domain.{User, nil_uuid}
use postulate.Postgres.{Db, TokenRow, token_find, user_find_by_id, token_delete_by_user}
use postulate.Postgres.Users.{user_repo, has_id, find_user_by_id}
use postulate.Postgres.Tokens.{
  refresh_token_repo, has_session_id, of_user, has_hash, create_token, insert_token,
  find_by_token_hash, delete_by_user_id,
}
use postulate.Auth.Issuer.{
  Crypto, TokenIssuer, new_token_issuer, issue_session_token, refresh_session,
}

-- The wiring of the issuer in cmd/api/main.go.
abbrev pub postgres_issuer : Crypto → String → TokenIssuer Db
postgres_issuer c secret = new_token_issuer c secret refresh_token_repo user_repo

-- Unless a session row has the nil UUID, no session token is ever issued and no table changes: the
-- refresh token is stored with the nil UUID for its session, which the foreign key refuses.
pub issue_without_session_fails :
    (c : Crypto) (secret : String) (now : ℕ) (draw : Result String) (user : ℕ) (role : String)
    (db : Db)
    → find (has_session_id nil_uuid) db.sessions ≡ none
    → (is_ok (issue_session_token (postgres_issuer c secret) now draw user role db).0 ≡ false)
      × ((issue_session_token (postgres_issuer c secret) now draw user role db).1 ≡ db)
unfolding issue_session_token create_token insert_token
issue_without_session_fails c secret now draw user role db h = ground arith

-- Unless a session row has the nil UUID, a refresh with a good token of a stored user, none of whose
-- first three statements fails, fails all the same and not cleanly: every refresh token of the user
-- is deleted, and no new one takes their place.
pub refresh_loses_tokens :
    (c : Crypto) (secret : String) (now issued : ℕ) (draw : Result String) (raw : String) (db : Db)
    (row : TokenRow) (user : User)
    → find (has_session_id nil_uuid) db.sessions ≡ none
    → find (has_hash (c.sha256_hex raw)) db.tokens ≡ some row
    → now ≤ row.expires_at
    → row.used_at ≡ none
    → find (has_id row.user_id) db.users ≡ some user
    → db.fault token_find ≡ none
    → db.fault user_find_by_id ≡ none
    → db.fault token_delete_by_user ≡ none
    → (is_ok (refresh_session (postgres_issuer c secret) now issued draw raw db).0 ≡ false)
      × ((refresh_session (postgres_issuer c secret) now issued draw raw db).1
          ≡ record db { tokens = delete (of_user row.user_id) db.tokens })
unfolding refresh_session find_by_token_hash find_user_by_id delete_by_user_id create_token
    insert_token
refresh_loses_tokens c secret now issued draw raw db row user h t e u w f1 f2 f3 = ground arith

-- With no refresh token stored, every refresh fails and changes nothing.
pub refresh_without_tokens_fails :
    (c : Crypto) (secret : String) (now issued : ℕ) (draw : Result String) (raw : String) (db : Db)
    → db.tokens ≡ []
    → (is_ok (refresh_session (postgres_issuer c secret) now issued draw raw db).0 ≡ false)
      × ((refresh_session (postgres_issuer c secret) now issued draw raw db).1 ≡ db)
unfolding refresh_session find_by_token_hash find
refresh_without_tokens_fails c secret now issued draw raw db none_stored = ground arith
