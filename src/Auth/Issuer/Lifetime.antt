-- ===== src/Auth/Issuer/Lifetime.antt =====
-- How long a refresh token is good, from the moment it is issued.
use postulate.Base.{
  ℕ, suc, ◌+◌, ◌≡◌, String, none, some, ◌∷◌, find, delete, ltb, if◌then◌else◌, arith, eq_refl,
  nat_eq_refl,
}
use postulate.Base.Result.{Result, ok, err}
use postulate.Domain.{User}
use postulate.Postgres.{Db, token_find, user_find_by_id, token_delete_by_user}
use postulate.Postgres.Users.{has_id, find_user_by_id}
use postulate.Postgres.Tokens.{
  of_user, create_token, insert_token, find_by_token_hash, delete_by_user_id,
}
use postulate.Auth.Issuer.{
  Crypto, TokenResponse, refresh_token_ttl, invalid_refresh_token, issue_session_token,
  refresh_session,
}
use postulate.Auth.Issuer.Postgres.{postgres_issuer}
use postulate.Auth.Issuer.Rotation.{fresh_row}

module _ (c : Crypto) (secret : String) where
  -- What issuing leaves behind: one row more, with the hash of the refresh token that it gave.
  pub issue-eq-ok :
      (now : ℕ) (draw : Result String) (user : ℕ) (role : String) (db db' : Db) (tr : TokenResponse)
      → issue_session_token (postgres_issuer c secret) now draw user role db ≡ (ok tr, db')
      → db' ≡ record db {
        tokens = fresh_row c secret user tr.refresh_token now db ∷ db.tokens;
        drawn = suc db.drawn;
      }
  unfolding issue_session_token create_token insert_token
  issue-eq-ok now draw user role db db' tr e = ground arith

  -- A refresh with a token that was just issued to a stored user, where the first three statements
  -- do not fail, is refused if more than thirty days have passed since, and changes nothing then; and
  -- else it deletes the user's refresh tokens and issues new ones for the user's present role.
  pub refresh-issued :
      (now later again : ℕ) (draw redraw : Result String) (user : User) (role : String)
      (db db' : Db) (tr : TokenResponse)
      → issue_session_token (postgres_issuer c secret) now draw user.id role db ≡ (ok tr, db')
      → find (has_id user.id) db.users ≡ some user
      → db.fault token_find ≡ none
      → db.fault user_find_by_id ≡ none
      → db.fault token_delete_by_user ≡ none
      → refresh_session (postgres_issuer c secret) later again redraw tr.refresh_token db' ≡ (
          if ltb (now + refresh_token_ttl) later
          then (err invalid_refresh_token, db')
          else issue_session_token
              (postgres_issuer c secret)
              again
              redraw
              user.id
              user.role
              (record db' { tokens = delete (of_user user.id) db.tokens }))
  unfolding refresh_session find find_by_token_hash find_user_by_id delete_by_user_id delete
  refresh-issued now later again draw redraw user role db db' tr e u f1 f2 f3 =
      let same_hash = eq_refl (c.sha256_hex tr.refresh_token) in
      let same_user = nat_eq_refl user.id in
      rw (issue-eq-ok now draw user.id role db db' tr e) (ground (arith, same_hash, same_user))
