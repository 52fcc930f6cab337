-- ===== src/Auth/Issuer/Rotation.antt =====
-- Rotation and revocation of refresh tokens, over the tables of postgres.
use postulate.Base.{
  ℕ, suc, ◌+◌, ◌≤◌, ◌≡◌, ◌≢◌, String, false, none, some, List, ◌∷◌, find, delete, arith, eq_iff,
  nat_eq_iff, Option-cases, inl, inr, find-passes,
}
use postulate.Base.Counts.{find-delete_only, find-delete_kept}
use postulate.Base.Result.{Result, ok, is_ok}
use postulate.Domain.{User}
use postulate.Postgres.{Db, TokenRow}
use postulate.Postgres.Users.{has_id, find_user_by_id}
use postulate.Postgres.Tokens.{
  of_user, has_hash, inserted_token, create_token, insert_token, find_by_token_hash,
  delete_by_user_id,
}
use postulate.Postgres.Consistent.{IsConsistent}
use postulate.Auth.Issuer.{
  Crypto, TokenResponse, TokenIssuer, jwt_ttl, stored_token, refresh_session, revoke_all_sessions,
}
use postulate.Auth.Issuer.Postgres.{postgres_issuer}

module _ (c : Crypto) (secret : String) where
  abbrev issuer : TokenIssuer Db
  issuer = postgres_issuer c secret

  -- The row of the new refresh token, and the tables after the rotation.
  abbrev pub fresh_row : ℕ → String → ℕ → Db → TokenRow
  fresh_row user raw issued db =
      inserted_token (stored_token issuer user (c.sha256_hex raw) issued) db

  abbrev pub rotated : ℕ → String → ℕ → Db → Db
  rotated user raw issued db = record db {
    tokens = fresh_row user raw issued db ∷ delete (of_user user) db.tokens;
    drawn = suc db.drawn;
  }

  find-cons_other :
      (t : TokenRow) (ts : List TokenRow) (raw : String)
      → t.token_hash ≢ c.sha256_hex raw
      → find (has_hash (c.sha256_hex raw)) ts ≡ none
      → find (has_hash (c.sha256_hex raw)) (t ∷ ts) ≡ none
  unfolding find
  find-cons_other t ts raw d h = ground (arith, eq_iff t.token_hash (c.sha256_hex raw))

  find-cons_kept :
      (t : TokenRow) (ts : List TokenRow) (raw : String) (row : TokenRow)
      → t.token_hash ≢ c.sha256_hex raw
      → find (has_hash (c.sha256_hex raw)) ts ≡ some row
      → find (has_hash (c.sha256_hex raw)) (t ∷ ts) ≡ some row
  unfolding find
  find-cons_kept t ts raw row d h = ground (arith, eq_iff t.token_hash (c.sha256_hex raw))

  missing_fails :
      (now issued : ℕ) (draw : Result String) (raw : String) (db : Db)
      → find (has_hash (c.sha256_hex raw)) db.tokens ≡ none
      → is_ok (refresh_session issuer now issued draw raw db).0 ≡ false
  unfolding refresh_session find_by_token_hash
  missing_fails now issued draw raw db h = ground arith

  stranger_fails :
      (now issued : ℕ) (draw : Result String) (raw : String) (db : Db) (row : TokenRow)
      → find (has_hash (c.sha256_hex raw)) db.tokens ≡ some row
      → find (has_id row.user_id) db.users ≡ none
      → is_ok (refresh_session issuer now issued draw raw db).0 ≡ false
  unfolding refresh_session find_by_token_hash find_user_by_id
  stranger_fails now issued draw raw db row h u = ground arith

  refresh-eq-ok :
      (now issued : ℕ) (draw : Result String) (raw : String) (db db' : Db) (tr : TokenResponse)
      (row : TokenRow) (user : User)
      → find (has_hash (c.sha256_hex raw)) db.tokens ≡ some row
      → find (has_id row.user_id) db.users ≡ some user
      → refresh_session issuer now issued draw raw db ≡ (ok tr, db')
      → (now ≤ row.expires_at)
        × (row.used_at ≡ none)
        × (tr.role ≡ user.role)
        × (tr.expires_at ≡ issued + jwt_ttl)
        × (db' ≡ rotated row.user_id tr.refresh_token issued db)
  unfolding refresh_session find_by_token_hash find_user_by_id delete_by_user_id create_token
      insert_token
  refresh-eq-ok now issued draw raw db db' tr row user h u e = (
    ground arith,
    ground arith,
    ground arith,
    ground arith,
    ground (
      arith,
      find-passes (has_id row.user_id) db.users {a = user},
      nat_eq_iff user.id row.user_id,
    ),
  )

  -- A refresh that succeeds was given a stored token that is unused and has not expired, of a user
  -- that is stored. The answer carries that user's present role and ends eight hours later, and of
  -- the tables only the tokens change: all of the user's go, and one with the hash of the new token
  -- and thirty days to live takes their place.
  pub refresh-rotates :
      (now issued : ℕ) (draw : Result String) (raw : String) (db db' : Db) (tr : TokenResponse)
      → refresh_session issuer now issued draw raw db ≡ (ok tr, db')
      → (row : TokenRow) × (user : User) × (find (has_hash (c.sha256_hex raw)) db.tokens ≡ some row)
        × (find (has_id row.user_id) db.users ≡ some user)
        × (now ≤ row.expires_at)
        × (row.used_at ≡ none)
        × (tr.role ≡ user.role)
        × (tr.expires_at ≡ issued + jwt_ttl)
        × (db' ≡ rotated row.user_id tr.refresh_token issued db)
  refresh-rotates now issued draw raw db db' tr e =
      elim (Option-cases (find (has_hash (c.sha256_hex raw)) db.tokens)) [
        | inl missing ↦ absurd (ground (arith, missing_fails now issued draw raw db missing))
        | inr (row, h) ↦ elim (Option-cases (find (has_id row.user_id) db.users)) [
          | inl gone ↦ absurd (ground (arith, stranger_fails now issued draw raw db row h gone))
          | inr (user, u) ↦
              let (t, n, r, x, d) = refresh-eq-ok now issued draw raw db db' tr row user h u e in
              (row, user, h, u, t, n, r, x, d)
        ]
      ]

  -- After a refresh of consistent tables that succeeds, no refresh token that the user had before is good any more, the one that was
  -- used among them, unless its hash is that of the new token.
  pub rotation_ends :
      (now issued later again : ℕ) (draw draw' : Result String) (raw other : String) (db db' : Db)
      (tr : TokenResponse) (row old : TokenRow)
      → IsConsistent db
      → refresh_session issuer now issued draw raw db ≡ (ok tr, db')
      → find (has_hash (c.sha256_hex raw)) db.tokens ≡ some row
      → find (has_hash (c.sha256_hex other)) db.tokens ≡ some old
      → old.user_id ≡ row.user_id
      → c.sha256_hex tr.refresh_token ≢ c.sha256_hex other
      → is_ok (refresh_session issuer later again draw' other db').0 ≡ false
  rotation_ends now issued later again draw draw' raw other db db' tr row old k e h o same differs =
      let (row', user, h', u, t, n, r, x, d) = refresh-rotates now issued draw raw db db' tr e in
      let found : row' ≡ row = ground arith in
      let gone =
        find-delete_only (has_hash (c.sha256_hex other)) (of_user row'.user_id) db.tokens old o
          (ground (arith, nat_eq_iff old.user_id row'.user_id))
          (k.tokens.hashes (c.sha256_hex other)) in
      rw d (
        missing_fails later again draw' other _ (
          find-cons_other (fresh_row row'.user_id tr.refresh_token issued db) _ other differs gone))

  -- A refresh that succeeds keeps every refresh token of another user as it was, unless its hash is
  -- that of the new token.
  pub rotation_keeps :
      (now issued : ℕ) (draw : Result String) (raw other : String) (db db' : Db)
      (tr : TokenResponse) (row theirs : TokenRow)
      → refresh_session issuer now issued draw raw db ≡ (ok tr, db')
      → find (has_hash (c.sha256_hex raw)) db.tokens ≡ some row
      → find (has_hash (c.sha256_hex other)) db.tokens ≡ some theirs
      → theirs.user_id ≢ row.user_id
      → c.sha256_hex tr.refresh_token ≢ c.sha256_hex other
      → find (has_hash (c.sha256_hex other)) db'.tokens ≡ some theirs
  rotation_keeps now issued draw raw other db db' tr row theirs e h o apart differs =
      let (row', user, h', u, t, n, r, x, d) = refresh-rotates now issued draw raw db db' tr e in
      let found : row' ≡ row = ground arith in
      let kept =
        find-delete_kept (has_hash (c.sha256_hex other)) (of_user row'.user_id) db.tokens theirs o
          (ground (arith, nat_eq_iff theirs.user_id row'.user_id)) in
      rw d (
        find-cons_kept (fresh_row row'.user_id tr.refresh_token issued db) _ other theirs differs
          kept)

  revoked :
      (user : ℕ) (db db' : Db)
      → revoke_all_sessions issuer user db ≡ (ok tt, db')
      → db'.tokens ≡ delete (of_user user) db.tokens
  unfolding revoke_all_sessions delete_by_user_id
  revoked user db db' e = ground arith

  -- After a revocation on consistent tables that succeeds, no refresh token that the user had is good any more.
  pub revocation_ends :
      (user later again : ℕ) (draw : Result String) (other : String) (db db' : Db) (old : TokenRow)
      → IsConsistent db
      → revoke_all_sessions issuer user db ≡ (ok tt, db')
      → find (has_hash (c.sha256_hex other)) db.tokens ≡ some old
      → old.user_id ≡ user
      → is_ok (refresh_session issuer later again draw other db').0 ≡ false
  revocation_ends user later again draw other db db' old k e o mine =
      missing_fails later again draw other db' (
        rw (revoked user db db' e) (
          find-delete_only (has_hash (c.sha256_hex other)) (of_user user) db.tokens old o
            (ground (arith, nat_eq_iff old.user_id user)) (k.tokens.hashes (c.sha256_hex other))))

  -- A revocation that succeeds keeps each refresh token of another user as it was.
  pub revocation_keeps :
      (user : ℕ) (other : String) (db db' : Db) (old : TokenRow)
      → revoke_all_sessions issuer user db ≡ (ok tt, db')
      → find (has_hash (c.sha256_hex other)) db.tokens ≡ some old
      → old.user_id ≢ user
      → find (has_hash (c.sha256_hex other)) db'.tokens ≡ some old
  revocation_keeps user other db db' old e o apart = rw (revoked user db db' e) (
      find-delete_kept (has_hash (c.sha256_hex other)) (of_user user) db.tokens old o
        (ground (arith, nat_eq_iff old.user_id user)))
