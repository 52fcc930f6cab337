-- ===== src/Auth/Issuer/Race.antt =====
-- Two refreshes with one token at once. RefreshSession runs outside of a transaction, so what another
-- request does between its look-ups and its deletion goes unnoticed.
use postulate.Base.{
  ℕ, suc, ◌+◌, ◌≤◌, ◌≡◌, refl, String, Bool, true, none, some, List, [], ◌∷◌, find, delete, arith,
  nat_eq_refl, find-passes, nat_eq_iff,
}
use postulate.Base.Counts.{find-delete-none}
use postulate.Base.Result.{Result, M, ok, err, pure, ◌>>=◌, ◌>>◌, with_context}
use postulate.Domain.{User, RefreshToken, nil_uuid}
use postulate.Postgres.{
  Db, TokenRow, Statement, token_find, user_find_by_id, token_delete_by_user, token_create,
}
use postulate.Postgres.Users.{has_id, is_row, find_user_by_id}
use postulate.Postgres.Tokens.{
  has_hash, has_token_id, has_session_id, of_user, scanned_token, create_token, insert_token,
  find_by_token_hash, delete_by_user_id,
}
use postulate.Auth.Issuer.{
  jwt_ttl, claims_of, Crypto, TokenIssuer, TokenResponse, found_or, check_token,
  issue_session_token, refresh_session,
}
use postulate.Auth.Issuer.Postgres.{postgres_issuer}
use postulate.Auth.Issuer.Rotation.{rotated}

module _ {S : Type 0} (ti : TokenIssuer S) where
  -- The look-ups and checks of RefreshSession: the token, and its user.
  look_up : ℕ → String → M S (RefreshToken × User)
  look_up now raw_token = do
    rt ←
        found_or "invalid refresh token"
          (ti.refresh_repo.find_by_token_hash (ti.crypto.sha256_hex raw_token))
    check_token ti now rt
    user ← found_or "user not found" (ti.user_repo.find_by_id rt.user_id)
    pure (rt, user)

  -- The deletion, and the new tokens.
  replace : ℕ → Result String → RefreshToken × User → M S TokenResponse
  unfolding issue_session_token
  replace issued draw (rt, user) = do
    with_context "rotate refresh token" (ti.refresh_repo.delete_by_user_id rt.user_id)
    issue_session_token ti issued draw user.id user.role

  -- The two halves are the refresh.
  refresh-halves :
      (now issued : ℕ) (draw : Result String) (raw : String) (s : S)
      → refresh_session ti now issued draw raw s ≡ (look_up now raw >>= replace issued draw) s
  unfolding refresh_session look_up replace
  refresh-halves now issued draw raw s = ground arith

-- Where a refresh stands.
pub data Phase : Type 0 where
  asked : Phase
  checked : RefreshToken × User → Phase
  answered : Result TokenResponse → Phase

-- What a request brings: when it is checked and answered, and what the random source gives it.
pub record Attempt : Type 0 where
  pub now : ℕ
  pub issued : ℕ
  pub draw : Result String

abbrev after_look_up : Result (RefreshToken × User) → Phase
after_look_up (ok grant) = checked grant
after_look_up (err e) = answered (err e)

-- One half of a refresh.
advance : TokenIssuer Db → String → Attempt → Phase → Db → Phase × Db
unfolding look_up replace
advance ti raw a asked db = let (r, db') = look_up ti a.now raw db in (after_look_up r, db')
advance ti raw a (checked grant) db =
    let (r, db') = replace ti a.issued a.draw grant db in (answered r, db')
advance ti raw a (answered r) db = (answered r, db)

pub record Race : Type 0 where
  pub db : Db
  pub one : Phase
  pub two : Phase

pub data Turn : Type 0 where
  first second : Turn

pub play : TokenIssuer Db → String → Attempt → Attempt → List Turn → Race → Race
unfolding advance
play ti raw a b [] race = race
play ti raw a b (first ∷ ts) race =
    let (p, db) = advance ti raw a race.one race.db in
    play ti raw a b ts (record race { db = db; one = p })
play ti raw a b (second ∷ ts) race =
    let (p, db) = advance ti raw b race.two race.db in
    play ti raw a b ts (record race { db = db; two = p })

-- Tables in which a user has a good refresh token, and in which another can be stored.
pub record IsGood (c : Crypto) (db : Db) (raw : String) (row : TokenRow) (user : User)
    : Type 0 where
  pub stored : find (has_hash (c.sha256_hex raw)) db.tokens ≡ some row
  pub unused : row.used_at ≡ none
  pub owner : find (has_id row.user_id) db.users ≡ some user
  pub session : is_row (find (has_session_id nil_uuid) db.sessions) ≡ true
  pub faultless : (statement : Statement) → db.fault statement ≡ none

-- What the signer and the random source give to an attempt.
pub record IsServed (c : Crypto) (secret : String) (a : Attempt) (user : User) (raw token : String)
    : Type 0 where
  pub drawn : a.draw ≡ ok raw
  pub signed :
      c.sign secret (claims_of (postgres_issuer c secret) user.id user.role a.issued) ≡ ok token

module _ (c : Crypto) (secret : String) where
  abbrev issuer : TokenIssuer Db
  issuer = postgres_issuer c secret

  look_up-ok :
      (now : ℕ) (raw : String) (db : Db) (row : TokenRow) (user : User)
      → IsGood c db raw row user
      → now ≤ row.expires_at
      → look_up issuer now raw db ≡ (ok (scanned_token row, user), db)
  unfolding look_up find_by_token_hash find_user_by_id
  look_up-ok now raw db row user g t =
      ground
        (arith, g.stored, g.unused, g.owner, g.faultless token_find, g.faultless user_find_by_id)

  abbrev pub answer_to : Attempt → User → String → String → TokenResponse
  answer_to a user raw token = record {
    token = token;
    refresh_token = raw;
    expires_at = a.issued + jwt_ttl;
    role = user.role;
  }

  replace-ok :
      (a : Attempt) (raw token : String) (db : Db) (row : TokenRow) (user : User)
      → IsServed c secret a user raw token
      → ((statement : Statement) → db.fault statement ≡ none)
      → is_row (find (has_session_id nil_uuid) db.sessions) ≡ true
      → find (has_id user.id) db.users ≡ some user
      → user.id ≡ row.user_id
      → find (has_token_id (db.uuids db.drawn)) (delete (of_user user.id) db.tokens) ≡ none
      → find (has_hash (c.sha256_hex raw)) (delete (of_user user.id) db.tokens) ≡ none
      → replace issuer a.issued a.draw (scanned_token row, user) db
        ≡ (ok (answer_to a user raw token), rotated c secret user.id raw a.issued db)
  unfolding replace issue_session_token delete_by_user_id create_token insert_token
  replace-ok a raw token db row user served f s u same i h =
      ground (arith, served.drawn, served.signed, f token_delete_by_user, f token_create)

  owner_id :
      (db : Db) (raw : String) (row : TokenRow) (user : User)
      → IsGood c db raw row user
      → user.id ≡ row.user_id
  owner_id db raw row user g = ground (
    arith,
    find-passes (has_id row.user_id) db.users {a = user},
    g.owner,
    nat_eq_iff user.id row.user_id,
  )

  -- What the first of two replacements has stored, the second deletes: what was new stays new.
  find-delete-rotated :
      (p : TokenRow → Bool) (user : ℕ) (raw : String) (issued : ℕ) (db : Db)
      → find p db.tokens ≡ none
      → find p (delete (of_user user) (rotated c secret user raw issued db).tokens) ≡ none
  unfolding delete
  find-delete-rotated p user raw issued db h =
      let once = find-delete-none p (of_user user) db.tokens h in
      let twice = find-delete-none p (of_user user) _ once in
      ground (arith, nat_eq_refl user, twice)

  -- Two refreshes with one unused token of a stored user, each of which looks it up before the other
  -- deletes it, are both answered with new tokens, and of the user's refresh tokens that of the second
  -- is left: where the token has not expired at either check, a session has the nil UUID, no statement
  -- fails, the signer signs and the random source gives for both, and the ids and the hashes of the new
  -- tokens are not in the table.
  pub race_two_refreshes :
      (a b : Attempt) (raw raw_a raw_b token_a token_b : String) (db : Db) (row : TokenRow)
      (user : User)
      → IsGood c db raw row user
      → a.now ≤ row.expires_at
      → b.now ≤ row.expires_at
      → IsServed c secret a user raw_a token_a
      → IsServed c secret b user raw_b token_b
      → find (has_token_id (db.uuids db.drawn)) db.tokens ≡ none
      → find (has_token_id (db.uuids (suc db.drawn))) db.tokens ≡ none
      → find (has_hash (c.sha256_hex raw_a)) db.tokens ≡ none
      → find (has_hash (c.sha256_hex raw_b)) db.tokens ≡ none
      → play issuer raw a b
          (first ∷ second ∷ first ∷ second ∷ [])
          (record { db = db; one = asked; two = asked })
        ≡ record {
          db = rotated c secret user.id raw_b b.issued (rotated c secret user.id raw_a a.issued db);
          one = answered (ok (answer_to a user raw_a token_a));
          two = answered (ok (answer_to b user raw_b token_b));
        }
  unfolding play advance
  race_two_refreshes a b raw raw_a raw_b token_a token_b db row user g ta tb sa sb ia ib ha hb =
      let same = owner_id db raw row user g in
      let owned : find (has_id user.id) db.users ≡ some user = cc (same, g.owner) in
      let mid = rotated c secret user.id raw_a a.issued db in
      rw
        (
          look_up-ok a.now raw db row user g ta,
          look_up-ok b.now raw db row user g tb,
          replace-ok a raw_a token_a db row user sa g.faultless g.session owned same
              (find-delete-none _ (of_user user.id) db.tokens ia)
              (find-delete-none _ (of_user user.id) db.tokens ha),
          replace-ok b raw_b token_b mid row user sb g.faultless g.session owned same
              (find-delete-rotated (has_token_id (db.uuids (suc db.drawn))) user.id raw_a a.issued
                db ib)
              (find-delete-rotated (has_hash (c.sha256_hex raw_b)) user.id raw_a a.issued db hb),
        )
        refl
