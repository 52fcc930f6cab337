-- ===== src/Auth/Issuer/Grants.antt =====
-- What tokens that were given stand for: a signed claim about a user, and a row of the tables.
use postulate.Base.{ℕ, ◌+◌, ◌≡◌, refl, String, true, none, some, find, arith, eq_refl}
use postulate.Base.Result.{Result, ok}
use postulate.Base.Keeps.{Yields, Yields-bind}
use postulate.Postgres.{Db, TokenRow}
use postulate.Postgres.Users.{has_id, is_row}
use postulate.Postgres.Tokens.{has_hash, create_token, insert_token}
use postulate.Auth.Issuer.{
  Crypto, TokenResponse, jwt_ttl, refresh_token_ttl, claims_of, issue_session_token,
  refresh_session,
}
use postulate.Auth.Issuer.Postgres.{postgres_issuer}
use postulate.Auth.Issuer.Rotation.{fresh_row}
use postulate.Auth.Issuer.Lifetime.{issue-eq-ok}

module _ (c : Crypto) (secret : String) where
  -- The session token is signed for a user of the tables under the role that the answer names, and
  -- ends eight hours after it was made; and the hash of the refresh token is stored, unused, for the
  -- same user, for thirty days from then.
  pub record IsGranted (db : Db) (tr : TokenResponse) : Type 0 where
    pub row : TokenRow
    pub made : ℕ
    pub held : find (has_hash (c.sha256_hex tr.refresh_token)) db.tokens ≡ some row
    pub unused : row.used_at ≡ none
    pub refresh_end : row.expires_at ≡ made + refresh_token_ttl
    pub user : is_row (find (has_id row.user_id) db.users) ≡ true
    pub signed :
        c.sign secret (claims_of (postgres_issuer c secret) row.user_id tr.role made) ≡ ok tr.token
    pub end : tr.expires_at ≡ made + jwt_ttl

  -- Whatever is given by issuing is granted, and so is whatever is given by a refresh.
  pub issue-IsGranted :
      (now : ℕ) (draw : Result String) (user : ℕ) (role : String)
      → Yields
          (λ tr db. IsGranted db tr)
          (issue_session_token (postgres_issuer c secret) now draw user role)
  unfolding issue_session_token create_token insert_token find
  issue-IsGranted now draw user role = record {
    at = λ db tr db' e.
        let left = issue-eq-ok c secret now draw user role db db' tr e in
        let same_hash = eq_refl (c.sha256_hex tr.refresh_token) in
        record {
          row = fresh_row c secret user tr.refresh_token now db;
          made = now;
          held = rw left (ground (arith, same_hash));
          unused = refl;
          refresh_end = refl;
          user = rw left (ground arith);
          signed = ground arith;
          end = ground arith;
        };
  }

  pub refresh-IsGranted :
      (now issued : ℕ) (draw : Result String) (raw : String)
      → Yields
          (λ tr db. IsGranted db tr)
          (refresh_session (postgres_issuer c secret) now issued draw raw)
  unfolding refresh_session
  refresh-IsGranted now issued draw raw = search (Yields-bind, issue-IsGranted) depth 9
