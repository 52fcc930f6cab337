-- ===== src/Auth/Issuer.antt =====
-- auth/token.go: session tokens (JWTs) and single-use refresh tokens.
pub mod Postgres
pub mod Rotation
pub mod Effects
pub mod Lifetime
pub mod Grants
pub mod Race
use postulate.Base.{ℕ, ◌+◌, ◌*◌, ◌/◌, String, Option, none, some, ltb, if◌then◌else◌}
use postulate.Base.Result.{
  Error, Reply, Result, M, ok, err, pure, ◌>>=◌, ◌>>◌, with_context, wrapped, message, wrap, panic,
}
use postulate.Domain.{RefreshToken, zero_token}
use postulate.Repository.{UserRepository, RefreshTokenRepository}
use postulate.Auth.StateStore.{second}

-- 8 * time.Hour and 30 * 24 * time.Hour
abbrev pub jwt_ttl : ℕ
jwt_ttl = 8 * 3600 * second

abbrev pub refresh_token_ttl : ℕ
refresh_token_ttl = 30 * 24 * 3600 * second

-- The claims of a session token; times are Unix seconds.
pub record Claims : Type 0 where
  pub sub : String
  pub role : String
  pub iat : ℕ
  pub exp : ℕ

-- What the API takes from packages that it does not hold: HS256 signing under a secret, SHA-256 in
-- hexadecimal, and the text of a UUID with its parser.
pub record Crypto : Type 0 where
  pub sign : String → Claims → Result String
  pub sha256_hex : String → String
  pub uuid_text : ℕ → String
  pub uuid_parse : String → Option ℕ

pub record TokenResponse : Type 0 where
  pub token : String
  pub refresh_token : String
  pub expires_at : ℕ
  pub role : String

pub record TokenIssuer (S : Type 0) : Type 0 where
  pub crypto : Crypto
  pub jwt_secret : String
  pub refresh_repo : RefreshTokenRepository S
  pub user_repo : UserRepository S

-- NewTokenIssuer
abbrev pub new_token_issuer :
    {S : Type 0} → Crypto → String → RefreshTokenRepository S → UserRepository S → TokenIssuer S
new_token_issuer crypto jwt_secret refresh_repo user_repo = record {
  crypto = crypto;
  jwt_secret = jwt_secret;
  refresh_repo = refresh_repo;
  user_repo = user_repo;
}

abbrev pub of_result : {S A : Type 0} → Result A → M S A
of_result r s = (r, s)

-- generateRefreshToken, from the hexadecimal text of 32 random bytes or the error of crypto/rand.
-- The second text is the hash that is stored.
pub record RawToken : Type 0 where
  pub raw : String
  pub hash : String

abbrev pub generate_refresh_token : Crypto → Result String → Result RawToken
generate_refresh_token c (ok raw) = ok (record { raw = raw; hash = c.sha256_hex raw })
generate_refresh_token c (err e) = err (wrap "generate refresh token" e)

-- A read of which every error, and a nil pointer, is answered with the same text.
abbrev pub found_or : {S A : Type 0} → String → (S → Reply (Option A)) → M S A
found_or text read s = elim (read s).error [
  | some e ↦ (err (message text), s)
  | none ↦ (elim (read s).value [ none ↦ err panic | some a ↦ ok a ], s)
]

abbrev pub invalid_refresh_token : Error
invalid_refresh_token = message "invalid refresh token"

module _ {S : Type 0} (ti : TokenIssuer S) where
  abbrev pub claims_of : ℕ → String → ℕ → Claims
  claims_of user_id role now = record {
    sub = ti.crypto.uuid_text user_id;
    role = role;
    iat = now / second;
    exp = (now + jwt_ttl) / second;
  }

  -- The row that is stored: no session id is set.
  abbrev pub stored_token : ℕ → String → ℕ → RefreshToken
  stored_token user_id hash now = record zero_token {
    user_id = user_id;
    token_hash = hash;
    expires_at = now + refresh_token_ttl;
  }

  -- IssueSessionToken, at the time `now`, with what the random source gave.
  unfoldable pub issue_session_token : ℕ → Result String → ℕ → String → M S TokenResponse
  issue_session_token now draw user_id role = do
    token ←
        of_result (wrapped "sign jwt" (ti.crypto.sign ti.jwt_secret (claims_of user_id role now)))
    fresh ← of_result (generate_refresh_token ti.crypto draw)
    _ ←
        with_context "store refresh token"
          (ti.refresh_repo.create (stored_token user_id fresh.hash now))
    pure (record {
      token = token;
      refresh_token = fresh.raw;
      expires_at = now + jwt_ttl;
      role = role;
    })

  -- `time.Now().After(rt.ExpiresAt)`, then `rt.UsedAt != nil`.
  abbrev pub check_token : ℕ → RefreshToken → M S (Unit {0})
  check_token now rt s =
      if ltb rt.expires_at now
      then (err invalid_refresh_token, s)
      else elim rt.used_at [ some at ↦ (err invalid_refresh_token, s) | none ↦ (ok tt, s) ]

  -- RefreshSession: the token is looked up and checked at `now`, the new one issued at `issued`.
  unfoldable pub refresh_session : ℕ → ℕ → Result String → String → M S TokenResponse
  unfolding issue_session_token
  refresh_session now issued draw raw_token = do
    rt ←
        found_or "invalid refresh token"
          (ti.refresh_repo.find_by_token_hash (ti.crypto.sha256_hex raw_token))
    check_token now rt
    user ← found_or "user not found" (ti.user_repo.find_by_id rt.user_id)
    with_context "rotate refresh token" (ti.refresh_repo.delete_by_user_id rt.user_id)
    issue_session_token issued draw user.id user.role

  -- RevokeAllSessions
  unfoldable pub revoke_all_sessions : ℕ → M S (Unit {0})
  revoke_all_sessions user_id =
      with_context "revoke sessions" (ti.refresh_repo.delete_by_user_id user_id)
