-- ===== src/Handler/Token/Logout.antt =====
-- The token endpoints end to end: AuthRequired, the handlers, the issuer and the tables of postgres.
use postulate.Base.{ℕ, ◌≡◌, ◌≢◌, String, false, some, find, text_Eq, arith, eq_iff}
use postulate.Base.Result.{Result, ok, is_ok}
use postulate.Postgres.{Db, TokenRow}
use postulate.Postgres.Tokens.{has_hash}
use postulate.Postgres.Consistent.{IsConsistent}
use postulate.Auth.ProviderUser.{Identity}
use postulate.Auth.Issuer.{Crypto, TokenIssuer, refresh_session, revoke_all_sessions}
use postulate.Auth.Issuer.Postgres.{postgres_issuer}
use postulate.Auth.Issuer.Rotation.{revocation_ends}
use postulate.Http.{Request, write_problem}
use postulate.Middleware.Auth.{
  JwtParse, bearer_token, identity_of, auth_required, write_auth_problem,
}
use postulate.Handler.Token.{refresh, revoke, refused_token, no_content}

-- A refresh that names a token answers with tokens or with one and the same refusal, whatever was
-- wrong: two requests for one path and request id cannot be told apart by their refusals.
pub refusal_uniform :
    {S : Type 0} (ti : TokenIssuer S) (now issued now' issued' : ℕ) (draw draw' : Result String)
    (raw raw' : String) (r : Request) (s s' : S)
    → raw ≢ ""
    → raw' ≢ ""
    → is_ok (refresh_session ti now issued draw raw s).0 ≡ false
    → is_ok (refresh_session ti now' issued' draw' raw' s').0 ≡ false
    → (refresh ti now issued draw (record r { refresh_body = some raw }) s).0
      ≡ (refresh ti now' issued' draw' (record r { refresh_body = some raw' }) s').0
unfolding refresh write_problem
refusal_uniform ti now issued now' issued' draw draw' raw raw' r s s' a b f g =
    ground (arith, eq_iff raw "", eq_iff raw' "")

module _ (c : Crypto) (secret : String) (parse : JwtParse) where
  -- A logout that answers 204 ends every refresh token of the caller: the request bore a token whose
  -- subject is a user's id, and from then on each refresh with a token that the user had is refused
  -- with 401.
  pub logout_ends :
      (now later again : ℕ) (draw : Result String) (r next : Request) (raw : String) (db : Db)
      (id : Identity) (user : ℕ) (old : TokenRow)
      → IsConsistent db
      → identity_of parse secret now (bearer_token r) ≡ some id
      → c.uuid_parse id.user_id ≡ some user
      → (auth_required parse secret now (revoke (postgres_issuer c secret)) r db).0 ≡ no_content
      → next.refresh_body ≡ some raw
      → raw ≢ ""
      → find (has_hash (c.sha256_hex raw)) db.tokens ≡ some old
      → old.user_id ≡ user
      → (refresh
          (postgres_issuer c secret)
          later
          again
          draw
          next
          (auth_required parse secret now (revoke (postgres_issuer c secret)) r db).1).0
        ≡ refused_token next
  unfolding auth_required revoke refresh write_problem write_auth_problem
  logout_ends now later again draw r next raw db id user old k who uuid gone asks named held mine =
      let ended = revoke_all_sessions (postgres_issuer c secret) user db in
      let done : ended ≡ (ok tt, ended.1) = ground arith in
      let dead =
        revocation_ends c secret user later again draw raw db ended.1 old k done held mine in
      ground (arith, dead, eq_iff raw "")
