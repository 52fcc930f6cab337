-- ===== src/Cli/Credentials/Expiry.antt =====
-- When the CLI refreshes, against when the API stops to take a token.
use postulate.Base.{ℕ, ◌+◌, ◌*◌, ◌/◌, ◌<◌, ◌≡◌, ◌≢◌, String, true, false, Option, some, ltb, arith}
use Prim.Native.String.{◌++◌}
use postulate.Base.Result.{Result, ok}
use postulate.Auth.StateStore.{second}
use postulate.Auth.Issuer.{TokenResponse, TokenIssuer, issue_session_token, jwt_ttl}
use postulate.Http.{Request, Handler}
use postulate.Middleware.Auth.{JwtParse, auth_required, with_identity, clock_skew}
use postulate.Middleware.Auth.Gate.{ParsesSigned, ExpiresSigned, issued_token_passes}
use postulate.Cli.Credentials.{AuthFile, refresh_margin, needs_refresh}

-- The end of the year 9999, in nanoseconds since the epoch.
abbrev pub end_of_years : ℕ
end_of_years = 253402300800 * second

-- package time: a time that is written as "2006-01-02T15:04:05Z" is read back with the parts of a
-- second cut off, while its year has four digits.
abbrev pub ParsesFormat : (ℕ → String) → (String → Option ℕ) → Type 0
ParsesFormat format parse =
    (t : ℕ) → t < end_of_years → parse (format t) ≡ some (t / second * second)

module _ {S : Type 0} (ti : TokenIssuer S) (format : ℕ → String) (parse : String → Option ℕ) where
  issue_expires :
      (issued : ℕ) (draw : Result String) (user : ℕ) (role : String) (s s' : S) (tr : TokenResponse)
      → issue_session_token ti issued draw user role s ≡ (ok tr, s')
      → tr.expires_at ≡ issued + jwt_ttl
  unfolding issue_session_token
  issue_expires issued draw user role s s' tr h = ground arith

  -- The CLI takes a stored session token for good until half an hour before its eight hours, less
  -- the parts of a second, are over, and for one that needs a refresh from then on.
  pub needs_refresh-issued :
      (issued now : ℕ) (draw : Result String) (user : ℕ) (role : String) (s s' : S)
      (tr : TokenResponse) (af : AuthFile)
      → ParsesFormat format parse
      → issue_session_token ti issued draw user role s ≡ (ok tr, s')
      → af.expires_at ≡ format tr.expires_at
      → issued + jwt_ttl < end_of_years
      → needs_refresh parse now af
        ≡ ltb ((issued + jwt_ttl) / second * second) (now + refresh_margin)
  unfolding needs_refresh
  needs_refresh-issued issued now draw user role s s' tr af law h stored early =
      let end = issue_expires issued draw user role s s' tr h in
      let read : parse af.expires_at ≡ some ((issued + jwt_ttl) / second * second) =
        rw (stored, end) (law (issued + jwt_ttl) early) in
      ground arith

  -- A session token that was issued and stored, with a role, an id and a text that are not empty and
  -- an end before the year 10000, and that the CLI does not want to refresh, is one that the API
  -- takes: the request that bears it runs the route's handler, as the user it was issued for. That
  -- holds also at a time before the token was issued: the CLI looks only at its end, and the API at
  -- its end and not at the claim "iat". It needs that times are read back as they were written, and
  -- that golang-jwt parses what it has signed until its end and the leeway have passed and no longer.
  pub fresh_token_passes :
      (jwt_parse : JwtParse) (issued now : ℕ) (draw : Result String) (user : ℕ) (role : String)
      (s s' : S) (tr : TokenResponse) (af : AuthFile) (r : Request) {T : Type 0} (next : Handler T)
      (t : T)
      → ParsesFormat format parse
      → ParsesSigned ti.crypto jwt_parse
      → ExpiresSigned ti.crypto jwt_parse
      → issue_session_token ti issued draw user role s ≡ (ok tr, s')
      → af.expires_at ≡ format tr.expires_at
      → af.token ≡ tr.token
      → issued + jwt_ttl < end_of_years
      → r.authorization ≡ "Bearer " ++ af.token
      → tr.token ≢ ""
      → ti.crypto.uuid_text user ≢ ""
      → role ≢ ""
      → needs_refresh parse now af ≡ false
      → auth_required jwt_parse ti.jwt_secret now next r t
        ≡ next (with_identity r (record { user_id = ti.crypto.uuid_text user; role = role })) t
  fresh_token_passes jwt_parse issued now draw user role s s' tr af r next t law signed ends h
        stored token early header some_token some_id some_role fresh =
      let rule = needs_refresh-issued issued now draw user role s s' tr af law h stored early in
      let bears : r.authorization ≡ "Bearer " ++ tr.token = rw (← token) header in
      let good : ltb now ((issued + jwt_ttl) / second * second + clock_skew) ≡ true =
        ground arith in
      let passes =
        issued_token_passes ti jwt_parse issued now draw user role s s' tr r next t signed ends h
          bears some_token some_id some_role in
      rw good at passes
