-- ===== src/Middleware/Auth/Gate.antt =====
-- What lies behind AuthRequired and RequireRole.
use Prim.Native.String.{◌++◌}
use text.Mathlib.TextLemmas.{nil-append, cons-append}
use postulate.Base.{
  ap, ◌∙◌, ℕ, ◌+◌, ◌*◌, ◌/◌, ltb, Bool-cases, ◌≤◌, ◌<◌, ◌≡◌, ◌≢◌, inl, inr, String, true, Option,
  none, some, text_Eq, if◌then◌else◌, arith, eq_iff, Option-cases,
}
use postulate.Base.Result.{Result, ok}
use postulate.Auth.StateStore.{second}
use postulate.Auth.ProviderUser.{Identity}
use postulate.Auth.Issuer.{
  Crypto, Claims, TokenResponse, TokenIssuer, issue_session_token, claims_of, jwt_ttl,
}
use postulate.Http.{Request, Handler}
use postulate.Middleware.Auth.{
  JwtParse, ParsedToken, key_for, clock_skew, after_prefix, bearer_token, identity_of, unauthorized,
  with_identity, auth_required,
}

-- golang-jwt: a token that parses has a method for which the given function found a key.
abbrev pub ParsesUnderKey : JwtParse → Type 0
ParsesUnderKey parse =
    (key : ParsedToken → Option String) (leeway now : ℕ) (raw : String) (t : ParsedToken)
    → parse key leeway now raw ≡ some t
    → key t ≢ none

-- golang-jwt: a text that `sign` made under a secret parses under the key function of that secret
-- until its end and the leeway have passed, to an HMAC token with the claims that were signed. The
-- claim "iat" is not looked at: golang-jwt does so only with the option WithIssuedAt, which the
-- middleware does not give.
abbrev pub ParsesSigned : Crypto → JwtParse → Type 0
ParsesSigned c parse =
    (secret : String) (claims : Claims) (raw : String) (leeway now : ℕ)
    → c.sign secret claims ≡ ok raw
    → now < claims.exp * second + leeway
    → parse (key_for secret) leeway now raw
      ≡ some (record {
        is_hmac = true;
        valid = true;
        has_map_claims = true;
        sub = some claims.sub;
        role = some claims.role;
      })

-- golang-jwt: and no longer than that.
abbrev pub ExpiresSigned : Crypto → JwtParse → Type 0
ExpiresSigned c parse =
    (secret : String) (claims : Claims) (raw : String) (leeway now : ℕ)
    → c.sign secret claims ≡ ok raw
    → claims.exp * second + leeway ≤ now
    → parse (key_for secret) leeway now raw ≡ none

-- A request passes with an identity only for a bearer token that is there, that parses as valid
-- under an HMAC method, and whose claims "sub" and "role" are the identity's and not empty.
pub identity_sound :
    (parse : JwtParse) (secret : String) (now : ℕ) (raw : String) (id : Identity)
    → ParsesUnderKey parse
    → identity_of parse secret now raw ≡ some id
    → (t : ParsedToken) × (parse (key_for secret) clock_skew now raw ≡ some t)
      × (t.is_hmac ≡ true)
      × (t.valid ≡ true)
      × (t.sub ≡ some id.user_id)
      × (t.role ≡ some id.role)
      × (raw ≢ "")
      × (id.user_id ≢ "")
      × (id.role ≢ "")
unfolding identity_of
identity_sound parse secret now raw id law h =
    elim (Option-cases (parse (key_for secret) clock_skew now raw)) [
      | inl none_parsed ↦ absurd (ground arith)
      | inr (t, parsed) ↦
          let hmac = law (key_for secret) clock_skew now raw t parsed in
          (
            t,
            parsed,
            ground arith,
            ground arith,
            ground (arith, eq_iff id.user_id "", eq_iff id.role ""),
            ground (arith, eq_iff id.user_id "", eq_iff id.role ""),
            ground (arith, eq_iff raw ""),
            ground (arith, eq_iff id.user_id ""),
            ground (arith, eq_iff id.role ""),
          )
    ]

after_prefix-append : (p s : String) → after_prefix p (p ++ s) ≡ some s
unfolding after_prefix
after_prefix-append String.[] s = rw nil-append
after_prefix-append (String.◌∷◌ c p) s = rw cons-append (ground (arith, after_prefix-append p s))

-- A header that the CLI sends gives its token.
bearer_token-append :
    (r : Request) (token : String) → r.authorization ≡ "Bearer " ++ token → bearer_token r ≡ token
unfolding bearer_token
bearer_token-append r token h =
    let e = ap (after_prefix "Bearer ") h ∙ after_prefix-append "Bearer " token in
    rw (e, bearer_token)

module _ {S : Type 0} (ti : TokenIssuer S) (parse : JwtParse) where
  issue-signed :
      (issued : ℕ) (draw : Result String) (user : ℕ) (role : String) (s s' : S) (tr : TokenResponse)
      → issue_session_token ti issued draw user role s ≡ (ok tr, s')
      → ti.crypto.sign ti.jwt_secret (claims_of ti user role issued) ≡ ok tr.token
  unfolding issue_session_token
  issue-signed issued draw user role s s' tr h = ground arith

  -- A session token that the issuer gave lets a request pass that bears it, with the user's id and
  -- role as the identity, until one minute after its end, and also at any time before it was issued,
  -- as nothing looks at the claim "iat"; from one minute after its end on the request gets 401: for a
  -- token, an id and a role whose texts are not empty, if golang-jwt parses what it has signed until
  -- its end and the leeway have passed and no longer.
  pub issued_token_passes :
      (issued now : ℕ) (draw : Result String) (user : ℕ) (role : String) (s s' : S)
      (tr : TokenResponse) (r : Request) {T : Type 0} (next : Handler T) (t : T)
      → ParsesSigned ti.crypto parse
      → ExpiresSigned ti.crypto parse
      → issue_session_token ti issued draw user role s ≡ (ok tr, s')
      → r.authorization ≡ "Bearer " ++ tr.token
      → tr.token ≢ ""
      → ti.crypto.uuid_text user ≢ ""
      → role ≢ ""
      → auth_required parse ti.jwt_secret now next r t ≡ (
          if ltb now ((issued + jwt_ttl) / second * second + clock_skew)
          then next (with_identity r (record { user_id = ti.crypto.uuid_text user; role = role })) t
          else (unauthorized r, t))
  unfolding auth_required identity_of
  issued_token_passes issued now draw user role s s' tr r next t signed ends h header some_token
        some_id some_role =
      let bound : ℕ = (issued + jwt_ttl) / second * second + clock_skew in
      let good = issue-signed issued draw user role s s' tr h in
      elim (Bool-cases (ltb now bound)) [
        | inl early ↦ ground (
          arith,
          bearer_token-append r tr.token header,
          signed ti.jwt_secret (claims_of ti user role issued) tr.token clock_skew now good
              (ground arith),
          eq_iff tr.token "",
          eq_iff (ti.crypto.uuid_text user) "",
          eq_iff role "",
        )
        | inr late ↦ ground (
          arith,
          bearer_token-append r tr.token header,
          ends ti.jwt_secret (claims_of ti user role issued) tr.token clock_skew now good
              (ground arith),
        )
      ]
