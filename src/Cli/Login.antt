-- ===== src/Cli/Login.antt =====
-- A login from the command line, from the API's router through the redirect to the client's listener,
-- and back to the API with the token that it got.

use postulate.Base.{
  ap, ℕ, ◌+◌, ◌*◌, ◌/◌, ◌<◌, ◌≡◌, ◌≢◌, refl, String, true, none, some, List, find, arith, eq_iff,
}
use postulate.Auth.StateStore.{second}
use postulate.Auth.Issuer.{Crypto, TokenResponse}
use postulate.Auth.Issuer.Grants.{IsGranted}
use postulate.Postgres.{Db}
use postulate.Postgres.Users.{has_id, is_row}
use postulate.Http.{Request, redirect}
use postulate.Middleware.Auth.{JwtParse, clock_skew, identity_of}
use postulate.Middleware.Auth.Gate.{ParsesSigned}
use postulate.Handler.OAuth.{redirect_query}
use postulate.Cli.Callback.{CallbackResult, new_server, start, handle_callback}
use postulate.Cli.Callback.RoundTrip.{callback-redirect}
use postulate.Api.{Api, ApiState, Moment, serve}
use postulate.Api.Routing.{IsRouter}
use postulate.Api.Grants.{given_tokens, given_tokens-IsGranted}

granted_identity :
    (c : Crypto) (secret : String) (parse : JwtParse) (now : ℕ) (db : Db) (tr : TokenResponse)
    (g : IsGranted c secret db tr)
    → ParsesSigned c parse
    → tr.token ≢ ""
    → c.uuid_text g.row.user_id ≢ ""
    → tr.role ≢ ""
    → now < tr.expires_at / second * second + clock_skew
    → identity_of parse secret now tr.token
      ≡ some (record { user_id = c.uuid_text g.row.user_id; role = tr.role })
unfolding identity_of
granted_identity c secret parse now db tr g law some_token some_id some_role early = ground (
  arith,
  law secret _ tr.token clock_skew now g.signed (rw (← g.end) early),
  eq_iff tr.token "",
  eq_iff (c.uuid_text g.row.user_id) "",
  eq_iff tr.role "",
)

-- What the client is redirected to with tokens works: whatever request the API answers with a
-- redirect that carries tokens, a listener without a result takes them from the redirect's query, and
-- the session token that it gets stands before the API for a stored user, under the role that the
-- client is told, until one minute after the end that it is told, less the parts of a second, and
-- also at any time before it was issued, as nothing looks at the claim "iat"; for tokens, roles and
-- ids whose texts are not empty, if chi routes by the longest mounted prefix, what gothic answers at
-- the beginning of a flow has no tokens, and golang-jwt parses what it has signed until its end and
-- the leeway have passed.
pub login_works :
    {E : Type 0} (api : Api E) (m : Moment E) (r : Request) (s : ApiState) (uri : String)
    (tr : TokenResponse) (format : ℕ → String) (own : List (String × String)) (port later : ℕ)
    → IsRouter api
    → ((env : E) (r : Request) → given_tokens (api.begins env r).body ≡ none)
    → ParsesSigned api.crypto api.jwt_parse
    → ((id : ℕ) → api.crypto.uuid_text id ≢ "")
    → (serve api m r s).0.1.body ≡ redirect uri tr
    → tr.token ≢ ""
    → tr.role ≢ ""
    → later < tr.expires_at / second * second + clock_skew
    → (user : ℕ) × (result : CallbackResult) × (is_row
          (find (has_id user) (serve api m r s).1.shared.store.users)
        ≡ true)
      × ((handle_callback (redirect_query format own tr) (start (new_server port))).1.result
          ≡ some result)
      × (result.expires_at ≡ format tr.expires_at)
      × (identity_of api.jwt_parse api.cfg.auth.jwt_secret later result.token
          ≡ some (record { user_id = api.crypto.uuid_text user; role = result.role }))
login_works api m r s uri tr format own port later router plain law some_id redirected some_token
      some_role early =
    let granted = given_tokens-IsGranted api m r s tr router plain (ap given_tokens redirected) in
    let seen = callback-redirect format own tr (start (new_server port)) some_token refl in
    (
      granted.row.user_id,
      _,
      granted.user,
      seen.1,
      refl,
      granted_identity api.crypto api.cfg.auth.jwt_secret api.jwt_parse later
          (serve api m r s).1.shared.store tr granted law some_token (some_id granted.row.user_id)
          some_role early,
    )
