-- ===== src/Api/Grants.antt =====
-- What every answer with tokens stands for.
use postulate.Base.{◌≡◌, Option, none, some, arith, String}
use mathlib.Core.Path.{subst}
use postulate.Postgres.{Db}
use postulate.Auth.StateStore.{generate}
use postulate.Auth.Issuer.{TokenResponse}
use postulate.Auth.Issuer.Grants.{IsGranted, issue-IsGranted, refresh-IsGranted}
use postulate.Http.{Request, Response, Body, Problem, tokens, redirect, write_problem}
use postulate.Handler.OAuth.{hand_over, callback, begin_flow}
use postulate.Handler.OAuth.Effects.{complete_induction, callback_induction}
use postulate.Handler.Token.{refresh as refresh_handler}
use postulate.Handler.Token.Effects.{refresh_induction}
use postulate.Router.Table.{
  Endpoint, health, ready, live, version, begin_google, callback_google, begin_github,
  callback_github, refresh, revoke, answer_at,
}
use postulate.Api.{
  ApiState, Api, Moment, issuer, oauth_handler, oauth_routes_at, token_routes_at, handlers_at,
  serve,
}
use postulate.Api.Routing.{IsRouter, serve_induction}

-- The tokens in a body.
abbrev pub given_tokens : Body → Option TokenResponse
given_tokens (tokens tr) = some tr
given_tokens (redirect uri tr) = some tr
given_tokens _ = none

module _ {E : Type 0} (api : Api E) where
  abbrev Sound : Option TokenResponse → Db → Type 0
  Sound none db = Unit
  Sound (some tr) db = IsGranted api.crypto api.cfg.auth.jwt_secret db tr

  abbrev SoundAnswer : Response × Db → Type 0
  SoundAnswer (response, db) = Sound (given_tokens response.body) db

  problem-Sound : (r : Request) (p : Problem) (db : Db) → SoundAnswer (write_problem r p, db)
  unfolding write_problem
  problem-Sound r p db = tt

  hand_over-given :
      (env : E) (r : Request) (tr : TokenResponse)
      → given_tokens (hand_over (oauth_handler api env) r tr).body ≡ some tr
  unfolding hand_over
  hand_over-given env r tr = ground arith

  hand_over-Sound :
      (env : E) (r : Request) (tr : TokenResponse) (db : Db)
      → IsGranted api.crypto api.cfg.auth.jwt_secret db tr
      → SoundAnswer (hand_over (oauth_handler api env) r tr, db)
  hand_over-Sound env r tr db granted = rw (hand_over-given env r tr) granted

  callback-Sound :
      (m : Moment E) (r : Request) (s : ApiState)
      → let (response, shared) = callback (oauth_handler api m.env) m.times r s.shared in
        SoundAnswer (response, shared.store)
  callback-Sound m r s =
      callback_induction (oauth_handler api m.env) (λ x. SoundAnswer (x.0, x.1.store)) m.times r
        s.shared (λ p. problem-Sound r p s.shared.store)
        (complete_induction (oauth_handler api m.env) SoundAnswer m.times r (record {
          refused = λ p. problem-Sound r p s.shared.store;
          unresolved = λ pu e db found. problem-Sound r _ db;
          unissued = λ pu u db e db' found made. problem-Sound r _ db';
          issued = λ pu u db tr db' found made. hand_over-Sound m.env r tr db' (
              (issue-IsGranted api.crypto api.cfg.auth.jwt_secret m.times.issued m.times.draw u.id
                  u.role).at
                db tr db' made);
        }))

  refresh-Sound :
      (m : Moment E) (r : Request) (db : Db)
      → SoundAnswer (refresh_handler (issuer api) m.times.now m.times.issued m.times.draw r db)
  refresh-Sound m r db =
      refresh_induction (issuer api) m.times.now m.times.issued m.times.draw SoundAnswer r db
        (λ p. problem-Sound r p db) (λ raw e db' asked. problem-Sound r _ db')
        (λ raw tr db' asked.
          (refresh-IsGranted api.crypto api.cfg.auth.jwt_secret m.times.now m.times.issued
              m.times.draw raw).at
            db tr db' asked)

  begin-Sound :
      (m : Moment E) (drawn : Option String) (r : Request) (s : ApiState)
      → ((env : E) (r : Request) → given_tokens (api.begins env r).body ≡ none)
      → let (response, shared) =
          begin_flow (oauth_handler api m.env) drawn m.times.now r s.shared in
        SoundAnswer (response, shared.store)
  unfolding begin_flow generate
  begin-Sound m none r s plain = problem-Sound r _ s.shared.store
  begin-Sound m (some state) r s plain = rw (plain m.env _) tt

  endpoint-Sound :
      (m : Moment E) (s : ApiState) (e : Endpoint) (r : Request)
      → ((env : E) (r : Request) → given_tokens (api.begins env r).body ≡ none)
      → let (response, s') =
          answer_at (handlers_at api m) (oauth_routes_at api m) (token_routes_at api m) e r s in
        SoundAnswer (response, s'.shared.store)
  unfolding handlers_at
  endpoint-Sound m s begin_google r plain = begin-Sound m m.drawn r s plain
  endpoint-Sound m s begin_github r plain = begin-Sound m m.drawn r s plain
  endpoint-Sound m s callback_google r plain = callback-Sound m r s
  endpoint-Sound m s callback_github r plain = callback-Sound m r s
  endpoint-Sound m s refresh r plain = refresh-Sound m r s.shared.store
  endpoint-Sound m s revoke r plain = problem-Sound r _ s.shared.store
  endpoint-Sound m s health r plain = tt
  endpoint-Sound m s ready r plain = tt
  endpoint-Sound m s live r plain = tt
  endpoint-Sound m s version r plain = tt

  -- Whatever request the API answers with tokens, in JSON or in a redirect: the session token is
  -- signed for a user who is stored, under the role that the answer names, and ends eight hours after
  -- it was made; and the refresh token's hash is stored, unused, for the same user and for thirty days
  -- from then; if chi routes by the longest mounted prefix, and what gothic answers at the beginning of
  -- a flow has no tokens.
  pub given_tokens-IsGranted :
      (m : Moment E) (r : Request) (s : ApiState) (tr : TokenResponse)
      → IsRouter api
      → ((env : E) (r : Request) → given_tokens (api.begins env r).body ≡ none)
      → given_tokens (serve api m r s).0.1.body ≡ some tr
      → IsGranted api.crypto api.cfg.auth.jwt_secret (serve api m r s).1.shared.store tr
  given_tokens-IsGranted m r s tr router plain given =
      let sound =
        serve_induction api router (λ x. SoundAnswer (x.0, x.1.shared.store)) m r s
          (λ e r. endpoint-Sound m s e r plain) (λ r p. problem-Sound r p s.shared.store) in
      subst (λ o. Sound o (serve api m r s).1.shared.store) given sound
