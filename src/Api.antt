-- ===== src/Api.antt =====
-- The whole API as cmd/api/main.go puts it together: the handlers over the repositories of postgres,
-- behind the router and its middleware, and what the clients and the surroundings make it do.
pub mod Routing
pub mod Histories
pub mod Consistency
pub mod Accounts
pub mod Admins
pub mod Locked
pub mod SingleUse
pub mod Grants
pub mod Probes
use postulate.Base.{ℕ, String, Bool, Option, none, some, List, [], ◌∷◌}
use postulate.Base.Result.{Result}
use postulate.Config.{Config}
use postulate.Postgres.{Db, Statement, Fault}
use postulate.Auth.StateStore.{new_state_store}
use postulate.Auth.ProviderUser.{GothUser}
use postulate.Auth.Resolver.{UserResolver}
use postulate.Auth.Resolver.FirstLogin.{postgres_resolver}
use postulate.Auth.Issuer.{Crypto, TokenIssuer}
use postulate.Auth.Issuer.Postgres.{postgres_issuer}
use postulate.Http.{Request, Response, Body, Handler, health_report, probe, build}
use postulate.Middleware.Auth.{JwtParse}
use postulate.Middleware.RequestId.{request_id}
use postulate.Health.{Pool, new_health_handler, api_aggregator, serve_health}
use postulate.Handler.OAuth.{
  OAuthHandler, Shared, Surroundings, new_oauth_handler, begin_flow, begin_google, callback,
}
use postulate.Handler.Token.{TokenHandler, new_token_handler, refresh, revoke}
use postulate.Handler.Probes.{
  ReadyHandler, VersionHandler, set_ready, serve_ready, serve_live, default_build_info,
  new_version_handler, serve_version,
}
use postulate.Router.{OAuthRoutes, TokenRoutes, Handlers, Chi, route}
use postulate.Router.Reach.{full}
use postulate.Startup.{bootstrap_config}

-- What the process keeps while it serves: the states and the tables, and the readiness.
pub record ApiState : Type 0 where
  pub shared : Shared Db
  pub ready : ReadyHandler

-- What main has at hand, over surroundings E. `linked` are the three texts that the linker puts in,
-- `complete`, `begins` and `is_url` the calls of gothic and net/url.
pub record Api (E : Type 0) : Type 0 where
  pub cfg : Config
  pub crypto : Crypto
  pub jwt_parse : JwtParse
  pub chi : Chi ApiState
  pub segments : String → List String
  pub pool : Pool E
  pub complete : E → Request → Result GothUser
  pub begins : E → Request → Response
  pub is_url : String → Bool
  pub linked : String × String × String
  pub runtime_version : String

-- What a request finds: the clock and the random sources, and the surroundings. `drawn` is for an
-- OAuth state, and `fresh` the id for a request that brings none.
pub record Moment (E : Type 0) : Type 0 where
  pub times : Surroundings
  pub drawn : Option String
  pub fresh : String
  pub env : E

-- A handler of one part of the state.
abbrev pub on_shared : Handler (Shared Db) → Handler ApiState
on_shared h r s = let (response, shared) = h r s.shared in (response, record s { shared = shared })

abbrev pub on_store : Handler Db → Handler ApiState
on_store h r s =
    let (response, store) = h r s.shared.store in
    (response, record s { shared = record (s.shared) { store = store } })

-- A status code and a body of JSON.
abbrev pub answer_json : ℕ × Body → Response
answer_json (status, body) = record {
  status = status;
  content_type = "application/json";
  body = body;
}

abbrev pub answer_probe : ℕ × String → Response
answer_probe (status, text) = answer_json (status, probe text)

module _ {E : Type 0} (api : Api E) where
  abbrev pub resolver : UserResolver Db
  resolver = postgres_resolver (bootstrap_config api.cfg)

  abbrev pub issuer : TokenIssuer Db
  issuer = postgres_issuer api.crypto api.cfg.auth.jwt_secret

  abbrev pub oauth_handler : E → OAuthHandler Db
  oauth_handler env =
      new_oauth_handler resolver issuer (api.complete env) (api.begins env) api.is_url

  abbrev pub token_handler : TokenHandler Db
  token_handler = new_token_handler issuer

  abbrev pub version_handler : VersionHandler
  version_handler =
      let (version, commit, build_time) = api.linked in
      new_version_handler api.runtime_version (default_build_info version commit build_time)
        api.cfg.server.environment

  module _ (m : Moment E) where
    abbrev pub answer_health : Response
    answer_health =
        let (status, report) =
          serve_health (new_health_handler (api_aggregator api.pool)).aggregator m.env
            m.times.now in
        answer_json (status, health_report report)

    abbrev pub answer_version : Response
    answer_version =
        let (status, info) = serve_version version_handler in answer_json (status, build info)

    abbrev pub oauth_routes_at : OAuthRoutes ApiState
    oauth_routes_at = record {
      begin_google = on_shared (begin_google (oauth_handler m.env) m.drawn m.times.now);
      callback_google = on_shared (callback (oauth_handler m.env) m.times);
      begin_github = on_shared (begin_flow (oauth_handler m.env) m.drawn m.times.now);
      callback_github = on_shared (callback (oauth_handler m.env) m.times);
    }

    abbrev pub token_routes_at : TokenRoutes ApiState
    token_routes_at = record {
      refresh = on_store (refresh token_handler.issuer m.times.now m.times.issued m.times.draw);
      revoke = on_store (revoke token_handler.issuer);
    }

    -- The handlers that main gives to the router.
    unfoldable pub handlers_at : Handlers ApiState
    handlers_at = record {
      health = λ r s. (answer_health, s);
      ready = λ r s. (answer_probe (serve_ready s.ready), s);
      live = λ r s. (answer_probe serve_live, s);
      version = λ r s. (answer_version, s);
      oauth = some oauth_routes_at;
      token = some token_routes_at;
    }

    -- The router that main makes, from the middleware to the answer: the X-Request-ID header too.
    unfoldable pub serve : Request → ApiState → (String × Response) × ApiState
    unfolding handlers_at
    serve =
        request_id m.fresh
          (route api.jwt_parse api.cfg.auth.jwt_secret m.times.now api.chi api.segments handlers_at)

-- What happens to a running API: a request is served, the clock of the database or what fails there
-- changes, or main sets the readiness.
pub data Event (E : Type 0) : Type 0 where
  arrives : Moment E → Request → Event E
  surroundings_change : ℕ → (Statement → Option Fault) → Event E
  readiness_changes : Bool → Event E

-- The answer, where there is one.
unfoldable pub happen : {E : Type 0} → Api E → Event E → ApiState → Option Response × ApiState
unfolding serve
happen api (arrives m r) s = let ((id, response), s') = serve api m r s in (some response, s')
happen api (surroundings_change clock fault) s = (
  none,
  record s {
    shared = record (s.shared) { store = record (s.shared.store) { clock = clock; fault = fault } };
  },
)
happen api (readiness_changes v) s = (none, record s { ready = set_ready v s.ready })

-- Requests in the order in which they are served, each alone.
unfoldable pub history :
    {E : Type 0} → Api E → List (Event E) → ApiState → List (Option Response) × ApiState
unfolding happen
history api [] s = ([], s)
history api (e ∷ es) s =
    let (answer, s') = happen api e s in
    let (answers, s'') = history api es s' in (answer ∷ answers, s'')

-- The API as it starts on a database.
abbrev pub api_start : Db → ApiState
api_start db = record {
  shared = record { states = new_state_store; store = db };
  ready = record { ready = Bool.false };
}
