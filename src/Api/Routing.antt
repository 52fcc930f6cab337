-- ===== src/Api/Routing.antt =====
-- From a request to the answer of an endpoint, through the middleware and the router.
use postulate.Base.{◌≡◌}
use postulate.Http.{Request, Response, Problem, write_problem}
use postulate.Middleware.RequestId.{picked_id, with_request_id, request_id}
use postulate.Router.Table.{
  RoutesByPrefix, Endpoint, method_of, path_of, answer_at, route-answer_at,
}
use postulate.Router.Reach.{MissesUnmounted}
use postulate.Router.Induction.{route_induction}
use postulate.Api.{ApiState, Api, Moment, oauth_routes_at, token_routes_at, handlers_at, serve}

-- What is assumed of chi.
pub record IsRouter {E : Type 0} (api : Api E) : Type 0 where
  pub routes : RoutesByPrefix api.chi
  pub misses : MissesUnmounted api.chi

module _ {E : Type 0} (api : Api E) (router : IsRouter api) where
  pub serve_induction :
      (Q : Response × ApiState → Type 0) (m : Moment E) (r : Request) (s : ApiState)
      → ((e : Endpoint) (r : Request)
          → Q (answer_at (handlers_at api m) (oauth_routes_at api m) (token_routes_at api m) e r s))
      → ((r : Request) (p : Problem) → Q (write_problem r p, s))
      → Q ((serve api m r s).0.1, (serve api m r s).1)
  unfolding serve request_id handlers_at
  serve_induction Q m r s answers refused =
      let r' = with_request_id r (picked_id m.fresh r) in
      route_induction api.jwt_parse api.cfg.auth.jwt_secret m.times.now api.chi (handlers_at api m)
        (oauth_routes_at api m) (token_routes_at api m) Q r' s api.segments router.routes
        router.misses (λ e. answers e r') (refused r')

  -- What the API answers at an endpoint.
  pub serve-answer_at :
      (m : Moment E) (r : Request) (s : ApiState) (e : Endpoint)
      → r.method ≡ method_of e
      → api.segments r.path ≡ path_of e
      → ((serve api m r s).0.1, (serve api m r s).1)
        ≡ answer_at
            (handlers_at api m)
            (oauth_routes_at api m)
            (token_routes_at api m)
            e
            (with_request_id r (picked_id m.fresh r))
            s
  unfolding serve request_id handlers_at
  serve-answer_at m r s e on_method at_path =
      route-answer_at api.jwt_parse api.cfg.auth.jwt_secret m.times.now api.chi api.segments
        (handlers_at api m) (oauth_routes_at api m) (token_routes_at api m) e
        (with_request_id r (picked_id m.fresh r)) s router.routes on_method at_path
