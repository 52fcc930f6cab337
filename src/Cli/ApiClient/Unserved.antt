-- ===== src/Cli/ApiClient/Unserved.antt =====
-- The client's logout, where the API's router gets it.
use postulate.Base.{◌≡◌, ℕ, String, true, List, arith, some, nat_Eq}
use postulate.Base.Result.{ok}
use postulate.Http.{Request, write_problem}
use postulate.Middleware.Auth.{JwtParse}
use postulate.Router.{Handlers, OAuthRoutes, TokenRoutes, Chi, route}
use postulate.Router.Table.{RoutesByPrefix, path_of, revoke, route-answer_at}
use postulate.Cli.ApiClient.{OutRequest, Transport, logout, logout_request}

module _ {S : Type 0} (jwt_parse : JwtParse) (secret : String) (now : ℕ) (chi : Chi S)
    (segments : String → List String) (h : Handlers S) (t : Transport S)
    (frame : OutRequest → Request) where
  -- The network hands a request to the API's router, with its method, and hands the answer back.
  pub record IsRouted : Type 0 where
    pub sends :
        (out : OutRequest) (s : S)
        → t.send out s ≡ (
          ok (route jwt_parse secret now chi segments h (frame out) s).0,
          (route jwt_parse secret now chi segments h (frame out) s).1,
        )
    pub methods : (out : OutRequest) → (frame out).method ≡ out.method
    pub urls : (out : OutRequest) → t.is_url out.url ≡ true

-- A logout from the CLI revokes nothing: where the network hands it to the API's router, which has
-- both groups of handlers, and whatever token it bears, it is answered 404, and the API's store
-- stays as it is.
pub logout-not_found :
    {S : Type 0} (jwt_parse : JwtParse) (secret : String) (now : ℕ) (chi : Chi S)
    (segments : String → List String) (base : Handlers S) (o : OAuthRoutes S) (k : TokenRoutes S)
    (t : Transport S) (frame : OutRequest → Request) (api_url token : String) (s : S)
    → RoutesByPrefix chi
    → IsRouted jwt_parse secret now chi segments
        (record base { oauth = some o; token = some k })
        t
        frame
    → segments (frame (logout_request api_url token)).path ≡ path_of revoke
    → logout t api_url token s ≡ (ok 404, s)
unfolding logout write_problem
logout-not_found jwt_parse secret now chi segments base o k t frame api_url token s law routed
      path =
    let out = logout_request api_url token in
    let missed =
      route-answer_at jwt_parse secret now chi segments base o k revoke (frame out) s law
        (routed.methods out) path in
    ground (arith, routed.sends out s, routed.urls out, missed)
