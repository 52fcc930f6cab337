-- ===== src/Tests/Routes.antt =====
-- The router at work, and the client that meets it.

use postulate.Base.{
  ◌≢◌, ◌+◌, ◌==◌, text_Eq, nat_Eq, if◌then◌else◌, ℕ, ◌≡◌, refl, String, true, none, some, List, [],
  ◌∷◌, arith,
}
use postulate.Base.Result.{ok, err, message}
use postulate.Http.{Request, Handler, no_body}
use postulate.Router.{
  OAuthRoutes, TokenRoutes, Handlers, Chi, missing, wrong_method, found, new, route,
}
use postulate.Router.Table.{
  RoutesByPrefix, is_chi_method, after_segments, longest, among, ready, revoke, Endpoint, method_of,
  path_of, answer_at, route-answer_at,
}
use postulate.Router.Reach.{MissesUnmounted, full, reached_documented}
use postulate.Cli.ApiClient.{OutRequest, Transport}
use postulate.Tests.{request, parse}

-- A router that does what its tables say.
abbrev pub chi : {S : Type 0} → Chi S
chi ms method path =
    if is_chi_method method
    then elim (longest ms path) [ none ↦ missing | some (m, rest) ↦ among m.routes method rest ]
    else wrong_method

pub chi-RoutesByPrefix : {S : Type 0} → RoutesByPrefix (chi {S = S})
chi-RoutesByPrefix = record {
  refuses = λ ms method path unknown. ground (arith, unknown);
  leads = λ ms method path m rest known plain h. ground (arith, known, h);
}

-- Handlers that count, each by its own number.
abbrev adds : ℕ → Handler ℕ
adds k r n = (record { status = 200; content_type = ""; body = no_body }, n + k)

abbrev handlers : Handlers ℕ
handlers = record {
  health = adds 1;
  ready = adds 2;
  live = adds 3;
  version = adds 4;
  oauth = none;
  token = none;
}

abbrev some_oauth : OAuthRoutes ℕ
some_oauth = record {
  begin_google = adds 5;
  callback_google = adds 6;
  begin_github = adds 7;
  callback_github = adds 8;
}

abbrev some_tokens : TokenRoutes ℕ
some_tokens = record { refresh = adds 9; revoke = adds 10 }

abbrev segments : String → List String
segments path =
    if path == "/health/ready" then "health" ∷ "ready" ∷ [] else "v1" ∷ "auth" ∷ "token" ∷ []

abbrev probe : Request
probe = record request { path = "/health/ready" }

route-answer_at_example :
    route parse "key" 5 chi segments
      (record handlers { oauth = some some_oauth; token = some some_tokens })
      probe
      0
    ≡ adds 2 probe 0
route-answer_at_example =
    route-answer_at parse "key" 5 chi segments handlers some_oauth some_tokens ready probe 0
      chi-RoutesByPrefix refl refl

pub chi-MissesUnmounted : {S : Type 0} → MissesUnmounted (chi {S = S})
chi-MissesUnmounted ms method path known plain h = ground (arith, known, h)

abbrev health_ready : List String
health_ready = "health" ∷ "ready" ∷ []

probe_found :
    chi
      (new parse "key" 5 (full parse "key" 5 chi handlers some_oauth some_tokens))
      "GET"
      health_ready
    ≡ found (adds 2)
unfolding new longest among after_segments
probe_found = refl

reached_documented_example :
    health_ready ≢ path_of revoke
    × ((e : Endpoint) × ("GET" ≡ method_of e)
        × (health_ready ≡ path_of e)
        × (adds 2
            ≡ answer_at
                (full parse "key" 5 chi handlers some_oauth some_tokens)
                some_oauth
                some_tokens
                e))
reached_documented_example =
    reached_documented parse "key" 5 chi handlers some_oauth some_tokens "GET" health_ready (adds 2)
      chi-RoutesByPrefix chi-MissesUnmounted probe_found

abbrev frame : OutRequest → Request
frame out = record request { method = out.method; authorization = out.authorization }

abbrev network : Transport ℕ
network = record {
  send = λ out n.
      let (response, n') =
        route parse "key" 5 chi segments
          (record handlers { oauth = some some_oauth; token = some some_tokens }) (frame out) n in
      (ok response, n');
  is_url = λ url. true;
  decode = λ body. err (message "not a token response");
}
