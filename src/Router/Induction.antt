-- ===== src/Router/Induction.antt =====
-- What the router answers is what an endpoint answers, or one of its own problems.
use mathlib.Core.Path.{subst}
use postulate.Base.{ℕ, String, List, ◌≡◌, refl, sym}
use postulate.Http.{Request, Response, Problem, write_problem}
use postulate.Middleware.Auth.{JwtParse}
use postulate.Router.{
  OAuthRoutes, TokenRoutes, Handlers, Outcome, found, missing, wrong_method, Chi, new, answer_with,
  route,
}
use postulate.Router.Table.{RoutesByPrefix, Endpoint, answer_at}
use postulate.Router.Reach.{MissesUnmounted, full, reached_documented}

module _ {S : Type 0} (jwt_parse : JwtParse) (secret : String) (now : ℕ) (chi : Chi S)
    (h : Handlers S) (o : OAuthRoutes S) (k : TokenRoutes S) (Q : Response × S → Type 0)
    (r : Request) (s : S) where
  outcome_induction :
      (path : List String) (outcome : Outcome S)
      → RoutesByPrefix chi
      → MissesUnmounted chi
      → ((e : Endpoint) → Q (answer_at (full jwt_parse secret now chi h o k) o k e r s))
      → ((p : Problem) → Q (write_problem r p, s))
      → chi (new jwt_parse secret now (full jwt_parse secret now chi h o k)) r.method path ≡ outcome
      → Q (answer_with jwt_parse secret now outcome r s)
  outcome_induction path missing law misses answers refused led = refused _
  outcome_induction path wrong_method law misses answers refused led = refused _
  outcome_induction path (found handler) law misses answers refused led =
      let reached =
        reached_documented jwt_parse secret now chi h o k r.method path handler law misses led in
      let (e, on_method, at_path, by) = reached.1 in subst (λ f. Q (f r s)) (sym by) (answers e)

  -- Whatever holds of what every endpoint answers, and of problems that leave the state as it is,
  -- holds of what the router answers.
  pub route_induction :
      (segments : String → List String)
      → RoutesByPrefix chi
      → MissesUnmounted chi
      → ((e : Endpoint) → Q (answer_at (full jwt_parse secret now chi h o k) o k e r s))
      → ((p : Problem) → Q (write_problem r p, s))
      → Q (route jwt_parse secret now chi segments (full jwt_parse secret now chi h o k) r s)
  unfolding route
  route_induction segments law misses answers refused =
      outcome_induction (segments r.path) _ law misses answers refused refl
