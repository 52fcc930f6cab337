-- ===== src/Router.antt =====
-- api/internal/router/router.go: the table of routes, and what a request meets in it. The matching is
-- chi's. A path is the list of its segments; Tracing and AccessLog hand a request on as it is.
pub mod Table
pub mod Reach
pub mod Induction
use postulate.Base.{
  ℕ, String, Bool, Option, none, some, List, [], ◌∷◌, ◌++◌, ◌==◌, text_Eq, if◌then◌else◌, leb,
  length,
}
use postulate.Http.{
  Request, Response, Handler, new_problem, write_problem, type_not_found, type_method_not_allowed,
}
use postulate.Middleware.Auth.{JwtParse, auth_required}

pub record OAuthRoutes (S : Type 0) : Type 0 where
  pub begin_google : Handler S
  pub callback_google : Handler S
  pub begin_github : Handler S
  pub callback_github : Handler S

pub record TokenRoutes (S : Type 0) : Type 0 where
  pub refresh : Handler S
  pub revoke : Handler S

-- router.Handlers; the last two may be nil.
pub record Handlers (S : Type 0) : Type 0 where
  pub health : Handler S
  pub ready : Handler S
  pub live : Handler S
  pub version : Handler S
  pub oauth : Option (OAuthRoutes S)
  pub token : Option (TokenRoutes S)

pub record Route (S : Type 0) : Type 0 where
  pub method : String
  pub pattern : List String
  pub handler : Handler S

-- A router that r.Route mounts under a prefix.
pub record Mount (S : Type 0) : Type 0 where
  pub prefix : List String
  pub routes : List (Route S)

-- What chi makes of a method and a path.
pub data Outcome (S : Type 0) : Type 0 where
  found : Handler S → Outcome S
  missing wrong_method : Outcome S

abbrev pub Chi : Type 0 → Type 0
Chi S = List (Mount S) → String → List String → Outcome S

module _ {S : Type 0} where
  abbrev pub get : List String → Handler S → Route S
  get pattern handler = record { method = "GET"; pattern = pattern; handler = handler }

  -- problemHandler
  abbrev pub problem_handler : ℕ → String → String → Handler S
  problem_handler status type_uri title r s =
      (write_problem r (new_problem type_uri title status "" r.path), s)

  -- The two handlers of ApplyErrorHandlers.
  abbrev pub not_found_handler : Handler S
  not_found_handler = problem_handler 404 type_not_found "Not Found"

  abbrev pub method_not_allowed : Handler S
  method_not_allowed = problem_handler 405 type_method_not_allowed "Method Not Allowed"

  abbrev pub health_routes : Handlers S → List (Route S)
  health_routes h = get [] h.health ∷ get ("ready" ∷ []) h.ready ∷ get ("live" ∷ []) h.live ∷ []

  abbrev pub oauth_routes : Option (OAuthRoutes S) → List (Route S)
  oauth_routes none = []
  oauth_routes (some o) =
      get ("oauth" ∷ "google" ∷ []) o.begin_google
      ∷ get ("oauth" ∷ "google" ∷ "callback" ∷ []) o.callback_google
      ∷ get ("oauth" ∷ "github" ∷ []) o.begin_github
      ∷ get ("oauth" ∷ "github" ∷ "callback" ∷ []) o.callback_github
      ∷ []

  abbrev pub refresh_routes : Option (TokenRoutes S) → List (Route S)
  refresh_routes none = []
  refresh_routes (some k) =
      record { method = "POST"; pattern = "token" ∷ "refresh" ∷ []; handler = k.refresh } ∷ []

module _ {S : Type 0} (jwt_parse : JwtParse) (secret : String) (now : ℕ) where
  abbrev pub revoke_routes : Option (TokenRoutes S) → List (Route S)
  revoke_routes none = []
  revoke_routes (some k) =
      record {
        method = "DELETE";
        pattern = "auth" ∷ "token" ∷ [];
        handler = auth_required jwt_parse secret now k.revoke;
      }
      ∷ []

  -- New
  unfoldable pub new : Handlers S → List (Mount S)
  new h =
      record { prefix = "health" ∷ []; routes = health_routes h }
      ∷ record {
        prefix = "v1" ∷ "auth" ∷ [];
        routes = oauth_routes h.oauth ++ refresh_routes h.token;
      }
      ∷ record {
        prefix = "v1" ∷ [];
        routes = get ("version" ∷ []) h.version ∷ revoke_routes h.token;
      }
      ∷ []

  abbrev pub answer_with : Outcome S → Handler S
  answer_with (found handler) = handler
  answer_with missing = not_found_handler
  answer_with wrong_method = method_not_allowed

  -- The router at work; `segments` splits a path.
  unfoldable pub route : Chi S → (String → List String) → Handlers S → Handler S
  unfolding new
  route chi segments h r = answer_with (chi (new h) r.method (segments r.path)) r
