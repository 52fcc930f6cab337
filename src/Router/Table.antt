-- ===== src/Router/Table.antt =====
-- Which handler answers at the documented methods and paths.
use Prim.Native.Char.{code}
use postulate.Base.{
  Bool, true, false, not, ◌&&◌, ◌||◌, nat_Eq, ℕ, ◌≡◌, refl, String, Option, none, some, List, [],
  ◌∷◌, ◌==◌, text_Eq, if◌then◌else◌, leb, length,
}
use postulate.Http.{Request, Handler}
use postulate.Middleware.Auth.{JwtParse}
use postulate.Router.{
  OAuthRoutes, TokenRoutes, Handlers, Route, Mount, Outcome, found, missing, wrong_method, Chi,
  not_found_handler, new, answer_with, route,
}

-- What follows a prefix, if it is there.
unfoldable pub after_segments : List String → List String → Option (List String)
after_segments [] path = some path
after_segments (p ∷ ps) [] = none
after_segments (p ∷ ps) (q ∷ path) =
    let rest = after_segments ps path in if p == q then rest else none

module _ {S : Type 0} where
  -- The mount with the longest prefix, and the path behind it.
  unfoldable pub longest : List (Mount S) → List String → Option (Mount S × List String)
  unfolding after_segments
  longest [] path = none
  longest (m ∷ ms) path =
      let others = longest ms path in
      elim (after_segments m.prefix path) [
        | none ↦ others
        | some rest ↦ elim others [
          | none ↦ some (m, rest)
          | some (n, behind) ↦
              if leb (length n.prefix) (length m.prefix) then some (m, rest) else some (n, behind)
        ]
      ]

  abbrev pub or_wrong_method : Outcome S → Outcome S
  or_wrong_method (found handler) = found handler
  or_wrong_method missing = wrong_method
  or_wrong_method wrong_method = wrong_method

  -- A route of a mounted router, by its whole pattern.
  unfoldable pub among : List (Route S) → String → List String → Outcome S
  unfolding after_segments
  among [] method path = missing
  among (r ∷ rs) method path =
      let others = among rs method path in
      elim (after_segments r.pattern path) [
        | none ↦ others
        | some (q ∷ rest) ↦ others
        | some [] ↦ if r.method == method then found r.handler else or_wrong_method others
      ]

-- The methods that chi knows.
abbrev pub is_chi_method : String → Bool
is_chi_method method =
    method == "GET"
    || (method == "POST"
        || (method == "DELETE"
            || (method == "PUT"
                || (method == "PATCH"
                    || (method == "HEAD"
                        || (method == "OPTIONS" || (method == "CONNECT" || method == "TRACE")))))))

-- A pattern without parameters and wildcards: none of its texts has a brace or a star.
unfoldable pub is_plain_text : String → Bool
is_plain_text String.[] = true
is_plain_text (String.◌∷◌ c s) =
    let rest = is_plain_text s in not (code c == 123 || code c == 42) && rest

unfoldable pub is_plain : List String → Bool
unfolding is_plain_text
is_plain [] = true
is_plain (p ∷ ps) = is_plain_text p && is_plain ps

module _ {S : Type 0} where
  unfoldable pub plain_routes : List (Route S) → Bool
  unfolding is_plain
  plain_routes [] = true
  plain_routes (r ∷ rs) = is_plain r.pattern && plain_routes rs

  unfoldable pub plain_mounts : List (Mount S) → Bool
  unfolding plain_routes
  plain_mounts [] = true
  plain_mounts (m ∷ ms) = is_plain m.prefix && (plain_routes m.routes && plain_mounts ms)

-- chi: a method that it does not know is not allowed anywhere. For the others, and patterns without
-- parameters, a static prefix goes before a wildcard, so that the mount with the longest prefix of a
-- path takes it, and the router mounted there has the last word.
pub record RoutesByPrefix {S : Type 0} (chi : Chi S) : Type 0 where
  pub refuses :
      (ms : List (Mount S)) (method : String) (path : List String)
      → is_chi_method method ≡ false
      → chi ms method path ≡ wrong_method
  pub leads :
      (ms : List (Mount S)) (method : String) (path : List String) (m : Mount S)
      (rest : List String)
      → is_chi_method method ≡ true
      → plain_mounts ms ≡ true
      → longest ms path ≡ some (m, rest)
      → chi ms method path ≡ among m.routes method rest

-- The endpoints that the documentation of the handlers names.
pub data Endpoint : Type 0 where
  health ready live version begin_google callback_google begin_github callback_github refresh
        revoke :
      Endpoint

abbrev pub method_of : Endpoint → String
method_of refresh = "POST"
method_of revoke = "DELETE"
method_of _ = "GET"

abbrev pub path_of : Endpoint → List String
path_of health = "health" ∷ []
path_of ready = "health" ∷ "ready" ∷ []
path_of live = "health" ∷ "live" ∷ []
path_of version = "v1" ∷ "version" ∷ []
path_of begin_google = "v1" ∷ "auth" ∷ "oauth" ∷ "google" ∷ []
path_of callback_google = "v1" ∷ "auth" ∷ "oauth" ∷ "google" ∷ "callback" ∷ []
path_of begin_github = "v1" ∷ "auth" ∷ "oauth" ∷ "github" ∷ []
path_of callback_github = "v1" ∷ "auth" ∷ "oauth" ∷ "github" ∷ "callback" ∷ []
path_of refresh = "v1" ∷ "auth" ∷ "token" ∷ "refresh" ∷ []
path_of revoke = "v1" ∷ "auth" ∷ "token" ∷ []

module _ {S : Type 0} where
  -- The handler that should answer, but for revoke, whose place no handler has.
  abbrev pub answer_at : Handlers S → OAuthRoutes S → TokenRoutes S → Endpoint → Handler S
  answer_at h o k health = h.health
  answer_at h o k ready = h.ready
  answer_at h o k live = h.live
  answer_at h o k version = h.version
  answer_at h o k begin_google = o.begin_google
  answer_at h o k callback_google = o.callback_google
  answer_at h o k begin_github = o.begin_github
  answer_at h o k callback_github = o.callback_github
  answer_at h o k refresh = k.refresh
  answer_at h o k revoke = not_found_handler

module _ {S : Type 0} (jwt_parse : JwtParse) (secret : String) (now : ℕ) (chi : Chi S)
    (segments : String → List String) where
  at_mount :
      (h : Handlers S) (r : Request) (s : S) (method : String) (path : List String) {m : Mount S}
      {rest : List String}
      → RoutesByPrefix chi
      → r.method ≡ method
      → segments r.path ≡ path
      → is_chi_method method ≡ true
      → plain_mounts (new jwt_parse secret now h) ≡ true
      → longest (new jwt_parse secret now h) path ≡ some (m, rest)
      → route jwt_parse secret now chi segments h r s
        ≡ answer_with jwt_parse secret now (among m.routes method rest) r s
  unfolding route
  at_mount h r s method path {m} {rest} law here there known plain taken =
      rw (here, there, law.leads (new jwt_parse secret now h) method path m rest known plain taken)
        refl

  -- With both groups of handlers given, every endpoint is answered by its handler at its method and
  -- path, but for DELETE /v1/auth/token: it lies under the mount of /v1/auth, which has no such
  -- route, and is answered 404, whatever the handler of the route of the same path under /v1 does.
  pub route-answer_at :
      (base : Handlers S) (o : OAuthRoutes S) (k : TokenRoutes S) (e : Endpoint) (r : Request)
      (s : S)
      → RoutesByPrefix chi
      → r.method ≡ method_of e
      → segments r.path ≡ path_of e
      → let h : Handlers S = record base { oauth = some o; token = some k } in
        route jwt_parse secret now chi segments h r s ≡ answer_at h o k e r s
  unfolding new longest among after_segments plain_mounts plain_routes is_plain is_plain_text
  route-answer_at base o k health r s law m p =
      at_mount (record base { oauth = some o; token = some k }) r s (method_of health)
        (path_of health) law m p refl refl refl
  route-answer_at base o k ready r s law m p =
      at_mount (record base { oauth = some o; token = some k }) r s (method_of ready)
        (path_of ready) law m p refl refl refl
  route-answer_at base o k live r s law m p =
      at_mount (record base { oauth = some o; token = some k }) r s (method_of live) (path_of live)
        law m p refl refl refl
  route-answer_at base o k version r s law m p =
      at_mount (record base { oauth = some o; token = some k }) r s (method_of version)
        (path_of version) law m p refl refl refl
  route-answer_at base o k begin_google r s law m p =
      at_mount (record base { oauth = some o; token = some k }) r s (method_of begin_google)
        (path_of begin_google) law m p refl refl refl
  route-answer_at base o k callback_google r s law m p =
      at_mount (record base { oauth = some o; token = some k }) r s (method_of callback_google)
        (path_of callback_google) law m p refl refl refl
  route-answer_at base o k begin_github r s law m p =
      at_mount (record base { oauth = some o; token = some k }) r s (method_of begin_github)
        (path_of begin_github) law m p refl refl refl
  route-answer_at base o k callback_github r s law m p =
      at_mount (record base { oauth = some o; token = some k }) r s (method_of callback_github)
        (path_of callback_github) law m p refl refl refl
  route-answer_at base o k refresh r s law m p =
      at_mount (record base { oauth = some o; token = some k }) r s (method_of refresh)
        (path_of refresh) law m p refl refl refl
  route-answer_at base o k revoke r s law m p =
      at_mount (record base { oauth = some o; token = some k }) r s (method_of revoke)
        (path_of revoke) law m p refl refl refl
