-- ===== src/Router/Reach.antt =====
-- Which requests reach a handler at all.
use mathlib.Core.Path.{subst}
use postulate.Base.{
  true, ap, sym, ◌∙◌, ℕ, ◌≡◌, ◌≢◌, refl, ◌⊎◌, inl, inr, String, none, some, List, [], ◌∷◌, ◌++◌,
  ◌==◌, text_Eq, leb, length, All, Option-cases, Bool-cases, arith, eq_iff,
}
use postulate.Http.{Handler}
use postulate.Middleware.Auth.{JwtParse}
use postulate.Router.{
  OAuthRoutes, TokenRoutes, Handlers, Route, Mount, Outcome, found, missing, wrong_method, Chi, new,
}
use postulate.Router.Table.{
  is_chi_method, plain_mounts, plain_routes, is_plain, is_plain_text, after_segments, longest,
  among, or_wrong_method, RoutesByPrefix, Endpoint, health, ready, live, version, begin_google,
  callback_google, begin_github, callback_github, refresh, revoke, method_of, path_of, answer_at,
}

after_segments-append :
    (p path : List String) {rest : List String}
    → after_segments p path ≡ some rest
    → path ≡ p ++ rest
unfolding after_segments
after_segments-append [] path h = ground arith
after_segments-append (q ∷ ps) [] h = absurd (ground arith)
after_segments-append (q ∷ ps) (s ∷ path) {rest} h =
    ground (arith, after_segments-append ps path {rest = rest}, eq_iff q s)

module _ {S : Type 0} where
  or_wrong_method-found :
      (o : Outcome S) {h : Handler S} → or_wrong_method o ≡ found h → o ≡ found h
  or_wrong_method-found (found handler) e = e
  or_wrong_method-found missing e = absurd (ground arith)
  or_wrong_method-found wrong_method e = absurd (ground arith)

  among-All :
      (P : Route S → Type 0) (rs : List (Route S)) (method : String) (path : List String)
      {h : Handler S}
      → All P rs
      → among rs method path ≡ found h
      → (r : Route S) × P r × (r.method ≡ method) × (path ≡ r.pattern ++ []) × (r.handler ≡ h)
  unfolding among
  among-All P [] method path k e = absurd (ground arith)
  among-All P (r ∷ rs) method path {h} (here, others) e =
      let later = among-All P rs method path {h = h} others in
      elim (Option-cases (after_segments r.pattern path)) [
        | inl differs ↦ later (ground arith)
        | inr (q ∷ rest, longer) ↦ later (ground arith)
        | inr ([], same) ↦ elim (Bool-cases (r.method == method)) [
          | inl fits ↦ (
            r,
            here,
            (eq_iff r.method method).0 fits,
            after_segments-append r.pattern path same,
            ground arith,
          )
          | inr other ↦ later (or_wrong_method-found (among rs method path) (ground arith))
        ]
      ]

  -- What is known of a mount and the path behind it.
  abbrev Known : (Mount S → Type 0) → List String → Mount S × List String → Type 0
  Known Q path (m, rest) = Q m × (path ≡ m.prefix ++ rest)

  longest-All :
      (Q : Mount S → Type 0) (ms : List (Mount S)) (path : List String) {m : Mount S}
      {rest : List String}
      → All Q ms
      → longest ms path ≡ some (m, rest)
      → Q m × (path ≡ m.prefix ++ rest)
  unfolding longest
  longest-All Q [] path k e = absurd (ground arith)
  longest-All Q (n ∷ ms) path {m} {rest} (here, others) e = elim (Option-cases (longest ms path)) [
    | inl alone ↦ elim (Option-cases (after_segments n.prefix path)) [
      | inl differs ↦ absurd (ground arith)
      | inr (behind, fits) ↦
          subst (Known Q path) (ground arith) (here, after_segments-append n.prefix path fits)
    ]
    | inr ((n', behind'), there) ↦
        let known = longest-All Q ms path {m = n'} {rest = behind'} others there in
        elim (Option-cases (after_segments n.prefix path)) [
          | inl differs ↦ subst (Known Q path) (ground arith) known
          | inr (behind, fits) ↦ elim (Bool-cases (leb (length n'.prefix) (length n.prefix))) [
            | inl longer ↦
                subst (Known Q path) (ground arith) (here, after_segments-append n.prefix path fits)
            | inr shorter ↦ subst (Known Q path) (ground arith) known
          ]
        ]
  ]

-- chi: a path that no mount covers, asked for with a method that it knows.
abbrev pub MissesUnmounted : {S : Type 0} → Chi S → Type 0
MissesUnmounted {S} chi =
    (ms : List (Mount S)) (method : String) (path : List String)
    → is_chi_method method ≡ true
    → plain_mounts ms ≡ true
    → longest ms path ≡ none
    → chi ms method path ≡ missing

module _ {S : Type 0} (jwt_parse : JwtParse) (secret : String) (now : ℕ) (chi : Chi S)
    (h : Handlers S) (o : OAuthRoutes S) (k : TokenRoutes S) where
  -- The handlers of the program, with none of the two groups nil.
  abbrev pub full : Handlers S
  full = record h { oauth = some o; token = some k }

  abbrev IsDocumented : List String → Route S → Type 0
  IsDocumented prefix r =
      ((e : Endpoint) × (r.method ≡ method_of e)
        × (prefix ++ (r.pattern ++ []) ≡ path_of e)
        × (r.handler ≡ answer_at full o k e))
      ⊎ (prefix ++ (r.pattern ++ []) ≡ path_of revoke)

  abbrev HasDocumented : Mount S → Type 0
  HasDocumented m = All (IsDocumented m.prefix) m.routes

  new-HasDocumented : All HasDocumented (new jwt_parse secret now full)
  unfolding new
  new-HasDocumented = (
    (
      inl (health, refl, refl, refl),
      (inl (ready, refl, refl, refl), (inl (live, refl, refl, refl), tt)),
    ),
    (
      (
        inl (begin_google, refl, refl, refl),
        (
          inl (callback_google, refl, refl, refl),
          (
            inl (begin_github, refl, refl, refl),
            (inl (callback_github, refl, refl, refl), (inl (refresh, refl, refl, refl), tt)),
          ),
        ),
      ),
      ((inl (version, refl, refl, refl), (inr refl, tt)), tt),
    ),
  )

  -- With both groups of handlers given, only the documented requests reach a handler: whatever the
  -- method and the path, if a handler is found then the path is not that of the revocation, and the
  -- handler is that of an endpoint with this method and path.
  pub reached_documented :
      (method : String) (path : List String) (handler : Handler S)
      → RoutesByPrefix chi
      → MissesUnmounted chi
      → chi (new jwt_parse secret now full) method path ≡ found handler
      → path ≢ path_of revoke
        × ((e : Endpoint) × (method ≡ method_of e)
            × (path ≡ path_of e)
            × (handler ≡ answer_at full o k e))
  unfolding new longest among after_segments plain_mounts plain_routes is_plain is_plain_text
  reached_documented method path handler law misses reached =
      let ms = new jwt_parse secret now full in
      elim (Bool-cases (is_chi_method method)) [
        | inr unknown ↦ absurd (ground (arith, law.refuses ms method path unknown))
        | inl known ↦
            let unreached : path ≢ path_of revoke = λ there.
              let lost = law.leads ms method (path_of revoke) _ _ known refl refl in
              absurd (ground (arith, lost, ap (chi ms method) there)) in
            elim (Option-cases (longest ms path)) [
              | inl uncovered ↦ absurd (ground (arith, misses ms method path known refl uncovered))
              | inr ((m, rest), there) ↦
                  let (good, split) = longest-All HasDocumented ms path new-HasDocumented there in
                  let led = law.leads ms method path m rest known refl there in
                  let (r, documented, same_method, behind, same_handler) =
                    among-All (IsDocumented m.prefix) m.routes method rest good
                      (sym led ∙ reached) in
                  let whole = split ∙ ap (λ z. m.prefix ++ z) behind in
                  elim documented [
                    | inr at_revoke ↦ absurd (unreached (whole ∙ at_revoke))
                    | inl (e, on_method, at_path, by) ↦ (
                      unreached,
                      (e, sym same_method ∙ on_method, whole ∙ at_path, sym same_handler ∙ by),
                    )
                  ]
            ]
      ]
