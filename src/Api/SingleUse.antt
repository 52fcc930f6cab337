-- ===== src/Api/SingleUse.antt =====
-- A callback's state over the life of an API.
use postulate.Base.{
  ◌⊎◌, ◌≢◌, ◌≡◌, ap, ◌∙◌, String, Option, none, some, List, [], ◌∷◌, All, text_Eq, inl, inr, arith,
}
use postulate.Auth.StateStore.Gone.{
  IsGone, validate-IsGone_self, validate-IsGone, generate-IsGone, gone_refused,
}
use postulate.Auth.StateStore.{generate, validate}
use postulate.Http.{Request, query_get}
use postulate.Middleware.RequestId.{picked_id, with_request_id}
use postulate.Handler.OAuth.{bad_state, callback, begin_flow}
use postulate.Router.Table.{
  Endpoint, health, ready, live, version, begin_google, callback_google, begin_github,
  callback_github, refresh, revoke, method_of, path_of, answer_at,
}
use postulate.Api.{
  on_shared, ApiState, Api, Moment, oauth_handler, oauth_routes_at, token_routes_at, handlers_at,
  serve, Event, arrives, surroundings_change, readiness_changes, happen, history,
}
use postulate.Api.Routing.{IsRouter, serve_induction, serve-answer_at}

-- An event other than a login that begins with this very state.
abbrev pub DrawsOther : {E : Type 0} → String → Event E → Type 0
DrawsOther k (arrives m r) = m.drawn ≢ some k
DrawsOther k (surroundings_change clock fault) = Unit
DrawsOther k (readiness_changes v) = Unit

module _ {E : Type 0} (api : Api E) (k : String) where
  abbrev Gone : ApiState → Type 0
  Gone s = IsGone k s.shared.states

  begin-Gone :
      (m : Moment E) (drawn : Option String) (r : Request) (s : ApiState)
      → drawn ≢ some k
      → Gone s
      → IsGone k (begin_flow (oauth_handler api m.env) drawn m.times.now r s.shared).1.states
  unfolding begin_flow generate
  begin-Gone m none r s other gone = gone
  begin-Gone m (some j) r s other gone =
      generate-IsGone k (some j) m.times.now s.shared.states other gone

  callback-states :
      (m : Moment E) (r : Request) (s : ApiState)
      → (callback (oauth_handler api m.env) m.times r s.shared).1.states
        ≡ (validate (query_get "state" r.query) m.times.now s.shared.states).1
  unfolding callback
  callback-states m r s = ground arith

  callback-Gone :
      (m : Moment E) (r : Request) (s : ApiState)
      → Gone s
      → IsGone k (callback (oauth_handler api m.env) m.times r s.shared).1.states
  callback-Gone m r s gone =
      rw (callback-states m r s)
        (validate-IsGone k (query_get "state" r.query) m.times.now s.shared.states gone)

  endpoint-Gone :
      (m : Moment E) (s : ApiState) (e : Endpoint) (r : Request)
      → m.drawn ≢ some k
      → Gone s
      → Gone (answer_at (handlers_at api m) (oauth_routes_at api m) (token_routes_at api m) e r s).1
  unfolding handlers_at
  endpoint-Gone m s begin_google r other gone = begin-Gone m m.drawn r s other gone
  endpoint-Gone m s begin_github r other gone = begin-Gone m m.drawn r s other gone
  endpoint-Gone m s callback_google r other gone = callback-Gone m r s gone
  endpoint-Gone m s callback_github r other gone = callback-Gone m r s gone
  endpoint-Gone m s health r other gone = gone
  endpoint-Gone m s ready r other gone = gone
  endpoint-Gone m s live r other gone = gone
  endpoint-Gone m s version r other gone = gone
  endpoint-Gone m s refresh r other gone = gone
  endpoint-Gone m s revoke r other gone = gone

  happen-Gone :
      IsRouter api
      → (e : Event E) (s : ApiState) → DrawsOther k e
      → Gone s
      → Gone (happen api e s).1
  unfolding happen
  happen-Gone router (arrives m r) s other gone =
      serve_induction api router (λ x. Gone x.1) m r s (λ e r. endpoint-Gone m s e r other gone)
        (λ r p. gone)
  happen-Gone router (surroundings_change clock fault) s other gone = gone
  happen-Gone router (readiness_changes v) s other gone = gone

  history-Gone :
      IsRouter api
      → (es : List (Event E)) (s : ApiState) → All (DrawsOther k) es
      → Gone s
      → Gone (history api es s).1
  unfolding history
  history-Gone router [] s others gone = gone
  history-Gone router (e ∷ es) s others gone =
      history-Gone router es (happen api e s).1 others.1 (happen-Gone router e s others.0 gone)

-- A callback of one of the two providers, with a state.
pub record IsCallback {E : Type 0} (api : Api E) (k : String) (r : Request) : Type 0 where
  pub endpoint : Endpoint
  pub is_callback : (endpoint ≡ callback_google) ⊎ (endpoint ≡ callback_github)
  pub method : r.method ≡ method_of endpoint
  pub path : api.segments r.path ≡ path_of endpoint
  pub state : query_get "state" r.query ≡ k

module _ {E : Type 0} (api : Api E) (router : IsRouter api) where
  serve-callback :
      (m : Moment E) (r : Request) (s : ApiState) (k : String)
      → IsCallback api k r
      → ((serve api m r s).0.1, (serve api m r s).1)
        ≡ on_shared
            (callback (oauth_handler api m.env) m.times)
            (with_request_id r (picked_id m.fresh r))
            s
  unfolding handlers_at
  serve-callback m r s k c = elim c.is_callback [
    | inl google ↦
        serve-answer_at api router m r s callback_google (c.method ∙ ap method_of google)
          (c.path ∙ ap path_of google)
    | inr github ↦
        serve-answer_at api router m r s callback_github (c.method ∙ ap method_of github)
          (c.path ∙ ap path_of github)
  ]

  refused_when_gone :
      (m : Moment E) (r : Request) (s : ApiState)
      → IsGone (query_get "state" r.query) s.shared.states
      → ((callback (oauth_handler api m.env) m.times r s.shared).0 ≡ bad_state r)
        × ((callback (oauth_handler api m.env) m.times r s.shared).1.store ≡ s.shared.store)
  unfolding callback
  refused_when_gone m r s gone =
      let refused = gone_refused (query_get "state" r.query) m.times.now s.shared.states gone in
      (ground (arith, refused), ground (arith, refused))

  callback_uses :
      (m : Moment E) (r : Request) (s : ApiState) (k : String)
      → IsCallback api k r
      → IsGone k (serve api m r s).1.shared.states
  callback_uses m r s k c =
      rw
        (
          ap (λ x. x.1.shared.states) (serve-callback m r s k c),
          callback-states api k m (with_request_id r (picked_id m.fresh r)) s,
          c.state,
        )
        (validate-IsGone_self k m.times.now s.shared.states)

  callback_refused :
      (m : Moment E) (r : Request) (s : ApiState) (k : String)
      → IsCallback api k r
      → IsGone k s.shared.states
      → ((serve api m r s).0.1 ≡ bad_state (with_request_id r (picked_id m.fresh r)))
        × ((serve api m r s).1.shared.store ≡ s.shared.store)
  callback_refused m r s k c gone =
      let answered = serve-callback m r s k c in
      let refusal =
        refused_when_gone m (with_request_id r (picked_id m.fresh r)) s (rw c.state gone) in
      (ap (λ x. x.0) answered ∙ refusal.0, ap (λ x. x.1.shared.store) answered ∙ refusal.1)

  -- A state is good for one callback in the whole life of an API: once a callback has come with it,
  -- each later one with it, of either provider, is answered with 400 and leaves the tables as they are,
  -- whatever else is requested between them, as long as the random source does not draw the same state
  -- again; if chi routes by the longest mounted prefix.
  pub callback_never_again :
      (m later : Moment E) (r again : Request) (es : List (Event E)) (s : ApiState) (k : String)
      → IsCallback api k r
      → IsCallback api k again
      → All (DrawsOther k) es
      → let between = (history api es (serve api m r s).1).1 in
        ((serve api later again between).0.1
          ≡ bad_state (with_request_id again (picked_id later.fresh again)))
        × ((serve api later again between).1.shared.store ≡ between.shared.store)
  callback_never_again m later r again es s k c c' others =
      callback_refused later again _ k c'
        (history-Gone api k router es (serve api m r s).1 others (callback_uses m r s k c))
