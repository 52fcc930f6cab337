-- ===== src/Api/Probes.antt =====
-- The probes of an API, after any history.
use postulate.Base.{ap, ◌∙◌, ℕ, ◌≡◌, refl, Bool, List, [], ◌∷◌, text_Eq, if◌then◌else◌, arith}
use postulate.Base.Result.{Error, is_ok}
use postulate.Health.{PingError, check_database_at_startup}
use postulate.Health.Aggregate.{serve-startup}
use postulate.Http.{Request}
use postulate.Handler.Probes.{serve_ready}
use postulate.Router.Table.{
  Endpoint, health, ready, live, version, begin_google, callback_google, begin_github,
  callback_github, refresh, revoke, method_of, path_of, answer_at,
}
use postulate.Api.Routing.{IsRouter, serve_induction, serve-answer_at}
use postulate.Api.{
  ApiState, Api, Moment, oauth_routes_at, token_routes_at, handlers_at, serve, Event, arrives,
  surroundings_change, readiness_changes, happen, history,
}

-- What main set last, if it set anything.
abbrev pub last_readiness : {E : Type 0} → List (Event E) → Bool → Bool
last_readiness [] v = v
last_readiness (arrives m r ∷ es) v = last_readiness es v
last_readiness (surroundings_change clock fault ∷ es) v = last_readiness es v
last_readiness (readiness_changes w ∷ es) v = last_readiness es w

pub data Probe : Type 0 where
  asks_health asks_ready asks_live : Probe

abbrev pub endpoint_of : Probe → Endpoint
endpoint_of asks_health = health
endpoint_of asks_ready = ready
endpoint_of asks_live = live

module _ {E : Type 0} (api : Api E) (router : IsRouter api) where
  endpoint-ready :
      (m : Moment E) (s : ApiState) (e : Endpoint) (r : Request)
      → (answer_at
          (handlers_at api m)
          (oauth_routes_at api m)
          (token_routes_at api m)
          e
          r
          s).1.ready
        ≡ s.ready
  unfolding handlers_at
  endpoint-ready m s begin_google r = refl
  endpoint-ready m s begin_github r = refl
  endpoint-ready m s callback_google r = refl
  endpoint-ready m s callback_github r = refl
  endpoint-ready m s health r = refl
  endpoint-ready m s ready r = refl
  endpoint-ready m s live r = refl
  endpoint-ready m s version r = refl
  endpoint-ready m s refresh r = refl
  endpoint-ready m s revoke r = refl

  serve-ready : (m : Moment E) (r : Request) (s : ApiState) → (serve api m r s).1.ready ≡ s.ready
  serve-ready m r s =
      serve_induction api router (λ x. x.1.ready ≡ s.ready) m r s (endpoint-ready m s) (λ r p. refl)

  history-ready :
      (es : List (Event E)) (s : ApiState)
      → (history api es s).1.ready.ready ≡ last_readiness es s.ready.ready
  unfolding history happen
  history-ready [] s = refl
  history-ready (arrives m r ∷ es) s =
      history-ready es (serve api m r s).1 ∙ ap (λ h. last_readiness es h.ready) (serve-ready m r s)
  history-ready (surroundings_change clock fault ∷ es) s = history-ready es _
  history-ready (readiness_changes v ∷ es) s = history-ready es _

  -- The status that a probe should have.
  abbrev pub probe_status : (PingError → Error) → E → Bool → Probe → ℕ
  probe_status error_of env v asks_health =
      if is_ok (check_database_at_startup error_of api.pool env) then 200 else 503
  probe_status error_of env v asks_ready = if v then 200 else 503
  probe_status error_of env v asks_live = 200

  probe-answer :
      (error_of : PingError → Error) (m : Moment E) (r : Request) (s : ApiState) (p : Probe)
      → ((answer_at
            (handlers_at api m)
            (oauth_routes_at api m)
            (token_routes_at api m)
            (endpoint_of p)
            r
            s).0.status
          ≡ probe_status error_of m.env s.ready.ready p)
        × ((answer_at
              (handlers_at api m)
              (oauth_routes_at api m)
              (token_routes_at api m)
              (endpoint_of p)
              r
              s).1
            ≡ s)
  unfolding handlers_at serve_ready
  probe-answer error_of m r s asks_health =
      ((serve-startup m.env api.pool error_of m.times.now).0, refl)
  probe-answer error_of m r s asks_ready = (ground arith, refl)
  probe-answer error_of m r s asks_live = (refl, refl)

  -- After any history of an API, GET /health answers 200 if the database can be pinged then and 503 if
  -- not, GET /health/ready 200 if main set it ready last and 503 if not, and GET /health/live 200; and
  -- no probe changes anything; if chi routes by the longest mounted prefix.
  pub probes_answer :
      (es : List (Event E)) (s : ApiState) (m : Moment E) (r : Request) (p : Probe)
      (error_of : PingError → Error)
      → r.method ≡ method_of (endpoint_of p)
      → api.segments r.path ≡ path_of (endpoint_of p)
      → let now = (history api es s).1 in
        ((serve api m r now).0.1.status
          ≡ probe_status error_of m.env (last_readiness es s.ready.ready) p)
        × ((serve api m r now).1 ≡ now)
  probes_answer es s m r p error_of on_method at_path =
      let now = (history api es s).1 in
      let answered = serve-answer_at api router m r now (endpoint_of p) on_method at_path in
      let (status, same) = probe-answer error_of m _ now p in
      (
        ap (λ x. x.0.status) answered
            ∙ status
            ∙ ap (λ v. probe_status error_of m.env v p) (history-ready es s),
        ap (λ x. x.1) answered ∙ same,
      )
