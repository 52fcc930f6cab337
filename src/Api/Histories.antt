-- ===== src/Api/Histories.antt =====
-- What holds of every answer and every state of a running API.
use postulate.Base.{refl, ◌≡◌, ℕ, String, Option, none, some, List, [], ◌∷◌, All}
use postulate.Base.Keeps.{Keeps}
use postulate.Domain.{RefreshToken}
use postulate.Postgres.{Db, Statement, Fault}
use postulate.Postgres.Tokens.{create_token, delete_by_user_id}
use postulate.Auth.StateStore.{generate}
use postulate.Auth.ProviderUser.{ProviderUser}
use postulate.Auth.Resolver.{resolve_or_create_user}
use postulate.Auth.Issuer.Effects.{issue-Keeps, refresh-Keeps}
use postulate.Http.{Request, Response}
use postulate.Handler.OAuth.{begin_flow, callback}
use postulate.Handler.OAuth.Effects.{callback-keeps}
use postulate.Handler.Token.Effects.{refresh_handler-keeps}
use postulate.Router.Table.{
  Endpoint, health, ready, live, version, begin_google, callback_google, begin_github,
  callback_github, refresh, revoke, answer_at,
}
use postulate.Api.Routing.{IsRouter, serve_induction}
use postulate.Api.{
  ApiState, Api, Moment, resolver, issuer, oauth_handler, oauth_routes_at, token_routes_at,
  handlers_at, Event, arrives, surroundings_change, readiness_changes, happen, history,
}

-- What the writes of the repositories that the API calls keep, and changes of the surroundings too.
pub record KeepsStore {E : Type 0} (api : Api E) (P : Db → Type 0) : Type 0 where
  pub resolves : (pu : ProviderUser) → Keeps P (resolve_or_create_user (resolver api) pu)
  pub creates : (t : RefreshToken) → Keeps P (create_token t)
  pub deletes : (user : ℕ) → Keeps P (delete_by_user_id user)
  pub changes :
      (clock : ℕ) (fault : Statement → Option Fault) (db : Db)
      → P db
      → P (record db { clock = clock; fault = fault })

-- What every answer that is given has.
abbrev pub Answered : (Response → Type 0) → Option Response → Type 0
Answered A none = Unit
Answered A (some response) = A response

-- What every event keeps, a history keeps.
pub history_induction :
    {E : Type 0} (api : Api E) (P : ApiState → Type 0) (A : Response → Type 0) (es : List (Event E))
    (s : ApiState)
    → ((e : Event E) (s : ApiState) → P s → Answered A (happen api e s).0 × P (happen api e s).1)
    → P s
    → All (Answered A) (history api es s).0 × P (history api es s).1
unfolding history
history_induction api P A [] s step h = (tt, h)
history_induction api P A (e ∷ es) s step h =
    let (answered, next) = step e s h in
    let (later, end) = history_induction api P A es (happen api e s).1 step next in
    ((answered, later), end)

module _ {E : Type 0} (api : Api E) (router : IsRouter api) where
  begin_flow-store :
      (m : Moment E) (drawn : Option String) (r : Request) (s : ApiState)
      → (begin_flow (oauth_handler api m.env) drawn m.times.now r s.shared).1.store ≡ s.shared.store
  unfolding begin_flow generate
  begin_flow-store m none r s = refl
  begin_flow-store m (some state) r s = refl

  module _ (P : Db → Type 0) (k : KeepsStore api P) where
    callback_at :
        (m : Moment E) (r : Request) (s : ApiState)
        → P s.shared.store
        → P (callback (oauth_handler api m.env) m.times r s.shared).1.store
    callback_at m r s h =
        callback-keeps (oauth_handler api m.env) P k.resolves
          (λ env u. issue-Keeps P (issuer api) k.creates env.issued env.draw u.id u.role) m.times r
          s.shared h

    endpoint-keeps :
        (m : Moment E) (s : ApiState) (e : Endpoint) (r : Request)
        → P s.shared.store
        → P
            (answer_at
              (handlers_at api m)
              (oauth_routes_at api m)
              (token_routes_at api m)
              e
              r
              s).1.shared.store
    unfolding handlers_at
    endpoint-keeps m s health r h = h
    endpoint-keeps m s ready r h = h
    endpoint-keeps m s live r h = h
    endpoint-keeps m s version r h = h
    endpoint-keeps m s begin_google r h = rw (begin_flow-store m m.drawn r s) h
    endpoint-keeps m s begin_github r h = rw (begin_flow-store m m.drawn r s) h
    endpoint-keeps m s callback_google r h = callback_at m r s h
    endpoint-keeps m s callback_github r h = callback_at m r s h
    endpoint-keeps m s refresh r h =
        refresh_handler-keeps (issuer api) m.times.now m.times.issued m.times.draw P r
          s.shared.store
          (refresh-Keeps P (issuer api) k.creates k.deletes m.times.now m.times.issued m.times.draw)
          h
    endpoint-keeps m s revoke r h = h

    happen-keeps :
        (e : Event E) (s : ApiState) → P s.shared.store → P (happen api e s).1.shared.store
    unfolding happen
    happen-keeps (arrives m r) s h =
        serve_induction api router (λ x. P x.1.shared.store) m r s (λ e r. endpoint-keeps m s e r h)
          (λ r p. h)
    happen-keeps (surroundings_change clock fault) s h = k.changes clock fault s.shared.store h
    happen-keeps (readiness_changes v) s h = h

    -- What the writes keep, the whole API keeps.
    pub history-keeps :
        (es : List (Event E)) (s : ApiState)
        → P s.shared.store
        → P (history api es s).1.shared.store
    unfolding history
    history-keeps [] s h = h
    history-keeps (e ∷ es) s h = history-keeps es (happen api e s).1 (happen-keeps e s h)
