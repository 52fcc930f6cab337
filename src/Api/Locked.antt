-- ===== src/Api/Locked.antt =====
-- A new installation, over the life of its API: nobody ever gets in.
use postulate.Base.{
  String, Bool, true, false, ◌≡◌, refl, sym, ap, ◌∙◌, Option, none, some, List, [], All, find,
  arith,
}
use mathlib.Core.Path.{subst}
use postulate.Base.Result.{Result, ok, is_ok}
use postulate.Domain.{nil_uuid}
use postulate.Postgres.{Db}
use postulate.Postgres.Users.{has_id}
use postulate.Auth.ProviderUser.{ProviderUser}
use postulate.Auth.StateStore.{generate}
use postulate.Auth.Resolver.{resolve_or_create_user}
use postulate.Auth.Resolver.FirstLogin.{unlinked_login_fails}
use postulate.Auth.Issuer.Postgres.{refresh_without_tokens_fails}
use postulate.Http.{Request, Response, Body, Problem, tokens, redirect, write_problem}
use postulate.Handler.OAuth.{callback, begin_flow}
use postulate.Handler.OAuth.Effects.{complete_induction, callback_induction}
use postulate.Handler.Token.{refresh as refresh_handler}
use postulate.Handler.Token.Effects.{refresh_induction}
use postulate.Router.Table.{
  Endpoint, health, ready, live, version, begin_google, callback_google, begin_github,
  callback_github, refresh, revoke, answer_at,
}
use postulate.Startup.{bootstrap_config}
use postulate.Api.{
  ApiState, Api, Moment, resolver, issuer, oauth_handler, oauth_routes_at, token_routes_at,
  handlers_at, Event, arrives, surroundings_change, readiness_changes, happen, history,
}
use postulate.Api.Routing.{IsRouter, serve_induction}
use postulate.Api.Histories.{Answered, history_induction}

abbrev pub gives_tokens : Body → Bool
gives_tokens (tokens tr) = true
gives_tokens (redirect uri tr) = true
gives_tokens _ = false

abbrev pub GivesNothing : Response → Type 0
GivesNothing response = gives_tokens response.body ≡ false

-- The same rows in every table.
pub record SameTables (base db : Db) : Type 0 where
  pub users : db.users ≡ base.users
  pub accounts : db.accounts ≡ base.accounts
  pub tokens : db.tokens ≡ base.tokens
  pub sessions : db.sessions ≡ base.sessions

-- No provider account is linked, no refresh token is stored, and no user has the nil UUID.
pub record IsUnlinked (db : Db) : Type 0 where
  pub no_accounts : db.accounts ≡ []
  pub no_tokens : db.tokens ≡ []
  pub no_nil : find (has_id nil_uuid) db.users ≡ none

module _ {E : Type 0} (api : Api E) (base : Db) (unlinked : IsUnlinked base) where
  resolve_fails :
      (pu : ProviderUser) (db : Db)
      → SameTables base db
      → (is_ok (resolve_or_create_user (resolver api) pu db).0 ≡ false)
        × ((resolve_or_create_user (resolver api) pu db).1 ≡ db)
  unfolding find
  resolve_fails pu db same =
      unlinked_login_fails (bootstrap_config api.cfg) pu db
        (rw (same.accounts, unlinked.no_accounts) refl) (rw same.users unlinked.no_nil)

  abbrev Kept : Response × Db → Type 0
  Kept (response, db) = GivesNothing response × SameTables base db

  -- A run that fails and leaves the store as it is does not end well.
  not_ok :
      {A C : Type 0} (x : Result A × Db) (db : Db) {a : A} {db' : Db}
      → (is_ok x.0 ≡ false) × (x.1 ≡ db)
      → x ≡ (ok a, db')
      → C
  not_ok x db fails e = absurd (ground arith)

  left_same :
      {A : Type 0} (x : Result A × Db) (db : Db) {a : Result A} {db' : Db}
      → (is_ok x.0 ≡ false) × (x.1 ≡ db)
      → x ≡ (a, db')
      → SameTables base db
      → SameTables base db'
  left_same x db fails e same = subst (SameTables base) (sym fails.1 ∙ ap (λ z. z.1) e) same

  problem-Kept :
      (r : Request) (p : Problem) (db : Db) → SameTables base db → Kept (write_problem r p, db)
  unfolding write_problem
  problem-Kept r p db same = (refl, same)

  callback-Kept :
      (m : Moment E) (r : Request) (s : ApiState)
      → SameTables base s.shared.store
      → let (response, shared) = callback (oauth_handler api m.env) m.times r s.shared in
        Kept (response, shared.store)
  callback-Kept m r s same =
      let fails = λ (pu : ProviderUser). resolve_fails pu s.shared.store same in
      callback_induction (oauth_handler api m.env) (λ x. Kept (x.0, x.1.store)) m.times r s.shared
        (λ p. problem-Kept r p s.shared.store same)
        (complete_induction (oauth_handler api m.env) Kept m.times r (record {
          refused = λ p. problem-Kept r p s.shared.store same;
          unresolved = λ pu e db found.
              problem-Kept r _ db (left_same _ s.shared.store (fails pu) found same);
          unissued = λ pu u db e db' found made. not_ok _ s.shared.store (fails pu) found;
          issued = λ pu u db tr db' found made. not_ok _ s.shared.store (fails pu) found;
        }))

  refresh-Kept :
      (m : Moment E) (r : Request) (db : Db)
      → SameTables base db
      → Kept (refresh_handler (issuer api) m.times.now m.times.issued m.times.draw r db)
  refresh-Kept m r db same =
      let fails = λ (raw : String).
        refresh_without_tokens_fails api.crypto api.cfg.auth.jwt_secret m.times.now m.times.issued
          m.times.draw raw db (same.tokens ∙ unlinked.no_tokens) in
      refresh_induction (issuer api) m.times.now m.times.issued m.times.draw Kept r db
        (λ p. problem-Kept r p db same)
        (λ raw e db' asked. problem-Kept r _ db' (left_same _ db (fails raw) asked same))
        (λ raw tr db' asked. not_ok _ db (fails raw) asked)

  begin-Kept :
      (m : Moment E) (drawn : Option String) (r : Request) (s : ApiState)
      → ((env : E) (r : Request) → GivesNothing (api.begins env r))
      → SameTables base s.shared.store
      → let (response, shared) =
          begin_flow (oauth_handler api m.env) drawn m.times.now r s.shared in
        Kept (response, shared.store)
  unfolding begin_flow generate
  begin-Kept m none r s plain same = problem-Kept r _ s.shared.store same
  begin-Kept m (some state) r s plain same = (plain m.env _, same)

  endpoint-Kept :
      (m : Moment E) (s : ApiState) (e : Endpoint) (r : Request)
      → ((env : E) (r : Request) → GivesNothing (api.begins env r))
      → SameTables base s.shared.store
      → let (response, s') =
          answer_at (handlers_at api m) (oauth_routes_at api m) (token_routes_at api m) e r s in
        Kept (response, s'.shared.store)
  unfolding handlers_at
  endpoint-Kept m s health r plain same = (refl, same)
  endpoint-Kept m s ready r plain same = (refl, same)
  endpoint-Kept m s live r plain same = (refl, same)
  endpoint-Kept m s version r plain same = (refl, same)
  endpoint-Kept m s begin_google r plain same = begin-Kept m m.drawn r s plain same
  endpoint-Kept m s begin_github r plain same = begin-Kept m m.drawn r s plain same
  endpoint-Kept m s callback_google r plain same = callback-Kept m r s same
  endpoint-Kept m s callback_github r plain same = callback-Kept m r s same
  endpoint-Kept m s refresh r plain same = refresh-Kept m r s.shared.store same
  endpoint-Kept m s revoke r plain same = problem-Kept r _ s.shared.store same

  happen-Kept :
      IsRouter api
      → ((env : E) (r : Request) → GivesNothing (api.begins env r))
      → (e : Event E) (s : ApiState) → SameTables base s.shared.store
      → Answered GivesNothing (happen api e s).0 × SameTables base (happen api e s).1.shared.store
  unfolding happen
  happen-Kept router plain (arrives m r) s same =
      serve_induction api router (λ x. Kept (x.0, x.1.shared.store)) m r s
        (λ e r. endpoint-Kept m s e r plain same) (λ r p. problem-Kept r p s.shared.store same)
  happen-Kept router plain (surroundings_change clock fault) s same = (
    tt,
    record {
      users = same.users;
      accounts = same.accounts;
      tokens = same.tokens;
      sessions = same.sessions;
    },
  )
  happen-Kept router plain (readiness_changes v) s same = (tt, same)

-- A new installation is closed for good: while no provider account is linked, no refresh token is
-- stored and no user has the nil UUID, no request, whatever it is and whatever the provider says, is
-- answered with tokens, and after any number of them the tables have the same rows; if chi routes by
-- the longest mounted prefix, and what gothic answers at the beginning of a flow has no tokens.
pub new_installation_locked :
    {E : Type 0} (api : Api E) (es : List (Event E)) (s : ApiState)
    → IsRouter api
    → ((env : E) (r : Request) → GivesNothing (api.begins env r))
    → IsUnlinked s.shared.store
    → All (Answered GivesNothing) (history api es s).0
      × SameTables s.shared.store (history api es s).1.shared.store
new_installation_locked api es s router plain unlinked =
    history_induction api (λ t. SameTables s.shared.store t.shared.store) GivesNothing es s
      (happen-Kept api s.shared.store unlinked router plain)
      (record { users = refl; accounts = refl; tokens = refl; sessions = refl })
