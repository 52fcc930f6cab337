-- ===== src/Tests/Apis.antt =====
-- A whole API at work.
use postulate.Base.{
  lookup, put, ap, ℕ, ◌≡◌, ◌≢◌, refl, String, true, Option, none, some, List, [], ◌∷◌, All, find,
  ◌==◌, text_Eq, nat_Eq, if◌then◌else◌, inr, arith, eq_iff,
}
use postulate.Base.Result.{ok, message}
use postulate.Config.{Config, zero_config}
use postulate.Postgres.{Statement, Fault, broken, account_upsert, empty_db}
use postulate.Postgres.Users.{has_id, is_row, find_user_by_id}
use postulate.Postgres.Accounts.{find_by_provider, upsert_account, merge_account}
use postulate.Postgres.Tokens.{create_token, insert_token}
use postulate.Auth.StateStore.{new_state_store, generate, validate}
use postulate.Auth.ProviderUser.{GothUser}
use postulate.Auth.Resolver.{resolve_or_create_user, resolve_by_account, apply_bootstrap_upgrade}
use postulate.Auth.Issuer.{issue_session_token}
use postulate.Auth.Issuer.Grants.{IsGranted}
use postulate.Http.{Request, no_body, redirect, query_get}
use postulate.Middleware.Auth.{identity_of}
use postulate.Middleware.RequestId.{picked_id, with_request_id, request_id}
use postulate.Handler.OAuth.{bad_state, redirect_query, callback, complete_callback, hand_over}
use postulate.Router.{new, route}
use postulate.Router.Table.{
  longest, among, after_segments, path_of, callback_github, ready, refresh,
}
use postulate.Startup.{bootstrap_config}
use postulate.Cli.Callback.{CallbackResult, new_server, start, handle_callback}
use postulate.Cli.Login.{login_works}
use postulate.Api.{
  ApiState, Api, Moment, api_start, handlers_at, serve, Event, arrives, surroundings_change,
  readiness_changes, history,
}
use postulate.Api.Routing.{IsRouter}
use postulate.Api.Histories.{Answered}
use postulate.Api.Accounts.{history-holder}
use postulate.Auth.Resolver.History.{holder}
use postulate.Api.Admins.{admins, history-admins}
use postulate.Api.Locked.{GivesNothing, SameTables, new_installation_locked}
use postulate.Api.SingleUse.{IsCallback, callback_never_again}
use postulate.Api.Probes.{asks_ready, probes_answer}
use postulate.Api.Grants.{given_tokens, given_tokens-IsGranted}
use postulate.Tests.{household, crypto, parse, request}
use postulate.Tests.Tokens.{answer, parse-ParsesSigned}
use postulate.Tests.Routes.{chi, chi-RoutesByPrefix, chi-MissesUnmounted}

-- An API in production with no admin email, where GitHub knows Ada.
abbrev config : Config
config = record zero_config {
  server = record (zero_config.server) { environment = "production" };
  auth = record (zero_config.auth) { jwt_secret = "key" };
}

abbrev ada_at_goth : GothUser
ada_at_goth = record {
  provider = "github";
  user_id = "ada";
  email = "ada@example.org";
  name = "Ada L.";
  access_token = "a";
  refresh_token = "";
  expires_at = 50;
}

abbrev segments : String → List String
segments path =
    if path == "/refresh"
    then path_of refresh
    else if path == "/health/ready"
    then path_of ready
    else path_of callback_github

abbrev api : Api ℕ
api = record {
  cfg = config;
  crypto = record crypto { uuid_text = λ id. "7" };
  jwt_parse = parse;
  chi = chi;
  segments = segments;
  pool = record { ping = λ env. none; stat = λ env. none };
  complete = λ env r. ok ada_at_goth;
  begins = λ env r. record { status = 307; content_type = ""; body = no_body };
  is_url = λ s. true;
  linked = ("dev", "none", "unknown");
  runtime_version = "go1.24";
}

api-IsRouter : IsRouter api
api-IsRouter = record { routes = chi-RoutesByPrefix; misses = chi-MissesUnmounted }

abbrev moment : Moment ℕ
moment = record {
  times = record { now = 1; issued = 0; draw = ok "fresh" };
  drawn = some "s2";
  fresh = "01J0000000000000000000000A";
  env = 0;
}

abbrev comes_back : Request
comes_back = record request {
  path = "/callback";
  query =
      ("state", "s1") ∷ ("code", "c") ∷ ("redirect_uri", "http://127.0.0.1:18001/callback") ∷ [];
}

abbrev asks_again : Request
asks_again = record request { method = "POST"; path = "/refresh"; refresh_body = some "first" }

abbrev break_upserts : Statement → Option Fault
break_upserts account_upsert = some (broken "lost")
break_upserts _ = none

-- A refresh, a lost connection, and a callback.
abbrev events : List (Event ℕ)
events =
    arrives moment asks_again
    ∷ surroundings_change 5 break_upserts
    ∷ arrives moment comes_back
    ∷ readiness_changes true
    ∷ []

history-holder_example :
    holder (history api events (api_start household)).1.shared.store "github" "ada"
    ≡ holder household "github" "ada"
history-holder_example = history-holder api "github" "ada" events (api_start household) api-IsRouter

history-admins_example :
    admins (history api events (api_start household)).1.shared.store ≡ admins household
history-admins_example = history-admins api events (api_start household) api-IsRouter refl refl

new_installation_locked_example :
    All (Answered GivesNothing) (history api events (api_start empty_db)).0
    × SameTables empty_db (history api events (api_start empty_db)).1.shared.store
unfolding find
new_installation_locked_example =
    new_installation_locked api events (api_start empty_db) api-IsRouter (λ env r. refl)
      (record { no_accounts = refl; no_tokens = refl; no_nil = refl })

-- The household, and a login that has begun with the state s1.
abbrev begun : ApiState
begun = record (api_start household) {
  shared = record { states = (generate (some "s1") 0 new_state_store).1; store = household };
}

comes_back-IsCallback : IsCallback api "s1" comes_back
unfolding query_get
comes_back-IsCallback = record {
  endpoint = callback_github;
  is_callback = inr refl;
  method = refl;
  path = refl;
  state = refl;
}

other : ◌≢◌ {A = Option String} (some "s2") (some "s1")
other e = absurd (ground (arith, e, eq_iff "s2" "s1"))

callback_never_again_example :
    let between = (history api events (serve api moment comes_back begun).1).1 in
    ((serve api moment comes_back between).0.1
      ≡ bad_state (with_request_id comes_back (picked_id moment.fresh comes_back)))
    × ((serve api moment comes_back between).1.shared.store ≡ between.shared.store)
callback_never_again_example =
    callback_never_again api api-IsRouter moment moment comes_back comes_back events begun "s1"
      comes_back-IsCallback comes_back-IsCallback (other, (tt, (other, (tt, tt))))

is_redirected :
    (serve api moment comes_back begun).0.1.body ≡ redirect "http://127.0.0.1:18001/callback" answer
unfolding serve request_id route new longest among after_segments handlers_at callback validate
    generate complete_callback resolve_or_create_user resolve_by_account apply_bootstrap_upgrade
    find_by_provider find_user_by_id upsert_account merge_account issue_session_token create_token
    insert_token hand_over query_get picked_id bootstrap_config find lookup put
is_redirected = refl

given_tokens-IsGranted_example :
    IsGranted api.crypto "key" (serve api moment comes_back begun).1.shared.store answer
given_tokens-IsGranted_example =
    given_tokens-IsGranted api moment comes_back begun answer api-IsRouter (λ env r. refl)
      (ap given_tokens is_redirected)

abbrev tell : ℕ → String
tell t = "soon"

login_works_example :
    (user : ℕ) × (result : CallbackResult) × (is_row
        (find (has_id user) (serve api moment comes_back begun).1.shared.store.users)
      ≡ true)
    × ((handle_callback
          (redirect_query tell (("app", "cli") ∷ []) answer)
          (start (new_server 18001))).1.result
        ≡ some result)
    × (result.expires_at ≡ tell answer.expires_at)
    × (identity_of parse "key" 28800000000000 result.token
        ≡ some (record { user_id = "7"; role = result.role }))
login_works_example =
    login_works api moment comes_back begun "http://127.0.0.1:18001/callback" answer tell
      (("app", "cli") ∷ []) 18001 28800000000000 api-IsRouter (λ env r. refl) parse-ParsesSigned
      (λ id. ground (arith, eq_iff "7" "")) is_redirected (ground (arith, eq_iff "jwt" ""))
      (ground (arith, eq_iff "platform_member" "")) (omega arith)

abbrev asks_readiness : Request
asks_readiness = record request { path = "/health/ready" }

probes_answer_example :
    let now = (history api events (api_start household)).1 in
    ((serve api moment asks_readiness now).0.1.status ≡ 200)
    × ((serve api moment asks_readiness now).1 ≡ now)
probes_answer_example =
    probes_answer api api-IsRouter events (api_start household) moment asks_readiness asks_ready
      (λ e. message e.text) refl refl
