-- ===== src/Startup.antt =====
-- api/cmd/api/main.go: what the process does between its start and its exit, as a list of steps, and
-- with what code it exits. Log lines are left out.
pub mod Lifecycle
pub mod Bootstrap
use Prim.Native.String.{◌++◌ as join}
use postulate.Base.{
  ℕ, ◌*◌, String, Bool, true, false, ◌&&◌, ◌||◌, not, Option, none, some, List, [], ◌∷◌, ◌++◌, map,
  ◌==◌, text_Eq, nat_Eq, if◌then◌else◌,
}
use postulate.Base.Result.{Error, Result, ok, err}
use postulate.Config.{ℤ, Config}
use postulate.Config.Load.{Process, load}
use postulate.Config.Validate.{validate}
use postulate.Database.{PoolCall, opened, closed, Pgx, new, seconds}
use postulate.Health.{Pool, PingError, check_database_at_startup}
use postulate.Migrate.{Migration, run}
use postulate.Telemetry.Setup.{Action, Sdk, setup}
use postulate.Auth.Resolver.{BootstrapConfig}
use postulate.Auth.StateStore.{second}
use postulate.Auth.Providers.{OAuthProvider, register_providers}

-- The healthcheck mode: the exit code; `get` is the status that http.Get of a URL brings.
unfoldable pub healthcheck : (String → String) → (String → Option ℕ) → ℕ
healthcheck getenv get =
    let given = getenv "POSTULATE_SERVER_PORT" in
    let port = if given == "" then "8080" else given in
    elim (get (join "http://localhost:" (join port "/health"))) [
      | none ↦ 1
      | some status ↦ if not (status == 200) then 1 else 0
    ]

-- The providers, with the default of the base URL.
abbrev pub api_providers : Config → List OAuthProvider
api_providers cfg =
    register_providers cfg.auth.google_client_id cfg.auth.google_client_secret
      cfg.auth.github_client_id cfg.auth.github_client_secret
      (if cfg.auth.base_url == "" then "http://localhost:8080" else cfg.auth.base_url)

-- The bootstrap configuration of the resolver.
unfoldable pub bootstrap_config : Config → BootstrapConfig
bootstrap_config cfg =
    let is_production = cfg.server.environment == "production" in
    record {
      admin_email = cfg.auth.bootstrap_admin_email;
      dev_fallback_enabled = not is_production || not (cfg.auth.bootstrap_admin_email == "");
    }

-- Does main warn that nobody will be an admin?
unfoldable pub warns_no_admin : Config → Bool
warns_no_admin cfg = cfg.server.environment == "production" && cfg.auth.bootstrap_admin_email == ""

-- The instruments: no-op ones, which record nothing, if those of the provider cannot be registered.
abbrev pub metrics_or_noop : {A : Type 0} → Result A → A → A
metrics_or_noop (ok metrics) noop = metrics
metrics_or_noop (err e) noop = noop

-- A step that others depend on. `pool closed` is a Close that main waits for; the one at the end is
-- given so many nanoseconds, as are the drain and the shutdown of OpenTelemetry, and it ends done or
-- not. Does the listener's end leave no request under way?
pub data Step : Type 0 where
  pool : PoolCall → Step
  migrates : Step
  becomes_ready : Bool → Step
  telemetry_runs : List Action → Step
  listens : Step
  listener_ends : Bool → Step
  drain_starts : ℤ → Step
  drain_ends : Bool → Step
  telemetry_stops : ℕ → List Action → Step
  pool_close_starts : ℕ → Step
  pool_close_ends : Bool → Step

-- How the process comes to its end. The listener fails, with no request under way then or with some,
-- or ends as one that is closed. Or a signal comes, after which the drain is done in time or not,
-- and then the closing of the pool.
pub data Stop : Type 0 where
  fails : Bool → Stop
  closes : Stop
  signalled : Bool → Bool → Stop

-- 5*time.Second and 10*time.Second
abbrev pub telemetry_timeout : ℕ
telemetry_timeout = 5 * second

abbrev pub pool_close_timeout : ℕ
pool_close_timeout = 10 * second

-- What the process meets: its environment, the database, the migrations and OpenTelemetry.
pub record Machine (C P E : Type 0) : Type 0 where
  pub process : Process
  pub len : String → ℕ
  pub show : ℤ → String
  pub pgx : Pgx C P
  pub checked : P → Pool E
  pub env : E
  pub error_of : PingError → Error
  pub migration : Migration
  pub sdk : Sdk

abbrev pub pool_steps : List PoolCall → List Step
pool_steps calls = map pool calls

module _ {C P E : Type 0} (m : Machine C P E) where
  -- The select at the end of main.
  unfoldable pub wait : Config → Stop → List Step × ℕ
  wait cfg (fails idle) = (listener_ends idle ∷ pool closed ∷ [], 1)
  wait cfg closes = (listener_ends true ∷ [], 0)
  wait cfg (signalled drained released) = (
    becomes_ready false
        ∷ drain_starts (seconds cfg.server.shutdown_timeout_seconds)
        ∷ drain_ends drained
        ∷ telemetry_stops telemetry_timeout
            (setup m.sdk cfg.observability.service_id cfg.observability.otlp_endpoint).shutdown.1
        ∷ pool_close_starts pool_close_timeout
        ∷ pool_close_ends released
        ∷ [],
    0,
  )

  -- From the migrated database on.
  unfoldable pub serve : Config → Stop → List Step × ℕ
  unfolding wait
  serve cfg stop =
      let (rest, code) = wait cfg stop in
      (
        becomes_ready true
            ∷ telemetry_runs
                (setup m.sdk cfg.observability.service_id cfg.observability.otlp_endpoint).actions
            ∷ listens
            ∷ rest,
        code,
      )

  -- From the configuration on.
  unfoldable pub with_pool : Config → Stop → Result P × List PoolCall → List Step × ℕ
  unfolding serve
  with_pool cfg stop (err e, calls) = (pool_steps calls, 1)
  with_pool cfg stop (ok p, calls) =
      elim (check_database_at_startup m.error_of (m.checked p) m.env) [
        | err e ↦ (pool_steps calls ++ (pool closed ∷ []), 1)
        | ok done ↦ elim (run m.migration).0 [
          | some e ↦ (pool_steps calls ++ (pool closed ∷ []), 1)
          | none ↦
              let (rest, code) = serve cfg stop in (pool_steps calls ++ (migrates ∷ rest), code)
        ]
      ]

  -- main
  unfoldable pub main : Stop → List Step × ℕ
  unfolding with_pool
  main stop = elim (load m.process) [
    | err e ↦ ([], 1)
    | ok cfg ↦ elim (validate m.len cfg) [
      | some complaints ↦ ([], 1)
      | none ↦ with_pool cfg stop (new m.show m.pgx cfg.database)
    ]
  ]
