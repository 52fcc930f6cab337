-- ===== src/Health.antt =====
-- api/internal/health, handler/health_handler.go and startup/checks.go: whether the API can do its
-- work. What a check finds out about the surroundings is a function of these.
pub mod Aggregate
use postulate.Base.{
  ℕ, String, Bool, true, false, not, Option, none, some, List, [], ◌∷◌, ◌++◌, ◌==◌, text_Eq,
  if◌then◌else◌, put,
}
use postulate.Base.Result.{Error, Result, ok, err, wrap}

-- health.Status
abbrev pub Status : Type 0
Status = String

abbrev pub status_healthy : Status
status_healthy = "healthy"

abbrev pub status_unhealthy : Status
status_unhealthy = "unhealthy"

pub record PoolStats : Type 0 where
  pub acquired_conns : ℕ
  pub idle_conns : ℕ
  pub max_conns : ℕ

-- The one extension that a check adds is the pool's statistics.
pub record CheckResult : Type 0 where
  pub status : Status
  pub message : String
  pub stats : Option PoolStats

-- health.Contributor, over surroundings E.
pub record Contributor (E : Type 0) : Type 0 where
  pub name : String
  pub check : E → CheckResult

pub record AggregateResult : Type 0 where
  pub status : Status
  pub timestamp : ℕ
  pub checks : List (String × CheckResult)

pub record Aggregator (E : Type 0) : Type 0 where
  pub contributors : List (Contributor E)

-- handler.HealthHandler
pub record HealthHandler (E : Type 0) : Type 0 where
  pub aggregator : Aggregator E

-- What Ping reports: the text of the error, and whether it is context.DeadlineExceeded.
pub record PingError : Type 0 where
  pub text : String
  pub is_deadline : Bool

-- The pool: its ping, and its statistics, where these are not nil.
pub record Pool (E : Type 0) : Type 0 where
  pub ping : E → Option PingError
  pub stat : E → Option PoolStats

-- ServerContributor
abbrev pub server_contributor : {E : Type 0} → Contributor E
server_contributor = record {
  name = "server";
  check = λ env. record { status = status_healthy; message = ""; stats = none };
}

-- poolStatsFromPgx
abbrev pub pool_stats_from_pgx : Option PoolStats → PoolStats
pool_stats_from_pgx none = record { acquired_conns = 0; idle_conns = 0; max_conns = 0 }
pool_stats_from_pgx (some stat) = stat

-- DatabaseContributor.Check
unfoldable pub check_database : {E : Type 0} → Pool E → E → CheckResult
check_database pool env = elim (pool.ping env) [
  | some e ↦ record {
    status = status_unhealthy;
    message = if e.is_deadline then "ping timeout" else e.text;
    stats = none;
  }
  | none ↦ record {
    status = status_healthy;
    message = "";
    stats = some (pool_stats_from_pgx (pool.stat env));
  }
]

abbrev pub database_contributor : {E : Type 0} → Pool E → Contributor E
database_contributor pool = record { name = "database"; check = check_database pool }

module _ {E : Type 0} where
  -- Aggregator.Register
  abbrev pub register : Contributor E → Aggregator E → Aggregator E
  register c a = record { contributors = a.contributors ++ (c ∷ []) }

  -- The aggregator as cmd/api/main.go makes it.
  abbrev pub api_aggregator : Pool E → Aggregator E
  api_aggregator pool =
      register (database_contributor pool)
        (register server_contributor (record { contributors = [] }))

  -- The loop of Check: the status and the map so far.
  unfoldable pub collect :
      E
      → List (Contributor E)
      → Status
      → List (String × CheckResult)
      → Status × List (String × CheckResult)
  collect env [] overall checks = (overall, checks)
  collect env (c ∷ cs) overall checks =
      let result = c.check env in
      collect env cs (if not (result.status == status_healthy) then status_unhealthy else overall)
        (put c.name result checks)

  -- Aggregator.Check, with the time of the answer.
  unfoldable pub check_all : Aggregator E → E → ℕ → AggregateResult
  check_all a env now =
      let (overall, checks) = collect env a.contributors status_healthy [] in
      record { status = overall; timestamp = now; checks = checks }

  -- NewHealthHandler
  abbrev pub new_health_handler : Aggregator E → HealthHandler E
  new_health_handler aggregator = record { aggregator = aggregator }

  -- HealthHandler.ServeHTTP: the status code and the body.
  unfoldable pub serve_health : Aggregator E → E → ℕ → ℕ × AggregateResult
  serve_health a env now =
      let result = check_all a env now in
      (if not (result.status == status_healthy) then 503 else 200, result)

  -- startup.CheckDatabase, less its log line.
  unfoldable pub check_database_at_startup : (PingError → Error) → Pool E → E → Result (Unit {0})
  check_database_at_startup error_of pool env = elim (pool.ping env) [
    | some e ↦ err (wrap "database unreachable at startup" (error_of e))
    | none ↦ ok tt
  ]
