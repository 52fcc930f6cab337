-- ===== src/Health/Aggregate.antt =====
-- What the health endpoint promises of the contributors.
use postulate.Base.{
  Option-cases, inl, inr, ◌⊎◌, ℕ, ◌≡◌, ◌↔◌, ◌≤◌, refl, String, Bool, true, none, some, List, [],
  ◌∷◌, ◌==◌, text_Eq, if◌then◌else◌, put, lookup, lookup-put, All, find, count, arith, eq_iff,
}
use postulate.Base.Result.{Error, is_ok}
use postulate.Base.Counts.{find-count}
use postulate.Health.{
  Status, status_healthy, status_unhealthy, CheckResult, Contributor, Aggregator, Pool, PingError,
  collect, check_all, serve_health, check_database, api_aggregator, check_database_at_startup,
}

module _ {E : Type 0} (env : E) where
  abbrev pub IsHealthy : Contributor E → Type 0
  IsHealthy c = (c.check env).status ≡ status_healthy

  abbrev has_name : String → Contributor E → Bool
  has_name k c = c.name == k

  collect-status :
      (cs : List (Contributor E)) (overall : Status) (checks : List (String × CheckResult))
      → ((collect env cs overall checks).0 ≡ status_healthy)
        ↔ ((overall ≡ status_healthy) × All IsHealthy cs)
  unfolding collect
  collect-status [] overall checks = ground arith
  collect-status (c ∷ cs) overall checks = ground (
    arith,
    collect-status cs overall (put c.name (c.check env) checks),
    collect-status cs status_unhealthy (put c.name (c.check env) checks),
    eq_iff (c.check env).status status_healthy,
    eq_iff status_unhealthy status_healthy,
  )

  collect-absent :
      (k : String) (cs : List (Contributor E)) (overall : Status)
      (checks : List (String × CheckResult))
      → find (has_name k) cs ≡ none
      → lookup k (collect env cs overall checks).1 ≡ lookup k checks
  unfolding collect find
  collect-absent k [] overall checks h = refl
  collect-absent k (c ∷ cs) overall checks h = ground (
    arith,
    collect-absent k cs overall (put c.name (c.check env) checks),
    collect-absent k cs status_unhealthy (put c.name (c.check env) checks),
    lookup-put c.name k (c.check env) checks,
    eq_iff c.name k,
  )

  collect-found :
      (k : String) (cs : List (Contributor E)) (overall : Status)
      (checks : List (String × CheckResult)) (c : Contributor E)
      → count (has_name k) cs ≤ 1
      → find (has_name k) cs ≡ some c
      → lookup k (collect env cs overall checks).1 ≡ some (c.check env)
  unfolding collect find count
  collect-found k [] overall checks c once h = absurd (ground arith)
  collect-found k (d ∷ cs) overall checks c once h = ground (
    arith,
    collect-found k cs overall (put d.name (d.check env) checks) c,
    collect-found k cs status_unhealthy (put d.name (d.check env) checks) c,
    collect-absent k cs overall (put d.name (d.check env) checks),
    collect-absent k cs status_unhealthy (put d.name (d.check env) checks),
    find-count (has_name k) cs,
    lookup-put d.name k (d.check env) checks,
    eq_iff d.name k,
  )

  -- GET /health answers 200 exactly when every contributor is healthy, and 503 otherwise.
  pub serve-IsHealthy :
      (a : Aggregator E) (now : ℕ)
      → (((serve_health a env now).0 ≡ 200) ↔ All IsHealthy a.contributors)
        × (((serve_health a env now).0 ≡ 200) ⊎ ((serve_health a env now).0 ≡ 503))
  unfolding serve_health check_all
  serve-IsHealthy a now = (
    ground (
      arith,
      collect-status a.contributors status_healthy [],
      eq_iff (collect env a.contributors status_healthy []).0 status_healthy,
    ),
    ground arith,
  )

  -- The report has, under the name of a contributor whose name no other has, what that contributor
  -- found, whatever the others found and in whatever order they were registered.
  pub report-found :
      (a : Aggregator E) (now : ℕ) (k : String) (c : Contributor E)
      → count (has_name k) a.contributors ≤ 1
      → find (has_name k) a.contributors ≡ some c
      → lookup k (serve_health a env now).1.checks ≡ some (c.check env)
  unfolding serve_health check_all
  report-found a now k c once h = collect-found k a.contributors status_healthy [] c once h

  database-startup :
      (pool : Pool E) (error_of : PingError → Error)
      → ((check_database pool env).status ≡ status_healthy)
        ↔ (is_ok (check_database_at_startup error_of pool env) ≡ true)
  unfolding check_database check_database_at_startup
  database-startup pool error_of = elim (Option-cases (pool.ping env)) [
    | inl e ↦ ground arith
    | inr (e, h) ↦ ground (arith, eq_iff status_unhealthy status_healthy)
  ]

  -- As the API is wired, GET /health answers 200 exactly when the database can be pinged, which is
  -- when the start-up check would pass, and reports the database's own result in either case.
  pub serve-startup :
      (pool : Pool E) (error_of : PingError → Error) (now : ℕ)
      → ((serve_health (api_aggregator pool) env now).0
          ≡ (if is_ok (check_database_at_startup error_of pool env) then 200 else 503))
        × (lookup "database" (serve_health (api_aggregator pool) env now).1.checks
            ≡ some (check_database pool env))
  unfolding serve_health check_all collect put lookup
  serve-startup pool error_of now = (
    ground (
      arith,
      (serve-IsHealthy (api_aggregator pool) now).0,
      (serve-IsHealthy (api_aggregator pool) now).1,
      database-startup pool error_of,
    ),
    refl,
  )
