-- ===== src/Middleware/AccessLog.antt =====
-- middleware/accesslog.go: metrics and one log entry for each request.
pub mod Series
use postulate.Base.{
  ℕ, ◌+◌, String, Bool, true, false, ◌||◌, Option, none, some, List, [], ◌∷◌, ◌++◌, ◌==◌, text_Eq,
  nat_Eq, if◌then◌else◌, find, delete,
}
use postulate.Http.{Request, request_id_from_context}
use postulate.Telemetry.Metrics.{Metrics, record_request, inc_active}
use postulate.Middleware.ResponseWriter.{
  WriterCall, StatusRecorder, new_status_recorder, record_calls,
}

-- defaultExcludedPaths
abbrev pub default_excluded_paths : List String
default_excluded_paths = "/health" ∷ "/health/ready" ∷ "/health/live" ∷ []

-- The list that counts: the defaults if none is given.
abbrev pub excluded_paths : List String → List String
excluded_paths [] = default_excluded_paths
excluded_paths (p ∷ ps) = p ∷ ps

-- isExcluded, with strings.EqualFold.
unfoldable pub is_excluded : (String → String → Bool) → List String → String → Bool
is_excluded equal_fold [] path = false
is_excluded equal_fold (p ∷ ps) path = equal_fold path p || is_excluded equal_fold ps path

-- The route of the series: chi's pattern, if there is one by then and it is not empty.
unfoldable pub route_of : Option String → String → String
route_of none path = path
route_of (some pattern) path = if pattern == "" then path else pattern

-- "request completed"
pub record LogEntry : Type 0 where
  pub request_id : String
  pub method : String
  pub path : String
  pub status : ℕ
  pub duration_ms : ℕ
  pub response_bytes : ℕ

-- A request between the two halves of the middleware, under a number of its own.
pub record InFlight : Type 0 where
  pub number : ℕ
  pub method : String
  pub path : String
  pub route : String
  pub request_id : String

pub record Observed : Type 0 where
  pub metrics : Metrics
  pub in_flight : List InFlight
  pub log : List LogEntry

-- The half before the handler, for a request that is not excluded.
unfoldable pub enter : InFlight → Observed → Observed
enter f o = record o {
  metrics = inc_active f.method f.route o.metrics;
  in_flight = f ∷ o.in_flight;
}

abbrev pub has_number : ℕ → InFlight → Bool
has_number n f = f.number == n

-- The half after it, with what the handler did to the writer and the time it took.
unfoldable pub leave : InFlight → List WriterCall → ℕ → Observed → Observed
leave f calls duration o =
    let rec = record_calls calls new_status_recorder in
    record {
      metrics = record_request f.method f.route rec.status duration o.metrics;
      in_flight = delete (has_number f.number) o.in_flight;
      log =
          o.log
          ++ (record {
            request_id = f.request_id;
            method = f.method;
            path = f.path;
            status = rec.status;
            duration_ms = duration;
            response_bytes = rec.bytes;
          }
              ∷ []);
    }

-- What comes to the middleware: a request with a number that is not in use, and the end of one that
-- is in flight.
pub data Traffic : Type 0 where
  comes : ℕ → Request → Option String → Traffic
  ends : ℕ → List WriterCall → ℕ → Traffic

module _ (equal_fold : String → String → Bool) (given : List String) where
  abbrev pub in_flight_of : ℕ → Request → Option String → InFlight
  in_flight_of n r pattern = record {
    number = n;
    method = r.method;
    path = r.path;
    route = route_of pattern r.path;
    request_id = request_id_from_context r.context;
  }

  -- AccessLog: an excluded path goes by.
  unfoldable pub observe : Traffic → Observed → Observed
  unfolding enter leave
  observe (comes n r pattern) o =
      if is_excluded equal_fold (excluded_paths given) r.path
      then o
      else elim (find (has_number n) o.in_flight) [
        | some busy ↦ o
        | none ↦ enter (in_flight_of n r pattern) o
      ]
  observe (ends n calls duration) o = elim (find (has_number n) o.in_flight) [
    | none ↦ o
    | some f ↦ leave f calls duration o
  ]

  unfoldable pub observe_all : List Traffic → Observed → Observed
  observe_all [] o = o
  observe_all (t ∷ ts) o = observe_all ts (observe t o)
