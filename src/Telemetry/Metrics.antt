-- ===== src/Telemetry/Metrics.antt =====
-- telemetry/metrics.go: the two instruments. OpenTelemetry keeps one series for each set of
-- attributes, so an up-down counter is the list of what was added to it.
use postulate.Base.{
  ℕ, String, Bool, ◌&&◌, true, false, Option, none, some, List, [], ◌∷◌, ◌==◌, text_Eq, nat_Eq,
  count,
}
use postulate.Base.Result.{Error, Result, ok, err, wrap}

pub record Attributes : Type 0 where
  pub method : String
  pub route : String
  pub status_code : Option ℕ

pub data Change : Type 0 where
  up down : Change

-- Metrics: the durations that were recorded, and what was added to the counter of active requests.
pub record Metrics : Type 0 where
  pub request_duration : List (Attributes × ℕ)
  pub active_requests : List (Attributes × Change)

abbrev pub new_metrics : Metrics
new_metrics = record { request_duration = []; active_requests = [] }

-- NewMetrics, of what the meter answers for the histogram and for the counter.
unfoldable pub new_metrics_of : Option Error → Option Error → Result Metrics
new_metrics_of histogram counter = elim histogram [
  | some e ↦ err (wrap "creating request duration histogram" e)
  | none ↦ elim counter [
    | some e ↦ err (wrap "creating active requests counter" e)
    | none ↦ ok new_metrics
  ]
]

-- RecordRequest
unfoldable pub record_request : String → String → ℕ → ℕ → Metrics → Metrics
record_request method route status duration m =
    let attrs : Attributes = record { method = method; route = route; status_code = some status } in
    record {
      request_duration = (attrs, duration) ∷ m.request_duration;
      active_requests = (attrs, down) ∷ m.active_requests;
    }

-- IncActive
unfoldable pub inc_active : String → String → Metrics → Metrics
inc_active method route m = record m {
  active_requests =
      (record { method = method; route = route; status_code = none }, up) ∷ m.active_requests;
}

abbrev pub same_status : Option ℕ → Option ℕ → Bool
same_status none none = true
same_status (some a) (some b) = a == b
same_status none (some b) = false
same_status (some a) none = false

abbrev pub same_attributes : Attributes → Attributes → Bool
same_attributes a b =
    a.method == b.method && (a.route == b.route && same_status a.status_code b.status_code)

abbrev pub is_up : Change → Bool
is_up up = true
is_up down = false

abbrev pub is_down : Change → Bool
is_down up = false
is_down down = true

-- How often the counter of a series, or of all series together, went up and down.
abbrev pub ups : Attributes → Metrics → ℕ
ups a m = count (λ change. same_attributes a change.0 && is_up change.1) m.active_requests

abbrev pub downs : Attributes → Metrics → ℕ
downs a m = count (λ change. same_attributes a change.0 && is_down change.1) m.active_requests

abbrev pub all_ups : Metrics → ℕ
all_ups m = count (λ change. is_up change.1) m.active_requests

abbrev pub all_downs : Metrics → ℕ
all_downs m = count (λ change. is_down change.1) m.active_requests
