-- ===== src/Telemetry/Setup.antt =====
-- telemetry/telemetry.go: Setup and the shutdown that it hands out. A provider is known by what its
-- Shutdown answers; what is done to the providers is a list of actions.
use postulate.Base.{
  ◌+◌, ℕ, ◌≡◌, String, Option, none, some, List, [], ◌∷◌, ◌++◌, ◌==◌, text_Eq, if◌then◌else◌, arith,
  inl, inr,
}
use postulate.Base.Result.{Error, Result, ok, err, wrap, Result-cases}

pub data Provider : Type 0 where
  tracer meter : Provider

pub data Action : Type 0 where
  shut_down set_global : Provider → Action
  set_propagator : Action

-- What OpenTelemetry answers: the resource, the OTLP exporters of an endpoint, and the Shutdown of
-- each provider.
pub record Sdk : Type 0 where
  pub resource : String → Result (Unit {0})
  pub otlp_trace : String → Result (Unit {0})
  pub otlp_metric : String → Result (Unit {0})
  pub shutdown : Provider → Option Error

abbrev pub wrap_result : String → Result (Unit {0}) → Result (Unit {0})
wrap_result context (ok done) = ok done
wrap_result context (err e) = err (wrap context e)

-- defaultTraceExporter and defaultMetricExporter: no endpoint, no export.
unfoldable pub default_trace_exporter : Sdk → String → Result (Unit {0})
default_trace_exporter sdk endpoint =
    if endpoint == ""
    then ok tt
    else wrap_result "creating OTLP trace exporter" (sdk.otlp_trace endpoint)

unfoldable pub default_metric_exporter : Sdk → String → Result (Unit {0})
default_metric_exporter sdk endpoint =
    if endpoint == ""
    then ok tt
    else wrap_result "creating OTLP metric exporter" (sdk.otlp_metric endpoint)

-- buildTracerProvider and buildMeterProvider
abbrev pub build_tracer_provider : Sdk → String → Result (Unit {0})
build_tracer_provider sdk endpoint = default_trace_exporter sdk endpoint

abbrev pub build_meter_provider : Sdk → String → Result (Unit {0})
build_meter_provider sdk endpoint = default_metric_exporter sdk endpoint

-- A shutdown function: its error, and what it does.
abbrev pub Shutdown : Type 0
Shutdown = Option Error × List Action

abbrev pub noop_shutdown : Shutdown
noop_shutdown = (none, [])

-- The function that Setup returns: both providers are shut down, and the first error counts.
unfoldable pub shut_down_both : Sdk → Shutdown
shut_down_both sdk = (
  elim (sdk.shutdown tracer) [ some e ↦ some e | none ↦ sdk.shutdown meter ],
  shut_down tracer ∷ shut_down meter ∷ [],
)

-- Setup: the error, the shutdown function, and what was done on the way.
pub record Outcome : Type 0 where
  pub error : Option Error
  pub shutdown : Shutdown
  pub actions : List Action

abbrev pub refused : Error → List Action → Outcome
refused e actions = record { error = some e; shutdown = noop_shutdown; actions = actions }

unfoldable pub setup : Sdk → String → String → Outcome
unfolding shut_down_both default_trace_exporter default_metric_exporter
setup sdk service_id endpoint = elim (sdk.resource service_id) [
  | err e ↦ refused (wrap "creating OTel resource" e) []
  | ok res ↦ elim (build_tracer_provider sdk endpoint) [
    | err e ↦ refused e []
    | ok tp ↦ elim (build_meter_provider sdk endpoint) [
      | err e ↦ refused e (shut_down tracer ∷ [])
      | ok mp ↦ record {
        error = none;
        shutdown = shut_down_both sdk;
        actions = set_global tracer ∷ set_global meter ∷ set_propagator ∷ [];
      }
    ]
  ]
]

abbrev pub same_provider : Provider → Provider → ℕ
same_provider tracer tracer = 1
same_provider meter meter = 1
same_provider tracer meter = 0
same_provider meter tracer = 0

-- How often a provider is shut down, and made global.
unfoldable pub shutdowns : Provider → List Action → ℕ
shutdowns p [] = 0
shutdowns p (shut_down q ∷ rest) = same_provider p q + shutdowns p rest
shutdowns p (set_global q ∷ rest) = shutdowns p rest
shutdowns p (set_propagator ∷ rest) = shutdowns p rest

unfoldable pub installs : Provider → List Action → ℕ
installs p [] = 0
installs p (shut_down q ∷ rest) = installs p rest
installs p (set_global q ∷ rest) = same_provider p q + installs p rest
installs p (set_propagator ∷ rest) = installs p rest

-- How many of a provider exist in the end: the meter's comes after the tracer's.
abbrev pub one_if : Result (Unit {0}) → ℕ → ℕ
one_if (ok done) n = n
one_if (err e) n = 0

unfoldable pub built : Sdk → String → String → Provider → ℕ
built sdk service_id endpoint tracer =
    one_if (sdk.resource service_id) (one_if (build_tracer_provider sdk endpoint) 1)
built sdk service_id endpoint meter =
    one_if (sdk.resource service_id)
      (one_if (build_tracer_provider sdk endpoint) (one_if (build_meter_provider sdk endpoint) 1))

-- Setup leaks no provider: by the time that the function which it returns has run, each provider
-- that was built has been shut down exactly once, also when Setup fails half-way and when a
-- Shutdown itself fails; and both are made global if Setup succeeds, and none if it fails.
pub setup-shutdowns :
    (sdk : Sdk) (service_id endpoint : String) (p : Provider)
    → let done = setup sdk service_id endpoint in
      (shutdowns p (done.actions ++ done.shutdown.1) ≡ built sdk service_id endpoint p)
      × (installs p done.actions ≡ elim done.error [ none ↦ 1 | some e ↦ 0 ])
unfolding setup shutdowns installs built
setup-shutdowns sdk service_id endpoint p = elim (Result-cases (sdk.resource service_id)) [
  | inr (e, failed) ↦ (ground arith, ground arith)
  | inl (res, made) ↦ elim (Result-cases (build_tracer_provider sdk endpoint)) [
    | inr (e, failed) ↦ (ground arith, ground arith)
    | inl (tp, traced) ↦ elim (Result-cases (build_meter_provider sdk endpoint)) [
      | inr (e, failed) ↦ (ground arith, ground arith)
      | inl (mp, metered) ↦ (ground arith, ground arith)
    ]
  ]
]
