-- ===== src/Tests/Observers.antt =====
-- Identifiers, metrics, telemetry and logs at work.
use postulate.Base.{
  ℕ, ◌+◌, ◌≡◌, ◌⊎◌, refl, String, Bool, true, none, some, List, [], ◌∷◌, ◌++◌, length, ◌==◌,
  text_Eq, nat_Eq,
}
use postulate.Base.Result.{ok, err, message}
use postulate.Http.{Request, Problem, new_problem, type_not_found, write_problem}
use postulate.Middleware.RequestId.{valid_request_id, fits, request_id}
use postulate.Middleware.RequestId.Safe.{codes, IsPlain, request_id_safe}
use postulate.Middleware.ResponseWriter.{WriterCall, write_header, write}
use postulate.Middleware.AccessLog.{Traffic, comes, ends, observe_all}
use postulate.Middleware.AccessLog.Series.{unobserved, no_status, with_status, series_apart}
use postulate.Telemetry.Metrics.{ups, downs, all_ups, all_downs}
use postulate.Telemetry.Setup.{Sdk, tracer, setup, shutdowns, installs, built, setup-shutdowns}
use postulate.Logger.{
  text, end, attr, LogRecord, Handler, any_pattern, contains, is_sensitive, handle, with_attrs,
}
use postulate.Logger.Silent.{AgreesWith, handle-AgreesWith}
use postulate.Tests.{request}

abbrev fresh_id : String
fresh_id = "01ARZ3NDEKTSV4RRFFQ69G5FAV"

fresh-valid : valid_request_id fresh_id ≡ true
unfolding valid_request_id fits
fresh-valid = refl

-- A header that would break a line of the log.
abbrev forged : Request
forged = record request { request_id_header = "x\nlevel=error" }

abbrev missing : Problem
missing = new_problem type_not_found "Not Found" 404 "" "/v1"

request_id_safe_example :
    let answer = request_id fresh_id (λ seen (s : ℕ). (write_problem seen missing, s)) forged 3 in
    IsPlain answer.0.0
    × ((length (codes answer.0.0) ≡ 26) ⊎ (length (codes answer.0.0) ≡ 36))
    × (answer.0.1 ≡ write_problem forged (record missing { request_id = answer.0.0 }))
request_id_safe_example = request_id_safe fresh_id missing forged 3 fresh-valid refl

abbrev calls : List WriterCall
calls = write_header 404 ∷ write 10 ∷ write 5 ∷ []

-- Two requests that overlap.
abbrev traffic : List Traffic
traffic = comes 1 request none ∷ comes 2 request (some "/v1/auth/token") ∷ ends 1 calls 12 ∷ []

abbrev equal_fold : String → String → Bool
equal_fold a b = a == b

series_apart_example :
    let o = observe_all equal_fold [] traffic unobserved in
    (all_ups o.metrics ≡ all_downs o.metrics + length o.in_flight)
    × (downs (no_status "GET" "/v1/auth/token") o.metrics ≡ 0)
    × (ups (with_status "GET" "/v1/auth/token" 404) o.metrics ≡ 0)
series_apart_example = series_apart equal_fold [] traffic "GET" "/v1/auth/token" 404

-- An endpoint whose metrics cannot be exported.
abbrev sdk : Sdk
sdk = record {
  resource = λ name. ok tt;
  otlp_trace = λ endpoint. ok tt;
  otlp_metric = λ endpoint. err (message "unreachable");
  shutdown = λ p. none;
}

setup-shutdowns_example :
    (shutdowns tracer (
        (setup sdk "api" "collector:4317").actions ++ (setup sdk "api" "collector:4317").shutdown.1)
      ≡ built sdk "api" "collector:4317" tracer)
    × (installs tracer (setup sdk "api" "collector:4317").actions
        ≡ elim (setup sdk "api" "collector:4317").error [ none ↦ 1 | some e ↦ 0 ])
setup-shutdowns_example = setup-shutdowns sdk "api" "collector:4317" tracer

abbrev lower : ℕ → ℕ
lower c = c

abbrev login_entry : LogRecord
login_entry = record { time = 5; level = 4; message = "login"; attrs = end }

abbrev plain_handler : Handler
plain_handler = record { min_level = 4; given = [] }

token-sensitive : is_sensitive lower "refresh_token" ≡ true
unfolding is_sensitive any_pattern contains
token-sensitive = refl

handle-AgreesWith_example :
    handle lower none
      (record login_entry {
        attrs = attr "refresh_token" (text "a") (attr "user" (text "ada") end);
      })
      (with_attrs lower end plain_handler)
    ≡ handle lower none
        (record login_entry {
          attrs = attr "refresh_token" (text "b") (attr "user" (text "ada") end);
        })
        (with_attrs lower end plain_handler)
handle-AgreesWith_example =
    handle-AgreesWith lower none login_entry plain_handler
      (attr "refresh_token" (text "a") (attr "user" (text "ada") end))
      (attr "refresh_token" (text "b") (attr "user" (text "ada") end)) end end
      (AgreesWith.secret "refresh_token" (text "a") (text "b") token-sensitive
        (AgreesWith.shown "user" (text "ada") AgreesWith.done))
      AgreesWith.done
