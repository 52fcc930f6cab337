-- ===== src/Http.antt =====
-- Requests and responses, as far as the handlers read and write them, and api/internal/problem.
-- A query is the list of its parameters; a body is the value that encoding/json writes or reads.
use postulate.Base.{ℕ, String, Option, none, some, List, [], ◌∷◌, ◌==◌, text_Eq, if◌then◌else◌}
use postulate.Auth.ProviderUser.{Context}
use postulate.Auth.Issuer.{TokenResponse}
use postulate.Health.{AggregateResult}
use postulate.Handler.Probes.{BuildInfo}

-- `refresh_body` is what decoding the body as {refresh_token} gives: none if that fails.
pub record Request : Type 0 where
  pub method : String
  pub path : String
  pub authorization : String
  pub request_id_header : String
  pub query : List (String × String)
  pub refresh_body : Option String
  pub context : Context

-- url.Values.Get: the first value of a key, or the empty text.
unfoldable pub query_get : String → List (String × String) → String
query_get k [] = ""
query_get k ((j, v) ∷ q) = if j == k then v else query_get k q

-- RequestIDFromContext
abbrev pub request_id_from_context : Context → String
request_id_from_context ctx = elim ctx.request_id [ none ↦ "" | some id ↦ id ]

-- problem.Problem
pub record Problem : Type 0 where
  pub type_uri : String
  pub title : String
  pub status : ℕ
  pub detail : String
  pub instance_path : String
  pub request_id : String

pub data Body : Type 0 where
  no_body : Body
  problem : Problem → Body
  tokens : TokenResponse → Body
  redirect : String → TokenResponse → Body
  health_report : AggregateResult → Body
  probe : String → Body
  build : BuildInfo → Body

pub record Response : Type 0 where
  pub status : ℕ
  pub content_type : String
  pub body : Body

abbrev pub problem_json : String
problem_json = "application/problem+json"

-- The type URIs of problem/types.go, each with the base in front.
abbrev pub type_not_found : String
type_not_found = "https://postulate.dev/errors/not-found"

abbrev pub type_method_not_allowed : String
type_method_not_allowed = "https://postulate.dev/errors/method-not-allowed"

abbrev pub type_internal_server_error : String
type_internal_server_error = "https://postulate.dev/errors/internal-server-error"

abbrev pub type_bad_request : String
type_bad_request = "https://postulate.dev/errors/bad-request"

abbrev pub type_unauthorized : String
type_unauthorized = "https://postulate.dev/errors/unauthorized"

abbrev pub type_forbidden : String
type_forbidden = "https://postulate.dev/errors/forbidden"

abbrev pub type_unprocessable_entity : String
type_unprocessable_entity = "https://postulate.dev/errors/unprocessable-entity"

-- problem.New: no request id yet.
abbrev pub new_problem : String → String → ℕ → String → String → Problem
new_problem type_uri title status detail instance_path = record {
  type_uri = type_uri;
  title = title;
  status = status;
  detail = detail;
  instance_path = instance_path;
  request_id = "";
}

-- problem.FieldError and ValidationProblem
pub record FieldError : Type 0 where
  pub field : String
  pub message : String

pub record ValidationProblem : Type 0 where
  pub base : Problem
  pub errors : List FieldError

abbrev pub type_validation_failed : String
type_validation_failed = "https://postulate.dev/errors/validation-failed"

-- NewValidation
abbrev pub new_validation : String → String → List FieldError → ValidationProblem
new_validation detail instance_path errors = record {
  base = new_problem type_validation_failed "Validation Failed" 422 detail instance_path;
  errors = errors;
}

abbrev or_else : String → String → String
or_else s default = if s == "" then default else s

-- writeJSON: the status, the content type and the body.
abbrev pub write_json : {A : Type 0} → ℕ → A → ℕ × String × A
write_json status body = (status, problem_json, body)

-- problem.Write: the instance and the request id are filled in where they are empty.
unfoldable pub write_problem : Request → Problem → Response
write_problem r p =
    let (status, content_type, body) = write_json p.status (record p {
      instance_path = or_else p.instance_path r.path;
      request_id = or_else p.request_id (request_id_from_context r.context);
    }) in
    record { status = status; content_type = content_type; body = problem body }

-- WriteValidation: the status, the content type and the body.
unfoldable pub write_validation : Request → ValidationProblem → ℕ × String × ValidationProblem
write_validation r p = write_json p.base.status (record p {
  base = record (p.base) {
    instance_path = or_else p.base.instance_path r.path;
    request_id = or_else p.base.request_id (request_id_from_context r.context);
  };
})

-- A handler answers, over a state that it may change.
abbrev pub Handler : Type 0 → Type 0
Handler S = Request → S → Response × S
