-- ===== src/Tests/Settings.antt =====
-- Configurations at work.
use postulate.Base.{◌≡◌, ◌↔◌, none}
use postulate.Config.{pos, Config, zero_config}
use postulate.Config.Validate.{validate, IsValid, validate_iff}

-- A development set-up.
abbrev pub development : Config
development = record zero_config {
  server = record {
    port = pos 8080;
    environment = "development";
    shutdown_timeout_seconds = pos 30;
  };
  observability = record (zero_config.observability) { service_id = "api" };
  database = record (zero_config.database) {
    host = "localhost";
    port = pos 5432;
    name = "postulate";
    user = "postulate";
    password = "secret";
    ssl_mode = "disable";
  };
  auth = record (zero_config.auth) {
    google_client_id = "a";
    google_client_secret = "b";
    github_client_id = "c";
    github_client_secret = "d";
    jwt_secret = "0123456789abcdef0123456789abcdef";
  };
}

validate_iff_example : (validate (λ s. 32) development ≡ none) ↔ IsValid (λ s. 32) development
validate_iff_example = validate_iff (λ s. 32) development
