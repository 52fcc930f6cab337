-- ===== src/Config/Redact.antt =====
-- config/redact.go: the configuration as it is logged.
use postulate.Base.{◌≡◌, refl, String, List, [], ◌∷◌}
use postulate.Config.{ℤ, Config}

pub data LogValue : Type 0 where
  number : ℤ → LogValue
  text : String → LogValue

abbrev pub redacted : LogValue
redacted = text "[redacted]"

-- LogSafe: the map as the list of its entries.
unfoldable pub log_safe : Config → List (String × LogValue)
log_safe cfg =
    ("server.port", number cfg.server.port)
    ∷ ("server.environment", text cfg.server.environment)
    ∷ ("server.shutdown_timeout_seconds", number cfg.server.shutdown_timeout_seconds)
    ∷ ("observability.service_id", text cfg.observability.service_id)
    ∷ ("observability.instance_id", text cfg.observability.instance_id)
    ∷ ("observability.otlp_endpoint", text cfg.observability.otlp_endpoint)
    ∷ ("observability.log_level", text cfg.observability.log_level)
    ∷ ("database.host", text cfg.database.host)
    ∷ ("database.port", number cfg.database.port)
    ∷ ("database.name", text cfg.database.name)
    ∷ ("database.user", text cfg.database.user)
    ∷ ("database.password", redacted)
    ∷ ("database.ssl_mode", text cfg.database.ssl_mode)
    ∷ ("auth.google_client_id", text cfg.auth.google_client_id)
    ∷ ("auth.google_client_secret", redacted)
    ∷ ("auth.github_client_id", text cfg.auth.github_client_id)
    ∷ ("auth.github_client_secret", redacted)
    ∷ ("auth.base_url", text cfg.auth.base_url)
    ∷ ("auth.jwt_secret", redacted)
    ∷ []

-- The configuration with other secrets.
abbrev pub with_secrets : String → String → String → String → Config → Config
with_secrets password google github jwt cfg = record cfg {
  database = record (cfg.database) { password = password };
  auth = record (cfg.auth) {
    google_client_secret = google;
    github_client_secret = github;
    jwt_secret = jwt;
  };
}

-- What is logged does not depend on the database password, the two client secrets or the JWT
-- secret: with any others in their place it reads the same.
pub log_safe_independent :
    (cfg : Config) (password google github jwt : String)
    → log_safe (with_secrets password google github jwt cfg) ≡ log_safe cfg
unfolding log_safe
log_safe_independent cfg password google github jwt = refl
