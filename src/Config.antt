-- ===== src/Config.antt =====
-- api/internal/config: the structures of config.go. A Go int is an integer.
pub mod Load
pub mod Validate
pub mod Redact
use postulate.Base.{ℕ, String, Bool, true, false, ltb}

-- `negsuc n` is -(n + 1).
pub data ℤ : Type 0 where
  pos : ℕ → ℤ
  negsuc : ℕ → ℤ

-- `a < b`
abbrev pub int_ltb : ℤ → ℤ → Bool
int_ltb (pos a) (pos b) = ltb a b
int_ltb (pos a) (negsuc b) = false
int_ltb (negsuc a) (pos b) = true
int_ltb (negsuc a) (negsuc b) = ltb b a

pub record ServerConfig : Type 0 where
  pub port : ℤ
  pub environment : String
  pub shutdown_timeout_seconds : ℤ

pub record ObservabilityConfig : Type 0 where
  pub service_id : String
  pub instance_id : String
  pub otlp_endpoint : String
  pub log_level : String

pub record DatabaseConfig : Type 0 where
  pub host : String
  pub port : ℤ
  pub name : String
  pub user : String
  pub password : String
  pub ssl_mode : String
  pub max_open_conns : ℤ
  pub max_idle_conns : ℤ
  pub conn_max_lifetime_seconds : ℤ

pub record AuthConfig : Type 0 where
  pub google_client_id : String
  pub google_client_secret : String
  pub github_client_id : String
  pub github_client_secret : String
  pub base_url : String
  pub jwt_secret : String
  pub bootstrap_admin_email : String

pub record Config : Type 0 where
  pub server : ServerConfig
  pub observability : ObservabilityConfig
  pub database : DatabaseConfig
  pub auth : AuthConfig

-- &Config{}
abbrev pub zero_config : Config
zero_config = record {
  server = record { port = pos 0; environment = ""; shutdown_timeout_seconds = pos 0 };
  observability = record { service_id = ""; instance_id = ""; otlp_endpoint = ""; log_level = "" };
  database = record {
    host = "";
    port = pos 0;
    name = "";
    user = "";
    password = "";
    ssl_mode = "";
    max_open_conns = pos 0;
    max_idle_conns = pos 0;
    conn_max_lifetime_seconds = pos 0;
  };
  auth = record {
    google_client_id = "";
    google_client_secret = "";
    github_client_id = "";
    github_client_secret = "";
    base_url = "";
    jwt_secret = "";
    bootstrap_admin_email = "";
  };
}
