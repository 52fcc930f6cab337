-- ===== src/Config/Load.antt =====
-- config/loader.go: a YAML file, then the environment on top of it.
use postulate.Base.{
  ◌≡◌, refl, String, Bool, true, false, Option, none, some, ◌==◌, text_Eq, if◌then◌else◌, arith,
}
use postulate.Base.Result.{Error, Result, ok, err, message, wrap}
use postulate.Config.{ℤ, Config, zero_config}

-- os.Getenv (the empty text if a variable is not set), os.ReadFile, yaml.Unmarshal onto a
-- configuration, and strconv.Atoi after strings.TrimSpace.
pub data ReadResult : Type 0 where
  content : String → ReadResult
  not_exist : ReadResult
  unreadable : Error → ReadResult

pub record Process : Type 0 where
  pub getenv : String → String
  pub read_file : String → ReadResult
  pub unmarshal : String → Config → Result Config
  pub atoi : String → Option ℤ

-- setString
unfoldable pub set_string : String → String → String
set_string field v = if v == "" then field else v

-- setInt: a value that is no number is passed over.
unfoldable pub set_int : (String → Option ℤ) → ℤ → String → ℤ
set_int atoi field v = if v == "" then field else elim (atoi v) [ none ↦ field | some n ↦ n ]

-- applyEnvOverrides
unfoldable pub apply_env_overrides : Process → Config → Config
apply_env_overrides p cfg = record cfg {
  server = record {
    port = set_int p.atoi cfg.server.port (p.getenv "POSTULATE_SERVER_PORT");
    environment = set_string cfg.server.environment (p.getenv "POSTULATE_SERVER_ENVIRONMENT");
    shutdown_timeout_seconds =
        set_int p.atoi cfg.server.shutdown_timeout_seconds
          (p.getenv "POSTULATE_SERVER_SHUTDOWN_TIMEOUT_SECONDS");
  };
  observability = record {
    service_id =
        set_string cfg.observability.service_id (p.getenv "POSTULATE_OBSERVABILITY_SERVICE_ID");
    instance_id =
        set_string cfg.observability.instance_id (p.getenv "POSTULATE_OBSERVABILITY_INSTANCE_ID");
    otlp_endpoint =
        set_string cfg.observability.otlp_endpoint
          (p.getenv "POSTULATE_OBSERVABILITY_OTLP_ENDPOINT");
    log_level =
        set_string cfg.observability.log_level (p.getenv "POSTULATE_OBSERVABILITY_LOG_LEVEL");
  };
  auth = record {
    google_client_id = set_string cfg.auth.google_client_id (p.getenv "GOOGLE_CLIENT_ID");
    google_client_secret =
        set_string cfg.auth.google_client_secret (p.getenv "GOOGLE_CLIENT_SECRET");
    github_client_id = set_string cfg.auth.github_client_id (p.getenv "GITHUB_CLIENT_ID");
    github_client_secret =
        set_string cfg.auth.github_client_secret (p.getenv "GITHUB_CLIENT_SECRET");
    base_url = set_string cfg.auth.base_url (p.getenv "POSTULATE_BASE_URL");
    jwt_secret = set_string cfg.auth.jwt_secret (p.getenv "POSTULATE_JWT_SECRET");
    bootstrap_admin_email =
        set_string cfg.auth.bootstrap_admin_email (p.getenv "POSTULATE_BOOTSTRAP_ADMIN_EMAIL");
  };
}

-- configFilePath: the path, and whether it was given.
abbrev pub config_file_path : Process → String × Bool
config_file_path p =
    let v = p.getenv "POSTULATE_CONFIG_FILE" in
    if v == "" then ("./config.yaml", false) else (v, true)

-- loadYAML
unfoldable pub load_yaml : Process → String → Bool → Config → Result Config
load_yaml p path explicit cfg = elim (p.read_file path) [
  | not_exist ↦
      if explicit then err (wrap "reading config file" (message "file does not exist")) else ok cfg
  | unreadable e ↦ err (wrap "reading config file" e)
  | content text ↦ elim (p.unmarshal text cfg) [
    | err e ↦ err (wrap "parsing config file" e)
    | ok loaded ↦ ok loaded
  ]
]

-- Load
unfoldable pub load : Process → Result Config
unfolding load_yaml
load p =
    let (path, explicit) = config_file_path p in
    elim (load_yaml p path explicit zero_config) [
      | err e ↦ err e
      | ok cfg ↦ ok (apply_env_overrides p cfg)
    ]

set_string_idem : (field v : String) → set_string (set_string field v) v ≡ set_string field v
unfolding set_string
set_string_idem field v = ground arith

set_int_idem :
    (atoi : String → Option ℤ) (field : ℤ) (v : String)
    → set_int atoi (set_int atoi field v) v ≡ set_int atoi field v
unfolding set_int
set_int_idem atoi field v = ground arith

-- The environment wins over the file, and has nothing to say of the database: overriding twice is
-- overriding once, whatever the configuration, and the database section stays as it was.
pub overrides_idem :
    (p : Process) (cfg : Config)
    → (apply_env_overrides p (apply_env_overrides p cfg) ≡ apply_env_overrides p cfg)
      × ((apply_env_overrides p cfg).database ≡ cfg.database)
unfolding apply_env_overrides
overrides_idem p cfg = (simp (set_string_idem, set_int_idem), refl)
