-- ===== src/Config/Validate.antt =====
-- config/validation.go: every violation is collected, in the order of the code.
use postulate.Base.{
  ℕ, ◌≡◌, ◌≢◌, ◌≤◌, ◌⊎◌, ◌↔◌, String, Bool, true, false, not, ◌||◌, Option, none, some, List, [],
  ◌∷◌, ltb, ◌==◌, text_Eq, if◌then◌else◌, arith, eq_iff,
}
use postulate.Config.{ℤ, pos, negsuc, int_ltb, Config}

-- One violation for each message of the code, with the value that the message reports.
pub data Violation : Type 0 where
  server_port : ℤ → Violation
  server_environment : String → Violation
  server_shutdown_timeout : ℤ → Violation
  observability_service_id database_host : Violation
  database_port : ℤ → Violation
  database_name database_user database_password : Violation
  database_ssl_mode : String → Violation
  auth_google_client_id auth_google_client_secret auth_github_client_id : Violation
  auth_github_client_secret : Violation
  auth_jwt_secret : ℕ → Violation

-- validEnvironments and validSSLModes
abbrev pub valid_environment : String → Bool
valid_environment e = e == "development" || e == "staging" || e == "production"

abbrev pub valid_ssl_mode : String → Bool
valid_ssl_mode m = m == "disable" || m == "require" || m == "verify-full"

-- `port < 1 || port > 65535`
abbrev pub bad_port : ℤ → Bool
bad_port port = int_ltb port (pos 1) || int_ltb (pos 65535) port

-- `if test { errs = append(errs, v) }`
unfoldable pub complain : Bool → Violation → List Violation → List Violation
complain test v rest = if test then v ∷ rest else rest

-- The violations that Validate collects; `len` is the number of bytes of a text.
unfoldable pub violations : (String → ℕ) → Config → List Violation
violations len cfg = complain (bad_port cfg.server.port) (server_port cfg.server.port) (
    complain (not (valid_environment cfg.server.environment))
      (server_environment cfg.server.environment)
      (complain (int_ltb cfg.server.shutdown_timeout_seconds (pos 1))
        (server_shutdown_timeout cfg.server.shutdown_timeout_seconds)
        (complain (cfg.observability.service_id == "") observability_service_id (
          complain (cfg.database.host == "") database_host (
            complain (bad_port cfg.database.port) (database_port cfg.database.port) (
              complain (cfg.database.name == "") database_name (
                complain (cfg.database.user == "") database_user (
                  complain (cfg.database.password == "") database_password (
                    complain (not (valid_ssl_mode cfg.database.ssl_mode))
                      (database_ssl_mode cfg.database.ssl_mode)
                      (complain (cfg.auth.google_client_id == "") auth_google_client_id (
                        complain (cfg.auth.google_client_secret == "") auth_google_client_secret (
                          complain (cfg.auth.github_client_id == "") auth_github_client_id (
                            complain (cfg.auth.github_client_secret == "") auth_github_client_secret
                              (complain (ltb (len cfg.auth.jwt_secret) 32)
                                (auth_jwt_secret (len cfg.auth.jwt_secret)) []))))))))))))))

-- Validate: nil, or all violations as one error.
unfoldable pub validate : (String → ℕ) → Config → Option (List Violation)
validate len cfg = elim (violations len cfg) [ [] ↦ none | v ∷ vs ↦ some (v ∷ vs) ]

-- What the code asks of a configuration, spelt out.
abbrev pub IsPort : ℤ → Type 0
IsPort (pos n) = (1 ≤ n) × (n ≤ 65535)
IsPort (negsuc n) = ⊥

abbrev pub IsPositive : ℤ → Type 0
IsPositive (pos n) = 1 ≤ n
IsPositive (negsuc n) = ⊥

pub record IsValid (len : String → ℕ) (cfg : Config) : Type 0 where
  pub server_port : IsPort cfg.server.port
  pub environment :
      (cfg.server.environment ≡ "development")
      ⊎ (cfg.server.environment ≡ "staging")
      ⊎ (cfg.server.environment ≡ "production")
  pub shutdown : IsPositive cfg.server.shutdown_timeout_seconds
  pub service_id : cfg.observability.service_id ≢ ""
  pub host : cfg.database.host ≢ ""
  pub database_port : IsPort cfg.database.port
  pub name : cfg.database.name ≢ ""
  pub user : cfg.database.user ≢ ""
  pub password : cfg.database.password ≢ ""
  pub ssl_mode :
      (cfg.database.ssl_mode ≡ "disable")
      ⊎ (cfg.database.ssl_mode ≡ "require")
      ⊎ (cfg.database.ssl_mode ≡ "verify-full")
  pub google_client_id : cfg.auth.google_client_id ≢ ""
  pub google_client_secret : cfg.auth.google_client_secret ≢ ""
  pub github_client_id : cfg.auth.github_client_id ≢ ""
  pub github_client_secret : cfg.auth.github_client_secret ≢ ""
  pub jwt_secret : 32 ≤ len cfg.auth.jwt_secret

complain-nil :
    (test : Bool) (v : Violation) (rest : List Violation)
    → (complain test v rest ≡ []) ↔ ((test ≡ false) × (rest ≡ []))
unfolding complain
complain-nil true v rest = ground arith
complain-nil false v rest = ground arith

IsPort-iff : (n : ℤ) → (bad_port n ≡ false) ↔ IsPort n
IsPort-iff (pos n) = ground arith
IsPort-iff (negsuc n) = ground arith

IsPositive-iff : (n : ℤ) → (int_ltb n (pos 1) ≡ false) ↔ IsPositive n
IsPositive-iff (pos n) = ground arith
IsPositive-iff (negsuc n) = ground arith

environment_iff :
    (e : String)
    → (not (valid_environment e) ≡ false)
      ↔ ((e ≡ "development") ⊎ (e ≡ "staging") ⊎ (e ≡ "production"))
environment_iff e =
    ground (arith, eq_iff e "development", eq_iff e "staging", eq_iff e "production")

ssl_mode_iff :
    (m : String)
    → (not (valid_ssl_mode m) ≡ false) ↔ ((m ≡ "disable") ⊎ (m ≡ "require") ⊎ (m ≡ "verify-full"))
ssl_mode_iff m = ground (arith, eq_iff m "disable", eq_iff m "require", eq_iff m "verify-full")

not_empty_iff : (s : String) → ((s == "") ≡ false) ↔ (s ≢ "")
not_empty_iff s = ground (arith, eq_iff s "")

long_iff : (n : ℕ) → (ltb n 32 ≡ false) ↔ (32 ≤ n)
long_iff n = ground arith

violations-IsValid : (len : String → ℕ) (cfg : Config) → violations len cfg ≡ [] → IsValid len cfg
unfolding violations
violations-IsValid len cfg h0 =
    let (a0, h1) = (complain-nil _ _ _).0 h0 in
    let (a1, h2) = (complain-nil _ _ _).0 h1 in
    let (a2, h3) = (complain-nil _ _ _).0 h2 in
    let (a3, h4) = (complain-nil _ _ _).0 h3 in
    let (a4, h5) = (complain-nil _ _ _).0 h4 in
    let (a5, h6) = (complain-nil _ _ _).0 h5 in
    let (a6, h7) = (complain-nil _ _ _).0 h6 in
    let (a7, h8) = (complain-nil _ _ _).0 h7 in
    let (a8, h9) = (complain-nil _ _ _).0 h8 in
    let (a9, h10) = (complain-nil _ _ _).0 h9 in
    let (a10, h11) = (complain-nil _ _ _).0 h10 in
    let (a11, h12) = (complain-nil _ _ _).0 h11 in
    let (a12, h13) = (complain-nil _ _ _).0 h12 in
    let (a13, h14) = (complain-nil _ _ _).0 h13 in
    let (a14, h15) = (complain-nil _ _ _).0 h14 in
    record {
      server_port = (IsPort-iff cfg.server.port).0 a0;
      environment = (environment_iff cfg.server.environment).0 a1;
      shutdown = (IsPositive-iff cfg.server.shutdown_timeout_seconds).0 a2;
      service_id = (not_empty_iff cfg.observability.service_id).0 a3;
      host = (not_empty_iff cfg.database.host).0 a4;
      database_port = (IsPort-iff cfg.database.port).0 a5;
      name = (not_empty_iff cfg.database.name).0 a6;
      user = (not_empty_iff cfg.database.user).0 a7;
      password = (not_empty_iff cfg.database.password).0 a8;
      ssl_mode = (ssl_mode_iff cfg.database.ssl_mode).0 a9;
      google_client_id = (not_empty_iff cfg.auth.google_client_id).0 a10;
      google_client_secret = (not_empty_iff cfg.auth.google_client_secret).0 a11;
      github_client_id = (not_empty_iff cfg.auth.github_client_id).0 a12;
      github_client_secret = (not_empty_iff cfg.auth.github_client_secret).0 a13;
      jwt_secret = (long_iff (len cfg.auth.jwt_secret)).0 a14;
    }

IsValid-violations : (len : String → ℕ) (cfg : Config) → IsValid len cfg → violations len cfg ≡ []
unfolding violations complain
IsValid-violations len cfg v = rw (
  (IsPort-iff cfg.server.port).1 v.server_port,
  (environment_iff cfg.server.environment).1 v.environment,
  (IsPositive-iff cfg.server.shutdown_timeout_seconds).1 v.shutdown,
  (not_empty_iff cfg.observability.service_id).1 v.service_id,
  (not_empty_iff cfg.database.host).1 v.host,
  (IsPort-iff cfg.database.port).1 v.database_port,
  (not_empty_iff cfg.database.name).1 v.name,
  (not_empty_iff cfg.database.user).1 v.user,
  (not_empty_iff cfg.database.password).1 v.password,
  (ssl_mode_iff cfg.database.ssl_mode).1 v.ssl_mode,
  (not_empty_iff cfg.auth.google_client_id).1 v.google_client_id,
  (not_empty_iff cfg.auth.google_client_secret).1 v.google_client_secret,
  (not_empty_iff cfg.auth.github_client_id).1 v.github_client_id,
  (not_empty_iff cfg.auth.github_client_secret).1 v.github_client_secret,
  (long_iff (len cfg.auth.jwt_secret)).1 v.jwt_secret,
  complain,
)

-- A configuration passes exactly when it is valid: both ports from 1 to 65535, a listed environment
-- and SSL mode, a positive shutdown timeout, a service id, the database's host, name, user and
-- password and the four OAuth settings not empty, and a JWT secret of 32 bytes or more.
pub validate_iff : (len : String → ℕ) (cfg : Config) → (validate len cfg ≡ none) ↔ IsValid len cfg
unfolding validate
validate_iff len cfg = (
  λ h. violations-IsValid len cfg (ground arith),
  λ v. let e = IsValid-violations len cfg v in ground arith,
)
