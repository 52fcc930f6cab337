-- ===== src/Handler/Probes.antt =====
-- handler/health_handler.go and handler/version_handler.go: the probes, and what build is running.
-- A body of JSON is the value of its fields.
use postulate.Base.{ℕ, String, Bool, if◌then◌else◌}

pub record ReadyHandler : Type 0 where
  pub ready : Bool

-- SetReady and SetNotReady
abbrev pub set_ready : Bool → ReadyHandler → ReadyHandler
set_ready v h = record h { ready = v }

abbrev pub set_not_ready : ReadyHandler → ReadyHandler
set_not_ready h = record h { ready = Bool.false }

-- ReadyHandler.ServeHTTP: the status code and the field "status".
unfoldable pub serve_ready : ReadyHandler → ℕ × String
serve_ready h = if h.ready then (200, "ready") else (503, "not_ready")

-- LiveHandler.ServeHTTP
abbrev pub serve_live : ℕ × String
serve_live = (200, "alive")

pub record BuildInfo : Type 0 where
  pub version : String
  pub commit : String
  pub build_time : String
  pub go_version : String
  pub environment : String

-- DefaultBuildInfo, of the three texts that the linker puts in.
abbrev pub default_build_info : String → String → String → BuildInfo
default_build_info version commit build_time = record {
  version = version;
  commit = commit;
  build_time = build_time;
  go_version = "";
  environment = "";
}

pub record VersionHandler : Type 0 where
  pub info : BuildInfo

-- NewVersionHandler; `runtime_version` is runtime.Version().
abbrev pub new_version_handler : String → BuildInfo → String → VersionHandler
new_version_handler runtime_version info environment = record {
  info = record info { go_version = runtime_version; environment = environment };
}

-- VersionHandler.ServeHTTP
abbrev pub serve_version : VersionHandler → ℕ × BuildInfo
serve_version h = (200, h.info)
