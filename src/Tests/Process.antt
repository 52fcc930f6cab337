-- ===== src/Tests/Process.antt =====
-- The process at work.

use postulate.Base.{
  not, ◌||◌, ◌==◌, text_Eq, nat_Eq, if◌then◌else◌, ℕ, ◌≡◌, refl, String, true, false, none, some,
  arith, eq_iff, count,
}
use postulate.Base.Result.{ok, message}
use postulate.Domain.{role_platform_admin}
use postulate.Postgres.{Db, empty_db}
use postulate.Postgres.Users.{count_all_users}
use postulate.Auth.Resolver.{UserResolver, is_bootstrap_email, resolve_role_for_new_user}
use postulate.Auth.Resolver.FirstLogin.{postgres_resolver}
use postulate.Config.{Config}
use postulate.Config.Load.{Process, content}
use postulate.Startup.{Machine, signalled, main, bootstrap_config}
use postulate.Startup.Lifecycle.{sound_throughout, listened, before_start, main_sound}
use postulate.Startup.Bootstrap.{production_role}
use postulate.Tests.Settings.{development}

abbrev process : Process
process = record {
  getenv = λ name. "";
  read_file = λ path. content "development";
  unmarshal = λ text cfg. ok development;
  atoi = λ s. none;
}

-- A machine on which all goes well; the surroundings are the number of pings that fail.
abbrev machine : Machine String String ℕ
machine = record {
  process = process;
  len = λ s. 32;
  show = λ n. "5432";
  pgx = record {
    parse_config = λ dsn. ok dsn;
    new_with_config = λ cfg. ok cfg.conn;
    ping = λ pool. none;
  };
  checked = λ pool. record {
    ping = λ failing.
        if failing == 0 then none else some (record { text = "down"; is_deadline = false });
    stat = λ failing. none;
  };
  env = 0;
  error_of = λ e. message e.text;
  migration = record {
    source = none;
    open_db = none;
    driver = none;
    instance_error = none;
    up = none;
  };
  sdk = record {
    resource = λ name. ok tt;
    otlp_trace = λ endpoint. ok tt;
    otlp_metric = λ endpoint. ok tt;
    shutdown = λ p. none;
  };
}

-- A signal, a drain in time, and a pool that takes too long to close.
main_sound_example :
    sound_throughout (main machine (signalled true false)).0 before_start
    ≡ (not (listened (main machine (signalled true false)).0) || false)
main_sound_example = main_sound machine (signalled true false)

-- The first user of a production system for which an admin is configured.
abbrev production : Config
production = record development {
  server = record (development.server) { environment = "production" };
  auth = record (development.auth) { bootstrap_admin_email = "ada@example.org" };
}

abbrev resolver : UserResolver Db
resolver = postgres_resolver (bootstrap_config production)

stranger : is_bootstrap_email resolver "eve@example.org" ≡ false
unfolding bootstrap_config
stranger = ground (arith, eq_iff "eve@example.org" "ada@example.org")

production_role_example :
    resolve_role_for_new_user resolver "eve@example.org" empty_db
    ≡ (ok role_platform_admin, empty_db)
unfolding count_all_users count
production_role_example =
    production_role resolver production "eve@example.org" empty_db refl refl stranger refl refl
