-- ===== src/HttpServer.antt =====
-- api/internal/server/server.go: the server that main runs, as far as it is not net/http's.
use Prim.Native.String.{◌++◌}
use postulate.Base.{◌*◌, ℕ, String, Option}
use postulate.Base.Result.{Error}
use postulate.Config.{ℤ, ServerConfig}
use postulate.Auth.StateStore.{second}
use postulate.Http.{Handler}

-- The http.Server inside; `listen_and_serve` and `shutdown`, whose argument is the time that it is
-- given, are what net/http answers.
pub record HttpServer (S : Type 0) : Type 0 where
  pub addr : String
  pub handler : Handler S
  pub read_header_timeout : ℕ
  pub listen_and_serve : Option Error
  pub shutdown : ℤ → Option Error

-- New; `show` writes an integer in decimals.
abbrev pub new_http_server :
    {S : Type 0}
    → (ℤ → String)
    → Option Error
    → (ℤ → Option Error)
    → ServerConfig
    → Handler S
    → HttpServer S
new_http_server show listens shuts_down cfg router = record {
  addr = ":" ++ show cfg.port;
  handler = router;
  read_header_timeout = 10 * second;
  listen_and_serve = listens;
  shutdown = shuts_down;
}

-- Start and Shutdown
abbrev pub start_server : {S : Type 0} → HttpServer S → Option Error
start_server s = s.listen_and_serve

abbrev pub shutdown_server : {S : Type 0} → ℤ → HttpServer S → Option Error
shutdown_server limit s = s.shutdown limit
