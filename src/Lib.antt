-- ===== src/Lib.antt =====
-- Postulate, modelled from its source: the API (api/), a Go service in which developers log in with
-- GitHub or Google and get session tokens, and the command-line client (cli/).
--
-- How the parts interact: cmd/api/main.go loads a configuration (internal/config), opens the pool
-- (internal/database), migrates the database (internal/migrate), and gives the resolver
-- (internal/auth/resolve_user.go) and the token issuer (internal/auth/token.go) the repositories of
-- PostgreSQL (internal/repository/postgres). The router (internal/router) leads a request through the
-- middleware (internal/middleware) to a handler. The OAuth handlers
-- (internal/handler/oauth_handler.go) check a single-use state (internal/auth/state_store.go), let the
-- resolver find or create the user, let the issuer make tokens, and redirect to the client's listener
-- (cli/internal/callback). The client keeps the tokens in a file (cli/internal/credentials), and has
-- them refreshed and revoked (cli/internal/apiclient) by the token handlers
-- (internal/handler/token_handler.go). Paths that begin with internal/ or cmd/ are under api/.
--
-- Which file models which part:
--   Base, Base/*         results with errors as values, lists as tables, maps, and their lemmas; what an
--                        operation keeps (Keeps), and one that does what another does (Lifts)
--   Api, Api/*           the whole API, as cmd/api/main.go puts it together: the handlers behind the
--                        router and its middleware over the tables, and histories of requests, of
--                        faults and of the readiness
--   Domain               internal/domain: the records, with UUIDs and times as numbers
--   Repository           internal/repository: the interfaces, as records over any store
--   Postgres, Postgres/* internal/repository/postgres over tables (one file for each repository), the
--                        constraints that PostgreSQL enforces by internal/migrate/migrations as part of
--                        what a statement does and as a hypothesis that can hold (Consistent),
--                        sequences of writes (Histories), and where a statement runs (Contexts)
--   Auth/StateStore      Generate and Validate; the mutex makes a history a sequence of calls
--   Auth/ProviderUser    GothUserToProviderUser, Identity and the context
--   Auth/Providers       RegisterProviders
--   Auth/Resolver        ResolveOrCreateUser and its helpers over any repositories; its children say
--                        what follows for roles, and how the program's own repositories do (FirstLogin,
--                        History, Contract), also where each statement runs in its context (InContext)
--                        and when two transactions interleave (Race); Effects, here and elsewhere, is
--                        what can be done to a store
--   Auth/Issuer          IssueSessionToken, RefreshSession and RevokeAllSessions; its children follow
--                        the tokens through the tables, also when two refreshes interleave (Race)
--   Http                 requests, responses and internal/problem
--   Middleware/Auth      AuthRequired and RequireRole
--   Middleware/RequestId, ResponseWriter, AccessLog, Tracing
--                        the files of the same names: the ids, the recorder between a handler and
--                        net/http, the metrics and log of requests that overlap, and the span names
--   Handler/OAuth        BeginGitHub/BeginGoogle and CallbackGitHub/CallbackGoogle
--   Handler/Token        Refresh and Revoke
--   Handler/Probes       the readiness, liveness and version handlers
--   Router, Router/*     internal/router: New as a table of mounted routes
--   HttpServer           internal/server: New, Start and Shutdown
--   Config, Config/*     internal/config: Load, Validate and LogSafe
--   Database, Database/* internal/database: BuildDSN, buildPoolConfig and New
--   Migrate              internal/migrate: Run
--   Health, Health/*     internal/health, the handler of GET /health, and internal/startup
--   Telemetry/*          internal/telemetry: the instruments (Metrics), Setup and its shutdown (Setup)
--   Logger, Logger/*     internal/logger: the handler that redacts, and New
--   Startup, Startup/*   cmd/api/main.go as a list of steps and an exit code
--   Cli/Callback         cli/internal/callback: the listener and its goroutines, as events
--   Cli/Credentials      cli/internal/credentials: the auth file on a disk with permissions
--   Cli/ApiClient        cli/internal/apiclient, alone and against the API's handlers and router
--   Cli/Browser          cli/internal/browser
--   Cli/Login            a login from the API's router to the client and back
--   Tests, Tests/*       concrete runs
--
-- Go's pair of a pointer and an error is the record Reply, so that a pointer that comes with an error
-- is seen by the caller as it is in the program. An operation that writes is a function from a store
-- to a result and the next store. A statement of the database fails when the environment has a fault
-- in store for it, and then changes nothing. The context of the resolver's statements goes with the
-- store, so that code which passes the wrong one cannot be told apart. Times are exact to the
-- nanosecond, of which PostgreSQL keeps the microseconds. A Go int is an integer, and its conversion to 32 bits and
-- the product that makes a duration wrap around. Log lines and cancellation are left out.
--
-- Fuel: only the loop over the ports of Cli/Callback recurses on fuel. It is given 101 rounds for a
-- hundred ports, and ends by its own test. Every other function follows a list or a text.
--
-- Parameters, with what is assumed of them at the theorems that use them: JWT signing and parsing
-- (golang-jwt), SHA-256, the text of UUIDs, the random sources, goth, chi's matching of paths, pgx and how it reads an INET,
-- golang-migrate, OpenTelemetry, encoding/json and the formats of time, the YAML parser, the
-- environment, the ports, the network and the file system. A UUID that the database draws is taken
-- from a given sequence.
--
-- A history of the API serves one request after the other; what overlaps is in Middleware/AccessLog,
-- Auth/StateStore, Auth/Resolver/Race and Auth/Issuer/Race.
--
-- Not modelled: requests that interleave in other ways than in the two files Race; the rest of
-- internal/middleware/tracing.go, which is otelhttp's; the embedded migrations, which are SQL, other
-- than as the constraints in the statements; and what the end of the time that main gives to
-- OpenTelemetry does inside of its providers.
pub mod Base
pub mod Domain
pub mod Repository
pub mod Postgres
pub mod Auth
pub mod Http
pub mod Middleware
pub mod Router
pub mod HttpServer
pub mod Migrate
pub mod Startup
pub mod Handler
pub mod Config
pub mod Database
pub mod Health
pub mod Telemetry
pub mod Logger
pub mod Cli
pub mod Tests
pub mod Api
