-- ===== src/Database.antt =====
-- api/internal/database/pool.go: the connection pool, from its configuration.
pub mod Sizes
pub mod Dsn
use Prim.Native.String.{◌++◌}
use postulate.Base.{
  ℕ, zero, suc, ◌+◌, ◌-◌, ◌*◌, ◌%◌, String, Bool, Option, none, some, List, [], ◌∷◌, ltb,
  if◌then◌else◌,
}
use postulate.Base.Result.{Error, Result, ok, err, wrap}
use postulate.Config.{ℤ, pos, negsuc, DatabaseConfig}

-- A number of w bits as Go's conversions and products leave it, with 2 ^ (w - 1) as `half`: what
-- does not fit wraps around.
abbrev pub signed : ℕ → ℕ → ℤ
signed half m = if ltb m half then pos m else negsuc (2 * half - 1 - m)

unfoldable pub wrap_int : ℕ → ℤ → ℤ
wrap_int half (pos n) = signed half (n % (2 * half))
wrap_int half (negsuc n) = signed half (2 * half - 1 - n % (2 * half))

abbrev pub half_int32 : ℕ
half_int32 = 2147483648

abbrev pub half_int64 : ℕ
half_int64 = 9223372036854775808

-- int32(n)
abbrev pub int32 : ℤ → ℤ
int32 n = wrap_int half_int32 n

-- time.Duration(n) * time.Second
abbrev pub times_second : ℤ → ℤ
times_second (pos n) = pos (n * 1000000000)
times_second (negsuc n) = negsuc ((n + 1) * 1000000000 - 1)

abbrev pub seconds : ℤ → ℤ
seconds n = wrap_int half_int64 (times_second n)

-- BuildDSN; `show` writes an integer in decimals.
unfoldable pub build_dsn : (ℤ → String) → DatabaseConfig → String
build_dsn show cfg =
    "host="
    ++ cfg.host
    ++ " port="
    ++ show cfg.port
    ++ " dbname="
    ++ cfg.name
    ++ " user="
    ++ cfg.user
    ++ " password="
    ++ cfg.password
    ++ " sslmode="
    ++ cfg.ssl_mode

-- pgxpool.Config: what pgx reads from the connection string, of a type C, and the three settings
-- that the code makes.
pub record PoolConfig (C : Type 0) : Type 0 where
  pub conn : C
  pub max_conns : ℤ
  pub min_conns : ℤ
  pub max_conn_lifetime : ℤ

abbrev pub or_default : ℕ → ℤ → ℤ
or_default default (pos zero) = pos default
or_default default (pos (suc n)) = pos (suc n)
or_default default (negsuc n) = negsuc n

-- buildPoolConfig
unfoldable pub build_pool_config :
    {C : Type 0} → (ℤ → String) → (String → Result C) → DatabaseConfig → Result (PoolConfig C)
build_pool_config show parse_config cfg = elim (parse_config (build_dsn show cfg)) [
  | err e ↦ err (wrap "invalid database config" e)
  | ok conn ↦ ok (record {
    conn = conn;
    max_conns = int32 (or_default 25 cfg.max_open_conns);
    min_conns = int32 (or_default 5 cfg.max_idle_conns);
    max_conn_lifetime = seconds (or_default 300 cfg.conn_max_lifetime_seconds);
  })
]

-- What is done to the pool.
pub data PoolCall : Type 0 where
  opened closed : PoolCall

-- pgx: its parser of connection strings, the pool of a configuration, and the pool's Ping.
pub record Pgx (C P : Type 0) : Type 0 where
  pub parse_config : String → Result C
  pub new_with_config : PoolConfig C → Result P
  pub ping : P → Option Error

-- New: the pool or an error, and what was done to the pool on the way.
unfoldable pub new :
    {C P : Type 0} → (ℤ → String) → Pgx C P → DatabaseConfig → Result P × List PoolCall
new show pgx cfg = elim (build_pool_config show pgx.parse_config cfg) [
  | err e ↦ (err e, [])
  | ok pool_cfg ↦ elim (pgx.new_with_config pool_cfg) [
    | err e ↦ (err (wrap "failed to create database connection pool" e), [])
    | ok pool ↦ elim (pgx.ping pool) [
      | some e ↦ (err (wrap "database unreachable at startup" e), opened ∷ closed ∷ [])
      | none ↦ (ok pool, opened ∷ [])
    ]
  ]
]
