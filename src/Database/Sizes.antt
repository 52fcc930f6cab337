-- ===== src/Database/Sizes.antt =====
-- The pool's settings against the configured numbers.
use postulate.Base.{
  inl, inr, ◌==◌, nat_Eq, ℕ, zero, suc, ◌+◌, ◌*◌, ◌<◌, ◌≡◌, refl, String, arith, if◌then◌else◌,
}
use postulate.Base.Result.{Result, ok, err, wrap, Result-cases}
use postulate.Config.{ℤ, pos, DatabaseConfig}
use postulate.Database.{
  wrap_int, half_int32, half_int64, int32, seconds, or_default, build_dsn, build_pool_config,
}

-- Zero stands for the default.
abbrev pub chosen : ℕ → ℕ → ℕ
chosen default n = if n == 0 then default else n

or_default-chosen : (default n : ℕ) → or_default default (pos n) ≡ pos (chosen default n)
or_default-chosen default zero = refl
or_default-chosen default (suc n) = ground arith

int32_fixed : (n : ℕ) → n < half_int32 → int32 (pos n) ≡ pos n
unfolding wrap_int
int32_fixed n h = ground arith

seconds_fixed : (n : ℕ) → n * 1000000000 < half_int64 → seconds (pos n) ≡ pos (n * 1000000000)
unfolding wrap_int
seconds_fixed n h = ground arith

chosen-lt : (default n bound : ℕ) → default < bound → n < bound → chosen default n < bound
chosen-lt default n bound h k = ground arith

int32-larger : (n : ℕ) → n < half_int32 → int32 (pos (4294967296 + n)) ≡ pos n
unfolding wrap_int
int32-larger n h = ground arith

or_default-larger :
    (default n : ℕ) → or_default default (pos (4294967296 + n)) ≡ pos (4294967296 + n)
or_default-larger default n = ground arith

max_conns_kept : (n : ℕ) → 0 < n → n < half_int32 → int32 (or_default 25 (pos n)) ≡ pos n
max_conns_kept n some_conns h =
    let same : chosen 25 n ≡ n = ground arith in rw (or_default-chosen, same) (int32_fixed n h)

max_conns_larger : (n : ℕ) → n < half_int32 → int32 (or_default 25 (pos (4294967296 + n))) ≡ pos n
max_conns_larger n h = rw or_default-larger (int32-larger n h)

min_conns_kept : (n : ℕ) → n < half_int32 → int32 (or_default 5 (pos n)) ≡ pos (chosen 5 n)
min_conns_kept n h =
    rw or_default-chosen (int32_fixed (chosen 5 n) (chosen-lt 5 n half_int32 (omega arith) h))

lifetime_kept :
    (n : ℕ)
    → n * 1000000000 < half_int64
    → seconds (or_default 300 (pos n)) ≡ pos (chosen 300 n * 1000000000)
lifetime_kept n h = rw or_default-chosen (seconds_fixed (chosen 300 n) (ground arith))

-- If the connection string parses, numbers of connections that fit 32 bits, the first of them
-- positive, and a lifetime whose nanoseconds fit 64 get to the pool as they are configured, a zero
-- for the second as 5 and for the lifetime as 300 s; and a first number that is larger by 2 ^ 32
-- makes the same pool.
pub pool_config-chosen :
    {C : Type 0} (show : ℤ → String) (parse_config : String → Result C) (cfg : DatabaseConfig)
    (open_conns idle_conns lifetime : ℕ)
    → 0 < open_conns
    → open_conns < half_int32
    → idle_conns < half_int32
    → lifetime * 1000000000 < half_int64
    → let configured : ℕ → DatabaseConfig = λ n. record cfg {
      max_open_conns = pos n;
      max_idle_conns = pos idle_conns;
      conn_max_lifetime_seconds = pos lifetime;
    } in
      (build_pool_config show parse_config (configured open_conns)
        ≡ elim (parse_config (build_dsn show cfg)) [
          | err e ↦ err (wrap "invalid database config" e)
          | ok conn ↦ ok (record {
            conn = conn;
            max_conns = pos open_conns;
            min_conns = pos (chosen 5 idle_conns);
            max_conn_lifetime = pos (chosen 300 lifetime * 1000000000);
          })
        ])
      × (build_pool_config show parse_config (configured (4294967296 + open_conns))
          ≡ build_pool_config show parse_config (configured open_conns))
unfolding build_pool_config build_dsn
pool_config-chosen show parse_config cfg open_conns idle_conns lifetime some_conns a b c =
    let most = max_conns_kept open_conns some_conns a in
    let larger = max_conns_larger open_conns a in
    let least = min_conns_kept idle_conns b in
    let life = lifetime_kept lifetime c in
    elim (Result-cases (parse_config (build_dsn show cfg))) [
      | inl (conn, parsed) ↦ (ground (arith, most, least, life), ground (arith, most, larger))
      | inr (e, failed) ↦ (ground arith, ground arith)
    ]
