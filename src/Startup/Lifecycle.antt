-- ===== src/Startup/Lifecycle.antt =====
-- What holds at every moment of the process's life.
use postulate.Base.{
  ◌≡◌, refl, Bool, true, false, ◌||◌, ◌&&◌, not, List, [], ◌∷◌, arith, Option-cases, inl, inr,
  if◌then◌else◌,
}
use postulate.Base.Result.{ok, Result-cases}
use postulate.Config.{Config}
use postulate.Config.Load.{load}
use postulate.Config.Validate.{validate}
use postulate.Database.{opened, closed, build_pool_config, new}
use postulate.Health.{check_database_at_startup}
use postulate.Migrate.{run}
use postulate.Startup.{
  Step, pool, migrates, becomes_ready, telemetry_runs, listens, listener_ends, drain_starts,
  drain_ends, telemetry_stops, pool_close_starts, pool_close_ends, Stop, fails, closes, signalled,
  Machine, wait, serve, with_pool, main,
}

-- What the steps so far add up to. `serving` is whether requests are taken or some are left, and
-- `connected` whether the pool hands out connections; `closing` is whether a Close is under way.
pub record Life : Type 0 where
  pub connected : Bool
  pub closing : Bool
  pub migrated : Bool
  pub ready : Bool
  pub serving : Bool
  pub draining : Bool

abbrev pub before_start : Life
before_start = record {
  connected = false;
  closing = false;
  migrated = false;
  ready = false;
  serving = false;
  draining = false;
}

abbrev pub live : Step → Life → Life
live (pool opened) l = record l { connected = true }
live (pool closed) l = record l { connected = false }
live migrates l = record l { migrated = true }
live (becomes_ready v) l = record l { ready = v }
live (telemetry_runs actions) l = l
live listens l = record l { serving = true }
live (listener_ends idle) l = if idle then record l { serving = false } else l
live (drain_starts limit) l = record l { draining = true }
live (drain_ends in_time) l = if in_time then record l { serving = false } else l
live (telemetry_stops limit actions) l = l
live (pool_close_starts limit) l = record l { connected = false; closing = true }
live (pool_close_ends in_time) l = if in_time then record l { closing = false } else l

-- While requests are taken or some are left, the pool is open and the migrations are done; and from
-- the start of the drain on, the readiness probe says no.
abbrev pub is_sound : Life → Bool
is_sound l = (not l.serving || (l.connected && l.migrated)) && (not l.draining || not l.ready)

-- At every moment, and the pool is closed at the end.
unfoldable pub sound_throughout : List Step → Life → Bool
sound_throughout [] l = is_sound l && (not l.connected && not l.closing)
sound_throughout (s ∷ ss) l = is_sound l && sound_throughout ss (live s l)

-- The ends that leave no request and no pool behind.
abbrev pub is_orderly : Stop → Bool
is_orderly (fails idle) = idle
is_orderly closes = false
is_orderly (signalled drained released) = drained && released

-- Does the process ever listen?
abbrev pub is_listens : Step → Bool
is_listens listens = true
is_listens _ = false

unfoldable pub listened : List Step → Bool
listened [] = false
listened (s ∷ ss) = is_listens s || listened ss

-- The open pool, and that of a database that is up to date.
abbrev open_life : Life
open_life = record before_start { connected = true }

abbrev migrated_life : Life
migrated_life = record open_life { migrated = true }

module _ {C P E : Type 0} (m : Machine C P E) where
  serve_sound :
      (cfg : Config) (stop : Stop)
      → (sound_throughout (serve m cfg stop).0 migrated_life ≡ is_orderly stop)
        × (listened (serve m cfg stop).0 ≡ true)
  unfolding serve wait sound_throughout listened
  serve_sound cfg (fails true) = (refl, refl)
  serve_sound cfg (fails false) = (refl, refl)
  serve_sound cfg closes = (refl, refl)
  serve_sound cfg (signalled true true) = (refl, refl)
  serve_sound cfg (signalled true false) = (refl, refl)
  serve_sound cfg (signalled false true) = (refl, refl)
  serve_sound cfg (signalled false false) = (refl, refl)

  -- What becomes of a pool that New opened.
  opened_sound :
      (cfg : Config) (stop : Stop) (p : P)
      → sound_throughout (with_pool m cfg stop (ok p, opened ∷ [])).0 before_start
        ≡ (not (listened (with_pool m cfg stop (ok p, opened ∷ [])).0) || is_orderly stop)
  unfolding with_pool sound_throughout listened
  opened_sound cfg stop p =
      let (served, listening) = serve_sound cfg stop in
      elim (Result-cases (check_database_at_startup m.error_of (m.checked p) m.env)) [
        | inr (e, failed) ↦ ground arith
        | inl (done, passed) ↦ elim (Option-cases (run m.migration).0) [
          | inl up_to_date ↦ ground arith
          | inr (e, failed) ↦ ground arith
        ]
      ]

  -- Whatever the start meets and however the process ends: at every moment the pool is open and the
  -- migrations are done while requests are taken or some are left, the readiness probe says no once
  -- the drain has started, and a pool that was opened has been closed in the end; except when the
  -- process has listened, exactly if then the listener fails while requests are under way, or ends as
  -- one that was closed, or the drain or the closing of the pool takes too long.
  pub main_sound :
      (stop : Stop)
      → sound_throughout (main m stop).0 before_start
        ≡ (not (listened (main m stop).0) || is_orderly stop)
  unfolding main with_pool new sound_throughout listened
  main_sound stop = elim (Result-cases (load m.process)) [
    | inr (e, failed) ↦ ground arith
    | inl (cfg, loaded) ↦ elim (Option-cases (validate m.len cfg)) [
      | inr (complaints, failed) ↦ ground arith
      | inl valid ↦ elim (Result-cases (build_pool_config m.show m.pgx.parse_config cfg.database)) [
        | inr (e, failed) ↦ ground arith
        | inl (pool_cfg, built) ↦ elim (Result-cases (m.pgx.new_with_config pool_cfg)) [
          | inr (e, failed) ↦ ground arith
          | inl (p, made) ↦ elim (Option-cases (m.pgx.ping p)) [
            | inr (e, failed) ↦ ground arith
            | inl reached ↦ ground (arith, opened_sound cfg stop p)
          ]
        ]
      ]
    ]
  ]
