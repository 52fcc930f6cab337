-- ===== src/Migrate.antt =====
-- api/internal/migrate/migrate.go: pending migrations at start-up. The work is golang-migrate's.
use postulate.Base.{Option, none, some, List, [], ◌∷◌, ◌++◌}
use postulate.Base.Result.{Error}

-- What Up answers: migrate.ErrNoChange, under any wrapping, or another error.
pub data UpError : Type 0 where
  no_change : UpError
  failed : Error → UpError

-- The database handle and the migrator, as they are opened and closed.
pub data MigrateCall : Type 0 where
  db_opened db_closed migrator_opened migrator_closed : MigrateCall

-- What the embedded files, sql.Open, the driver and the migrator answer.
pub record Migration : Type 0 where
  pub source : Option Error
  pub open_db : Option Error
  pub driver : Option Error
  pub instance_error : Option Error
  pub up : Option UpError

abbrev up_error : Option UpError → Option Error
up_error none = none
up_error (some no_change) = none
up_error (some (failed e)) = some e

-- runMigrator: Close is deferred.
unfoldable pub run_migrator : Migration → Option Error × List MigrateCall
run_migrator m = (up_error m.up, migrator_closed ∷ [])

-- runWithSource: the database handle is closed after the migrator.
unfoldable pub run_with_source : Migration → Option Error × List MigrateCall
unfolding run_migrator
run_with_source m = elim m.open_db [
  | some e ↦ (some e, [])
  | none ↦ elim m.driver [
    | some e ↦ (some e, db_opened ∷ db_closed ∷ [])
    | none ↦ elim m.instance_error [
      | some e ↦ (some e, db_opened ∷ db_closed ∷ [])
      | none ↦
          let (result, calls) = run_migrator m in
          (result, (db_opened ∷ migrator_opened ∷ []) ++ calls ++ (db_closed ∷ []))
    ]
  ]
]

-- Run
unfoldable pub run : Migration → Option Error × List MigrateCall
unfolding run_with_source
run m = elim m.source [ some e ↦ (some e, []) | none ↦ run_with_source m ]
