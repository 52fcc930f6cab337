-- ===== src/Postgres/Transactions.antt =====
-- postgres/transactor.go: the tables as they were stay behind when anything fails.
use postulate.Base.{none, some, Option-cases, inl, inr}
use postulate.Base.Keeps.{Keeps}
use postulate.Base.Result.{M, Result, ok, err}
use postulate.Domain.{User}
use postulate.Repository.{Transactor}
use postulate.Postgres.{Db, raw_err, begin, commit}

-- The end of a transaction that began on `db` and left `db'` behind.
abbrev pub finish : Db → Result User × Db → Result User × Db
finish db (err e, db') = (err e, db)
finish db (ok u, db') = elim (db.fault commit) [
  | some e ↦ (err (raw_err e), db)
  | none ↦ (ok u, db')
]

-- PostgresTransactor.WithTransaction: begin, run, commit on nil, roll back on an error.
unfoldable pub with_transaction : M Db User → M Db User
with_transaction fn db = elim (db.fault begin) [
  | some e ↦ (err (raw_err e), db)
  | none ↦ finish db (fn db)
]

abbrev pub transactor : Transactor Db
transactor = record { with_transaction = with_transaction }

finish-keeps : (P : Db → Type 0) (db : Db) (x : Result User × Db) → P db → P x.1 → P (finish db x).1
finish-keeps P db (err e, db') h k = h
finish-keeps P db (ok u, db') h k = elim (Option-cases (db.fault commit)) [
  | inl fine ↦ rw (fine, finish) k
  | inr (e, failed) ↦ rw (failed, finish) h
]

-- Whatever the function keeps, the transaction keeps.
pub with_transaction-Keeps :
    (P : Db → Type 0) (fn : M Db User) → Keeps P fn → Keeps P (with_transaction fn)
unfolding with_transaction
with_transaction-Keeps P fn k = record {
  leads = λ db h. elim (Option-cases (db.fault begin)) [
    | inl fine ↦ rw (fine, with_transaction) (finish-keeps P db (fn db) h (k.leads db h))
    | inr (e, failed) ↦ rw (failed, with_transaction) h
  ];
}
