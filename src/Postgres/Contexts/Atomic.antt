-- ===== src/Postgres/Contexts/Atomic.antt =====
-- Transactions by contexts, seen from outside: they are atomic on the tables.
use postulate.Base.{◌≡◌, refl, ap, ◌∙◌, some, Option-cases, inl, inr}
use postulate.Base.Result.{Result, M, ok, err}
use postulate.Base.Lifts.{Lifts}
use postulate.Domain.{User}
use postulate.Postgres.{Db, begin, commit}
use postulate.Postgres.Transactions.{finish, with_transaction}
use postulate.Postgres.Contexts.{
  Scope, outside, query, exec, end_transaction, with_transaction_in_context,
}

-- A call inside of a transaction that began on `base`.
abbrev pub inside : Db → Db → Scope
inside base db = record { committed = base; context_tx = some db }

-- A place where calls run, and the tables on which they run there.
pub record IsPlace (f : Db → Scope) : Type 1 where
  pub reads : {A : Type 0} (read : Db → A) (db : Db) → query read (f db) ≡ read db
  pub writes : {A : Type 0} (write : M Db A) → Lifts f (exec write) write

pub outside-IsPlace : IsPlace outside
unfolding query exec
outside-IsPlace = record { reads = λ read db. refl; writes = λ write. record { at = λ db. refl } }

pub inside-IsPlace : (base : Db) → IsPlace (inside base)
unfolding query exec
inside-IsPlace base = record {
  reads = λ read db. refl;
  writes = λ write. record { at = λ db. refl };
}

finish-outside :
    (db : Db) (x : Result User × Db)
    → end_transaction (outside db) (x.0, inside db x.1) ≡ ((finish db x).0, outside (finish db x).1)
finish-outside db (err e, db') = refl
finish-outside db (ok u, db') = elim (Option-cases (db.fault commit)) [
  | inl fine ↦ rw (fine, finish, end_transaction) refl
  | inr (e, failed) ↦ rw (failed, finish, end_transaction) refl
]

-- A function that runs inside as `fn` does on the tables is run outside as one step of the tables.
pub transaction-Lifts :
    {fn' : M Scope User} {fn : M Db User}
    → ((base : Db) → Lifts (inside base) fn' fn)
    → Lifts outside (with_transaction_in_context fn') (with_transaction fn)
unfolding with_transaction_in_context with_transaction
transaction-Lifts {fn} h = record {
  at = λ db. elim (Option-cases (db.fault begin)) [
    | inl fine ↦
        rw (fine, with_transaction_in_context, with_transaction)
          (ap (end_transaction (outside db)) ((h db).at db) ∙ finish-outside db (fn db))
    | inr (e, failed) ↦ rw (failed, with_transaction_in_context, with_transaction) refl
  ];
}
