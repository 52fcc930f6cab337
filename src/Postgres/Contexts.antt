-- ===== src/Postgres/Contexts.antt =====
-- postgres/common.go and postgres/transactor.go in detail: where a statement runs depends on the
-- context of its call. Inside the function that a transaction runs it is the transaction, which has
-- its own view of the tables, and else the pool, where it takes effect at once.
pub mod Atomic
use postulate.Base.{ℕ, String, Option, none, some}
use postulate.Base.Result.{Reply, Result, M, ok, err}
use postulate.Domain.{User}
use postulate.Repository.{UserRepository, OAuthAccountRepository, Transactor}
use postulate.Postgres.{Db, begin, commit, raw_err}

-- The committed tables, and the transaction that the context of the running call carries, as the
-- tables that it sees.
pub record Scope : Type 0 where
  pub committed : Db
  pub context_tx : Option Db

-- A call outside of every transaction.
abbrev pub outside : Db → Scope
outside db = record { committed = db; context_tx = none }

-- ContextWithTx
abbrev pub context_with_tx : Db → Scope → Scope
context_with_tx tx s = record s { context_tx = some tx }

-- TxFromContext
abbrev pub tx_from_context : Scope → Option Db
tx_from_context s = s.context_tx

-- pgxQuerier: either the pool or a transaction, with the tables on which its statements run.
pub data PgxQuerier : Type 0 where
  on_pool on_tx : Db → PgxQuerier

-- querier
abbrev pub querier : Scope → PgxQuerier
querier s = elim (tx_from_context s) [ some tx ↦ on_tx tx | none ↦ on_pool s.committed ]

-- QueryRow, Query and Exec of either kind: a read, and a write.
abbrev query_on : {A : Type 0} → PgxQuerier → (Db → A) → A
query_on (on_pool db) read = read db
query_on (on_tx db) read = read db

abbrev exec_on : {A : Type 0} → PgxQuerier → M Db A → M Scope A
exec_on (on_pool db) write s = let (r, db') = write db in (r, record s { committed = db' })
exec_on (on_tx db) write s = let (r, db') = write db in (r, record s { context_tx = some db' })

unfoldable pub query : {A : Type 0} → (Db → A) → Scope → A
query read s = query_on (querier s) read

unfoldable pub exec : {A : Type 0} → M Db A → M Scope A
exec write s = exec_on (querier s) write s

-- The repositories, of which every method asks `querier` where to run.
abbrev pub scoped_user_repo : UserRepository Db → UserRepository Scope
scoped_user_repo repo = record {
  create = λ u. exec (repo.create u);
  find_by_id = λ id. query (repo.find_by_id id);
  find_by_email = λ email. query (repo.find_by_email email);
  update = λ u. exec (repo.update u);
  soft_delete = λ id. exec (repo.soft_delete id);
  count_all = query repo.count_all;
}

abbrev pub scoped_account_repo : OAuthAccountRepository Db → OAuthAccountRepository Scope
scoped_account_repo repo = record {
  upsert = λ a. exec (repo.upsert a);
  find_by_provider = λ provider uid. query (repo.find_by_provider provider uid);
  find_by_user_id = λ id. query (repo.find_by_user_id id);
}

-- tx.Commit: the view of the transaction becomes the committed tables. The caller's context has not
-- changed.
abbrev committed_by : Scope → Option Db → Scope → Scope
committed_by caller (some tx) s = record { committed = tx; context_tx = caller.context_tx }
committed_by caller none s = record s { context_tx = caller.context_tx }

-- tx.Rollback: the view is dropped.
abbrev rolled_back : Scope → Scope → Scope
rolled_back caller s = record s { context_tx = caller.context_tx }

abbrev pub end_transaction : Scope → Result User × Scope → Result User × Scope
end_transaction caller (err e, s) = (err e, rolled_back caller s)
end_transaction caller (ok u, s) = elim (caller.committed.fault commit) [
  | some e ↦ (err (raw_err e), rolled_back caller s)
  | none ↦ (ok u, committed_by caller (tx_from_context s) s)
]

-- PostgresTransactor.WithTransaction: BeginTx on the pool, and the function with the transaction in
-- its context.
unfoldable pub with_transaction_in_context : M Scope User → M Scope User
with_transaction_in_context fn s = elim (s.committed.fault begin) [
  | some e ↦ (err (raw_err e), s)
  | none ↦ end_transaction s (fn (context_with_tx s.committed s))
]

abbrev pub scoped_transactor : Transactor Scope
scoped_transactor = record { with_transaction = with_transaction_in_context }
