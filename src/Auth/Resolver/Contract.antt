-- ===== src/Auth/Resolver/Contract.antt =====
-- What the repositories of postgres do for the roles that the resolver hands out.
use postulate.Base.{◌≡◌, arith}
use postulate.Base.Result.{M, ok}
use postulate.Domain.{User}
use postulate.Postgres.{Db}
use postulate.Postgres.Users.{create_user, insert_user}
use postulate.Postgres.Transactions.{with_transaction}
use postulate.Auth.Resolver.{BootstrapConfig}
use postulate.Auth.Resolver.FirstLogin.{postgres_resolver}
use postulate.Auth.Resolver.Roles.{KeepsRole}

create-role :
    (u u' : User) (db : Db)
    → (create_user u db).0 ≡ ok u'
    → (u'.role ≡ u.role) × (u'.email ≡ u.email)
unfolding create_user insert_user
create-role u u' db h = ground arith

transaction_ok :
    (fn : M Db User) (db db' : Db) (u : User)
    → with_transaction fn db ≡ (ok u, db')
    → fn db ≡ (ok u, db')
unfolding with_transaction
transaction_ok fn db db' u h = ground arith

-- They keep the role that a user is created with.
pub postgres-KeepsRole : (b : BootstrapConfig) → KeepsRole (postgres_resolver b)
postgres-KeepsRole b = record { create_role = create-role; transaction_ok = transaction_ok }
