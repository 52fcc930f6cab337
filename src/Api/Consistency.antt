-- ===== src/Api/Consistency.antt =====
-- The constraints of the schema over the life of an API.
use postulate.Base.{List}
use postulate.Postgres.Transactions.{with_transaction-Keeps}
use postulate.Postgres.Consistent.{IsConsistent}
use postulate.Postgres.Writes.Owners.{
  create_user-IsConsistent, update_user-IsConsistent, upsert_account-IsConsistent,
}
use postulate.Postgres.Writes.Grants.{create_token-IsConsistent, delete_by_user_id-IsConsistent}
use postulate.Auth.Resolver.{new_user}
use postulate.Auth.Resolver.Effects.{WritesKeep, resolve-Keeps}
use postulate.Api.{ApiState, Api, Event, resolver, history}
use postulate.Api.Routing.{IsRouter}
use postulate.Api.Histories.{KeepsStore, history-keeps}

module _ {E : Type 0} (api : Api E) where
  writes-IsConsistent : WritesKeep IsConsistent (resolver api) (λ _. Unit)
  writes-IsConsistent = record {
    grants = λ email s role e. tt;
    creates =
        λ pu role g. record { leads = create_user-IsConsistent (new_user (resolver api) pu role) };
    raises = λ user set. record { leads = update_user-IsConsistent _ };
    upserts = λ account. record { leads = upsert_account-IsConsistent account };
    transacts = with_transaction-Keeps IsConsistent;
  }

  store-IsConsistent : KeepsStore api IsConsistent
  store-IsConsistent = record {
    resolves = resolve-Keeps IsConsistent (resolver api) (λ _. Unit) writes-IsConsistent;
    creates = λ t. record { leads = create_token-IsConsistent t };
    deletes = λ user. record { leads = delete_by_user_id-IsConsistent user };
    changes =
        λ clock fault db h. record { users = h.users; accounts = h.accounts; tokens = h.tokens };
  }

  -- Whatever requests an API serves, in any order, at any times, with any statements of the database
  -- failing and whatever the providers and the random sources say, the tables keep the constraints of
  -- the schema: ids, emails, provider accounts and token hashes stay unique, and every account and
  -- refresh token belongs to exactly one user; if chi routes by the longest mounted prefix.
  pub history-IsConsistent :
      (es : List (Event E)) (s : ApiState)
      → IsRouter api
      → IsConsistent s.shared.store
      → IsConsistent (history api es s).1.shared.store
  history-IsConsistent es s router h =
      history-keeps api router IsConsistent store-IsConsistent es s h
