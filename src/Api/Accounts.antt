-- ===== src/Api/Accounts.antt =====
-- To whom the providers' accounts belong over the life of an API.
use postulate.Base.{ℕ, ◌≡◌, ◌∙◌, refl, String, List, arith}
use postulate.Postgres.{Db}
use postulate.Postgres.Tokens.{create_token, insert_token, delete_by_user_id}
use postulate.Domain.{RefreshToken}
use postulate.Startup.{bootstrap_config}
use postulate.Auth.Resolver.History.{holder, resolve-holder}
use postulate.Api.{ApiState, Api, Event, history}
use postulate.Api.Routing.{IsRouter}
use postulate.Api.Histories.{KeepsStore, history-keeps}

create_token-accounts : (t : RefreshToken) (db : Db) → (create_token t db).1.accounts ≡ db.accounts
unfolding create_token insert_token
create_token-accounts t db = ground arith

delete-accounts : (user : ℕ) (db : Db) → (delete_by_user_id user db).1.accounts ≡ db.accounts
unfolding delete_by_user_id
delete-accounts user db = ground arith

module _ {E : Type 0} (api : Api E) (p q : String) where
  abbrev Holds : ℕ → Db → Type 0
  Holds v db = holder db p q ≡ v

  store-Holds : (v : ℕ) → KeepsStore api (Holds v)
  store-Holds v = record {
    resolves =
        λ pu. record { leads = λ db h. resolve-holder (bootstrap_config api.cfg) pu db p q ∙ h };
    creates = λ t. record { leads = λ db h. ground (arith, create_token-accounts t db, h) };
    deletes = λ user. record { leads = λ db h. ground (arith, delete-accounts user db, h) };
    changes = λ clock fault db h. h;
  }

  -- No account of a provider ever changes hands: whatever requests an API serves, in any order, at any
  -- times, with any statements of the database failing and whatever the providers and the random
  -- sources say, an account that is linked to a user stays linked to that user, and one that is not
  -- linked is never linked to a user other than the nil UUID; if chi routes by the longest mounted
  -- prefix.
  pub history-holder :
      (es : List (Event E)) (s : ApiState)
      → IsRouter api
      → holder (history api es s).1.shared.store p q ≡ holder s.shared.store p q
  history-holder es s router =
      let v = holder s.shared.store p q in
      history-keeps api router (Holds v) (store-Holds v) es s refl
