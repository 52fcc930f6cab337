-- ===== src/Repository.antt =====
-- The interfaces of api/internal/repository: what a store of users, OAuth accounts, refresh tokens
-- and sessions offers, over an unknown state S. A read answers with Go's pair of a pointer and an
-- error; a write may fail and gives the next state.
use postulate.Base.{ℕ, String, Option, List}
use postulate.Base.Result.{Reply, M}
use postulate.Domain.{User, OAuthAccount, RefreshToken, Session}

-- The argument of `create` comes back with the fields that the store fills in.
pub record UserRepository (S : Type 0) : Type 0 where
  pub create : User → M S User
  pub find_by_id : ℕ → S → Reply (Option User)
  pub find_by_email : String → S → Reply (Option User)
  pub update : User → M S (Unit {0})
  pub soft_delete : ℕ → M S (Unit {0})
  pub count_all : S → Reply ℕ

pub record OAuthAccountRepository (S : Type 0) : Type 0 where
  pub upsert : OAuthAccount → M S OAuthAccount
  pub find_by_provider : String → String → S → Reply (Option OAuthAccount)
  pub find_by_user_id : ℕ → S → Reply (List OAuthAccount)

pub record RefreshTokenRepository (S : Type 0) : Type 0 where
  pub create : RefreshToken → M S RefreshToken
  pub find_by_token_hash : String → S → Reply (Option RefreshToken)
  pub mark_used : ℕ → ℕ → M S (Unit {0})
  pub delete_by_session_id : ℕ → M S (Unit {0})
  pub delete_by_user_id : ℕ → M S (Unit {0})
  pub delete_expired : ℕ → M S ℕ

pub record SessionRepository (S : Type 0) : Type 0 where
  pub create : Session → M S Session
  pub find_by_token_hash : String → S → Reply (Option Session)
  pub find_by_user_id : ℕ → S → Reply (List Session)
  pub update_last_active : ℕ → ℕ → M S (Unit {0})
  pub revoke : ℕ → M S (Unit {0})
  pub revoke_all_for_user : ℕ → M S (Unit {0})
  pub delete_expired : ℕ → M S ℕ

-- The function that runs inside a transaction hands its user out through a captured variable; here
-- it returns that user.
pub record Transactor (S : Type 0) : Type 0 where
  pub with_transaction : M S User → M S User
