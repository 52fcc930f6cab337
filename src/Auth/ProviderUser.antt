-- ===== src/Auth/ProviderUser.antt =====
-- auth/provider_user.go and auth/identity.go. `goth.User` is a record of the goth package, of which
-- the fields that the API reads are taken.
use postulate.Base.{ℕ, String, Option, none, some}

pub record GothUser : Type 0 where
  pub provider : String
  pub user_id : String
  pub email : String
  pub name : String
  pub access_token : String
  pub refresh_token : String
  pub expires_at : ℕ

pub record ProviderUser : Type 0 where
  pub provider : String
  pub provider_uid : String
  pub email : String
  pub name : String
  pub access_token : String
  pub refresh_token : String
  pub token_expiry : ℕ

-- GothUserToProviderUser
abbrev pub goth_user_to_provider_user : GothUser → ProviderUser
goth_user_to_provider_user u = record {
  provider = u.provider;
  provider_uid = u.user_id;
  email = u.email;
  name = u.name;
  access_token = u.access_token;
  refresh_token = u.refresh_token;
  token_expiry = u.expires_at;
}

-- auth.Identity: the caller, as the claims of the JWT name it.
pub record Identity : Type 0 where
  pub user_id : String
  pub role : String

-- The two values that the API keeps in a request's context: the caller, and the request's id.
pub record Context : Type 0 where
  pub identity : Option Identity
  pub request_id : Option String

abbrev pub empty_context : Context
empty_context = record { identity = none; request_id = none }

-- ContextWithIdentity
abbrev pub context_with_identity : Context → Identity → Context
context_with_identity ctx id = record ctx { identity = some id }

-- IdentityFromContext
abbrev pub identity_from_context : Context → Option Identity
identity_from_context ctx = ctx.identity
