-- ===== src/Tests.antt =====
-- Concrete tables, keys and requests on which the theorems are applied.
pub mod Tokens
pub mod Tables
pub mod Logins
pub mod Gates
pub mod Settings
pub mod Process
pub mod Routes
pub mod Clients
pub mod Observers
pub mod Apis
use postulate.Base.{
  ℕ, ◌+◌, ◌≤◌, ◌≡◌, refl, String, Bool, true, false, ◌&&◌, Option, none, some, List, [], ◌∷◌, count,
  ltb, ◌==◌, text_Eq, nat_Eq, ◌*◌, if◌then◌else◌, arith, eq_iff,
}
use postulate.Base.Result.{Result, ok, err, message}
use postulate.Domain.{
  User, OAuthAccount, Session, zero_user, zero_account, zero_session, role_platform_member,
  status_active,
}
use postulate.Postgres.{Db, TokenRow, empty_db}
use postulate.Postgres.Consistent.{IsConsistent}
use postulate.Auth.StateStore.{second}
use postulate.Auth.ProviderUser.{ProviderUser, empty_context}
use postulate.Auth.Resolver.{BootstrapConfig}
use postulate.Auth.Issuer.{Claims, Crypto}
use postulate.Middleware.Auth.{ParsedToken, JwtParse}
use postulate.Http.{Request}

-- Two users, Ada and Bob.
abbrev pub ada : User
ada = record zero_user {
  id = 7;
  email = "ada@example.org";
  full_name = "Ada";
  role = role_platform_member;
  status = status_active;
}

abbrev pub bob : User
bob = record ada { id = 8; email = "bob@example.org"; full_name = "Bob" }

abbrev pub ada_account : OAuthAccount
ada_account = record zero_account {
  id = 20;
  user_id = 7;
  provider = "github";
  provider_uid = "ada";
  email = "ada@example.org";
}

abbrev pub token_row : ℕ → ℕ → String → TokenRow
token_row id user hash = record {
  id = id;
  session_id = none;
  user_id = user;
  token_hash = hash;
  expires_at = 900;
  used_at = none;
  created_at = 0;
}

-- Ada holds two refresh tokens and Bob one. The session with the nil UUID is what it takes for a
-- refresh token to be stored.
abbrev pub household : Db
household = record empty_db {
  users = ada ∷ bob ∷ [];
  accounts = ada_account ∷ [];
  tokens = token_row 30 7 "first" ∷ token_row 31 7 "second" ∷ token_row 32 8 "third" ∷ [];
  sessions = zero_session ∷ [];
  drawn = 40;
}

pub household-IsConsistent : IsConsistent household
unfolding count
household-IsConsistent = record {
  users = record {
    ids = λ id. ground arith;
    emails = λ email.
        ground (arith, eq_iff ada.email email, eq_iff bob.email email, eq_iff ada.email bob.email);
    checked = ((refl, refl), ((refl, refl), tt));
  };
  accounts = record { keys = λ p q. ground arith; owned = (refl, tt) };
  tokens = record {
    hashes = λ h. ground (
      arith,
      eq_iff "first" h,
      eq_iff "second" h,
      eq_iff "third" h,
      eq_iff "first" "second",
      eq_iff "first" "third",
      eq_iff "second" "third",
    );
    held = (refl, (refl, (refl, tt)));
  };
}

-- One signed token: Ada's, which the issuer signs at time 0 under "key".
abbrev pub sole_token : ParsedToken
sole_token = record {
  is_hmac = true;
  valid = true;
  has_map_claims = true;
  sub = some "7";
  role = some role_platform_member;
}

abbrev pub is_sole : String → Claims → Bool
is_sole secret claims =
    secret == "key"
    && (claims.sub == "7" && (claims.role == role_platform_member && claims.exp == 28800))

abbrev pub crypto : Crypto
crypto = record {
  sign = λ secret claims. if is_sole secret claims then ok "jwt" else err (message "unknown");
  sha256_hex = λ s. s;
  uuid_text = λ id. if id == 7 then "7" else "0";
  uuid_parse = λ s. if s == "7" then some 7 else none;
}

abbrev pub open_with : String → ℕ → ℕ → String → Option ParsedToken
open_with key leeway now raw =
    if key == "key" && (raw == "jwt" && ltb now (28800 * second + leeway))
    then some sole_token
    else none

abbrev pub parse : JwtParse
parse key leeway now raw = elim (key sole_token) [
  | none ↦ none
  | some k ↦ open_with k leeway now raw
]

-- A request that bears the token.
abbrev pub request : Request
request = record {
  method = "GET";
  path = "/v1/auth/token";
  authorization = "Bearer jwt";
  request_id_header = "";
  query = ("state", "s1") ∷ ("code", "c") ∷ [];
  refresh_body = some "second";
  context = empty_context;
}

abbrev pub no_fallback : BootstrapConfig
no_fallback = record { admin_email = "ada@example.org"; dev_fallback_enabled = false }

-- What GitHub says of Ada.
abbrev pub ada_at_github : ProviderUser
ada_at_github = record {
  provider = "github";
  provider_uid = "ada";
  email = "ada@example.org";
  name = "Ada L.";
  access_token = "a";
  refresh_token = "";
  token_expiry = 50;
}
