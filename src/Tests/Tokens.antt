-- ===== src/Tests/Tokens.antt =====
-- What Ada is issued, and the laws that the concrete parser satisfies.
use postulate.Base.{◌≡◌, refl, find, text_Eq, arith, eq_iff}
use postulate.Base.Result.{Result, ok}
use postulate.Domain.{role_platform_member}
use postulate.Postgres.{Db}
use postulate.Postgres.Tokens.{create_token, insert_token}
use postulate.Auth.Issuer.{TokenResponse, TokenIssuer, issue_session_token}
use postulate.Auth.Issuer.Postgres.{postgres_issuer}
use postulate.Middleware.Auth.Gate.{ParsesSigned, ExpiresSigned}
use postulate.Tests.{household, crypto, parse}

abbrev pub issuer : TokenIssuer Db
issuer = postgres_issuer crypto "key"

pub parse-ParsesSigned : ParsesSigned crypto parse
parse-ParsesSigned secret claims raw leeway now h early = ground (
  arith,
  eq_iff secret "key",
  eq_iff raw "jwt",
  eq_iff claims.sub "7",
  eq_iff claims.role role_platform_member,
)

pub parse-ExpiresSigned : ExpiresSigned crypto parse
parse-ExpiresSigned secret claims raw leeway now h late = ground (
  arith,
  eq_iff secret "key",
  eq_iff raw "jwt",
  eq_iff claims.sub "7",
  eq_iff claims.role role_platform_member,
)

-- The token that Ada gets at time 0.
abbrev pub issued : Result TokenResponse × Db
issued = issue_session_token issuer 0 (ok "fresh") 7 role_platform_member household

abbrev pub answer : TokenResponse
answer = record {
  token = "jwt";
  refresh_token = "fresh";
  expires_at = 28800000000000;
  role = role_platform_member;
}

pub issues : issued ≡ (ok answer, issued.1)
unfolding issue_session_token create_token insert_token find
issues = refl
