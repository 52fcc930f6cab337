-- ===== src/Handler/Token.antt =====
-- handler/token_handler.go: refreshing a session, and logging out.
pub mod Logout
pub mod Effects
use postulate.Base.{ℕ, String, Option, none, some, ◌==◌, text_Eq, if◌then◌else◌}
use postulate.Base.Result.{Result, ok, err}
use postulate.Auth.ProviderUser.{Identity, identity_from_context}
use postulate.Auth.Issuer.{TokenIssuer, TokenResponse, refresh_session, revoke_all_sessions}
use postulate.Http.{
  Request, Response, Handler, tokens, no_body, write_problem, new_problem, type_bad_request,
  type_unauthorized, type_internal_server_error,
}

pub record TokenHandler (S : Type 0) : Type 0 where
  pub issuer : TokenIssuer S

-- NewTokenHandler
abbrev pub new_token_handler : {S : Type 0} → TokenIssuer S → TokenHandler S
new_token_handler issuer = record { issuer = issuer }

abbrev pub missing_token : Request → Response
missing_token r =
    write_problem r (new_problem type_bad_request "Bad Request" 400 "refresh_token is required" "")

abbrev pub refused_token : Request → Response
refused_token r =
    write_problem r
      (new_problem type_unauthorized "Unauthorized" 401 "invalid or expired refresh token" "")

abbrev pub unauthenticated : Request → Response
unauthenticated r =
    write_problem r (new_problem type_unauthorized "Unauthorized" 401 "authentication required" "")

abbrev pub revoke_failed : Request → Response
revoke_failed r = write_problem r (
    new_problem type_internal_server_error "Internal Server Error" 500 "failed to revoke session"
      "")

abbrev pub no_content : Response
no_content = record { status = 204; content_type = ""; body = no_body }

module _ {S : Type 0} (ti : TokenIssuer S) where
  abbrev pub after_refresh : Request → Result TokenResponse × S → Response × S
  after_refresh r (err e, s) = (refused_token r, s)
  after_refresh r (ok tr, s) =
      (record { status = 200; content_type = "application/json"; body = tokens tr }, s)

  -- Refresh: the clock when the token is checked and when the next is issued, and the random draw.
  unfoldable pub refresh : ℕ → ℕ → Result String → Handler S
  refresh now issued draw r s = elim r.refresh_body [
    | none ↦ (missing_token r, s)
    | some raw ↦
        if raw == ""
        then (missing_token r, s)
        else after_refresh r (refresh_session ti now issued draw raw s)
  ]

  abbrev after_revoke : Request → Result (Unit {0}) × S → Response × S
  after_revoke r (err e, s) = (revoke_failed r, s)
  after_revoke r (ok done, s) = (no_content, s)

  -- Revoke, behind AuthRequired.
  unfoldable pub revoke : Handler S
  revoke r s = elim (identity_from_context r.context) [
    | none ↦ (unauthenticated r, s)
    | some id ↦ elim (ti.crypto.uuid_parse id.user_id) [
      | none ↦ (unauthenticated r, s)
      | some user ↦ after_revoke r (revoke_all_sessions ti user s)
    ]
  ]
