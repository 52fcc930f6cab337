-- ===== src/Handler/OAuth.antt =====
-- handler/oauth_handler.go. The callbacks of Google and GitHub have the same body, and so do the
-- two handlers that begin a flow.
pub mod Flow
pub mod Effects
use postulate.Base.{
  put, ℕ, String, Bool, true, false, not, ◌&&◌, Option, none, some, List, [], ◌∷◌, ◌==◌, text_Eq,
  if◌then◌else◌,
}
use postulate.Base.Result.{Result, ok, err}
use postulate.Domain.{User}
use postulate.Auth.StateStore.{StateStore, generate, validate}
use postulate.Auth.ProviderUser.{GothUser, ProviderUser, goth_user_to_provider_user}
use postulate.Auth.Resolver.{UserResolver, resolve_or_create_user}
use postulate.Auth.Issuer.{TokenIssuer, TokenResponse, issue_session_token}
use postulate.Http.{
  Request, Response, tokens, redirect, write_problem, new_problem, query_get, type_bad_request,
  type_unauthorized, type_internal_server_error, type_unprocessable_entity,
}

-- `complete` is gothic.CompleteUserAuth, `begins` gothic.BeginAuthHandler, and `is_url` whether
-- url.Parse takes a text.
pub record OAuthHandler (S : Type 0) : Type 0 where
  pub resolver : UserResolver S
  pub issuer : TokenIssuer S
  pub complete : Request → Result GothUser
  pub begins : Request → Response
  pub is_url : String → Bool

-- NewOAuthHandler. The state store is in what the handlers share.
abbrev pub new_oauth_handler :
    {S : Type 0}
    → UserResolver S
    → TokenIssuer S
    → (Request → Result GothUser)
    → (Request → Response)
    → (String → Bool)
    → OAuthHandler S
new_oauth_handler resolver issuer complete begins is_url = record {
  resolver = resolver;
  issuer = issuer;
  complete = complete;
  begins = begins;
  is_url = is_url;
}

-- What the handlers share: the state store, and the store of the repositories.
pub record Shared (S : Type 0) : Type 0 where
  pub states : StateStore
  pub store : S

-- The clock when the state is validated and when the token is issued, and what the random source
-- gives for it.
pub record Surroundings : Type 0 where
  pub now : ℕ
  pub issued : ℕ
  pub draw : Result String

abbrev pub bad_state : Request → Response
bad_state r =
    write_problem r
      (new_problem type_bad_request "Bad Request" 400 "invalid or expired state parameter" "")

abbrev pub provider_refused : Request → Response
provider_refused r =
    write_problem r
      (new_problem type_unauthorized "Unauthorized" 401 "OAuth provider returned an error" "")

abbrev pub internal_error : Request → Response
internal_error r =
    write_problem r (new_problem type_internal_server_error "Internal Server Error" 500 "" "")

abbrev pub no_email : Request → Response
no_email r = write_problem r (
    new_problem type_unprocessable_entity "Unprocessable Entity" 422
      "OAuth provider returned no email address" "")

abbrev pub tokens_json : TokenResponse → Response
tokens_json tr = record { status = 200; content_type = "application/json"; body = tokens tr }

-- url.Values.Set
abbrev pub query_set : String → String → List (String × String) → List (String × String)
query_set k v q = put k v q

-- The query of the URL that a CLI client is redirected to, on top of that of its redirect_uri.
-- `format` is Format("2006-01-02T15:04:05Z") of a time in UTC.
unfoldable pub redirect_query :
    (ℕ → String) → List (String × String) → TokenResponse → List (String × String)
redirect_query format q tr = query_set "role" tr.role (
    query_set "expires_at" (format tr.expires_at)
      (query_set "refresh_token" tr.refresh_token (query_set "token" tr.token q)))

module _ {S : Type 0} (h : OAuthHandler S) where
  -- A CLI client is redirected to its callback with the tokens in the query; others get JSON.
  unfoldable pub hand_over : Request → TokenResponse → Response
  hand_over r tr =
      let uri = query_get "redirect_uri" r.query in
      if not (uri == "") && h.is_url uri
      then record { status = 302; content_type = ""; body = redirect uri tr }
      else tokens_json tr

  abbrev pub after_issue : Request → Result TokenResponse × S → Response × S
  after_issue r (err e, s) = (internal_error r, s)
  after_issue r (ok tr, s) = (hand_over r tr, s)

  abbrev pub after_resolve : Surroundings → Request → Result User × S → Response × S
  after_resolve env r (err e, s) = (internal_error r, s)
  after_resolve env r (ok u, s) =
      after_issue r (issue_session_token h.issuer env.issued env.draw u.id u.role s)

  abbrev pub sign_in : Surroundings → Request → Result GothUser → S → Response × S
  sign_in env r (err e) s = (internal_error r, s)
  sign_in env r (ok goth) s =
      let pu = goth_user_to_provider_user goth in
      if pu.email == ""
      then (no_email r, s)
      else after_resolve env r (resolve_or_create_user h.resolver pu s)

  -- What follows once the state is validated.
  unfoldable pub complete_callback : Surroundings → Request → S → Response × S
  unfolding hand_over
  complete_callback env r s =
      if not (query_get "error" r.query == "")
      then (provider_refused r, s)
      else sign_in env r (h.complete r) s

  -- CallbackGoogle and CallbackGitHub
  unfoldable pub callback : Surroundings → Request → Shared S → Response × Shared S
  callback env r shared =
      let (valid, states) = validate (query_get "state" r.query) env.now shared.states in
      if not valid
      then (bad_state r, record shared { states = states })
      else let (response, store) = complete_callback env r shared.store in
        (response, record { states = states; store = store })

  -- BeginGitHub, with what crypto/rand gives for the state.
  unfoldable pub begin_flow : Option String → ℕ → Request → Shared S → Response × Shared S
  begin_flow drawn now r shared =
      let (made, states) = generate drawn now shared.states in
      elim made [
        | none ↦ (internal_error r, record shared { states = states })
        | some state ↦ (
          h.begins (record r { query = query_set "state" state r.query }),
          record shared { states = states },
        )
      ]

  -- BeginGoogle, whose body is that of BeginGitHub.
  abbrev pub begin_google : Option String → ℕ → Request → Shared S → Response × Shared S
  begin_google = begin_flow
