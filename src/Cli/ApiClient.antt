-- ===== src/Cli/ApiClient.antt =====
-- cli/internal/apiclient/apiclient.go: the two calls that the CLI makes of the API.
pub mod Served
pub mod Unserved
use Prim.Native.String.{◌++◌}
use postulate.Base.{ℕ, String, Bool, not, Option, none, some, ◌==◌, nat_Eq, if◌then◌else◌}
use postulate.Base.Result.{Result, M, ok, err, wrap, message}
use postulate.Http.{Response, Body}

pub record RefreshResponse : Type 0 where
  pub token : String
  pub refresh_token : String
  pub expires_at : String
  pub role : String

-- A request as the client sends it. `refresh_token` is the one field of a JSON body.
pub record OutRequest : Type 0 where
  pub method : String
  pub url : String
  pub authorization : String
  pub refresh_token : Option String

-- What net/http and encoding/json do for the client: a request is sent and answered, or it fails,
-- http.NewRequest takes a URL, and a body is decoded.
pub record Transport (S : Type 0) : Type 0 where
  pub send : OutRequest → M S Response
  pub is_url : String → Bool
  pub decode : Body → Result RefreshResponse

abbrev pub refresh_request : String → String → OutRequest
refresh_request api_url token = record {
  method = "POST";
  url = api_url ++ "/v1/auth/token/refresh";
  authorization = "";
  refresh_token = some token;
}

abbrev pub logout_request : String → String → OutRequest
logout_request api_url token = record {
  method = "DELETE";
  url = api_url ++ "/v1/auth/token";
  authorization = "Bearer " ++ token;
  refresh_token = none;
}

module _ {S : Type 0} (t : Transport S) where
  -- The status is left out of the text of the error.
  abbrev pub read_refresh : Response → Result RefreshResponse
  read_refresh response =
      if not (response.status == 200)
      then err (message "token refresh failed")
      else elim (t.decode response.body) [
        | err e ↦ err (wrap "decode refresh response" e)
        | ok r ↦ ok r
      ]

  abbrev pub after_refresh : Result Response × S → Result RefreshResponse × S
  after_refresh (err e, s) = (err (wrap "token refresh request" e), s)
  after_refresh (ok response, s) = (read_refresh response, s)

  -- Refresh
  unfoldable pub refresh : String → String → M S RefreshResponse
  refresh api_url token s = after_refresh (t.send (refresh_request api_url token) s)

  abbrev pub after_logout : Result Response × S → Result ℕ × S
  after_logout (err e, s) = (err (wrap "logout request" e), s)
  after_logout (ok response, s) = (ok response.status, s)

  -- Logout: the status of the answer.
  unfoldable pub logout : String → String → M S ℕ
  logout api_url token s =
      let out = logout_request api_url token in
      if not (t.is_url out.url)
      then (err (wrap "build logout request" (message "invalid URL")), s)
      else after_logout (t.send out s)
