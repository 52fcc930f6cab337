-- ===== src/Cli/ApiClient/Served.antt =====
-- The client's refresh, where the API's handler answers it.
use postulate.Base.{ℕ, ◌≡◌, ◌≢◌, String, inl, inr, arith, eq_iff, text_Eq}
use postulate.Base.Result.{Result, ok, err, message, Result-cases}
use postulate.Auth.Issuer.{TokenResponse, TokenIssuer, refresh_session}
use postulate.Http.{Request, Body, tokens, write_problem}
use postulate.Handler.Token.{refresh as serve_refresh}
use postulate.Cli.ApiClient.{RefreshResponse, OutRequest, Transport, refresh, refresh_request}

-- The JSON of a token response, with its end as a text, reads back.
abbrev pub client_view : (ℕ → String) → TokenResponse → RefreshResponse
client_view format tr = record {
  token = tr.token;
  refresh_token = tr.refresh_token;
  expires_at = format tr.expires_at;
  role = tr.role;
}

abbrev pub DecodesTokens : (ℕ → String) → (Body → Result RefreshResponse) → Type 0
DecodesTokens format decode = (tr : TokenResponse) → decode (tokens tr) ≡ ok (client_view format tr)

-- What the client makes of the issuer's answer.
abbrev pub seen_by_client :
    {S : Type 0} → (ℕ → String) → Result TokenResponse × S → Result RefreshResponse × S
seen_by_client format (ok tr, s) = (ok (client_view format tr), s)
seen_by_client format (err e, s) = (err (message "token refresh failed"), s)

module _ {S : Type 0} (ti : TokenIssuer S) (format : ℕ → String) (t : Transport S)
    (frame : OutRequest → Request) (now issued : ℕ) (draw : Result String) where
  -- The network hands the request to the API's handler, in a frame of headers and context, and
  -- hands the answer back.
  abbrev pub IsServed : Type 0
  IsServed =
      (out : OutRequest) (s : S)
      → t.send out s ≡ (
        ok
            (serve_refresh ti now issued draw
              (record (frame out) { refresh_body = out.refresh_token }) s).0,
        (serve_refresh ti now issued draw (record (frame out) { refresh_body = out.refresh_token })
            s).1,
      )

  -- Refreshing from the CLI is refreshing at the issuer: where the API's handler answers, the client
  -- gets the new tokens exactly when RefreshSession gives them, and one error for every failure,
  -- and the API's store is what RefreshSession leaves.
  pub refresh-served :
      (api_url token : String) (s : S)
      → IsServed
      → DecodesTokens format t.decode
      → token ≢ ""
      → refresh t api_url token s
        ≡ seen_by_client format (refresh_session ti now issued draw token s)
  unfolding refresh serve_refresh write_problem
  refresh-served api_url token s served decodes some_token =
      let answer = served (refresh_request api_url token) s in
      elim (Result-cases (refresh_session ti now issued draw token s).0) [
        | inl (tr, issues) ↦ ground (arith, answer, decodes tr, eq_iff token "")
        | inr (e, fails) ↦ ground (arith, answer, eq_iff token "")
      ]
