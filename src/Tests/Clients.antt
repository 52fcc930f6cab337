-- ===== src/Tests/Clients.antt =====
-- The command-line client at work.
use postulate.Base.{
  ◌∙◌, ℕ, zero, suc, ◌+◌, ◌*◌, ◌/◌, ◌≡◌, ◌≢◌, refl, String, Bool, true, false, Option, none, some,
  List, [], ◌∷◌, ◌++◌, ◌==◌, text_Eq, nat_Eq, find, arith, eq_iff,
}
use postulate.Base.Result.{Result, ok, err, message}
use postulate.Domain.{role_platform_member}
use postulate.Postgres.{Db}
use postulate.Auth.StateStore.{second}
use postulate.Auth.Issuer.{refresh_session}
use postulate.Http.{Request, Body, tokens, no_body, problem, Handler}
use postulate.Middleware.Auth.{auth_required, with_identity}
use postulate.Handler.Token.{refresh as serve_refresh}
use postulate.Handler.OAuth.{redirect_query}
use postulate.Cli.Callback.{
  port_range_start, CallbackResult, new_server, new, start, result_of, handle_callback,
  callback_comes, context_ends, shutdown_ends, timeout_is_sent, result_is_taken, step, run,
  first_result,
}
use postulate.Cli.Callback.Ports.{range, new-find}
use postulate.Cli.Callback.Delivery.{CameFrom, delivered_once, always_answers}
use postulate.Cli.Callback.RoundTrip.{callback-redirect}
use postulate.Cli.Credentials.{AuthFile, needs_refresh}
use postulate.Cli.Credentials.Expiry.{ParsesFormat, needs_refresh-issued, fresh_token_passes}
use postulate.Cli.ApiClient.{RefreshResponse, OutRequest, Transport, refresh}
use postulate.Cli.ApiClient.Served.{client_view, seen_by_client, refresh-served}
use postulate.Tests.Tokens.{issuer, parse-ParsesSigned, parse-ExpiresSigned, issued, answer, issues}
use postulate.Tests.{household, parse, request}

-- The first port is taken.
abbrev second_only : ℕ → Bool
second_only port = port == 18001

new-find_example : new second_only ≡ elim (find second_only (range 100 port_range_start)) [
  | none ↦ err (message "no available port in range 18000–18099")
  | some port ↦ ok (new_server port)
]
new-find_example = new-find second_only

abbrev good_query : List (String × String)
good_query = ("token", "jwt") ∷ []

-- A callback without a token comes first, and one with a token after it.
abbrev no_token : CallbackResult
no_token = result_of []

first_kept :
    first_result (run (callback_comes [] ∷ context_ends ∷ []) (start (new_server 18001)))
    ≡ some no_token
unfolding run step
first_kept = refl

delivered_once_example :
    CameFrom no_token (callback_comes [] ∷ context_ends ∷ [])
    × (first_result (
          run
            ((callback_comes [] ∷ context_ends ∷ [])
              ++ (result_is_taken ∷ callback_comes good_query ∷ []))
            (start (new_server 18001)))
        ≡ some no_token)
delivered_once_example =
    delivered_once 18001 (callback_comes [] ∷ context_ends ∷ [])
      (result_is_taken ∷ callback_comes good_query ∷ []) no_token first_kept

always_answers_example :
    first_result (
      run
        ([]
          ++ context_ends ∷ []
          ++ shutdown_ends ∷ (callback_comes good_query ∷ [])
          ++ timeout_is_sent ∷ [])
        (start (new_server 18001)))
    ≢ none
always_answers_example = always_answers 18001 [] [] (callback_comes good_query ∷ []) []

-- Times as texts: one letter for each second.
unfoldable letters : ℕ → String
letters zero = ""
letters (suc n) = String.◌∷◌ "x" (letters n)

unfoldable size : String → ℕ
size String.[] = 0
size (String.◌∷◌ c s) = 1 + size s

size-letters : (n : ℕ) → size (letters n) ≡ n
unfolding size letters
size-letters zero = refl
size-letters (suc n) = ground (arith, size-letters n)

abbrev format : ℕ → String
format t = letters (t / second)

abbrev parse_time : String → Option ℕ
parse_time s = some (size s * second)

format-ParsesFormat : ParsesFormat format parse_time
format-ParsesFormat t early = rw size-letters refl

callback-redirect_example :
    ((handle_callback
        (redirect_query format (("app", "cli") ∷ []) answer)
        (start (new_server 18001))).0
      ≡ 200)
    × ((handle_callback
          (redirect_query format (("app", "cli") ∷ []) answer)
          (start (new_server 18001))).1.result
        ≡ some (record {
          token = "jwt";
          refresh_token = "fresh";
          expires_at = format 28800000000000;
          role = role_platform_member;
          error = none;
        }))
callback-redirect_example =
    callback-redirect format (("app", "cli") ∷ []) answer (start (new_server 18001))
      (ground (arith, eq_iff "jwt" "")) refl

-- What the client has stored of the answer.
abbrev stored : AuthFile
stored = record {
  token = "jwt";
  refresh_token = "fresh";
  expires_at = format answer.expires_at;
  role = role_platform_member;
  api_url = "http://localhost:8080";
}

still_fresh : needs_refresh parse_time 5 stored ≡ false
still_fresh =
    let rule =
      needs_refresh-issued issuer format parse_time 0 5 (ok "fresh") 7 role_platform_member
        household issued.1 answer stored format-ParsesFormat issues refl (omega arith) in
    rule ∙ refl

-- A handler that counts.
abbrev counting : Handler ℕ
counting r n = (record { status = 200; content_type = ""; body = no_body }, n + 1)

fresh_token_passes_example :
    auth_required parse "key" 5 counting request 0
    ≡ counting (with_identity request (record { user_id = "7"; role = role_platform_member })) 0
fresh_token_passes_example =
    fresh_token_passes issuer format parse_time parse 0 5 (ok "fresh") 7 role_platform_member
      household issued.1 answer stored request counting 0 format-ParsesFormat parse-ParsesSigned
      parse-ExpiresSigned issues refl refl (omega arith) refl (ground (arith, eq_iff "jwt" ""))
      (ground (arith, eq_iff "7" "")) (ground (arith, eq_iff role_platform_member "")) still_fresh

-- A network that leads to the API, for a request that has nothing but its body.
abbrev decode : Body → Result RefreshResponse
decode no_body = err (message "EOF")
decode (problem p) = err (message "not a token response")
decode (tokens tr) = ok (client_view format tr)
decode _ = err (message "EOF")

abbrev frame : OutRequest → Request
frame out = request

abbrev network : Transport Db
network = record {
  send = λ out db.
      let (response, db') =
        serve_refresh issuer 5 6 (ok "next")
          (record (frame out) { refresh_body = out.refresh_token }) db in
      (ok response, db');
  is_url = λ url. true;
  decode = decode;
}

refresh-served_example :
    refresh network "http://localhost:8080" "second" household
    ≡ seen_by_client format (refresh_session issuer 5 6 (ok "next") "second" household)
refresh-served_example =
    refresh-served issuer format network frame 5 6 (ok "next") "http://localhost:8080" "second"
      household (λ out db. refl) (λ tr. refl) (ground (arith, eq_iff "second" ""))
