-- ===== src/Cli/Callback/RoundTrip.antt =====
-- The tokens on their way from the API's OAuth handlers to the CLI.
use postulate.Base.{
  ℕ, ◌≡◌, ◌≢◌, String, none, some, List, [], ◌∷◌, put, remove, ◌==◌, text_Eq, if◌then◌else◌, arith,
  eq_iff,
}
use postulate.Auth.Issuer.{TokenResponse}
use postulate.Http.{query_get}
use postulate.Handler.OAuth.{redirect_query}
use postulate.Cli.Callback.{Server, handle_callback}

query_get-remove :
    (k j : String) (q : List (String × String))
    → query_get k (remove j q) ≡ (if j == k then "" else query_get k q)
unfolding query_get remove
query_get-remove k j [] = ground arith
query_get-remove k j ((i, v) ∷ q) =
    ground (arith, query_get-remove k j q, eq_iff i k, eq_iff i j, eq_iff j k)

query_get-put :
    (k j v : String) (q : List (String × String))
    → query_get k (put j v q) ≡ (if j == k then v else query_get k q)
unfolding query_get put
query_get-put k j v q = ground (arith, query_get-remove k j q)

module _ (format : ℕ → String) (own : List (String × String)) (tr : TokenResponse) where
  token-redirect : query_get "token" (redirect_query format own tr) ≡ tr.token
  unfolding redirect_query
  token-redirect = simp query_get-put

  refresh-redirect : query_get "refresh_token" (redirect_query format own tr) ≡ tr.refresh_token
  unfolding redirect_query
  refresh-redirect = simp query_get-put

  expires-redirect : query_get "expires_at" (redirect_query format own tr) ≡ format tr.expires_at
  unfolding redirect_query
  expires-redirect = simp query_get-put

  role-redirect : query_get "role" (redirect_query format own tr) ≡ tr.role
  unfolding redirect_query
  role-redirect = simp query_get-put

-- What the CLI reads from the query that the API redirects with is what the API issued, whatever
-- else the redirect URI has in its query, for a token that is not empty and a listener with no
-- result yet: the answer is 200, and the result has the token, the refresh token, the text of the
-- end and the role, and no error.
pub callback-redirect :
    (format : ℕ → String) (own : List (String × String)) (tr : TokenResponse) (s : Server)
    → tr.token ≢ ""
    → s.result ≡ none
    → ((handle_callback (redirect_query format own tr) s).0 ≡ 200)
      × ((handle_callback (redirect_query format own tr) s).1.result
          ≡ some (record {
            token = tr.token;
            refresh_token = tr.refresh_token;
            expires_at = format tr.expires_at;
            role = tr.role;
            error = none;
          }))
unfolding handle_callback
callback-redirect format own tr s some_token free =
    let token = token-redirect format own tr in
    let refresh = refresh-redirect format own tr in
    let expires = expires-redirect format own tr in
    let role = role-redirect format own tr in
    (ground (arith, eq_iff tr.token ""), ground (arith, eq_iff tr.token ""))
