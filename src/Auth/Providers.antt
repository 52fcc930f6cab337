-- ===== src/Auth/Providers.antt =====
-- auth/providers.go: the OAuth providers that goth is given.
use Prim.Native.String.{◌++◌}
use postulate.Base.{String, List, [], ◌∷◌}

pub record OAuthProvider : Type 0 where
  pub name : String
  pub client_id : String
  pub client_secret : String
  pub callback_url : String
  pub scopes : List String

-- RegisterProviders: the providers as they are passed on.
abbrev pub register_providers : String → String → String → String → String → List OAuthProvider
register_providers google_id google_secret github_id github_secret base_url =
    record {
      name = "google";
      client_id = google_id;
      client_secret = google_secret;
      callback_url = base_url ++ "/v1/auth/oauth/google/callback";
      scopes = "openid" ∷ "email" ∷ "profile" ∷ [];
    }
    ∷ record {
      name = "github";
      client_id = github_id;
      client_secret = github_secret;
      callback_url = base_url ++ "/v1/auth/oauth/github/callback";
      scopes = "read:user" ∷ "user:email" ∷ [];
    }
    ∷ []
