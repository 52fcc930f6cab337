-- ===== src/Middleware/Auth.antt =====
-- middleware/auth.go: bearer tokens, and the roles that a route asks for.
pub mod Gate
use Prim.Native.Char.{code}
use postulate.Base.{
  ℕ, ◌*◌, String, Bool, not, ◌||◌, Option, none, some, ◌==◌, text_Eq, nat_Eq, if◌then◌else◌,
}
use postulate.Auth.StateStore.{second}
use postulate.Auth.ProviderUser.{Identity, context_with_identity, identity_from_context}
use postulate.Http.{
  Request, Response, problem, Handler, problem_json, type_unauthorized, type_forbidden,
  request_id_from_context,
}

-- 60 * time.Second
abbrev pub clock_skew : ℕ
clock_skew = 60 * second

-- strings.HasPrefix and strings.TrimPrefix in one: what follows the prefix, if it is there.
unfoldable pub after_prefix : String → String → Option String
after_prefix String.[] s = some s
after_prefix (String.◌∷◌ c p) String.[] = none
after_prefix (String.◌∷◌ c p) (String.◌∷◌ d s) =
    let rest = after_prefix p s in if code c == code d then rest else none

-- bearerToken
unfoldable pub bearer_token : Request → String
bearer_token r = elim (after_prefix "Bearer " r.authorization) [ none ↦ "" | some token ↦ token ]

-- A parsed JWT: whether its method is an HMAC, whether it is valid, whether its claims are a map,
-- and the claims "sub" and "role" where these are texts.
pub record ParsedToken : Type 0 where
  pub is_hmac : Bool
  pub valid : Bool
  pub has_map_claims : Bool
  pub sub : Option String
  pub role : Option String

-- `jwt.Parse` of golang-jwt with a leeway: the token if its method's key, which the given function
-- picks, verifies the signature and the times allow it at `now`; none for any error.
abbrev pub JwtParse : Type 0
JwtParse = (ParsedToken → Option String) → ℕ → ℕ → String → Option ParsedToken

-- The key function: the secret for an HMAC method, an error for any other.
abbrev pub key_for : String → ParsedToken → Option String
key_for secret t = if t.is_hmac then some secret else none

-- `s, _ := claims[k].(string)`
abbrev pub text_claim : Option String → String
text_claim none = ""
text_claim (some s) = s

-- writeAuthProblem: the detail is the same for every failure.
unfoldable pub write_auth_problem : Request → ℕ → String → String → Response
write_auth_problem r status type_uri title = record {
  status = status;
  content_type = problem_json;
  body = problem (record {
    type_uri = type_uri;
    title = title;
    status = status;
    detail = "authentication required";
    instance_path = r.path;
    request_id = request_id_from_context r.context;
  });
}

abbrev pub unauthorized : Request → Response
unauthorized r = write_auth_problem r 401 type_unauthorized "Unauthorized"

abbrev pub with_identity : Request → Identity → Request
with_identity r id = record r { context = context_with_identity r.context id }

-- The identity that a bearer token stands for at `now`, if AuthRequired lets it pass.
unfoldable pub identity_of : JwtParse → String → ℕ → String → Option Identity
identity_of parse secret now raw =
    if raw == "" then none else elim (parse (key_for secret) clock_skew now raw) [
      | none ↦ none
      | some t ↦
          if not t.valid
            || not t.has_map_claims
            || (text_claim t.sub == "" || text_claim t.role == "")
          then none
          else some (record { user_id = text_claim t.sub; role = text_claim t.role })
    ]

module _ {S : Type 0} where
  -- AuthRequired
  unfoldable pub auth_required : JwtParse → String → ℕ → Handler S → Handler S
  auth_required parse secret now next r s = elim (identity_of parse secret now (bearer_token r)) [
    | none ↦ (unauthorized r, s)
    | some id ↦ next (with_identity r id) s
  ]

  -- RequireRole
  unfoldable pub require_role : String → Handler S → Handler S
  require_role role next r s = elim (identity_from_context r.context) [
    | none ↦ (write_auth_problem r 403 type_forbidden "Forbidden", s)
    | some id ↦
        if not (id.role == role)
        then (write_auth_problem r 403 type_forbidden "Forbidden", s)
        else next r s
  ]
