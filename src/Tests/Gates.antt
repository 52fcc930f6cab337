-- ===== src/Tests/Gates.antt =====
-- Requests at work.
use postulate.Base.{
  ℕ, ◌+◌, ◌*◌, ◌≡◌, ◌≢◌, ◌/◌, inl, refl, String, true, false, some, update, find, delete, ltb,
  text_Eq, if◌then◌else◌, arith, eq_iff,
}
use postulate.Base.Result.{ok}
use postulate.Domain.{User, role_platform_member}
use postulate.Postgres.{Db}
use postulate.Postgres.Users.{find_user_by_id}
use postulate.Postgres.Accounts.{find_by_provider, upsert_account, merge_account}
use postulate.Postgres.Tokens.{delete_by_user_id, create_token, insert_token}
use postulate.Auth.StateStore.{second, new_state_store, generate}
use postulate.Auth.ProviderUser.{goth_user_to_provider_user, Identity, GothUser}
use postulate.Auth.Issuer.{jwt_ttl, TokenResponse, issue_session_token, revoke_all_sessions}
use postulate.Auth.Resolver.{apply_bootstrap_upgrade, resolve_by_account, resolve_or_create_user}
use postulate.Auth.Resolver.FirstLogin.{postgres_resolver}
use postulate.Http.{no_body, query_get, Handler}
use postulate.Middleware.Auth.{
  ParsedToken, after_prefix, bearer_token, clock_skew, identity_of, auth_required, unauthorized,
  with_identity, key_for,
}
use postulate.Middleware.Auth.Gate.{ParsesUnderKey, identity_sound, issued_token_passes}
use postulate.Handler.OAuth.{OAuthHandler, Shared, Surroundings, complete_callback, hand_over}
use postulate.Handler.OAuth.Flow.{success_sound}
use postulate.Handler.Token.{refresh, revoke, refused_token}
use postulate.Handler.Token.Logout.{logout_ends}
use postulate.Tests.Tokens.{issuer, parse-ParsesSigned, parse-ExpiresSigned, issued, answer, issues}
use postulate.Tests.{household, household-IsConsistent, token_row, crypto, parse, request}

parse-ParsesUnderKey : ParsesUnderKey parse
parse-ParsesUnderKey key leeway now raw t h = ground (arith, eq_iff raw "jwt")

abbrev bearer : String
bearer = "jwt"

abbrev caller : Identity
caller = record { user_id = "7"; role = role_platform_member }

identity_sound_example :
    (t : ParsedToken) × (parse (key_for "key") clock_skew 0 "jwt" ≡ some t)
    × (t.is_hmac ≡ true)
    × (t.valid ≡ true)
    × (t.sub ≡ some "7")
    × (t.role ≡ some role_platform_member)
    × (bearer ≢ "")
    × (caller.user_id ≢ "")
    × (caller.role ≢ "")
unfolding identity_of
identity_sound_example = identity_sound parse "key" 0 "jwt" caller parse-ParsesUnderKey refl

-- The route's handler, which counts how often it runs.
abbrev counting : Handler ℕ
counting r n = (record { status = 200; content_type = ""; body = no_body }, n + 1)

issued_token_passes_example : auth_required parse "key" 28800000000001 counting request 0 ≡ (
    if ltb 28800000000001 ((0 + jwt_ttl) / second * second + clock_skew)
    then counting (with_identity request caller) 0
    else (unauthorized request, 0))
issued_token_passes_example =
    issued_token_passes issuer parse 0 28800000000001 (ok "fresh") 7 role_platform_member household
      issued.1 answer request counting 0 parse-ParsesSigned parse-ExpiresSigned issues refl
      (ground (arith, eq_iff "jwt" "")) (ground (arith, eq_iff "7" ""))
      (ground (arith, eq_iff role_platform_member ""))

-- The OAuth handlers, with a provider that knows Ada.
abbrev handler : OAuthHandler Db
handler = record {
  resolver = postgres_resolver (record { admin_email = ""; dev_fallback_enabled = false });
  issuer = issuer;
  complete = λ r. ok (record {
    provider = "github";
    user_id = "ada";
    email = "ada@example.org";
    name = "Ada L.";
    access_token = "a";
    refresh_token = "";
    expires_at = 50;
  });
  begins = λ r. record { status = 307; content_type = ""; body = no_body };
  is_url = λ s. true;
}

abbrev shared : Shared Db
shared = record { states = (generate (some "s1") 0 new_state_store).1; store = household }

abbrev soon : Surroundings
soon = record { now = 1; issued = 2; draw = ok "fresh" }

abbrev at_once : Surroundings
at_once = record { now = 1; issued = 0; draw = ok "fresh" }

success_sound_example :
    (goth : GothUser) × (u : User) × (tr : TokenResponse) × (resolved : Db) × (query_get "error"
        request.query
      ≡ "")
    × (handler.complete request ≡ ok goth)
    × (resolve_or_create_user handler.resolver (goth_user_to_provider_user goth) household
        ≡ (ok u, resolved))
    × (issue_session_token issuer 0 (ok "fresh") u.id u.role resolved
        ≡ (ok tr, (complete_callback handler at_once request household).1))
    × ((complete_callback handler at_once request household).0 ≡ hand_over handler request tr)
unfolding complete_callback hand_over query_get resolve_or_create_user resolve_by_account
    apply_bootstrap_upgrade find_by_provider find_user_by_id upsert_account merge_account
    issue_session_token create_token insert_token find update
success_sound_example = success_sound handler at_once request household (inl refl)

logout_ends_example :
    (refresh issuer 6 7
      (ok "fresh")
      request
      (auth_required parse "key" 5 (revoke issuer) request household).1).0
    ≡ refused_token request
unfolding auth_required identity_of bearer_token after_prefix revoke revoke_all_sessions
    delete_by_user_id delete find
logout_ends_example =
    logout_ends crypto "key" parse 5 6 7 (ok "fresh") request request "second" household caller 7
      (token_row 31 7 "second") household-IsConsistent refl refl refl refl
      (ground (arith, eq_iff "second" "")) refl refl
