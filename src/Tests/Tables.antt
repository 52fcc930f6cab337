-- ===== src/Tests/Tables.antt =====
-- The tables, the refresh tokens and the state store at work.
use postulate.Base.{
  ℕ, String, ◌+◌, ◌≤◌, false, ◌≡◌, refl, none, some, List, [], ◌∷◌, find, delete, ltb,
  if◌then◌else◌, arith, eq_iff,
}
use postulate.Base.Result.{Result, ok, err, is_ok}
use postulate.Domain.{User}
use postulate.Postgres.{Db, TokenRow}
use postulate.Postgres.Users.{has_id, find_user_by_id}
use postulate.Auth.StateStore.Promise.{answers, promised, view, answers-promised}
use postulate.Postgres.Tokens.{
  has_hash, of_user, find_by_token_hash, delete_by_user_id, create_token, insert_token,
}
use postulate.Auth.StateStore.{
  Call, new_state_store, generates, validates, generations, acceptances,
}
use postulate.Auth.StateStore.SingleUse.{acceptances-le-generations}
use postulate.Auth.Issuer.{
  refresh_token_ttl, invalid_refresh_token, jwt_ttl, TokenResponse, refresh_session,
  issue_session_token,
}
use postulate.Auth.Issuer.Postgres.{
  postgres_issuer, issue_without_session_fails, refresh_loses_tokens,
}
use postulate.Auth.Issuer.Rotation.{rotated, refresh-rotates, rotation_ends, rotation_keeps}
use postulate.Auth.Issuer.Lifetime.{refresh-issued}
use postulate.Auth.Issuer.Race.{
  Attempt, play, first, second, asked, answered, answer_to, race_two_refreshes,
}
use postulate.Domain.{role_platform_member}
use postulate.Tests.Tokens.{issuer, issued, answer as issued_answer, issues}
use postulate.Tests.{ada, token_row, household, household-IsConsistent, crypto}

-- The refresh with Ada's first token, at time 0.
abbrev refreshed : Result TokenResponse × Db
refreshed = refresh_session (postgres_issuer crypto "key") 0 0 (ok "fresh") "first" household

abbrev answer : TokenResponse
answer = record {
  token = "jwt";
  refresh_token = "fresh";
  expires_at = 28800000000000;
  role = "platform_member";
}

refreshes : refreshed ≡ (ok answer, refreshed.1)
unfolding refresh_session issue_session_token find_by_token_hash find_user_by_id delete_by_user_id
    create_token insert_token find delete
refreshes = refl

refresh-rotates_example :
    (row : TokenRow) × (user : User) × (find (has_hash "first") household.tokens ≡ some row)
    × (find (has_id row.user_id) household.users ≡ some user)
    × (0 ≤ row.expires_at)
    × (row.used_at ≡ none)
    × (answer.role ≡ user.role)
    × (answer.expires_at ≡ 0 + jwt_ttl)
    × (refreshed.1 ≡ rotated crypto "key" row.user_id answer.refresh_token 0 household)
refresh-rotates_example =
    refresh-rotates crypto "key" 0 0 (ok "fresh") "first" household refreshed.1 answer refreshes

rotation_ends_example :
    is_ok (refresh_session (postgres_issuer crypto "key") 5 6 (ok "next") "second" refreshed.1).0
    ≡ false
unfolding find
rotation_ends_example =
    rotation_ends crypto "key" 0 0 5 6 (ok "fresh") (ok "next") "first" "second" household
      refreshed.1 answer (token_row 30 7 "first") (token_row 31 7 "second") household-IsConsistent
      refreshes refl refl refl (ground (arith, eq_iff "fresh" "second"))

rotation_keeps_example : find (has_hash "third") refreshed.1.tokens ≡ some (token_row 32 8 "third")
unfolding find
rotation_keeps_example =
    rotation_keeps crypto "key" 0 0 (ok "fresh") "first" "third" household refreshed.1 answer
      (token_row 30 7 "first") (token_row 32 8 "third") refreshes refl refl (ground arith)
      (ground (arith, eq_iff "fresh" "third"))

-- The same tables with no session, as the API leaves them.
abbrev sessionless : Db
sessionless = record household { sessions = [] }

issue_without_session_fails_example :
    (is_ok
        (issue_session_token
          (postgres_issuer crypto "key")
          0
          (ok "fresh")
          7
          "platform_member"
          sessionless).0
      ≡ false)
    × ((issue_session_token
          (postgres_issuer crypto "key")
          0
          (ok "fresh")
          7
          "platform_member"
          sessionless).1
        ≡ sessionless)
unfolding find
issue_without_session_fails_example =
    issue_without_session_fails crypto "key" 0 (ok "fresh") 7 "platform_member" sessionless refl

refresh_loses_tokens_example :
    (is_ok (refresh_session (postgres_issuer crypto "key") 0 0 (ok "fresh") "first" sessionless).0
      ≡ false)
    × ((refresh_session (postgres_issuer crypto "key") 0 0 (ok "fresh") "first" sessionless).1
        ≡ record sessionless { tokens = delete (of_user 7) sessionless.tokens })
unfolding find
refresh_loses_tokens_example =
    refresh_loses_tokens crypto "key" 0 0 (ok "fresh") "first" sessionless (token_row 30 7 "first")
      ada refl refl (omega arith) refl refl refl refl refl

-- A state that is generated, validated and replayed.
abbrev replay : List (ℕ × Call)
replay = (1, generates (some "s1")) ∷ (2, validates "s1") ∷ (3, validates "s1") ∷ []

acceptances-le-generations_example :
    acceptances "s1" new_state_store replay ≤ generations "s1" replay
acceptances-le-generations_example = acceptances-le-generations "s1" replay

answers-promised_example : answers new_state_store replay ≡ promised (view new_state_store) replay
answers-promised_example = answers-promised replay new_state_store

-- Ada's refresh token of time 0, and what is left of it thirty days and a nanosecond later.
abbrev month_later : ℕ
month_later = refresh_token_ttl + 1

refresh-issued_example :
    refresh_session issuer month_later month_later (ok "next") issued_answer.refresh_token issued.1
    ≡ (if ltb (0 + refresh_token_ttl) month_later
        then (err invalid_refresh_token, issued.1)
        else issue_session_token issuer month_later
            (ok "next")
            7
            ada.role
            (record (issued.1) { tokens = delete (of_user 7) household.tokens }))
unfolding find
refresh-issued_example =
    refresh-issued crypto "key" 0 month_later month_later (ok "fresh") (ok "next") ada
      role_platform_member household issued.1 issued_answer issues refl refl refl refl

-- Two requests that bring Ada's first token at time 0.
abbrev attempt : String → Attempt
attempt raw = record { now = 0; issued = 0; draw = ok raw }

race_two_refreshes_example :
    play issuer "first"
      (attempt "fresh")
      (attempt "next")
      (first ∷ second ∷ first ∷ second ∷ [])
      (record { db = household; one = asked; two = asked })
    ≡ record {
      db = rotated crypto "key" 7 "next" 0 (rotated crypto "key" 7 "fresh" 0 household);
      one = answered (ok (answer_to crypto "key" (attempt "fresh") ada "fresh" "jwt"));
      two = answered (ok (answer_to crypto "key" (attempt "next") ada "next" "jwt"));
    }
unfolding find
race_two_refreshes_example =
    race_two_refreshes crypto "key" (attempt "fresh") (attempt "next") "first" "fresh" "next" "jwt"
      "jwt" household (token_row 30 7 "first") ada
      (record { stored = refl; unused = refl; owner = refl; session = refl; faultless = λ s. refl })
      (omega arith) (omega arith) (record { drawn = refl; signed = refl })
      (record { drawn = refl; signed = refl }) refl refl refl refl
