-- ===== src/Auth/Issuer/Effects.antt =====
-- What issuing, refreshing and revoking can do to the store: whatever each write keeps, they keep.
use postulate.Base.{ℕ, String, Option, arith, Option-cases, inl, inr}
use postulate.Base.Result.{Reply, Result}
use postulate.Base.Keeps.{Keeps, Keeps-with_context, keeps_rules}
use postulate.Domain.{RefreshToken}
use postulate.Auth.Issuer.{
  TokenIssuer, of_result, found_or, issue_session_token, check_token, refresh_session,
  revoke_all_sessions,
}

module _ {S A : Type 0} {P : S → Type 0} where
  Keeps-of_result : (r : Result A) → Keeps P (of_result {S = S} r)
  Keeps-of_result r = record { leads = λ s h. h }

  Keeps-found_or : (text : String) (read : S → Reply (Option A)) → Keeps P (found_or text read)
  Keeps-found_or text read = record {
    leads = λ s h. elim (Option-cases (read s).error) [
      | inl fine ↦ rw (fine, found_or) h
      | inr (e, failed) ↦ rw (failed, found_or) h
    ];
  }

module _ {S : Type 0} (P : S → Type 0) (ti : TokenIssuer S)
    (creates : (t : RefreshToken) → Keeps P (ti.refresh_repo.create t)) where
  pub issue-Keeps :
      (now : ℕ) (draw : Result String) (user : ℕ) (role : String)
      → Keeps P (issue_session_token ti now draw user role)
  unfolding issue_session_token
  issue-Keeps now draw user role = search (keeps_rules, Keeps-of_result, creates)

  check-Keeps : (now : ℕ) (rt : RefreshToken) → Keeps P (check_token ti now rt)
  check-Keeps now rt = record { leads = λ s h. ground arith }

  module _ (deletes : (user : ℕ) → Keeps P (ti.refresh_repo.delete_by_user_id user)) where
    pub refresh-Keeps :
        (now issued : ℕ) (draw : Result String) (raw : String)
        → Keeps P (refresh_session ti now issued draw raw)
    unfolding refresh_session
    refresh-Keeps now issued draw raw =
        search (keeps_rules, Keeps-found_or, check-Keeps, deletes, issue-Keeps) depth 9

    pub revoke-Keeps : (user : ℕ) → Keeps P (revoke_all_sessions ti user)
    unfolding revoke_all_sessions
    revoke-Keeps user = Keeps-with_context _ _ (deletes user)
