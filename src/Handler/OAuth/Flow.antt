-- ===== src/Handler/OAuth/Flow.antt =====
-- What a login through the OAuth handlers needs, and what it gives.
use postulate.Base.{ℕ, ◌+◌, ◌≡◌, ◌⊎◌, inl, inr, some, ltb, text_Eq, if◌then◌else◌, arith, eq_iff}
use postulate.Base.Result.{ok, Result-cases}
use postulate.Domain.{User}
use postulate.Auth.StateStore.{generate, state_ttl}
use postulate.Auth.StateStore.SingleUse.{validate_once, validate-generate}
use postulate.Auth.ProviderUser.{GothUser, goth_user_to_provider_user}
use postulate.Auth.Resolver.{resolve_or_create_user}
use postulate.Auth.Issuer.{TokenResponse, issue_session_token}
use postulate.Http.{Request, Response, query_get, write_problem}
use postulate.Handler.OAuth.{
  OAuthHandler, Shared, Surroundings, bad_state, hand_over, complete_callback, callback,
}

module _ {S : Type 0} (h : OAuthHandler S) where
  -- A callback may be used once: after any callback with a state, another with the same state, at
  -- any time and with whatever else in the request, is answered with 400 and leaves the users and
  -- tokens as they are.
  pub callback_once :
      (env later : Surroundings) (r again : Request) (shared : Shared S)
      → query_get "state" again.query ≡ query_get "state" r.query
      → ((callback h later again (callback h env r shared).1).0 ≡ bad_state again)
        × ((callback h later again (callback h env r shared).1).1.store
            ≡ (callback h env r shared).1.store)
  unfolding callback
  callback_once env later r again shared same =
      let once = validate_once shared.states (query_get "state" r.query) env.now later.now in
      (ground (arith, once), ground (arith, once))

  -- A callback whose state was generated last gets past the check exactly when less than five minutes
  -- have passed; if they have, it is answered with 400 and changes no user or token.
  pub callback_in_time :
      (env : Surroundings) (r : Request) (shared : Shared S) (issued : ℕ)
      → let known : Shared S = record shared {
        states = (generate (some (query_get "state" r.query)) issued shared.states).1;
      } in
        ((callback h env r known).0 ≡ (
          if ltb env.now (issued + state_ttl)
          then (complete_callback h env r shared.store).0
          else bad_state r))
        × ((callback h env r known).1.store ≡ (
            if ltb env.now (issued + state_ttl)
            then (complete_callback h env r shared.store).1
            else shared.store))
  unfolding callback
  callback_in_time env r shared issued =
      let fresh = validate-generate shared.states (query_get "state" r.query) issued env.now in
      (ground (arith, fresh), ground (arith, fresh))

  -- The statuses by which a completed callback answers with tokens.
  abbrev pub IsSuccess : Response → Type 0
  IsSuccess response = (response.status ≡ 200) ⊎ (response.status ≡ 302)

  -- A callback that answers 200 or 302 has completed the provider's flow, and hands out a token that
  -- was issued for the resolved user, with the role of that user; the store is the one after both
  -- steps, and the provider reported no error.
  pub success_sound :
      (env : Surroundings) (r : Request) (s : S)
      → IsSuccess (complete_callback h env r s).0
      → (goth : GothUser) × (u : User) × (tr : TokenResponse) × (resolved : S) × (query_get "error"
            r.query
          ≡ "")
        × (h.complete r ≡ ok goth)
        × (resolve_or_create_user h.resolver (goth_user_to_provider_user goth) s ≡ (ok u, resolved))
        × (issue_session_token h.issuer env.issued env.draw u.id u.role resolved
            ≡ (ok tr, (complete_callback h env r s).1))
        × ((complete_callback h env r s).0 ≡ hand_over h r tr)
  unfolding complete_callback write_problem
  success_sound env r s good = elim (Result-cases (h.complete r)) [
    | inr (e, failed) ↦ absurd (ground arith)
    | inl (goth, done) ↦
        let pu = goth_user_to_provider_user goth in
        let resolved = resolve_or_create_user h.resolver pu s in
        elim (Result-cases resolved.0) [
          | inr (e, failed) ↦ absurd (ground arith)
          | inl (u, found) ↦
              let issued =
                issue_session_token h.issuer env.issued env.draw u.id u.role resolved.1 in
              elim (Result-cases issued.0) [
                | inr (e, failed) ↦ absurd (ground arith)
                | inl (tr, made) ↦ (
                  goth,
                  u,
                  tr,
                  resolved.1,
                  ground (arith, eq_iff (query_get "error" r.query) ""),
                  done,
                  ground arith,
                  ground arith,
                  ground arith,
                )
              ]
        ]
  ]
