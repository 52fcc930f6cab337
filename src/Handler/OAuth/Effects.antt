-- ===== src/Handler/OAuth/Effects.antt =====
-- The ways in which a callback can end, as an induction principle, and what it can do to the store.
use postulate.Base.{not, ◌==◌, text_Eq, ◌≡◌, refl}
use postulate.Base.Result.{Error, Result, ok, err}
use postulate.Base.Keeps.{Keeps, Keeps-end, if_both}
use postulate.Domain.{User}
use postulate.Auth.StateStore.{validate}
use postulate.Auth.ProviderUser.{GothUser, ProviderUser, goth_user_to_provider_user}
use postulate.Auth.Resolver.{resolve_or_create_user}
use postulate.Auth.Issuer.{TokenResponse, issue_session_token}
use postulate.Http.{Request, Response, Problem, query_get, write_problem}
use postulate.Handler.OAuth.{
  OAuthHandler, Shared, Surroundings, internal_error, hand_over, after_issue, after_resolve,
  sign_in, complete_callback, callback,
}

module _ {S : Type 0} (h : OAuthHandler S) (Q : Response × S → Type 0) (env : Surroundings)
    (r : Request) where
  -- The endings: a refusal before the store is touched, an error of the resolver or of the issuer, and
  -- tokens.
  pub record Endings (s : S) : Type 0 where
    pub refused : (p : Problem) → Q (write_problem r p, s)
    pub unresolved :
        (pu : ProviderUser) (e : Error) (s' : S)
        → resolve_or_create_user h.resolver pu s ≡ (err e, s')
        → Q (internal_error r, s')
    pub unissued :
        (pu : ProviderUser) (u : User) (s' : S) (e : Error) (s'' : S)
        → resolve_or_create_user h.resolver pu s ≡ (ok u, s')
        → issue_session_token h.issuer env.issued env.draw u.id u.role s' ≡ (err e, s'')
        → Q (internal_error r, s'')
    pub issued :
        (pu : ProviderUser) (u : User) (s' : S) (tr : TokenResponse) (s'' : S)
        → resolve_or_create_user h.resolver pu s ≡ (ok u, s')
        → issue_session_token h.issuer env.issued env.draw u.id u.role s' ≡ (ok tr, s'')
        → Q (hand_over h r tr, s'')

  module _ {s : S} (k : Endings s) where
    from_issue :
        (pu : ProviderUser) (u : User) (s' : S) (x : Result TokenResponse × S)
        → resolve_or_create_user h.resolver pu s ≡ (ok u, s')
        → issue_session_token h.issuer env.issued env.draw u.id u.role s' ≡ x
        → Q (after_issue h r x)
    from_issue pu u s' (err e, s'') found made = k.unissued pu u s' e s'' found made
    from_issue pu u s' (ok tr, s'') found made = k.issued pu u s' tr s'' found made

    from_resolve :
        (pu : ProviderUser) (x : Result User × S)
        → resolve_or_create_user h.resolver pu s ≡ x
        → Q (after_resolve h env r x)
    from_resolve pu (err e, s') found = k.unresolved pu e s' found
    from_resolve pu (ok u, s') found = from_issue pu u s' _ found refl

    from_goth : (x : Result GothUser) → Q (sign_in h env r x s)
    from_goth (err e) = k.refused _
    from_goth (ok goth) =
        let pu = goth_user_to_provider_user goth in
        if_both Q (pu.email == "") (k.refused _) (from_resolve pu _ refl)

    pub complete_induction : Q (complete_callback h env r s)
    unfolding complete_callback
    complete_induction =
        if_both Q (not (query_get "error" r.query == "")) (k.refused _) (from_goth (h.complete r))

module _ {S : Type 0} (h : OAuthHandler S) (Q : Response × Shared S → Type 0) (env : Surroundings)
    (r : Request) (shared : Shared S) where
  -- A callback is refused, or goes on with the state gone.
  pub callback_induction :
      ((p : Problem)
        → Q (
          write_problem r p,
          record shared { states = (validate (query_get "state" r.query) env.now shared.states).1 },
        ))
      → Q (
        (complete_callback h env r shared.store).0,
        record {
          states = (validate (query_get "state" r.query) env.now shared.states).1;
          store = (complete_callback h env r shared.store).1;
        },
      )
      → Q (callback h env r shared)
  unfolding callback
  callback_induction refused completes =
      if_both Q (not (validate (query_get "state" r.query) env.now shared.states).0) (refused _)
        completes

module _ {S : Type 0} (h : OAuthHandler S) (P : S → Type 0)
    (resolves : (pu : ProviderUser) → Keeps P (resolve_or_create_user h.resolver pu))
    (issues : (env : Surroundings) (u : User)
      → Keeps P (issue_session_token h.issuer env.issued env.draw u.id u.role)) where
  pub callback-keeps :
      (env : Surroundings) (r : Request) (shared : Shared S)
      → P shared.store
      → P (callback h env r shared).1.store
  callback-keeps env r shared held =
      callback_induction h (λ x. P x.1.store) env r shared (λ p. held)
        (complete_induction h (λ x. P x.1) env r
          (record {
            refused = λ p. held;
            unresolved = λ pu e s' found. Keeps-end (resolves pu) held found;
            unissued = λ pu u s' e s'' found made.
                Keeps-end (issues env u) (Keeps-end (resolves pu) held found) made;
            issued = λ pu u s' tr s'' found made.
                Keeps-end (issues env u) (Keeps-end (resolves pu) held found) made;
          }))
