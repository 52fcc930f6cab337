-- ===== src/Handler/Token/Effects.antt =====
-- The ways in which a refresh can end, as an induction principle, and what it can do to the store.
use postulate.Base.{ℕ, String, Option, none, some, ◌==◌, text_Eq, ◌≡◌, refl}
use postulate.Base.Result.{Error, Result, ok, err}
use postulate.Base.Keeps.{Keeps, Keeps-end, if_both}
use postulate.Auth.Issuer.{TokenIssuer, TokenResponse, refresh_session}
use postulate.Http.{Request, Response, Problem, write_problem}
use postulate.Handler.OAuth.{tokens_json}
use postulate.Handler.Token.{refused_token, after_refresh, refresh}

module _ {S : Type 0} (ti : TokenIssuer S) (now issued : ℕ) (draw : Result String) where
  module _ (Q : Response × S → Type 0) (r : Request) (s : S)
      (refused : (p : Problem) → Q (write_problem r p, s))
      (failed : (raw : String) (e : Error) (s' : S)
        → refresh_session ti now issued draw raw s ≡ (err e, s')
        → Q (refused_token r, s'))
      (renewed : (raw : String) (tr : TokenResponse) (s' : S)
        → refresh_session ti now issued draw raw s ≡ (ok tr, s')
        → Q (tokens_json tr, s')) where
    from_session :
        (raw : String) (x : Result TokenResponse × S)
        → refresh_session ti now issued draw raw s ≡ x
        → Q (after_refresh ti r x)
    from_session raw (err e, s') asked = failed raw e s' asked
    from_session raw (ok tr, s') asked = renewed raw tr s' asked

    from_body : (body : Option String) → r.refresh_body ≡ body → Q (refresh ti now issued draw r s)
    unfolding refresh
    from_body none read = rw (read, refresh) (refused _)
    from_body (some raw) read =
        rw (read, refresh) (if_both Q (raw == "") (refused _) (from_session raw _ refl))

    pub refresh_induction : Q (refresh ti now issued draw r s)
    refresh_induction = from_body _ refl

  pub refresh_handler-keeps :
      (P : S → Type 0) (r : Request) (s : S)
      → ((raw : String) → Keeps P (refresh_session ti now issued draw raw))
      → P s
      → P (refresh ti now issued draw r s).1
  refresh_handler-keeps P r s keeps held =
      refresh_induction (λ x. P x.1) r s (λ p. held)
        (λ raw e s' asked. Keeps-end (keeps raw) held asked)
        (λ raw tr s' asked. Keeps-end (keeps raw) held asked)
