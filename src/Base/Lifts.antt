-- ===== src/Base/Lifts.antt =====
-- Operations on one kind of state that do what others do on another: one rule for each way to build
-- an operation.
use postulate.Base.{String, Bool, true, false, ◌≡◌, refl, ap, ◌∙◌, if◌then◌else◌}
use postulate.Base.Result.{
  Error, Result, M, ok, err, pure, fail, ◌>>=◌, and_then, with_context, wrapped,
}

-- `m`, started on the image of a state, ends with the result of `n` and the image of its state.
pub record Lifts {S T A : Type 0} (f : S → T) (m : M T A) (n : M S A) : Type 0 where
  pub at : (s : S) → m (f s) ≡ ((n s).0, f (n s).1)

module _ {S T A : Type 0} {f : S → T} where
  pub Lifts-pure : (a : A) → Lifts f (pure a) (pure a)
  Lifts-pure a = record { at = λ s. refl }

  pub Lifts-fail : (e : Error) → Lifts {A = A} f (fail e) (fail e)
  Lifts-fail e = record { at = λ s. refl }

  pub Lifts-if :
      (b : Bool) {m m' : M T A} {n n' : M S A}
      → Lifts f m n
      → Lifts f m' n'
      → Lifts f (if b then m else m') (if b then n else n')
  Lifts-if true h h' = h
  Lifts-if false h h' = h'

  pub Lifts-with_context :
      (context : String) {m : M T A} {n : M S A}
      → Lifts f m n
      → Lifts f (with_context context m) (with_context context n)
  Lifts-with_context context h = record { at = λ s. ap (λ x. (wrapped context x.0, x.1)) (h.at s) }

module _ {S T A B : Type 0} {f : S → T} where
  and_then-Lifts :
      (r : Result A) (s : S) (k : A → M T B) (l : A → M S B)
      → ((a : A) → Lifts f (k a) (l a))
      → and_then (r, f s) k ≡ ((and_then (r, s) l).0, f (and_then (r, s) l).1)
  and_then-Lifts (ok a) s k l h = (h a).at s
  and_then-Lifts (err e) s k l h = refl

  pub Lifts-bind :
      {m : M T A} {n : M S A} {k : A → M T B} {l : A → M S B}
      → Lifts f m n
      → ((a : A) → Lifts f (k a) (l a))
      → Lifts f (m >>= k) (n >>= l)
  Lifts-bind {n} {k} {l} h hk = record {
    at = λ s. ap (λ x. and_then x k) (h.at s) ∙ and_then-Lifts (n s).0 (n s).1 k l hk;
  }
