-- ===== src/Base/Keeps.antt =====
-- Operations that keep a predicate of the state, whether they succeed or fail: one rule for each way
-- to build an operation.
use postulate.Base.{String, Bool, true, false, ◌≡◌, refl, if◌then◌else◌}
use mathlib.Core.Path.{subst}
use postulate.Base.Result.{
  Error, Result, M, ok, err, pure, fail, ◌>>=◌, and_then, and_then-eq-ok, with_context,
}

-- From every state with `P`, the operation leads to one.
pub record Keeps {S A : Type 0} (P : S → Type 0) (op : M S A) : Type 0 where
  pub leads : (before : S) → P before → P (op before).1

module _ {S A : Type 0} {P : S → Type 0} where
  -- Operations that leave the state as it is.
  pub Keeps-fail : (e : Error) → Keeps P (fail {A = A} e)
  Keeps-fail e = record { leads = λ before held. held }

  pub Keeps-pure : (value : A) → Keeps P (pure value)
  Keeps-pure value = record { leads = λ before held. held }

  pub Keeps-with_context :
      (context : String) (op : M S A) → Keeps P op → Keeps P (with_context context op)
  Keeps-with_context context op k = record { leads = k.leads }

  -- Each branch may use how the test came out.
  pub Keeps-either :
      (test : Bool) {yes no : M S A}
      → (test ≡ false → Keeps P no)
      → (test ≡ true → Keeps P yes)
      → Keeps P (if test then yes else no)
  Keeps-either false otherwise chosen = otherwise refl
  Keeps-either true otherwise chosen = chosen refl

module _ {S A B : Type 0} {P : S → Type 0} where
  goes_on :
      (outcome : Result A) (between : S) (next : A → M S B)
      → P between
      → ((a : A) → outcome ≡ ok a → Keeps P (next a))
      → P (and_then (outcome, between) next).1
  goes_on (err e) between next held k = held
  goes_on (ok a) between next held k = (k a refl).leads between held

  -- The next operation may use what the last one gave.
  pub Keeps-bind_given :
      (op : M S A) (next : A → M S B)
      → Keeps P op
      → ((a : A) (before : S) → (op before).0 ≡ ok a → Keeps P (next a))
      → Keeps P (op >>= next)
  Keeps-bind_given op next first later = record {
    leads = λ before held.
        goes_on (op before).0 (op before).1 next (first.leads before held) (λ a. later a before);
  }

  pub Keeps-bind :
      (op : M S A) (next : A → M S B)
      → Keeps P op
      → ((a : A) → Keeps P (next a))
      → Keeps P (op >>= next)
  Keeps-bind op next first later = Keeps-bind_given op next first (λ a before given. later a)

pub ruleset keeps_rules = (Keeps-bind, Keeps-with_context, Keeps-fail, Keeps-pure)

-- A predicate of both branches holds of the conditional.
pub if_both {ℓ} :
    {A : Type 0} (Q : A → Type ℓ) (b : Bool) {x y : A} → Q x → Q y → Q (if b then x else y)
if_both Q true hx hy = hx
if_both Q false hx hy = hy

-- What holds in the state that a run is known to end in.
pub Keeps-end :
    {S A : Type 0} {P : S → Type 0} {m : M S A} {s : S} {r : Result A} {s' : S}
    → Keeps P m
    → P s
    → m s ≡ (r, s')
    → P s'
Keeps-end {P} k h e = subst (λ x. P x.1) e (k.leads _ h)

-- What a run that succeeds gives, and the state in which it ends.
pub record Yields {S A : Type 0} (R : A → S → Type 0) (m : M S A) : Type 0 where
  pub at : (s : S) (a : A) (s' : S) → m s ≡ (ok a, s') → R a s'

-- The last step decides.
pub Yields-bind :
    {S A B : Type 0} {R : B → S → Type 0} (m : M S A) (f : A → M S B)
    → ((a : A) → Yields R (f a))
    → Yields R (m >>= f)
Yields-bind m f k = record {
  at = λ s b s' e. let (a, t, _, last) = and_then-eq-ok (m s) f e in (k a).at t b s' last;
}
