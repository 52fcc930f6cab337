-- ===== src/Base/Result.antt =====
-- The results of Go calls: errors as values, pairs of a value and an error, and a state passed on.
use Prim.Native.String.{String}
use mathlib.Core.Bool.{Bool, true, false}
use mathlib.Core.Option.{Option}
use mathlib.Core.Path.{◌≡◌, refl}
use mathlib.Core.Logic.{◌⊎◌, inl, inr}
use native.Mathlib.Omega.{arith}

-- `not_found` and `conflict` are the sentinels of the domain package, `driver` an error that
-- comes from the database driver, `message` one made by `fmt.Errorf` with no `%w`, and `wrap`
-- one made with `%w`. `panic` stands for a nil pointer that is dereferenced.
pub data Error : Type 0 where
  not_found conflict panic : Error
  driver : String → Error
  message : String → Error
  wrap : String → Error → Error

-- `errors.Is(err, domain.ErrNotFound)`, through every wrapping.
abbrev pub is_not_found : Error → Bool
is_not_found not_found = true
is_not_found (wrap context e) = is_not_found e
is_not_found _ = false

-- Go's pair of a value and an error: neither determines the other.
pub record Reply (A : Type 0) : Type 0 where
  pub value : A
  pub error : Option Error

pub data Result (A : Type 0) : Type 0 where
  ok : A → Result A
  err : Error → Result A

-- A call that may fail and that changes a state. What it did before it failed stays done.
abbrev pub M : Type 0 → Type 0 → Type 0
M S A = S → Result A × S

abbrev pub pure : {S A : Type 0} → A → M S A
pure a s = (ok a, s)

abbrev pub fail : {S A : Type 0} → Error → M S A
fail e s = (err e, s)

abbrev pub and_then : {S A B : Type 0} → Result A × S → (A → M S B) → Result B × S
and_then (ok a, s) f = f a s
and_then (err e, s) f = (err e, s)

infixl 5 ◌>>=◌ ◌>>◌
abbrev pub ◌>>=◌ : {S A B : Type 0} → M S A → (A → M S B) → M S B
◌>>=◌ m f s = and_then (m s) f

abbrev pub ◌>>◌ : {S B : Type 0} → M S (Unit {0}) → M S B → M S B
m >> k = m >>= λ _. k

-- `if err := …; err != nil { return fmt.Errorf("…: %w", err) }`
abbrev pub wrapped : {A : Type 0} → String → Result A → Result A
wrapped context (ok a) = ok a
wrapped context (err e) = err (wrap context e)

abbrev pub with_context : {S A : Type 0} → String → M S A → M S A
with_context context m s = let (r, s') = m s in (wrapped context r, s')

abbrev pub is_ok : {A : Type 0} → Result A → Bool
is_ok (ok a) = true
is_ok (err e) = false

-- Inversion of a run that succeeds, for proofs where the parts stay shut.
pub and_then-eq-ok :
    {S A B : Type 0} (r : Result A × S) (f : A → M S B) {b : B} {s' : S}
    → and_then r f ≡ (ok b, s')
    → (a : A) × (s : S) × (r ≡ (ok a, s)) × (f a s ≡ (ok b, s'))
and_then-eq-ok (ok a, s) f h = (a, s, refl, h)
and_then-eq-ok (err e, s) f h = cc

pub wrapped-eq-ok :
    {A : Type 0} (context : String) (r : Result A) {a : A} → wrapped context r ≡ ok a → r ≡ ok a
wrapped-eq-ok context (ok a) h = h
wrapped-eq-ok context (err e) h = cc

pub with_context-eq-ok :
    {S A : Type 0} (context : String) (m : M S A) (s : S) {a : A} {s' : S}
    → with_context context m s ≡ (ok a, s')
    → m s ≡ (ok a, s')
with_context-eq-ok context m s h = ground (arith, wrapped-eq-ok context (m s).0)

pub Result-cases :
    {A : Type 0} (r : Result A) → ((a : A) × (r ≡ ok a)) ⊎ ((e : Error) × (r ≡ err e))
Result-cases (ok a) = inl (a, refl)
Result-cases (err e) = inr (e, refl)
