-- ===== src/Auth/StateStore/Promise.antt =====
-- What the state store promises, with no list: from each state that is known to the end of its time.
use postulate.Base.{
  ap, ◌∙◌, ℕ, ◌+◌, ◌≡◌, refl, String, Bool, false, Option, none, some, List, [], ◌∷◌, ltb, lookup,
  lookup-put, lookup-remove, ◌==◌, text_Eq, if◌then◌else◌, arith, eq_iff,
}
use postulate.Auth.StateStore.{
  StateStore, Call, generates, validates, generate, validate, state_ttl,
}

abbrev pub Promise : Type 0
Promise = String → Option ℕ

-- Nothing is known at first.
abbrev pub nothing : Promise
nothing k = none

-- A draw that succeeds makes a state known for the time to live.
abbrev pub promise_generate : Option String → ℕ → Promise → Option String × Promise
promise_generate none now p = (none, p)
promise_generate (some state) now p =
    (some state, λ k. if state == k then some (now + state_ttl) else p k)

-- A state passes if it is known and its time is not over, and is not known from then on.
abbrev pub promise_validate : String → ℕ → Promise → Bool × Promise
promise_validate state now p = (
  elim (p state) [ none ↦ false | some end ↦ ltb now end ],
  λ k. if state == k then none else p k,
)

-- What a caller gets to see.
pub data Answer : Type 0 where
  generated : Option String → Answer
  validated : Bool → Answer

abbrev pub view : StateStore → Promise
view s k = lookup k s.entries

unfoldable pub answers : StateStore → List (ℕ × Call) → List Answer
answers s [] = []
answers s ((now, generates draw) ∷ cs) =
    let (state, s') = generate draw now s in generated state ∷ answers s' cs
answers s ((now, validates state) ∷ cs) =
    let (good, s') = validate state now s in validated good ∷ answers s' cs

unfoldable pub promised : Promise → List (ℕ × Call) → List Answer
promised p [] = []
promised p ((now, generates draw) ∷ cs) =
    let (state, p') = promise_generate draw now p in generated state ∷ promised p' cs
promised p ((now, validates state) ∷ cs) =
    let (good, p') = promise_validate state now p in validated good ∷ promised p' cs

view-generate :
    (draw : Option String) (now : ℕ) (s : StateStore)
    → view (generate draw now s).1 ≡ (promise_generate draw now (view s)).1
unfolding generate
view-generate none now s = refl
view-generate (some state) now s = λ i k. lookup-put state k (now + state_ttl) s.entries i

view-validate_at :
    (state : String) (now : ℕ) (s : StateStore) (k : String)
    → view (validate state now s).1 k ≡ (promise_validate state now (view s)).1 k
unfolding validate
view-validate_at state now s k = ground (arith, lookup-remove state k s.entries, eq_iff state k)

passes-validate :
    (state : String) (now : ℕ) (s : StateStore)
    → (validate state now s).0 ≡ (promise_validate state now (view s)).0
unfolding validate
passes-validate state now s = ground arith

generated_same :
    (draw : Option String) (now : ℕ) (s : StateStore)
    → (generate draw now s).0 ≡ (promise_generate draw now (view s)).0
unfolding generate
generated_same none now s = refl
generated_same (some state) now s = refl

-- Whatever sequence of calls the store gets, from any state of it: the answers are those that the
-- promise gives, which knows of no list.
pub answers-promised : (cs : List (ℕ × Call)) (s : StateStore) → answers s cs ≡ promised (view s) cs
unfolding answers promised
answers-promised [] s = refl
answers-promised ((now, generates draw) ∷ cs) s =
    let s' = (generate draw now s).1 in
    let rest = answers-promised cs s' ∙ ap (λ p. promised p cs) (view-generate draw now s) in
    rw (generated_same draw now s, rest) refl
answers-promised ((now, validates state) ∷ cs) s =
    let s' = (validate state now s).1 in
    let later : view s' ≡ (promise_validate state now (view s)).1 =
      λ i k. view-validate_at state now s k i in
    let rest = answers-promised cs s' ∙ ap (λ p. promised p cs) later in
    rw (passes-validate state now s, rest) refl
