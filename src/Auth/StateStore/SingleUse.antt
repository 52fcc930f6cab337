-- ===== src/Auth/StateStore/SingleUse.antt =====
-- What the state store guarantees against replayed and stale OAuth states.
use postulate.Base.{
  lookup, lookup-remove, lookup-put, ℕ, ◌+◌, ◌≤◌, ◌≡◌, ◌≢◌, String, false, Option, none, some, List,
  [], ◌∷◌, ltb, ◌==◌, text_Eq, if◌then◌else◌, arith, eq_iff, eq_refl,
}
use postulate.Auth.StateStore.{
  StateStore, new_state_store, state_ttl, generate, validate, Call, generates, validates, accepted,
  step, acceptances, generations,
}

-- A validation, whatever it answers, leaves the state unknown: a second one fails, at any time.
pub validate_once :
    (s : StateStore) (state : String) (now later : ℕ)
    → (validate state later (validate state now s).1).0 ≡ false
unfolding validate
validate_once s state now later = ground (arith, lookup-remove state state s.entries, eq_refl state)

-- A state that was generated last is accepted exactly when that was less than five minutes before.
pub validate-generate :
    (s : StateStore) (state : String) (issued now : ℕ)
    → (validate state now (generate (some state) issued s).1).0 ≡ ltb now (issued + state_ttl)
unfolding validate generate
validate-generate s state issued now =
    ground (arith, lookup-put state state (issued + state_ttl) s.entries, eq_refl state)

-- Generating and validating one state does not touch another.
pub validate_other :
    (s : StateStore) (state other : String) (now later : ℕ)
    → state ≢ other
    → ((validate other later (generate (some state) now s).1).0 ≡ (validate other later s).0)
      × ((validate other later (validate state now s).1).0 ≡ (validate other later s).0)
unfolding validate generate
validate_other s state other now later h = (
  ground (arith, lookup-put state other (now + state_ttl) s.entries, eq_iff state other),
  ground (arith, lookup-remove state other s.entries, eq_iff state other),
)

-- One unit for a state that is known, and none for one that is not.
abbrev known : String → StateStore → ℕ
known k s = elim (lookup k s.entries) [ none ↦ 0 | some exp ↦ 1 ]

-- What one call adds to the acceptances, against what it adds to the generations.
abbrev hit : String → Option String → ℕ
hit k none = 0
hit k (some j) = if j == k then 1 else 0

abbrev drawn : Call → Option String
drawn (generates r) = r
drawn (validates j) = none

step-known :
    (k : String) (s : StateStore) (now : ℕ) (c : Call)
    → hit k (accepted s now c) + known k (step s (now, c)) ≤ hit k (drawn c) + known k s
unfolding accepted step lookup
step-known k s now (generates none) = ground arith
step-known k s now (generates (some j)) = ground (arith, lookup-put j k (now + state_ttl) s.entries)
step-known k s now (validates j) = ground (arith, lookup-remove j k s.entries, eq_iff j k)

acceptances-cons :
    (k : String) (s : StateStore) (now : ℕ) (c : Call) (cs : List (ℕ × Call))
    → acceptances k s ((now, c) ∷ cs)
      ≡ hit k (accepted s now c) + acceptances k (step s (now, c)) cs
unfolding acceptances
acceptances-cons k s now c cs = ground arith

generations-cons :
    (k : String) (now : ℕ) (c : Call) (cs : List (ℕ × Call))
    → generations k ((now, c) ∷ cs) ≡ hit k (drawn c) + generations k cs
unfolding generations
generations-cons k now (generates none) cs = omega arith
generations-cons k now (generates (some j)) cs = ground arith
generations-cons k now (validates j) cs = omega arith

acceptances-known :
    (k : String) (s : StateStore) (cs : List (ℕ × Call))
    → acceptances k s cs ≤ generations k cs + known k s
unfolding acceptances
acceptances-known k s [] = omega arith
acceptances-known k s ((now, c) ∷ cs) = omega (
  arith,
  acceptances-cons k s now c cs,
  generations-cons k now c cs,
  step-known k s now c,
  acceptances-known k (step s (now, c)) cs,
)

-- Over any history of an API server's store, in whatever order its calls come, a state is accepted
-- at most as often as it was generated. So one that was drawn once is accepted once at most, and one
-- that was never issued is not accepted.
pub acceptances-le-generations :
    (k : String) (cs : List (ℕ × Call)) → acceptances k new_state_store cs ≤ generations k cs
unfolding lookup
acceptances-le-generations k cs = omega (arith, acceptances-known k new_state_store cs)
