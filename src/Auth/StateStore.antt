-- ===== src/Auth/StateStore.antt =====
-- auth/state_store.go: the single-use OAuth states. The map is an association list; the mutex makes
-- each call one step, so a concurrent history is a sequence of calls.
pub mod SingleUse
pub mod Promise
pub mod Gone
use postulate.Base.{
  lookup, remove, put, ℕ, ◌+◌, ◌*◌, String, Bool, true, false, Option, none, some, List, [], ◌∷◌,
  ltb, ◌==◌, text_Eq, if◌then◌else◌,
}

abbrev pub second : ℕ
second = 1000000000

-- 5 * time.Minute
abbrev pub state_ttl : ℕ
state_ttl = 300 * second

pub record StateStore : Type 0 where
  pub entries : List (String × ℕ)

-- NewStateStore
abbrev pub new_state_store : StateStore
new_state_store = record { entries = [] }

-- Generate, with what crypto/rand gave (none if it failed) and the time of the call.
unfoldable pub generate : Option String → ℕ → StateStore → Option String × StateStore
generate none now s = (none, s)
generate (some state) now s =
    (some state, record s { entries = put state (now + state_ttl) s.entries })

-- Validate: a state that is there is deleted, and is good while `now` lies before its end.
unfoldable pub validate : String → ℕ → StateStore → Bool × StateStore
validate state now s = elim (lookup state s.entries) [
  | none ↦ (false, s)
  | some exp ↦ (ltb now exp, record s { entries = remove state s.entries })
]

-- The calls of one history, in the order in which they take the mutex.
pub data Call : Type 0 where
  generates : Option String → Call
  validates : String → Call

-- What a call accepts: the state that a validation let through.
pub accepted : StateStore → ℕ → Call → Option String
unfolding validate
accepted s now (generates r) = none
accepted s now (validates state) = if (validate state now s).0 then some state else none

pub step : StateStore → ℕ × Call → StateStore
unfolding validate generate
step s (now, generates r) = (generate r now s).1
step s (now, validates state) = (validate state now s).1

pub run : StateStore → List (ℕ × Call) → StateStore
run s [] = s
run s (c ∷ cs) = run (step s c) cs

-- How often a history accepts a state, and how often it generates it.
pub acceptances : String → StateStore → List (ℕ × Call) → ℕ
unfolding accepted step
acceptances k s [] = 0
acceptances k s ((now, c) ∷ cs) =
    let later = acceptances k (step s (now, c)) cs in
    elim (accepted s now c) [ none ↦ later | some j ↦ if j == k then later + 1 else later ]

pub generations : String → List (ℕ × Call) → ℕ
generations k [] = 0
generations k ((now, generates (some j)) ∷ cs) =
    let later = generations k cs in if j == k then later + 1 else later
generations k ((now, generates none) ∷ cs) = generations k cs
generations k ((now, validates j) ∷ cs) = generations k cs
