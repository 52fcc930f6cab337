-- ===== src/Auth/StateStore/Gone.antt =====
-- States that the store does not know, and what its calls do to them.
use postulate.Base.{
  ℕ, ◌+◌, ◌≡◌, ◌≢◌, String, false, Option, none, some, lookup, lookup-remove, lookup-put, ap,
  text_Eq, arith, eq_iff,
}
use postulate.Auth.StateStore.{StateStore, state_ttl, generate, validate}

-- No entry has this state.
abbrev pub IsGone : String → StateStore → Type 0
IsGone k states = lookup k states.entries ≡ none

pub validate-IsGone_self :
    (k : String) (now : ℕ) (states : StateStore) → IsGone k (validate k now states).1
unfolding validate lookup
validate-IsGone_self k now states = ground (arith, lookup-remove k k states.entries, eq_iff k k)

pub validate-IsGone :
    (k j : String) (now : ℕ) (states : StateStore)
    → IsGone k states
    → IsGone k (validate j now states).1
unfolding validate
validate-IsGone k j now states gone = ground (arith, lookup-remove j k states.entries, gone)

pub generate-IsGone :
    (k : String) (drawn : Option String) (now : ℕ) (states : StateStore)
    → drawn ≢ some k
    → IsGone k states
    → IsGone k (generate drawn now states).1
unfolding generate
generate-IsGone k none now states other gone = gone
generate-IsGone k (some j) now states other gone =
    let differs : j ≢ k = λ e. other (ap some e) in
    ground (arith, lookup-put j k (now + state_ttl) states.entries, gone, eq_iff j k, differs)

-- A state that is not there is not accepted.
pub gone_refused :
    (k : String) (now : ℕ) (states : StateStore)
    → IsGone k states
    → (validate k now states).0 ≡ false
unfolding validate
gone_refused k now states gone = ground (arith, gone)
