-- ===== src/Cli/Callback/Delivery.antt =====
-- What is delivered, whatever order the events come in.
use postulate.Base.{
  ℕ, ◌≡◌, ◌≢◌, inl, inr, refl, String, true, false, none, some, List, [], ◌∷◌, ◌++◌, arith,
  Option-cases,
}
use postulate.Cli.Callback.{
  CallbackResult, Server, start, new_server, offer, take, timeout_result, result_of, Event,
  callback_comes, context_ends, shutdown_ends, timeout_is_sent, result_is_taken, step, run,
  first_result,
}

-- A callback of the list whose result this is, or the send after the end of the context.
pub data CameFrom (r : CallbackResult) : List Event → Type 0 where
  by_callback :
      (q : List (String × String)) {es : List Event}
      → r ≡ result_of q
      → CameFrom r (callback_comes q ∷ es)
  by_timeout : {es : List Event} → r ≡ timeout_result → CameFrom r (timeout_is_sent ∷ es)
  later : (e : Event) {es : List Event} → CameFrom r es → CameFrom r (e ∷ es)

run-append : (es fs : List Event) (s : Server) → run (es ++ fs) s ≡ run fs (run es s)
unfolding run
run-append [] fs s = refl
run-append (e ∷ es) fs s = run-append es fs (step e s)

step-result :
    (e : Event) (s : Server) (r : CallbackResult)
    → first_result s ≡ some r
    → first_result (step e s) ≡ some r
unfolding step offer take
step-result e s r h = ground arith

run-result :
    (es : List Event) (s : Server) (r : CallbackResult)
    → first_result s ≡ some r
    → first_result (run es s) ≡ some r
unfolding run
run-result [] s r h = h
run-result (e ∷ es) s r h = run-result es (step e s) r (step-result e s r h)

step-CameFrom :
    (e : Event) (s : Server) (r : CallbackResult) (es : List Event)
    → first_result s ≡ none
    → first_result (step e s) ≡ some r
    → CameFrom r (e ∷ es)
unfolding step offer take
step-CameFrom (callback_comes q) s r es n h = by_callback q (ground arith)
step-CameFrom context_ends s r es n h = absurd (ground arith)
step-CameFrom shutdown_ends s r es n h = absurd (ground arith)
step-CameFrom timeout_is_sent s r es n h = by_timeout (ground arith)
step-CameFrom result_is_taken s r es n h = absurd (ground arith)

run-CameFrom :
    (es : List Event) (s : Server) (r : CallbackResult)
    → first_result s ≡ none
    → first_result (run es s) ≡ some r
    → CameFrom r es
unfolding run
run-CameFrom [] s r n h = absurd (ground arith)
run-CameFrom (e ∷ es) s r n h = elim (Option-cases (first_result (step e s))) [
  | inl still ↦ later e (run-CameFrom es (step e s) r still h)
  | inr (first, got) ↦
      let kept = run-result es (step e s) first got in step-CameFrom e s r es n (ground arith)
]

-- Whatever comes in, in whatever order: the first result that the caller gets is that of a callback
-- that came or the time-out's, and nothing that comes later takes its place.
pub delivered_once :
    (port : ℕ) (es more : List Event) (r : CallbackResult)
    → first_result (run es (start (new_server port))) ≡ some r
    → CameFrom r es × (first_result (run (es ++ more) (start (new_server port))) ≡ some r)
delivered_once port es more r h = (
  run-CameFrom es (start (new_server port)) r refl h,
  rw run-append (run-result more (run es (start (new_server port))) r h),
)

-- What the end of the context brings about, and later events keep.
record IsEnding (s : Server) : Type 0 where
  pub ended : s.ended ≡ true
  pub stopping : s.stopping ≡ true

step-IsEnding : (e : Event) (s : Server) → IsEnding s → IsEnding (step e s)
unfolding step offer take
step-IsEnding e s h = ground arith

run-IsEnding : (es : List Event) (s : Server) → IsEnding s → IsEnding (run es s)
unfolding run
run-IsEnding [] s h = h
run-IsEnding (e ∷ es) s h = run-IsEnding es (step e s) (step-IsEnding e s h)

step-closed : (e : Event) (s : Server) → s.serving ≡ false → (step e s).serving ≡ false
unfolding step offer take
step-closed e s h = ground arith

run-closed : (es : List Event) (s : Server) → s.serving ≡ false → (run es s).serving ≡ false
unfolding run
run-closed [] s h = h
run-closed (e ∷ es) s h = run-closed es (step e s) (step-closed e s h)

sent-result :
    (s : Server) → IsEnding s → s.serving ≡ false → first_result (step timeout_is_sent s) ≢ none
unfolding step offer take
sent-result s h c = ground arith

shutdown-closed : (s : Server) → IsEnding s → (step shutdown_ends s).serving ≡ false
unfolding step
shutdown-closed s h = ground arith

context-IsEnding : (s : Server) → IsEnding (step context_ends s)
unfolding step
context-IsEnding s = ground arith

full-result :
    (es : List Event) (s : Server) → first_result s ≢ none → first_result (run es s) ≢ none
full-result es s full = elim (Option-cases (first_result s)) [
  | inl empty ↦ absurd (full empty)
  | inr (r, got) ↦ let kept = run-result es s r got in ground arith
]

-- The caller is never left waiting: once the context has ended, the Shutdown is done and its
-- goroutine has sent, the caller has a result to receive or has received one, whatever else comes
-- before, between and after.
pub always_answers :
    (port : ℕ) (before between next after : List Event)
    → first_result (
        run
          (before ++ context_ends ∷ between ++ shutdown_ends ∷ next ++ timeout_is_sent ∷ after)
          (start (new_server port)))
      ≢ none
unfolding run
always_answers port before between next after =
    let s₀ = run before (start (new_server port)) in
    let s₁ = run between (step context_ends s₀) in
    let s₂ = run next (step shutdown_ends s₁) in
    let ending₁ = run-IsEnding between (step context_ends s₀) (context-IsEnding s₀) in
    let ending₂ =
      run-IsEnding next (step shutdown_ends s₁) (step-IsEnding shutdown_ends s₁ ending₁) in
    let closed = run-closed next (step shutdown_ends s₁) (shutdown-closed s₁ ending₁) in
    rw (run-append, run-append, run-append)
      (full-result after (step timeout_is_sent s₂) (sent-result s₂ ending₂ closed))
