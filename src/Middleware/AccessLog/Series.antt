-- ===== src/Middleware/AccessLog/Series.antt =====
-- The counter of active requests under any traffic, with requests that overlap in any way.
use postulate.Base.{
  ap, ◌∙◌, Bool-cases, find-passes, ℕ, ◌+◌, ◌≤◌, ◌≡◌, refl, String, Bool, none, some, List, [], ◌∷◌,
  length, find, count, arith, nat_eq_iff, Option-cases, inl, inr, nat_Eq, text_Eq,
}
use postulate.Base.Counts.{count-find, find-count, count-delete-le, length-delete}
use postulate.Telemetry.Metrics.{
  Attributes, new_metrics, record_request, inc_active, ups, downs, all_ups, all_downs,
}
use postulate.Middleware.AccessLog.{
  InFlight, Observed, Traffic, comes, ends, enter, leave, has_number, is_excluded, observe,
  observe_all, in_flight_of, excluded_paths,
}
use postulate.Middleware.ResponseWriter.{WriterCall}

-- Nothing observed yet.
abbrev pub unobserved : Observed
unobserved = record { metrics = new_metrics; in_flight = []; log = [] }

-- The series of a route that has no status, and that with a status.
abbrev pub no_status : String → String → Attributes
no_status method route = record { method = method; route = route; status_code = none }

abbrev pub with_status : String → String → ℕ → Attributes
with_status method route status = record {
  method = method;
  route = route;
  status_code = some status;
}

record IsBalanced (o : Observed) : Type 0 where
  numbers : (n : ℕ) → count (has_number n) o.in_flight ≤ 1
  balance : all_ups o.metrics ≡ all_downs o.metrics + length o.in_flight
  falls : (method route : String) → downs (no_status method route) o.metrics ≡ 0
  rises : (method route : String) (status : ℕ) → ups (with_status method route status) o.metrics ≡ 0

enter-IsBalanced :
    (f : InFlight) (o : Observed)
    → find (has_number f.number) o.in_flight ≡ none
    → IsBalanced o
    → IsBalanced (enter f o)
unfolding enter inc_active count
enter-IsBalanced f o fresh h = record {
  numbers = λ n. ground (
    arith,
    h.numbers n,
    count-find (has_number f.number) o.in_flight fresh,
    nat_eq_iff f.number n,
  );
  balance = ground (arith, h.balance);
  falls = λ method route. ground (arith, h.falls method route);
  rises = λ method route status. ground (arith, h.rises method route status);
}

leave-IsBalanced :
    (f : InFlight) (calls : List WriterCall) (duration : ℕ) (o : Observed)
    → find (has_number f.number) o.in_flight ≡ some f
    → IsBalanced o
    → IsBalanced (leave f calls duration o)
unfolding leave record_request count
leave-IsBalanced f calls duration o there h = record {
  numbers = λ n.
      omega (arith, h.numbers n, count-delete-le (has_number n) (has_number f.number) o.in_flight);
  balance = ground (
    arith,
    h.balance,
    h.numbers f.number,
    find-count (has_number f.number) o.in_flight,
    length-delete (has_number f.number) o.in_flight,
  );
  falls = λ method route. ground (arith, h.falls method route);
  rises = λ method route status. ground (arith, h.rises method route status);
}

module _ (equal_fold : String → String → Bool) (given : List String) where
  observe-IsBalanced :
      (t : Traffic) (o : Observed) → IsBalanced o → IsBalanced (observe equal_fold given t o)
  unfolding observe
  observe-IsBalanced (comes n r pattern) o h =
      let f = in_flight_of equal_fold given n r pattern in
      elim (Bool-cases (is_excluded equal_fold (excluded_paths given) r.path)) [
        | inl passed ↦ rw (passed, observe) h
        | inr counted ↦ elim (Option-cases (find (has_number n) o.in_flight)) [
          | inr (busy, used) ↦ rw (counted, used, observe) h
          | inl fresh ↦ rw (counted, fresh, observe) (enter-IsBalanced f o fresh h)
        ]
      ]
  observe-IsBalanced (ends n calls duration) o h =
      elim (Option-cases (find (has_number n) o.in_flight)) [
        | inl missing ↦ rw (missing, observe) h
        | inr (f, there) ↦
            let number : f.number ≡ n =
              (nat_eq_iff f.number n).0 (find-passes (has_number n) o.in_flight there) in
            let same : find (has_number f.number) o.in_flight ≡ some f =
              ap (λ m. find (has_number m) o.in_flight) number ∙ there in
            rw (there, observe) (leave-IsBalanced f calls duration o same h)
      ]

  observe_all-IsBalanced :
      (ts : List Traffic) (o : Observed)
      → IsBalanced o
      → IsBalanced (observe_all equal_fold given ts o)
  unfolding observe_all
  observe_all-IsBalanced [] o h = h
  observe_all-IsBalanced (t ∷ ts) o h =
      observe_all-IsBalanced ts (observe equal_fold given t o) (observe-IsBalanced t o h)

  unobserved-IsBalanced : IsBalanced unobserved
  unfolding count
  unobserved-IsBalanced = record {
    numbers = λ n. omega arith;
    balance = refl;
    falls = λ method route. refl;
    rises = λ method route status. refl;
  }

  -- Whatever requests come and end, overlapping in any way, the counter of active requests goes up
  -- as often as it goes down and requests are in flight, all its series together. But the series
  -- that goes up for a route is the one with no status, which never goes down, and those that go
  -- down are the ones with a status, which never go up.
  pub series_apart :
      (ts : List Traffic) (method route : String) (status : ℕ)
      → let o = observe_all equal_fold given ts unobserved in
        (all_ups o.metrics ≡ all_downs o.metrics + length o.in_flight)
        × (downs (no_status method route) o.metrics ≡ 0)
        × (ups (with_status method route status) o.metrics ≡ 0)
  series_apart ts method route status =
      let h = observe_all-IsBalanced ts unobserved unobserved-IsBalanced in
      (h.balance, h.falls method route, h.rises method route status)
