-- ===== src/CircuitBreaker/Trace.antt =====
-- circuit_breaker.rs: what holds of one circuit over any sequence of operations.
use pqc_gateway.Common.{◌↔◌, ℕ, ◌+◌, ◌^◌, ◌≤◌, ◌<◌, ◌≡◌, List, [], ◌∷◌, arith, length, map}
use native.Mathlib.Decide.{dec_le}
use pqc_gateway.CircuitBreaker.{
  closed, open_, CircuitBreakerConfig, UpstreamCircuit, new_circuit, fail_circuit,
}
use pqc_gateway.CircuitBreaker.Invariant.{Event, failure, step, Inv, new_circuit-Inv, step-Inv}

unfoldable pub run : UpstreamCircuit → List Event → UpstreamCircuit
run c [] = c
run c (e ∷ es) = run (step c e) es

pub run-Inv : (c : UpstreamCircuit) (es : List Event) → Inv c → Inv (run c es)
unfolding run
run-Inv c [] i = i
run-Inv c (e ∷ es) i = run-Inv (step c e) es (step-Inv c e i)

-- Whatever happens to a circuit that starts with a threshold of at least one, the invariant holds:
-- while it is closed it is below the threshold, and no counter leaves the range of its type.
pub run_new-Inv :
    (config : CircuitBreakerConfig) (es : List Event)
    → 0 < config.failure_threshold
    → config.failure_threshold < 2 ^ 32
    → Inv (run (new_circuit config) es)
run_new-Inv config es p q = run-Inv (new_circuit config) es (new_circuit-Inv config p q)

-- One failure of a closed circuit.
fail_closed :
    (c : UpstreamCircuit) (now : ℕ)
    → c.state ≡ closed
    → c.consecutive_failures + 1 < c.config.failure_threshold
    → c.config.failure_threshold < 2 ^ 32
    → let d = step c (failure now) in
      (d.state ≡ closed)
      × (d.consecutive_failures ≡ c.consecutive_failures + 1)
      × (d.config ≡ c.config)
unfolding step fail_circuit
fail_closed c now s h k = ground arith

fail_trips :
    (c : UpstreamCircuit) (now : ℕ)
    → c.state ≡ closed
    → c.config.failure_threshold ≤ c.consecutive_failures + 1
    → c.consecutive_failures + 1 < 2 ^ 32
    → (step c (failure now)).state ≡ open_
unfolding step fail_circuit
fail_trips c now s h k = ground arith

fail_open : (c : UpstreamCircuit) (now : ℕ) → c.state ≡ open_ → (step c (failure now)).state ≡ open_
unfolding step fail_circuit
fail_open c now s = ground arith

run_failures_open :
    (c : UpstreamCircuit) (ts : List ℕ) → c.state ≡ open_ → (run c (map failure ts)).state ≡ open_
unfolding run
run_failures_open c [] s = s
run_failures_open c (t ∷ ts) s = run_failures_open (step c (failure t)) ts (fail_open c t s)

run_failures_below :
    (c : UpstreamCircuit) (ts : List ℕ)
    → c.state ≡ closed
    → c.consecutive_failures + length ts < c.config.failure_threshold
    → c.config.failure_threshold < 2 ^ 32
    → ((run c (map failure ts)).state ≡ closed)
      × ((run c (map failure ts)).consecutive_failures ≡ c.consecutive_failures + length ts)
unfolding run
run_failures_below c [] s h k = (s, omega arith)
run_failures_below c (t ∷ ts) s h k =
    let (s', f', g') = fail_closed c t s (omega arith) k in
    let (s'', f'') =
      run_failures_below (step c (failure t)) ts s' (rw (f', g') (omega arith)) (rw g' k) in
    (s'', omega arith)

run_failures_at :
    (c : UpstreamCircuit) (ts : List ℕ)
    → Inv c
    → c.state ≡ closed
    → c.config.failure_threshold ≤ c.consecutive_failures + length ts
    → (run c (map failure ts)).state ≡ open_
unfolding run
run_failures_at c [] i s h = absurd (omega (arith, i.closed_below s))
run_failures_at c (t ∷ ts) i s h =
    elim (dec_le c.config.failure_threshold (c.consecutive_failures + 1)) [
      | yes p ↦
          run_failures_open (step c (failure t)) ts
            (fail_trips c t s p (omega (arith, i.threshold_u32, i.closed_below s)))
      | no p ↦
          let (s', f', g') = fail_closed c t s (omega arith) i.threshold_u32 in
          run_failures_at (step c (failure t)) ts (step-Inv c (failure t) i) s'
            (rw (f', g') (omega arith))
    ]

-- From a closed circuit, a run of failures with no success between them opens it exactly when the
-- count that it has, with the failures of the run, reaches the threshold.
pub failures_open_at_threshold :
    (c : UpstreamCircuit) (ts : List ℕ)
    → Inv c
    → c.state ≡ closed
    → ((run c (map failure ts)).state ≡ open_)
      ↔ (c.config.failure_threshold ≤ c.consecutive_failures + length ts)
failures_open_at_threshold c ts i s = (
  (λ o. elim (dec_le c.config.failure_threshold (c.consecutive_failures + length ts)) [
    | yes p ↦ p
    | no p ↦ let (k, _) = run_failures_below c ts s (omega arith) i.threshold_u32 in cc
  ]),
  run_failures_at c ts i s,
)
