-- ===== src/CircuitBreaker/Invariant.antt =====
-- circuit_breaker.rs: what every operation on one circuit keeps, and the transitions it can make.
use pqc_gateway.Common.{ℕ, ◌+◌, ◌-◌, ◌^◌, ◌≤◌, ◌<◌, ◌≡◌, Bool, true, false, none, some, arith}
use pqc_gateway.CircuitBreaker.{
  CircuitState, closed, open_, half_open, CircuitBreakerConfig, UpstreamCircuit, new_circuit,
  check_circuit, succeed_circuit, fail_circuit, health_circuit,
}

-- What happens to a circuit, at a time: a request is checked, a success or a failure of the
-- upstream is recorded, a health check reports.
pub data Event : Type 0 where
  request success failure : ℕ → Event
  health : ℕ → Bool → Event

unfoldable pub step : UpstreamCircuit → Event → UpstreamCircuit
step c (request now) = (check_circuit now c).0
step c (success now) = succeed_circuit now c
step c (failure now) = fail_circuit now c
step c (health now ok_) = health_circuit now ok_ c

-- A closed circuit is below its threshold, and the counters are in range of their types.
pub record Inv (c : UpstreamCircuit) : Type 0 where
  pub threshold_u32 : c.config.failure_threshold < 2 ^ 32
  pub threshold_pos : 0 < c.config.failure_threshold
  pub closed_below : c.state ≡ closed → c.consecutive_failures < c.config.failure_threshold
  pub failures_u32 : c.consecutive_failures < 2 ^ 32
  pub requests_u64 : c.total_requests < 2 ^ 64
  pub total_u64 : c.total_failures < 2 ^ 64
  pub opens_u64 : c.total_circuit_opens < 2 ^ 64

pub new_circuit-Inv :
    (config : CircuitBreakerConfig)
    → 0 < config.failure_threshold
    → config.failure_threshold < 2 ^ 32
    → Inv (new_circuit config)
unfolding new_circuit
new_circuit-Inv config p q = ground arith

-- Every operation, in every state, keeps the invariant.
pub step-Inv : (c : UpstreamCircuit) (e : Event) → Inv c → Inv (step c e)
unfolding step check_circuit succeed_circuit fail_circuit health_circuit
step-Inv c (request now) i = ground arith
step-Inv c (success now) i = ground arith
step-Inv c (failure now) i = ground arith
step-Inv c (health now ok_) i = ground arith

-- The transition diagram of a circuit: the event, what the circuit must be like, and its next state.
pub data Edge (c : UpstreamCircuit) : Event → CircuitState → Type 0 where
  closed_passes : {t : ℕ} → c.state ≡ closed → Edge c (request t) closed
  probe_passes : {t : ℕ} → c.state ≡ half_open → Edge c (request t) half_open
  timed_out :
      {t last : ℕ}
      → c.state ≡ open_
      → c.last_failure_time ≡ some last
      → c.config.recovery_timeout ≤ t - last
      → Edge c (request t) half_open
  too_early :
      {t last : ℕ}
      → c.state ≡ open_
      → c.last_failure_time ≡ some last
      → t - last < c.config.recovery_timeout
      → Edge c (request t) open_
  never_failed : {t : ℕ} → c.state ≡ open_ → c.last_failure_time ≡ none → Edge c (request t) open_
  recovered : {t : ℕ} → Edge c (success t) closed
  failure_counted :
      {t : ℕ}
      → c.state ≡ closed
      → c.consecutive_failures + 1 < c.config.failure_threshold
      → Edge c (failure t) closed
  tripped :
      {t : ℕ}
      → c.state ≡ closed
      → c.consecutive_failures + 1 ≡ c.config.failure_threshold
      → Edge c (failure t) open_
  probe_failed : {t : ℕ} → c.state ≡ half_open → Edge c (failure t) open_
  still_down : {t : ℕ} → c.state ≡ open_ → Edge c (failure t) open_
  health_passed : {t : ℕ} → c.state ≡ open_ → Edge c (health t true) half_open
  still_closed : {t : ℕ} → c.state ≡ closed → Edge c (health t true) closed
  still_probing : {t : ℕ} {b : Bool} → c.state ≡ half_open → Edge c (health t b) half_open
  still_unhealthy : {t : ℕ} → c.state ≡ open_ → Edge c (health t false) open_
  health_counted :
      {t : ℕ}
      → c.state ≡ closed
      → c.consecutive_failures + 1 < c.config.failure_threshold
      → Edge c (health t false) closed
  health_tripped :
      {t : ℕ}
      → c.state ≡ closed
      → c.consecutive_failures + 1 ≡ c.config.failure_threshold
      → Edge c (health t false) open_

ruleset edges = (
  closed_passes, probe_passes, timed_out, too_early, never_failed, recovered, failure_counted,
  tripped, probe_failed, still_down, health_passed, still_closed, still_probing, still_unhealthy,
  health_counted, health_tripped,
)

-- A circuit in the invariant takes an edge of the diagram at every event: it opens only when the last
-- failure that the threshold allows is counted or a probe fails, it becomes half-open only by a
-- request after the recovery timeout or a health check that passes, and only a success closes it.
pub step-Edge : (c : UpstreamCircuit) (e : Event) → Inv c → Edge c e (step c e).state
unfolding step check_circuit succeed_circuit fail_circuit health_circuit
step-Edge c (request now) i = grind (arith, edges)
step-Edge c (success now) i = grind (arith, edges)
step-Edge c (failure now) i = grind (arith, edges, i.closed_below)
step-Edge c (health now true) i = grind (arith, edges)
step-Edge c (health now false) i = grind (arith, edges, i.closed_below)
