-- ===== src/CircuitBreaker.antt =====
-- crates/pqc-proxy/src/circuit_breaker.rs: the circuit breaker of one upstream, and the manager
-- that keeps one for each upstream URL. `Instant::now()` is an argument `now`, in nanoseconds; a
-- method behind the `RwLock` takes the state and returns the new one. `u32` and `u64` counters wrap.
pub mod Invariant
pub mod Manager
pub mod Trace
pub mod Answers
pub mod HealthChecks
pub mod Sound
mod Tests
use pqc_gateway.Common.{
  ℕ, ◌+◌, ◌-◌, ◌*◌, ◌%◌, ◌^◌, Bool, true, false, ◌&&◌, Option, none, some, Str, leb, not, Result,
  ok, err, if◌then◌else◌, codes,
}

pub data CircuitState : Type 0 where
  closed open_ half_open : CircuitState

pub record CircuitBreakerConfig : Type 0 where
  pub failure_threshold : ℕ  -- u32
  pub recovery_timeout : ℕ  -- nanoseconds
  pub health_check_interval : ℕ  -- nanoseconds
  pub health_check_path : Str

abbrev pub second : ℕ
second = 1_000_000_000

abbrev pub default_circuit_breaker_config : CircuitBreakerConfig
default_circuit_breaker_config = record {
  failure_threshold = 5;
  recovery_timeout = 30 * second;
  health_check_interval = 10 * second;
  health_check_path = codes "/health";
}

pub record UpstreamCircuit : Type 0 where
  pub state : CircuitState
  pub consecutive_failures : ℕ  -- u32
  pub last_failure_time : Option ℕ
  pub last_success_time : Option ℕ
  pub last_health_check : Option ℕ
  pub total_requests : ℕ  -- u64
  pub total_failures : ℕ  -- u64
  pub total_circuit_opens : ℕ  -- u64
  pub config : CircuitBreakerConfig
  pub healthy : Bool

abbrev pub u32 : ℕ → ℕ
u32 n = n % 2 ^ 32

abbrev pub u64 : ℕ → ℕ
u64 n = n % 2 ^ 64

abbrev pub is_open : CircuitState → Bool
is_open open_ = true
is_open _ = false

abbrev pub is_closed : CircuitState → Bool
is_closed closed = true
is_closed _ = false

-- `UpstreamCircuit::new`.
unfoldable pub new_circuit : CircuitBreakerConfig → UpstreamCircuit
new_circuit config = record {
  state = closed;
  consecutive_failures = 0;
  last_failure_time = none;
  last_success_time = none;
  last_health_check = none;
  total_requests = 0;
  total_failures = 0;
  total_circuit_opens = 0;
  config = config;
  healthy = true;
}

-- `since.elapsed() >= limit`; `Instant::elapsed` stops at zero.
abbrev pub has_elapsed : ℕ → ℕ → ℕ → Bool
has_elapsed now since limit = leb limit (now - since)

-- The `Open` arm of `check_request`.
check_open : ℕ → UpstreamCircuit → Option ℕ → UpstreamCircuit × Result (Unit {0}) CircuitState
check_open now c none = (c, err open_)
check_open now c (some last_fail) =
    if has_elapsed now last_fail c.config.recovery_timeout
    then (record c { state = half_open }, ok tt)
    else (c, err open_)

-- The `match` of `check_request`.
check_state : ℕ → UpstreamCircuit → CircuitState → UpstreamCircuit × Result (Unit {0}) CircuitState
unfolding check_open
check_state now c closed = (c, ok tt)
check_state now c open_ = check_open now c c.last_failure_time
check_state now c half_open = (c, ok tt)

-- `check_request`, on the circuit of the upstream.
unfoldable pub check_circuit :
    ℕ → UpstreamCircuit → UpstreamCircuit × Result (Unit {0}) CircuitState
unfolding check_state
check_circuit now c =
    check_state now (record c { total_requests = u64 (c.total_requests + 1) }) c.state

-- `record_success`, on the circuit of the upstream.
unfoldable pub succeed_circuit : ℕ → UpstreamCircuit → UpstreamCircuit
succeed_circuit now c = record c {
  consecutive_failures = 0;
  last_success_time = some now;
  state = closed;
  healthy = true;
}

-- The `match` of `record_failure`.
fail_state : UpstreamCircuit → CircuitState → UpstreamCircuit
fail_state c half_open = record c {
  state = open_;
  total_circuit_opens = u64 (c.total_circuit_opens + 1);
}
fail_state c closed =
    if leb c.config.failure_threshold c.consecutive_failures
    then record c {
      state = open_;
      total_circuit_opens = u64 (c.total_circuit_opens + 1);
      healthy = false;
    }
    else c
fail_state c open_ = c

-- `record_failure`, on the circuit of the upstream.
unfoldable pub fail_circuit : ℕ → UpstreamCircuit → UpstreamCircuit
unfolding fail_state
fail_circuit now c =
    fail_state
      (record c {
        consecutive_failures = u32 (c.consecutive_failures + 1);
        total_failures = u64 (c.total_failures + 1);
        last_failure_time = some now;
      })
      c.state

-- The `if` / `else if` of `update_health`, after the two assignments above it.
health_state : UpstreamCircuit → Bool → UpstreamCircuit
health_state c ok_ =
    let failed = record c { consecutive_failures = u32 (c.consecutive_failures + 1) } in
    if ok_ && is_open c.state
    then record c { state = half_open }
    else if not ok_ && is_closed c.state
    then if leb c.config.failure_threshold failed.consecutive_failures
      then record failed { state = open_; total_circuit_opens = u64 (c.total_circuit_opens + 1) }
      else failed
    else c

-- `update_health`, on the circuit of the upstream.
unfoldable pub health_circuit : ℕ → Bool → UpstreamCircuit → UpstreamCircuit
unfolding health_state
health_circuit now ok_ c =
    health_state (record c { last_health_check = some now; healthy = ok_ }) ok_

-- `last_health_check` is missing or older than the interval.
unfoldable pub is_check_due : ℕ → UpstreamCircuit → Option ℕ → Bool
is_check_due now c none = true
is_check_due now c (some last) = has_elapsed now last c.config.health_check_interval
