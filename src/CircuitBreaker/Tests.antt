-- ===== src/CircuitBreaker/Tests.antt =====
-- Circuits at work: the scenarios of the unit tests of circuit_breaker.rs, and inputs for theorems.
use pqc_gateway.Common.{
  map, ℕ, ◌≡◌, ◌↔◌, ◌≤◌, ◌+◌, ◌*◌, refl, Bool, true, false, none, some, [], ◌∷◌, arith, Str, codes,
  str_eq, str_instance, ok, err, All, length, if◌then◌else◌,
}
use mathlib.Core.Option
use pqc_gateway.Common.Map.{lookup, insert, contains_key}
use pqc_gateway.CircuitBreaker.{
  closed, open_, half_open, CircuitBreakerConfig, UpstreamCircuit, new_circuit, check_circuit,
  succeed_circuit, fail_circuit, second,
}
use pqc_gateway.CircuitBreaker.Invariant.{request, success, failure, step, Inv, Edge, step-Edge}
use pqc_gateway.CircuitBreaker.Trace.{run, run_new-Inv, failures_open_at_threshold}
use pqc_gateway.CircuitBreaker.Answers.{
  answers, open_fails_fast, recovery_probe, unhealthy, health_opened_never_times_out,
}
use pqc_gateway.CircuitBreaker.Manager
use pqc_gateway.CircuitBreaker.Manager.{
  CircuitBreakerManager, check_request, new, apply, target, effect, apply_refines,
  get_upstream_state, apply_all-new-Distinct, apply_all,
}
use pqc_gateway.CircuitBreaker.HealthChecks.{
  health_check_round, health_check_round_lem, checked, path_if_due,
}

abbrev two_strikes : CircuitBreakerConfig
two_strikes = record {
  failure_threshold = 2;
  recovery_timeout = 30 * second;
  health_check_interval = 10 * second;
  health_check_path = codes "/health";
}

abbrev fresh : UpstreamCircuit
fresh = record {
  state = closed;
  consecutive_failures = 0;
  last_failure_time = none;
  last_success_time = none;
  last_health_check = none;
  total_requests = 0;
  total_failures = 0;
  total_circuit_opens = 0;
  config = two_strikes;
  healthy = true;
}

abbrev tripped : UpstreamCircuit
tripped = record fresh {
  state = open_;
  consecutive_failures = 2;
  last_failure_time = some 7;
  total_failures = 2;
  total_circuit_opens = 1;
  healthy = false;
}

abbrev probing : UpstreamCircuit
probing = record tripped { state = half_open }

two_failures : run (new_circuit two_strikes) (failure 5 ∷ failure 7 ∷ []) ≡ tripped
unfolding run step fail_circuit new_circuit
two_failures = refl

success_resets :
    (run (new_circuit two_strikes) (failure 5 ∷ success 6 ∷ failure 7 ∷ [])).state ≡ closed
unfolding run step fail_circuit succeed_circuit new_circuit
success_resets = refl

failures_open_at_threshold_example :
    ((run fresh (failure 5 ∷ failure 7 ∷ [])).state ≡ open_) ↔ (2 ≤ 0 + length {A = ℕ} (5 ∷ 7 ∷ []))
failures_open_at_threshold_example =
    failures_open_at_threshold fresh (5 ∷ 7 ∷ []) (omega arith) refl

open_fails_fast_example :
    All (λ r. r ≡ err open_) (answers tripped (8 ∷ 9 ∷ []))
    × ((run tripped (request 8 ∷ request 9 ∷ [])).state ≡ open_)
open_fails_fast_example = open_fails_fast tripped 7 (8 ∷ 9 ∷ []) refl refl (omega arith)

recovery_probe_example :
    let waited = run tripped (map request (8 ∷ 9 ∷ [])) in
    let probing' = step waited (request (31 * second)) in
    let good = step probing' (success (32 * second)) in
    let bad = step probing' (failure (32 * second)) in
    All (λ r. r ≡ err open_) (answers tripped (8 ∷ 9 ∷ []))
    × ((check_circuit (31 * second) waited).1 ≡ ok tt)
    × (probing'.state ≡ half_open)
    × (good.state ≡ closed)
    × (good.consecutive_failures ≡ 0)
    × (good.healthy ≡ true)
    × (bad.state ≡ open_)
    × All (λ r. r ≡ err open_) (answers bad (33 * second ∷ []))
    × ((run bad (map request (33 * second ∷ []))).state ≡ open_)
recovery_probe_example =
    recovery_probe tripped 7 (31 * second) (32 * second) (8 ∷ 9 ∷ []) (33 * second ∷ []) refl refl
      (omega arith) (omega arith) (omega arith)

run_new-Inv_example : Inv (run (new_circuit two_strikes) (failure 5 ∷ failure 7 ∷ request 8 ∷ []))
run_new-Inv_example =
    run_new-Inv two_strikes (failure 5 ∷ failure 7 ∷ request 8 ∷ []) (omega arith) (omega arith)

-- One failure before the threshold.
abbrev one_strike : UpstreamCircuit
one_strike = run (new_circuit two_strikes) (failure 5 ∷ [])

step-Edge_example : Edge one_strike (failure 7) (step one_strike (failure 7)).state
step-Edge_example =
    step-Edge one_strike (failure 7)
      (run_new-Inv two_strikes (failure 5 ∷ []) (omega arith) (omega arith))

health_opened_never_times_out_example :
    All
      (λ r. r ≡ err open_)
      (answers (run (new_circuit two_strikes) (unhealthy 1 ∷ unhealthy 2 ∷ [])) (900 * second ∷ []))
health_opened_never_times_out_example =
    health_opened_never_times_out two_strikes (1 ∷ 2 ∷ []) (900 * second ∷ []) (omega arith)
      (omega arith) (omega arith)

abbrev upstream_a : Str
upstream_a = codes "http://a:9001"

abbrev upstream_b : Str
upstream_b = codes "http://b:9002"

abbrev two_upstreams : CircuitBreakerManager
two_upstreams = record {
  circuits = (upstream_a, tripped) ∷ (upstream_b, fresh) ∷ [];
  default_config = two_strikes;
}

auto_register :
    get_upstream_state (apply (new two_strikes) (Manager.check 1 upstream_a)) upstream_a
    ≡ some closed
unfolding get_upstream_state apply new check_request check_circuit new_circuit lookup insert str_eq
auto_register = refl

apply_refines_example :
    lookup upstream_b (apply two_upstreams (Manager.failure 9 upstream_a)).circuits ≡ (
      if str_eq upstream_a upstream_b
      then effect two_strikes
          (Manager.failure 9 upstream_a)
          (lookup upstream_b two_upstreams.circuits)
      else lookup upstream_b two_upstreams.circuits)
apply_refines_example = apply_refines two_upstreams (Manager.failure 9 upstream_a) upstream_b

abbrev healthy_at : Str → Bool × ℕ
healthy_at url = (true, 40 * second)

health_check_round_example :
    lookup upstream_a (health_check_round healthy_at (31 * second) two_upstreams).circuits
    ≡ Option.map
        (checked healthy_at upstream_a
          (path_if_due healthy_at (31 * second) (lookup upstream_a two_upstreams.circuits)))
        (lookup upstream_a two_upstreams.circuits)
unfolding contains_key str_eq
health_check_round_example =
    health_check_round_lem healthy_at (31 * second) two_upstreams upstream_a (refl, (refl, tt))
