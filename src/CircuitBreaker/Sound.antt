-- ===== src/CircuitBreaker/Sound.antt =====
-- circuit_breaker.rs: the invariant of every circuit of a manager, kept by every call.
use pqc_gateway.Common.{
  ℕ, ◌^◌, ◌<◌, ◌≡◌, Bool, none, Str, str_instance, inl, inr, Bool-cases, Option-cases, All,
}
use pqc_gateway.Common.{refl}
use pqc_gateway.Common.Map
use pqc_gateway.Common.Map.{Distinct, lookup, contains_key}
use pqc_gateway.Common.MapLaws.{All-lookup, insert-All}
use pqc_gateway.CircuitBreaker.{
  CircuitBreakerConfig, UpstreamCircuit, new_circuit, check_circuit, succeed_circuit, fail_circuit,
  health_circuit,
}
use pqc_gateway.CircuitBreaker.Invariant.{
  Inv, new_circuit-Inv, step, step-Inv, request, success, failure, health,
}
use pqc_gateway.CircuitBreaker.Manager.{
  CircuitBreakerManager, new, entry, register_upstream, check_request, record_success,
  record_failure, update_health, Call, register, check, apply, apply-Distinct,
}

-- One circuit for each upstream, each in the invariant, and new ones would be.
pub record IsBreaker (m : CircuitBreakerManager) : Type 0 where
  pub keys : Distinct m.circuits
  pub circuits_ok : All (λ p. Inv p.1) m.circuits
  pub default_pos : 0 < m.default_config.failure_threshold
  pub default_u32 : m.default_config.failure_threshold < 2 ^ 32

pub new-IsBreaker :
    (config : CircuitBreakerConfig)
    → 0 < config.failure_threshold
    → config.failure_threshold < 2 ^ 32
    → IsBreaker (new config)
unfolding new
new-IsBreaker config p q = record { keys = tt; circuits_ok = tt; default_pos = p; default_u32 = q }

pub entry-Inv : (m : CircuitBreakerManager) (u : Str) → IsBreaker m → Inv (entry m u)
entry-Inv m u v = elim (Option-cases (lookup u m.circuits)) [
  | inl h ↦ rw h (new_circuit-Inv m.default_config v.default_pos v.default_u32)
  | inr (c, h) ↦ rw h (All-lookup (λ k c. Inv c) u c m.circuits v.circuits_ok h)
]

-- Putting a circuit in the invariant back into the map.
put_back :
    (m : CircuitBreakerManager) (call : Call) (u : Str) (c : UpstreamCircuit)
    → IsBreaker m
    → Inv c
    → apply m call ≡ record m { circuits = Map.insert u c m.circuits }
    → IsBreaker (apply m call)
put_back m call u c v i e = record {
  keys = apply-Distinct m call v.keys;
  circuits_ok = rw e (insert-All (λ p. Inv p.1) u c m.circuits v.circuits_ok i);
  default_pos = rw e v.default_pos;
  default_u32 = rw e v.default_u32;
}

pub register_upstream-IsBreaker :
    (m : CircuitBreakerManager) (u : Str) → IsBreaker m → IsBreaker (register_upstream m u none)
unfolding register_upstream apply
register_upstream-IsBreaker m u v = elim (Bool-cases (contains_key u m.circuits)) [
  | inl h ↦ rw h v
  | inr h ↦
      put_back m (register u none) u (new_circuit m.default_config) v
        (new_circuit-Inv m.default_config v.default_pos v.default_u32) (rw h refl)
]

pub check_request-IsBreaker :
    (now : ℕ) (m : CircuitBreakerManager) (u : Str)
    → IsBreaker m
    → IsBreaker (check_request now m u).0
unfolding check_request apply step
check_request-IsBreaker now m u v =
    put_back m (check now u) u (check_circuit now (entry m u)).0 v
      (step-Inv (entry m u) (request now) (entry-Inv m u v)) refl

pub record_failure-IsBreaker :
    (now : ℕ) (m : CircuitBreakerManager) (u : Str)
    → IsBreaker m
    → IsBreaker (record_failure now m u)
unfolding record_failure apply step
record_failure-IsBreaker now m u v =
    put_back m (Call.failure now u) u (fail_circuit now (entry m u)) v
      (step-Inv (entry m u) (failure now) (entry-Inv m u v)) refl

pub record_success-IsBreaker :
    (now : ℕ) (m : CircuitBreakerManager) (u : Str)
    → IsBreaker m
    → IsBreaker (record_success now m u)
unfolding record_success apply step
record_success-IsBreaker now m u v = elim (Option-cases (lookup u m.circuits)) [
  | inl h ↦ rw h v
  | inr (c, h) ↦
      let i = All-lookup (λ k c. Inv c) u c m.circuits v.circuits_ok h in
      let s =
        put_back m (Call.success now u) u (succeed_circuit now c) v (step-Inv c (success now) i)
          (rw h refl) in
      s
]

pub update_health-IsBreaker :
    (now : ℕ) (m : CircuitBreakerManager) (u : Str) (healthy : Bool)
    → IsBreaker m
    → IsBreaker (update_health now m u healthy)
unfolding update_health apply step
update_health-IsBreaker now m u healthy v = elim (Option-cases (lookup u m.circuits)) [
  | inl h ↦ rw h v
  | inr (c, h) ↦
      let i = All-lookup (λ k c. Inv c) u c m.circuits v.circuits_ok h in
      put_back m (Call.health now u healthy) u (health_circuit now healthy c) v
        (step-Inv c (health now healthy) i) (rw h refl)
]
