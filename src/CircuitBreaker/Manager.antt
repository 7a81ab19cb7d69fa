-- ===== src/CircuitBreaker/Manager.antt =====
-- circuit_breaker.rs: `CircuitBreakerManager`, a map from upstream URLs to circuits. `entry` with
-- `or_insert_with` registers an upstream that is not there; `get_mut` does nothing for it.
use mathlib.Core.Option
use pqc_gateway.Common.{
  ℕ, ◌≡◌, refl, Bool, false, Option, none, some, List, [], ◌∷◌, arith, Result, Str, str_eq,
  str_eq_iff, str_instance, inl, inr, Bool-cases, map, if◌then◌else◌,
}
use pqc_gateway.Common.Map.{
  Distinct, insert-Distinct, Map, lookup, contains_key, insert, lookup-insert,
  lookup_of_not_contains_key, lookup_of_contains_key,
}
use pqc_gateway.CircuitBreaker.{
  CircuitState, CircuitBreakerConfig, UpstreamCircuit, new_circuit, check_circuit, succeed_circuit,
  fail_circuit, health_circuit, is_check_due,
}

pub record CircuitBreakerManager : Type 0 where
  pub circuits : Map Str UpstreamCircuit
  pub default_config : CircuitBreakerConfig

unfoldable pub new : CircuitBreakerConfig → CircuitBreakerManager
new config = record { circuits = []; default_config = config }

abbrev pub unwrap_or {ℓ} : {A : Type ℓ} → Option A → A → A
unwrap_or none d = d
unwrap_or (some a) d = a

abbrev put : CircuitBreakerManager → Str → UpstreamCircuit → CircuitBreakerManager
put m upstream c = record m { circuits = insert upstream c m.circuits }

unfoldable pub register_upstream :
    CircuitBreakerManager → Str → Option CircuitBreakerConfig → CircuitBreakerManager
register_upstream m upstream config =
    if contains_key upstream m.circuits
    then m
    else put m upstream (new_circuit (unwrap_or config m.default_config))

-- `entry(upstream).or_insert_with(|| UpstreamCircuit::new(self.default_config.clone()))`.
abbrev pub entry : CircuitBreakerManager → Str → UpstreamCircuit
entry m upstream = unwrap_or (lookup upstream m.circuits) (new_circuit m.default_config)

unfoldable pub check_request :
    ℕ → CircuitBreakerManager → Str → CircuitBreakerManager × Result (Unit {0}) CircuitState
check_request now m upstream =
    let (c, r) = check_circuit now (entry m upstream) in (put m upstream c, r)

-- `if let Some(circuit) = circuits.get_mut(upstream)`.
update :
    (UpstreamCircuit → UpstreamCircuit)
    → CircuitBreakerManager
    → Str
    → Option UpstreamCircuit
    → CircuitBreakerManager
update f m upstream none = m
update f m upstream (some c) = put m upstream (f c)

unfoldable pub record_success : ℕ → CircuitBreakerManager → Str → CircuitBreakerManager
unfolding update
record_success now m upstream = update (succeed_circuit now) m upstream (lookup upstream m.circuits)

unfoldable pub record_failure : ℕ → CircuitBreakerManager → Str → CircuitBreakerManager
record_failure now m upstream = put m upstream (fail_circuit now (entry m upstream))

unfoldable pub update_health : ℕ → CircuitBreakerManager → Str → Bool → CircuitBreakerManager
unfolding update
update_health now m upstream healthy =
    update (health_circuit now healthy) m upstream (lookup upstream m.circuits)

unfoldable pub get_upstream_state : CircuitBreakerManager → Str → Option CircuitState
get_upstream_state m upstream = Option.map (λ c. c.state) (lookup upstream m.circuits)

pub record CircuitBreakerStatus : Type 0 where
  pub state : CircuitState
  pub consecutive_failures : ℕ
  pub total_requests : ℕ
  pub total_failures : ℕ
  pub total_circuit_opens : ℕ
  pub healthy : Bool

abbrev pub status_of : UpstreamCircuit → CircuitBreakerStatus
status_of c = record {
  state = c.state;
  consecutive_failures = c.consecutive_failures;
  total_requests = c.total_requests;
  total_failures = c.total_failures;
  total_circuit_opens = c.total_circuit_opens;
  healthy = c.healthy;
}

unfoldable pub get_status : CircuitBreakerManager → Map Str CircuitBreakerStatus
get_status m = map (λ e. (e.0, status_of e.1)) m.circuits

is_due : ℕ → Option UpstreamCircuit → Bool
is_due now none = false
is_due now (some c) = is_check_due now c c.last_health_check

unfoldable pub needs_health_check : ℕ → CircuitBreakerManager → Str → Bool
unfolding is_due
needs_health_check now m upstream = is_due now (lookup upstream m.circuits)

-- The calls that change the manager.
pub data Call : Type 0 where
  register : Str → Option CircuitBreakerConfig → Call
  check success failure : ℕ → Str → Call
  health : ℕ → Str → Bool → Call

unfoldable pub apply : CircuitBreakerManager → Call → CircuitBreakerManager
apply m (register u config) = register_upstream m u config
apply m (check now u) = (check_request now m u).0
apply m (success now u) = record_success now m u
apply m (failure now u) = record_failure now m u
apply m (health now u b) = update_health now m u b

abbrev pub target : Call → Str
target (register u _) = u
target (check _ u) = u
target (success _ u) = u
target (failure _ u) = u
target (health _ u _) = u

-- What a call does to the circuit of its upstream, which may not be registered.
abbrev pub effect : CircuitBreakerConfig → Call → Option UpstreamCircuit → Option UpstreamCircuit
effect d (register _ config) none = some (new_circuit (unwrap_or config d))
effect d (register _ _) (some c) = some c
effect d (check now _) o = some (check_circuit now (unwrap_or o (new_circuit d))).0
effect d (success now _) o = Option.map (succeed_circuit now) o
effect d (failure now _) o = some (fail_circuit now (unwrap_or o (new_circuit d)))
effect d (health now _ b) o = Option.map (health_circuit now b) o

module _ (f : UpstreamCircuit → UpstreamCircuit) (m : CircuitBreakerManager) (u v : Str) where
  lookup-update :
      (o : Option UpstreamCircuit)
      → lookup u m.circuits ≡ o
      → lookup v (update f m u o).circuits
        ≡ (if str_eq u v then Option.map f (lookup v m.circuits) else lookup v m.circuits)
  unfolding update
  lookup-update none e = ground (arith, str_eq_iff u v)
  lookup-update (some c) e = ground (arith, str_eq_iff u v, lookup-insert u v (f c) m.circuits)

-- The manager keeps the upstreams apart: a call changes the circuit of its own upstream as the
-- operation on that circuit does, and leaves every other upstream's circuit as it was.
pub apply_refines :
    (m : CircuitBreakerManager) (call : Call) (v : Str)
    → lookup v (apply m call).circuits ≡ (
        if str_eq (target call) v
        then effect m.default_config call (lookup v m.circuits)
        else lookup v m.circuits)
unfolding apply register_upstream check_request record_success record_failure update_health
apply_refines m (register u config) v = elim (Bool-cases (contains_key u m.circuits)) [
  | inl old ↦
      let (c, e) = lookup_of_contains_key u m.circuits old in
      rw old (ground (arith, str_eq_iff u v))
  | inr new_ ↦
      let c = new_circuit (unwrap_or config m.default_config) in
      let e = lookup_of_not_contains_key u m.circuits new_ in
      rw new_ (ground (arith, str_eq_iff u v, lookup-insert u v c m.circuits))
]
apply_refines m (check now u) v =
    ground (arith, str_eq_iff u v, lookup-insert u v (check_circuit now (entry m u)).0 m.circuits)
apply_refines m (success now u) v =
    lookup-update (succeed_circuit now) m u v (lookup u m.circuits) refl
apply_refines m (failure now u) v =
    ground (arith, str_eq_iff u v, lookup-insert u v (fail_circuit now (entry m u)) m.circuits)
apply_refines m (health now u b) v =
    lookup-update (health_circuit now b) m u v (lookup u m.circuits) refl

-- Every call keeps the manager's map free of double keys.
pub apply-Distinct :
    (m : CircuitBreakerManager) (call : Call)
    → Distinct m.circuits
    → Distinct (apply m call).circuits
unfolding apply register_upstream check_request record_success record_failure update_health
apply-Distinct m (register u config) d = elim (Bool-cases (contains_key u m.circuits)) [
  | inl old ↦ rw old d
  | inr new_ ↦
      rw new_ (insert-Distinct u (new_circuit (unwrap_or config m.default_config)) m.circuits d)
]
apply-Distinct m (check now u) d = insert-Distinct u (check_circuit now (entry m u)).0 m.circuits d
apply-Distinct m (success now u) d = update-Distinct (lookup u m.circuits)
  where
    update-Distinct :
        (o : Option UpstreamCircuit) → Distinct (update (succeed_circuit now) m u o).circuits
    update-Distinct none = d
    update-Distinct (some c) = insert-Distinct u (succeed_circuit now c) m.circuits d
apply-Distinct m (failure now u) d = insert-Distinct u (fail_circuit now (entry m u)) m.circuits d
apply-Distinct m (health now u b) d = update-Distinct (lookup u m.circuits)
  where
    update-Distinct :
        (o : Option UpstreamCircuit) → Distinct (update (health_circuit now b) m u o).circuits
    update-Distinct none = d
    update-Distinct (some c) = insert-Distinct u (health_circuit now b c) m.circuits d

pub apply_all : CircuitBreakerManager → List Call → CircuitBreakerManager
apply_all m [] = m
apply_all m (c ∷ cs) = apply_all (apply m c) cs

-- Whatever calls are made on a new manager, its map holds no key twice.
pub apply_all-new-Distinct :
    (config : CircuitBreakerConfig) (cs : List Call) → Distinct (apply_all (new config) cs).circuits
unfolding new apply_all
apply_all-new-Distinct config cs = all (new config) cs tt
  where
    all :
        (m : CircuitBreakerManager) (cs : List Call)
        → Distinct m.circuits
        → Distinct (apply_all m cs).circuits
    all m [] d = d
    all m (c ∷ cs) d = all (apply m c) cs (apply-Distinct m c d)
