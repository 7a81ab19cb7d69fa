-- ===== src/CircuitBreaker/HealthChecks.antt =====
-- circuit_breaker.rs: `upstreams_needing_health_check` and one round of `run_health_checks`. The
-- HTTP client is the parameter `get`: whether the answer for a URL is a success, and the time at
-- which `update_health` runs after it. No other call comes between the steps of a round.
use mathlib.Core.Option
use pqc_gateway.Common.{
  ℕ, ◌≡◌, refl, Bool, false, Option, none, some, List, [], ◌∷◌, ◌++◌, arith, Str, str_eq,
  str_eq_iff, str_instance, if◌then◌else◌, Bool-cases, inl, inr,
}
use pqc_gateway.Common.Map.{Map, lookup, contains_key, Distinct, lookup_of_not_contains_key}
use pqc_gateway.CircuitBreaker.{UpstreamCircuit, health_circuit, is_check_due}
use pqc_gateway.CircuitBreaker.Manager.{
  CircuitBreakerManager, update_health, apply, health, apply_refines,
}

abbrev pub due : ℕ → UpstreamCircuit → Bool
due now c = is_check_due now c c.last_health_check

-- The `filter` and `map` of `upstreams_needing_health_check`.
due_targets : ℕ → Map Str UpstreamCircuit → List (Str × Str)
due_targets now [] = []
due_targets now ((u, c) ∷ m) =
    let rest = due_targets now m in
    if due now c then (u, c.config.health_check_path) ∷ rest else rest

unfoldable pub upstreams_needing_health_check : ℕ → CircuitBreakerManager → List (Str × Str)
unfolding due_targets
upstreams_needing_health_check now m = due_targets now m.circuits

module _ (get : Str → Bool × ℕ) where
  -- The `for` loop of `run_health_checks`.
  pub check_targets : CircuitBreakerManager → List (Str × Str) → CircuitBreakerManager
  check_targets m [] = m
  check_targets m ((upstream, health_path) ∷ targets) =
      let (healthy, now) = get (upstream ++ health_path) in
      check_targets (update_health now m upstream healthy) targets

  -- The body of the `loop` of `run_health_checks`, after the sleep.
  pub health_check_round : ℕ → CircuitBreakerManager → CircuitBreakerManager
  health_check_round now m = check_targets m (upstreams_needing_health_check now m)

  -- What a round does to one circuit: a check at its path, if there is a path to check.
  abbrev pub checked : Str → Option Str → UpstreamCircuit → UpstreamCircuit
  checked u none c = c
  checked u (some path) c = let (healthy, now) = get (u ++ path) in health_circuit now healthy c

  lookup-update_health :
      (m : CircuitBreakerManager) (now : ℕ) (b : Bool) (u v : Str)
      → lookup v (update_health now m u b).circuits ≡ (
          if str_eq u v
          then Option.map (health_circuit now b) (lookup v m.circuits)
          else lookup v m.circuits)
  unfolding apply
  lookup-update_health m now b u v = apply_refines m (health now u b) v

  lookup-check_targets :
      (m : CircuitBreakerManager) (ts : List (Str × Str)) (v : Str)
      → Distinct ts
      → lookup v (check_targets m ts).circuits
        ≡ Option.map (checked v (lookup v ts)) (lookup v m.circuits)
  unfolding check_targets lookup
  lookup-check_targets m [] v d = map_checked_none (lookup v m.circuits)
    where
      map_checked_none : (o : Option UpstreamCircuit) → o ≡ Option.map (checked v none) o
      map_checked_none none = refl
      map_checked_none (some c) = refl
  lookup-check_targets m ((u, path) ∷ ts) v (n, d) =
      let (healthy, now) = get (u ++ path) in
      ground (
        arith,
        str_eq_iff u v,
        lookup_of_not_contains_key u ts n,
        lookup-update_health m now healthy u v,
        lookup-check_targets (update_health now m u healthy) ts v d,
      )

  contains_key-due_targets :
      (now : ℕ) (u : Str) (m : Map Str UpstreamCircuit)
      → contains_key u m ≡ false
      → contains_key u (due_targets now m) ≡ false
  unfolding contains_key due_targets
  contains_key-due_targets now u [] h = refl
  contains_key-due_targets now u ((j, c) ∷ m) h = ground (arith, contains_key-due_targets now u m)

  due_targets-Distinct :
      (now : ℕ) (m : Map Str UpstreamCircuit) → Distinct m → Distinct (due_targets now m)
  unfolding due_targets
  due_targets-Distinct now [] d = tt
  due_targets-Distinct now ((j, c) ∷ m) (n, d) = elim (Bool-cases (due now c)) [
    | inl yes_ ↦ rw yes_ (contains_key-due_targets now j m n, due_targets-Distinct now m d)
    | inr no_ ↦ rw no_ (due_targets-Distinct now m d)
  ]

  abbrev pub path_if_due : ℕ → Option UpstreamCircuit → Option Str
  path_if_due now none = none
  path_if_due now (some c) = if due now c then some c.config.health_check_path else none

  lookup-due_targets :
      (now : ℕ) (m : Map Str UpstreamCircuit) (v : Str)
      → Distinct m
      → lookup v (due_targets now m) ≡ path_if_due now (lookup v m)
  unfolding lookup due_targets
  lookup-due_targets now [] v d = refl
  lookup-due_targets now ((j, c) ∷ m) v (n, d) =
      ground (arith, str_eq_iff j v, lookup_of_not_contains_key j m n, lookup-due_targets now m v d)

  -- After a round of health checks every registered upstream whose check was due has the result of
  -- its check, at its URL followed by its health path; every other circuit is as it was. The
  -- manager's map holds no key twice.
  pub health_check_round_lem :
      (now : ℕ) (m : CircuitBreakerManager) (v : Str)
      → Distinct m.circuits
      → lookup v (health_check_round now m).circuits
        ≡ Option.map (checked v (path_if_due now (lookup v m.circuits))) (lookup v m.circuits)
  unfolding health_check_round upstreams_needing_health_check
  health_check_round_lem now m v d = rw (← lookup-due_targets now m.circuits v d) (
      lookup-check_targets m (due_targets now m.circuits) v (due_targets-Distinct now m.circuits d))
