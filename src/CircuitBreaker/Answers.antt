-- ===== src/CircuitBreaker/Answers.antt =====
-- circuit_breaker.rs: which requests one circuit lets through, in each of its states.
use pqc_gateway.Common.{
  ◌⊎◌, inl, inr, ℕ, ◌+◌, ◌-◌, ◌^◌, ◌≤◌, ◌<◌, ◌≡◌, refl, ◌∙◌, true, false, none, some, List, [], ◌∷◌,
  arith, Result, ok, err, All, length, map,
}
use pqc_gateway.CircuitBreaker.{
  CircuitState, closed, open_, half_open, CircuitBreakerConfig, UpstreamCircuit, new_circuit,
  check_circuit, succeed_circuit, fail_circuit, health_circuit,
}
use pqc_gateway.CircuitBreaker.Invariant.{
  Event, request, success, failure, health, step, Inv, new_circuit-Inv, step-Inv,
}
use pqc_gateway.CircuitBreaker.Trace.{run}

-- The answers to a sequence of requests, with no response between them.
pub answers : UpstreamCircuit → List ℕ → List (Result (Unit {0}) CircuitState)
answers c [] = []
answers c (t ∷ ts) = let (d, r) = check_circuit t c in r ∷ answers d ts

pub blocked :
    (c : UpstreamCircuit) (last t : ℕ)
    → c.state ≡ open_
    → c.last_failure_time ≡ some last
    → t - last < c.config.recovery_timeout
    → let d = (check_circuit t c).0 in
      ((check_circuit t c).1 ≡ err open_)
      × (d.state ≡ open_)
      × (d.last_failure_time ≡ some last)
      × (d.config ≡ c.config)
unfolding check_circuit
blocked c last t s l h = ground arith

-- An open circuit refuses every request, and stays open, until the recovery timeout has passed
-- since its last failure.
pub open_fails_fast :
    (c : UpstreamCircuit) (last : ℕ) (ts : List ℕ)
    → c.state ≡ open_
    → c.last_failure_time ≡ some last
    → All (λ t. t - last < c.config.recovery_timeout) ts
    → All (λ r. r ≡ err open_) (answers c ts) × ((run c (map request ts)).state ≡ open_)
unfolding answers run step
open_fails_fast c last [] s l h = (tt, s)
open_fails_fast c last (t ∷ ts) s l (h, hs) =
    let (r, s', l', k') = blocked c last t s l h in
    let (rs, s'') = open_fails_fast (check_circuit t c).0 last ts s' l' (rw k' hs) in ((r, rs), s'')

held :
    (c : UpstreamCircuit) (last : ℕ) (ts : List ℕ)
    → c.state ≡ open_
    → c.last_failure_time ≡ some last
    → All (λ t. t - last < c.config.recovery_timeout) ts
    → let d = run c (map request ts) in
      (d.state ≡ open_) × (d.last_failure_time ≡ some last) × (d.config ≡ c.config)
unfolding run step
held c last [] s l h = (s, l, refl)
held c last (t ∷ ts) s l (h, hs) =
    let (_, s', l', k') = blocked c last t s l h in
    let (a, b, k) = held (check_circuit t c).0 last ts s' l' (rw k' hs) in (a, b, k ∙ k')

probed :
    (c : UpstreamCircuit) (last now later : ℕ)
    → c.state ≡ open_
    → c.last_failure_time ≡ some last
    → c.config.recovery_timeout ≤ now - last
    → let d = step c (request now) in
      let good = step d (success later) in
      let bad = step d (failure later) in
      ((check_circuit now c).1 ≡ ok tt)
      × (d.state ≡ half_open)
      × (good.state ≡ closed)
      × (good.consecutive_failures ≡ 0)
      × (good.healthy ≡ true)
      × (bad.state ≡ open_)
      × (bad.last_failure_time ≡ some later)
      × (bad.config ≡ c.config)
unfolding step check_circuit succeed_circuit fail_circuit
probed c last now later s l h = ground arith

-- A circuit that a failure opened refuses every request before the recovery timeout has passed since
-- that failure; the next one after it is let through and leaves the circuit half-open. A success then
-- closes it with no failures counted; a failure opens it again, and every request is refused before
-- another timeout has passed since this failure.
pub recovery_probe :
    (c : UpstreamCircuit) (last now later : ℕ) (before after : List ℕ)
    → c.state ≡ open_
    → c.last_failure_time ≡ some last
    → All (λ t. t - last < c.config.recovery_timeout) before
    → c.config.recovery_timeout ≤ now - last
    → All (λ t. t - later < c.config.recovery_timeout) after
    → let waited = run c (map request before) in
      let probing = step waited (request now) in
      let good = step probing (success later) in
      let bad = step probing (failure later) in
      All (λ r. r ≡ err open_) (answers c before)
      × ((check_circuit now waited).1 ≡ ok tt)
      × (probing.state ≡ half_open)
      × (good.state ≡ closed)
      × (good.consecutive_failures ≡ 0)
      × (good.healthy ≡ true)
      × (bad.state ≡ open_)
      × All (λ r. r ≡ err open_) (answers bad after)
      × ((run bad (map request after)).state ≡ open_)
recovery_probe c last now later before after s l early h again =
    let waited = run c (map request before) in
    let (refused, _) = open_fails_fast c last before s l early in
    let (s', l', k) = held c last before s l early in
    let (passed, half, shut, none_counted, well, open_again, since, kept) =
      probed waited last now later s' l' (rw k h) in
    let bad = step (step waited (request now)) (failure later) in
    let (refused', stays) =
      open_fails_fast bad later after open_again since (rw (kept ∙ k) again) in
    (refused, passed, half, shut, none_counted, well, open_again, refused', stays)

half_open_passes :
    (c : UpstreamCircuit) (t : ℕ)
    → c.state ≡ half_open
    → ((check_circuit t c).1 ≡ ok tt) × ((check_circuit t c).0.state ≡ half_open)
unfolding check_circuit
half_open_passes c t s = ground arith

-- A half-open circuit lets every request through, however many come before the first response.
pub half_open_admits_every :
    (c : UpstreamCircuit) (ts : List ℕ)
    → c.state ≡ half_open
    → All (λ r. r ≡ ok tt) (answers c ts) × ((run c (map request ts)).state ≡ half_open)
unfolding answers run step
half_open_admits_every c [] s = (tt, s)
half_open_admits_every c (t ∷ ts) s =
    let (r, s') = half_open_passes c t s in
    let (rs, s'') = half_open_admits_every (check_circuit t c).0 ts s' in ((r, rs), s'')

never_failed_blocked :
    (c : UpstreamCircuit) (t : ℕ)
    → c.state ≡ open_
    → c.last_failure_time ≡ none
    → let d = (check_circuit t c).0 in
      ((check_circuit t c).1 ≡ err open_) × (d.state ≡ open_) × (d.last_failure_time ≡ none)
unfolding check_circuit
never_failed_blocked c t s l = ground arith

never_failed_answers :
    (c : UpstreamCircuit) (ts : List ℕ)
    → c.state ≡ open_
    → c.last_failure_time ≡ none
    → All (λ r. r ≡ err open_) (answers c ts)
unfolding answers
never_failed_answers c [] s l = tt
never_failed_answers c (t ∷ ts) s l =
    let (r, s', l') = never_failed_blocked c t s l in
    (r, never_failed_answers (check_circuit t c).0 ts s' l')

abbrev pub unhealthy : ℕ → Event
unhealthy t = health t false

unhealthy-step :
    (c : UpstreamCircuit) (t : ℕ)
    → Inv c
    → c.last_failure_time ≡ none
    → let d = step c (unhealthy t) in
      (d.last_failure_time ≡ none)
      × (d.config ≡ c.config)
      × (c.state ≡ open_ → d.state ≡ open_)
      × (c.state ≡ closed
          → (d.state ≡ open_)
            ⊎ ((d.state ≡ closed) × (d.consecutive_failures ≡ c.consecutive_failures + 1)))
unfolding step health_circuit
unhealthy-step c t i l =
    (ground arith, ground arith, λ s. ground arith, λ s. ground (arith, i.closed_below s))

unhealthy_opens :
    (c : UpstreamCircuit) (hs : List ℕ)
    → Inv c
    → c.last_failure_time ≡ none
    → (c.state ≡ open_)
      ⊎ ((c.state ≡ closed) × (c.config.failure_threshold ≤ c.consecutive_failures + length hs))
    → ((run c (map unhealthy hs)).state ≡ open_)
      × ((run c (map unhealthy hs)).last_failure_time ≡ none)
unfolding run
unhealthy_opens c [] i l (inl s) = (s, l)
unhealthy_opens c [] i l (inr (s, h)) = absurd (omega (arith, i.closed_below s))
unhealthy_opens c (t ∷ hs) i l (inl s) =
    let (l', k', o, _) = unhealthy-step c t i l in
    unhealthy_opens (step c (unhealthy t)) hs (step-Inv c (unhealthy t) i) l' (inl (o s))
unhealthy_opens c (t ∷ hs) i l (inr (s, h)) =
    let (l', k', _, o) = unhealthy-step c t i l in
    unhealthy_opens (step c (unhealthy t)) hs (step-Inv c (unhealthy t) i) l'
      (elim (o s) [ inl p ↦ inl p | inr (p, q) ↦ inr (p, rw (k', q) (omega arith)) ])

-- A new circuit that failed health checks open, with no failed request, refuses every request at
-- any time after: the recovery timeout never lets one through.
pub health_opened_never_times_out :
    (config : CircuitBreakerConfig) (hs ts : List ℕ)
    → 0 < config.failure_threshold
    → config.failure_threshold < 2 ^ 32
    → config.failure_threshold ≤ length hs
    → All (λ r. r ≡ err open_) (answers (run (new_circuit config) (map unhealthy hs)) ts)
health_opened_never_times_out config hs ts p q h =
    let (s, l) =
      unhealthy_opens (new_circuit config) hs (new_circuit-Inv config p q)
        (unfold new_circuit in refl)
        (inr (unfold new_circuit in refl, unfold new_circuit in omega arith)) in
    never_failed_answers (run (new_circuit config) (map unhealthy hs)) ts s l
