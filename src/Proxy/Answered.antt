-- ===== src/Proxy/Answered.antt =====
-- crates/pqc-proxy/src/proxy.rs with circuit_breaker.rs: answers that fail open the circuit of their
-- upstream, and then requests are refused before they are sent.
use mathlib.Core.Path.{subst}
use pqc_gateway.Common.{
  ℕ, ◌+◌, ◌-◌, ◌≤◌, ◌<◌, ◌≡◌, refl, sym, ap, ◌∙◌, List, [], ◌∷◌, Str, codes, map, Bytes, if_elim,
  true, false, panic, Option, some, Outcome, done, Result, ok, err, length, done_unique, arith,
  str_instance,
}
use pqc_gateway.Common.Map.{lookup-insert_self}
use pqc_gateway.CircuitBreaker.{
  CircuitState, closed, open_, UpstreamCircuit, check_circuit, fail_circuit,
}
use pqc_gateway.CircuitBreaker.Answers.{blocked}
use pqc_gateway.CircuitBreaker.Invariant.{step, failure}
use pqc_gateway.CircuitBreaker.Manager.{CircuitBreakerManager, entry, check_request, record_failure}
use pqc_gateway.CircuitBreaker.Sound.{entry-Inv}
use pqc_gateway.CircuitBreaker.Trace.{run, failures_open_at_threshold}
use pqc_gateway.GatewayError.{upstream_connection, into_response, status_and_message}
use pqc_gateway.Proxy.{Outside, ProxyState, Response, error_response}
use pqc_gateway.Proxy.Admission.{Request, Forward, Decision, respond, admit_upstream, guarded}
use pqc_gateway.Proxy.Completion.{
  Answer, responded, failed, timed_out, is_server_error, tell_failure, tell_status, count_request,
  count_failure, signed_response, answer_body, complete,
}
use pqc_gateway.Proxy.Sound.{IsSound}
use pqc_gateway.Router.{Route}
use pqc_gateway.Signature.Keys.{SignatureOutput}

-- The last of some times, after the first one.
pub last_time : ℕ → List ℕ → ℕ
last_time t [] = t
last_time t (u ∷ us) = last_time u us

run_last :
    (c : UpstreamCircuit) (t : ℕ) (ts : List ℕ)
    → ((run c (map failure (t ∷ ts))).last_failure_time ≡ some (last_time t ts))
      × ((run c (map failure (t ∷ ts))).config ≡ c.config)
unfolding run step fail_circuit last_time
run_last c t [] = ground arith
run_last c t (u ∷ ts) = let (a, b) = run_last (fail_circuit t c) u ts in (a, b ∙ kept t c)
  where
    kept : (t : ℕ) (c : UpstreamCircuit) → (fail_circuit t c).config ≡ c.config
    kept t c = ground arith

-- Failures recorded in a row, by the manager and on the circuit.
pub fail_times : CircuitBreakerManager → Str → List ℕ → CircuitBreakerManager
fail_times m u [] = m
fail_times m u (t ∷ ts) = fail_times (record_failure t m u) u ts

entry-fail_times :
    (m : CircuitBreakerManager) (u : Str) (ts : List ℕ)
    → entry (fail_times m u ts) u ≡ run (entry m u) (map failure ts)
unfolding fail_times run step record_failure
entry-fail_times m u [] = refl
entry-fail_times m u (t ∷ ts) =
    entry-fail_times (record_failure t m u) u ts
    ∙ ap (λ c. run c (map failure ts))
        (rw (lookup-insert_self u (fail_circuit t (entry m u)) m.circuits) refl)

module _ (o : Outside) where
  open o use {cr, ht, fl}

  -- The client failed, or nothing came in time, or the status is that of a server's error.
  abbrev pub IsFailure : Answer o → Type 0
  IsFailure (responded status h read) = is_server_error status ≡ true
  IsFailure (failed e) = Unit
  IsFailure timed_out = Unit

  -- The breaker of the state has recorded a failure of the upstream, and the settings are the same.
  abbrev IsTold : ℕ → Str → ProxyState o → ProxyState o → Type 0
  IsTold now u s s' =
      (s'.circuit_breaker ≡ record_failure now s.circuit_breaker u)
      × (s'.config.circuit_breaker.enabled ≡ s.config.circuit_breaker.enabled)

  tell_failure-IsTold :
      (f : Forward o) (now : ℕ) (s : ProxyState o)
      → f.breaker_on ≡ true
      → IsTold now f.upstream s (tell_failure o f now s)
  unfolding tell_failure
  tell_failure-IsTold f now s b =
      if_elim (IsTold now f.upstream s) f.breaker_on _ _ (λ _. (refl, refl))
        (λ q. let wrong : true ≡ false = sym b ∙ q in cc)

  signed_state :
      (s s' : ProxyState o) (status : ℕ) (h : ht.Headers) (body : Bytes)
      (out : Outcome (Option SignatureOutput)) (r : Response o)
      → signed_response o s status h body out ≡ done (s', r)
      → s ≡ s'
  unfolding signed_response
  signed_state s s' status h body panic r q = cc
  signed_state s s' status h body (done out) r q = ap (λ p. p.0) (done_unique _ _ _ refl q)

  body_state :
      (s₀ s s' : ProxyState o) (f : Forward o) (now status : ℕ) (h : ht.Headers)
      (read : Result Bytes Str) (r : Response o)
      → IsTold now f.upstream s₀ s
      → answer_body o s f status h read ≡ done (s', r)
      → IsTold now f.upstream s₀ s'
  unfolding answer_body count_failure
  body_state s₀ s s' f now status h (err e) r p q =
      subst (IsTold now f.upstream s₀) (ap (λ x. x.0) (done_unique _ _ _ refl q)) p
  body_state s₀ s s' f now status h (ok body) r p q =
      subst (IsTold now f.upstream s₀) (signed_state s s' status h body _ r q) p

  -- A failing answer is recorded as a failure of the upstream.
  complete-IsTold :
      (now duration_ms : ℕ) (s s' : ProxyState o) (f : Forward o) (a : Answer o) (r : Response o)
      → f.breaker_on ≡ true
      → IsFailure a
      → complete o now duration_ms s f a ≡ done (s', r)
      → IsTold now f.upstream s s'
  unfolding complete tell_status count_request count_failure
  complete-IsTold now duration_ms s s' f (responded status h read) r b bad =
      if_elim {A = ProxyState o}
        (λ x.
          answer_body o (count_request o f status duration_ms x) f status h read ≡ done (s', r)
          → IsTold now f.upstream s s')
        (is_server_error status) _ _
        (λ _ q.
          body_state s (count_request o f status duration_ms (tell_failure o f now s)) s' f now
            status h read r (tell_failure-IsTold f now s b) q)
        (λ q. let wrong : true ≡ false = sym bad ∙ q in cc)
  complete-IsTold now duration_ms s s' f (failed e) r b bad = λ q.
      subst (IsTold now f.upstream s) (ap (λ x. x.0) (done_unique _ _ _ refl q))
        (tell_failure-IsTold f now s b)
  complete-IsTold now duration_ms s s' f timed_out r b bad = λ q.
      subst (IsTold now f.upstream s) (ap (λ x. x.0) (done_unique _ _ _ refl q))
        (tell_failure-IsTold f now s b)

  -- Failing answers to requests for one upstream, at these times, one after another.
  pub data FailedRun (f : Forward o) : ProxyState o → List ℕ → ProxyState o → Type 1 where
    no_more : (s : ProxyState o) → FailedRun f s [] s
    fails_then :
        (now duration_ms : ℕ) (s s' s'' : ProxyState o) (ts : List ℕ) (a : Answer o)
        (r : Response o)
        → IsFailure a
        → complete o now duration_ms s f a ≡ done (s', r)
        → FailedRun f s' ts s''
        → FailedRun f s (now ∷ ts) s''

  failed_breaker :
      (f : Forward o) (s s' : ProxyState o) (ts : List ℕ)
      → f.breaker_on ≡ true
      → FailedRun f s ts s'
      → (s'.circuit_breaker ≡ fail_times s.circuit_breaker f.upstream ts)
        × (s'.config.circuit_breaker.enabled ≡ s.config.circuit_breaker.enabled)
  unfolding fail_times
  failed_breaker f s _ _ b (no_more _) = (refl, refl)
  failed_breaker f s s'' _ b (fails_then now duration_ms _ s' _ ts a r bad q rest) =
      let (p, e) = complete-IsTold now duration_ms s s' f a r b bad q in
      let (p', e') = failed_breaker f s' s'' ts b rest in
      (p' ∙ ap (λ m. fail_times m f.upstream ts) p, e' ∙ e)

  guarded_refused :
      (s : ProxyState o) (req : Request o) (r : Route) (path u : Str)
      (answer : CircuitBreakerManager × Result (Unit {0}) CircuitState)
      → answer.1 ≡ err open_
      → (guarded o s req r path u answer).1
        ≡ respond (
            error_response o (
              upstream_connection (codes "circuit breaker open: upstream temporarily unavailable")))
  unfolding guarded
  guarded_refused s req r path u (b, result) e = rw e refl

  -- In a sound state whose circuit breaker is on, when answers for an upstream with a closed circuit
  -- have failed as often as the threshold asks, a request for that upstream is refused with the error
  -- of an open circuit, whose status is 502, and nothing is sent, until the recovery timeout has passed
  -- since the last one.
  pub failures_refuse :
      (s s' : ProxyState o) (f : Forward o) (t now : ℕ) (ts : List ℕ) (req : Request o) (r : Route)
      (path : Str)
      → IsSound o s
      → f.breaker_on ≡ true
      → s.config.circuit_breaker.enabled ≡ true
      → (entry s.circuit_breaker f.upstream).state ≡ closed
      → (entry s.circuit_breaker f.upstream).config.failure_threshold
        ≤ (entry s.circuit_breaker f.upstream).consecutive_failures + length (t ∷ ts)
      → FailedRun f s (t ∷ ts) s'
      → now - last_time t ts < (entry s.circuit_breaker f.upstream).config.recovery_timeout
      → ((admit_upstream o now s' req r path f.upstream).1
          ≡ respond (
              error_response o (
                upstream_connection
                  (codes "circuit breaker open: upstream temporarily unavailable"))))
        × ((error_response o (
              upstream_connection
                (codes "circuit breaker open: upstream temporarily unavailable"))).status
            ≡ 502)
  unfolding admit_upstream check_request error_response into_response status_and_message
  failures_refuse s s' f t now ts req r path v on enabled shut enough failing early =
      let c = entry s.circuit_breaker f.upstream in
      let (same, kept) = failed_breaker f s s' (t ∷ ts) on failing in
      let here : entry s'.circuit_breaker f.upstream ≡ run c (map failure (t ∷ ts)) =
        ap (λ m. entry m f.upstream) same
        ∙ entry-fail_times s.circuit_breaker f.upstream (t ∷ ts) in
      let opened =
        (failures_open_at_threshold c (t ∷ ts) (entry-Inv s.circuit_breaker f.upstream v.breaker)
            shut).1
          enough in
      let (last, config) = run_last c t ts in
      let (shut_out, _, _, _) =
        blocked (run c (map failure (t ∷ ts))) (last_time t ts) now opened last
          (subst (λ k. now - last_time t ts < k.recovery_timeout) (sym config) early) in
      (
        if_elim {A = ProxyState o × Decision o}
            (λ x.
              x.1
              ≡ respond (
                  error_response o (
                    upstream_connection
                      (codes "circuit breaker open: upstream temporarily unavailable"))))
            s'.config.circuit_breaker.enabled _ _
            (λ _.
              guarded_refused s' req r path f.upstream
                (check_request now s'.circuit_breaker f.upstream)
                (ap (λ k. (check_circuit now k).1) here ∙ shut_out))
            (λ q. let wrong : true ≡ false = sym enabled ∙ sym kept ∙ q in cc),
        refl,
      )
