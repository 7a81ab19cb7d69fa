-- ===== src/Metrics/Counting.antt =====
-- crates/pqc-proxy/src/metrics.rs: the counters of the routes add up to the total.
use pqc_gateway.Common.{
  All, ℕ, ◌+◌, ◌%◌, ◌^◌, ◌<◌, List, [], ◌∷◌, Str, Bool, Bool-cases, ◌≡◌, refl, inl, inr, arith,
}
use pqc_gateway.Common.Map.{Map, lookup, insert, Distinct, insert-Distinct}
use pqc_gateway.Common.MapLaws.{insert-All}
use pqc_gateway.Metrics.{
  RequestKey, request_key_eq, request_key_instance, GatewayMetrics, increment, count_or_zero, new,
  record_request, record_upstream_failure, record_rate_limit_rejection,
  record_circuit_breaker_rejection, record_auth_failure, inc_active_connections,
  dec_active_connections, set_ready,
}

-- The counters of all the routes, methods and statuses together.
unfoldable pub sum_counters : Map RequestKey ℕ → ℕ
sum_counters [] = 0
sum_counters ((k, v) ∷ counters) = v + sum_counters counters

-- Replacing the value of a key replaces it in the sum.
sum-insert :
    (k : RequestKey) (v : ℕ) (counters : Map RequestKey ℕ)
    → sum_counters (insert k v counters) + count_or_zero (lookup k counters)
      ≡ sum_counters counters + v
unfolding sum_counters insert lookup
sum-insert k v [] = omega arith
sum-insert k v ((j, w) ∷ counters) = elim (Bool-cases (request_key_eq j k)) [
  | inl h ↦ rw h (omega arith)
  | inr h ↦ rw h (omega (arith, sum-insert k v counters))
]

-- The calls that change the metrics.
pub data Event : Type 0 where
  request : Str → Str → ℕ → ℕ → Event
  upstream_failure rate_limit_rejection circuit_breaker_rejection auth_failure : Event
  connection_opened connection_closed : Event
  readiness : Bool → Event

unfoldable pub apply : GatewayMetrics → Event → GatewayMetrics
apply m (request route_id method status ms) = record_request m route_id method status ms
apply m upstream_failure = record_upstream_failure m
apply m rate_limit_rejection = record_rate_limit_rejection m
apply m circuit_breaker_rejection = record_circuit_breaker_rejection m
apply m auth_failure = record_auth_failure m
apply m connection_opened = inc_active_connections m
apply m connection_closed = dec_active_connections m
apply m (readiness b) = set_ready m b

unfoldable pub apply_all : GatewayMetrics → List Event → GatewayMetrics
apply_all m [] = m
apply_all m (e ∷ es) = apply_all (apply m e) es

-- The total is the sum of the counters, up to the wrap-around, and every counter, the total and that
-- of each key too, fits its type.
pub record IsConsistent (m : GatewayMetrics) : Type 0 where
  pub sum : sum_counters m.request_counters % 2 ^ 64 ≡ m.total_requests
  pub counters_u64 : All (λ p. p.1 < 2 ^ 64) m.request_counters
  pub total_u64 : m.total_requests < 2 ^ 64
  pub failures_u64 : m.upstream_failures < 2 ^ 64
  pub rate_limit_u64 : m.rate_limit_rejections < 2 ^ 64
  pub circuit_breaker_u64 : m.circuit_breaker_rejections < 2 ^ 64
  pub auth_u64 : m.auth_failures < 2 ^ 64
  pub connections_u64 : m.active_connections < 2 ^ 64
  pub keys : Distinct m.request_counters

pub apply-IsConsistent :
    (m : GatewayMetrics) (e : Event) → IsConsistent m → IsConsistent (apply m e)
unfolding apply record_request record_upstream_failure record_rate_limit_rejection
    record_circuit_breaker_rejection record_auth_failure inc_active_connections
    dec_active_connections set_ready
apply-IsConsistent m (request route_id method status ms) c =
    let key : RequestKey = record { route_id = route_id; method = method; status = status } in
    let old = count_or_zero (lookup key m.request_counters) in
    record {
      sum = omega (arith, sum-insert key (increment old) m.request_counters, c.sum);
      counters_u64 =
          insert-All (λ p. p.1 < 2 ^ 64) key (increment old) m.request_counters c.counters_u64
            (omega arith);
      total_u64 = omega arith;
      failures_u64 = c.failures_u64;
      rate_limit_u64 = c.rate_limit_u64;
      circuit_breaker_u64 = c.circuit_breaker_u64;
      auth_u64 = c.auth_u64;
      connections_u64 = c.connections_u64;
      keys = insert-Distinct key (increment old) m.request_counters c.keys;
    }
apply-IsConsistent m upstream_failure c = record {
  sum = c.sum;
  counters_u64 = c.counters_u64;
  total_u64 = c.total_u64;
  failures_u64 = omega arith;
  rate_limit_u64 = c.rate_limit_u64;
  circuit_breaker_u64 = c.circuit_breaker_u64;
  auth_u64 = c.auth_u64;
  connections_u64 = c.connections_u64;
  keys = c.keys;
}
apply-IsConsistent m rate_limit_rejection c = ground arith
apply-IsConsistent m circuit_breaker_rejection c = ground arith
apply-IsConsistent m auth_failure c = ground arith
apply-IsConsistent m connection_opened c = ground arith
apply-IsConsistent m connection_closed c = ground arith
apply-IsConsistent m (readiness b) c = ground arith

apply_all-IsConsistent :
    (m : GatewayMetrics) (es : List Event) → IsConsistent m → IsConsistent (apply_all m es)
unfolding apply_all
apply_all-IsConsistent m [] c = c
apply_all-IsConsistent m (e ∷ es) c =
    apply_all-IsConsistent (apply m e) es (apply-IsConsistent m e c)

-- Whatever is recorded, in any order, the total of requests is the sum of the counters of the
-- routes, methods and statuses modulo 2^64, no key has two counters, and every counter, the total and
-- that of each key too, is below 2^64.
pub apply_all-new-IsConsistent : (es : List Event) → IsConsistent (apply_all new es)
unfolding new sum_counters
apply_all-new-IsConsistent es = apply_all-IsConsistent new es (record {
  sum = refl;
  counters_u64 = tt;
  total_u64 = omega arith;
  failures_u64 = omega arith;
  rate_limit_u64 = omega arith;
  circuit_breaker_u64 = omega arith;
  auth_u64 = omega arith;
  connections_u64 = omega arith;
  keys = tt;
})
