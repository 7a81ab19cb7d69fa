-- ===== src/Metrics.antt =====
-- crates/pqc-proxy/src/metrics.rs: the counters of the gateway. An atomic counter is a number that
-- wraps around at 2^64; the maps are association lists, in the order that `iter` shows them.
pub mod Counting
mod Tests
use pqc_gateway.Common.{
  ℕ, ◌+◌, ◌-◌, ◌%◌, ◌^◌, List, [], ◌∷◌, ◌++◌, Str, codes, str_eq, str_eq_iff, str_instance, Bool,
  true, ◌&&◌, ◌==◌, ==_iff, Eq, ◌↔◌, ◌≡◌, Option, none, some, arith,
}
use pqc_gateway.Common.Map.{Map, lookup, insert}
use pqc_gateway.Common.Decimal.{decimal}

pub record RequestKey : Type 0 where
  pub route_id : Str
  pub method : Str
  pub status : ℕ  -- u16

abbrev pub request_key_eq : RequestKey → RequestKey → Bool
request_key_eq a b =
    str_eq a.route_id b.route_id && str_eq a.method b.method && a.status == b.status

pub request_key_eq_iff : (a b : RequestKey) → (request_key_eq a b ≡ true) ↔ (a ≡ b)
request_key_eq_iff a b =
    ground (arith, str_eq_iff a.route_id b.route_id, str_eq_iff a.method b.method)

instance abbrev pub request_key_instance : Eq RequestKey
request_key_instance = record { beq = request_key_eq; beq_iff = request_key_eq_iff }

pub record GatewayMetrics : Type 0 where
  pub request_counters : Map RequestKey ℕ
  pub upstream_failures : ℕ
  pub rate_limit_rejections : ℕ
  pub circuit_breaker_rejections : ℕ
  pub auth_failures : ℕ
  pub total_requests : ℕ
  pub active_connections : ℕ
  pub duration_buckets : Map Str (List ℕ)
  pub ready : Bool

unfoldable pub new : GatewayMetrics
new = record {
  request_counters = [];
  upstream_failures = 0;
  rate_limit_rejections = 0;
  circuit_breaker_rejections = 0;
  auth_failures = 0;
  total_requests = 0;
  active_connections = 0;
  duration_buckets = [];
  ready = true;
}

-- `fetch_add(1)`.
abbrev pub increment : ℕ → ℕ
increment n = (n + 1) % 2 ^ 64

-- `or_insert_with`.
abbrev pub count_or_zero : Option ℕ → ℕ
count_or_zero none = 0
count_or_zero (some n) = n

abbrev pub durations_or_none : Option (List ℕ) → List ℕ
durations_or_none none = []
durations_or_none (some ds) = ds

unfoldable pub record_request : GatewayMetrics → Str → Str → ℕ → ℕ → GatewayMetrics
record_request m route_id method status duration_ms =
    let key : RequestKey = record { route_id = route_id; method = method; status = status } in
    record m {
      total_requests = increment m.total_requests;
      request_counters =
          insert key (increment (count_or_zero (lookup key m.request_counters))) m.request_counters;
      duration_buckets =
          insert route_id
            (durations_or_none (lookup route_id m.duration_buckets) ++ (duration_ms ∷ []))
            m.duration_buckets;
    }

unfoldable pub record_upstream_failure : GatewayMetrics → GatewayMetrics
record_upstream_failure m = record m { upstream_failures = increment m.upstream_failures }

unfoldable pub record_rate_limit_rejection : GatewayMetrics → GatewayMetrics
record_rate_limit_rejection m = record m {
  rate_limit_rejections = increment m.rate_limit_rejections;
}

unfoldable pub record_circuit_breaker_rejection : GatewayMetrics → GatewayMetrics
record_circuit_breaker_rejection m = record m {
  circuit_breaker_rejections = increment m.circuit_breaker_rejections;
}

unfoldable pub record_auth_failure : GatewayMetrics → GatewayMetrics
record_auth_failure m = record m { auth_failures = increment m.auth_failures }

unfoldable pub inc_active_connections : GatewayMetrics → GatewayMetrics
inc_active_connections m = record m { active_connections = increment m.active_connections }

-- `fetch_sub(1)`.
unfoldable pub dec_active_connections : GatewayMetrics → GatewayMetrics
dec_active_connections m = record m {
  active_connections = (m.active_connections + (2 ^ 64 - 1)) % 2 ^ 64;
}

unfoldable pub set_ready : GatewayMetrics → Bool → GatewayMetrics
set_ready m ready = record m { ready = ready }

-- A line of the text output; a newline ends it.
abbrev line : Str → Str
line s = s ++ (10 ∷ [])

-- The two comment lines of a counter that is one number, and its value.
unfoldable pub counter_lines : Str → Str → Str → ℕ → Str
counter_lines name help kind value =
    line (codes "# HELP " ++ name ++ codes " " ++ help)
    ++ line (codes "# TYPE " ++ name ++ codes " " ++ kind)
    ++ line (name ++ codes " " ++ decimal value)

unfoldable pub request_lines : Map RequestKey ℕ → Str
request_lines [] = []
request_lines ((k, v) ∷ counters) =
    line (
      codes "gateway_requests_total{route=\""
      ++ k.route_id
      ++ codes "\",method=\""
      ++ k.method
      ++ codes "\",status=\""
      ++ decimal k.status
      ++ codes "\"} "
      ++ decimal v)
    ++ request_lines counters

unfoldable pub render_prometheus : GatewayMetrics → Str
render_prometheus m =
    line (codes "# HELP gateway_requests_total Total requests proxied.")
    ++ line (codes "# TYPE gateway_requests_total counter")
    ++ request_lines m.request_counters
    ++ counter_lines (codes "gateway_upstream_failures_total") (codes "Total upstream failures.")
        (codes "counter") m.upstream_failures
    ++ counter_lines (codes "gateway_rate_limit_rejections_total")
        (codes "Total rate limit rejections.") (codes "counter") m.rate_limit_rejections
    ++ counter_lines (codes "gateway_circuit_breaker_rejections_total")
        (codes "Total circuit breaker rejections.") (codes "counter") m.circuit_breaker_rejections
    ++ counter_lines (codes "gateway_auth_failures_total") (codes "Total authentication failures.")
        (codes "counter") m.auth_failures
    ++ counter_lines (codes "gateway_active_connections") (codes "Current active connections.")
        (codes "gauge") m.active_connections

-- The summary of `to_json`, with the fields of its JSON object.
pub record Summary : Type 0 where
  pub total_requests : ℕ
  pub upstream_failures : ℕ
  pub rate_limit_rejections : ℕ
  pub circuit_breaker_rejections : ℕ
  pub auth_failures : ℕ
  pub active_connections : ℕ
  pub ready : Bool
  pub routes : Map Str ℕ

-- The loop of `to_json`: a route's statistics under `route.method.status`.
unfoldable pub route_stats : Map RequestKey ℕ → Map Str ℕ → Map Str ℕ
route_stats [] stats = stats
route_stats ((k, v) ∷ counters) stats =
    route_stats counters
      (insert (k.route_id ++ codes "." ++ k.method ++ codes "." ++ decimal k.status) v stats)

unfoldable pub to_json : GatewayMetrics → Summary
to_json m = record {
  total_requests = m.total_requests;
  upstream_failures = m.upstream_failures;
  rate_limit_rejections = m.rate_limit_rejections;
  circuit_breaker_rejections = m.circuit_breaker_rejections;
  auth_failures = m.auth_failures;
  active_connections = m.active_connections;
  ready = m.ready;
  routes = route_stats m.request_counters [];
}
