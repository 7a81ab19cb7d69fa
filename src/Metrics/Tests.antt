-- ===== src/Metrics/Tests.antt =====
-- Counters at work: the scenarios of the unit tests of metrics.rs.
use pqc_gateway.Common.{◌≡◌, refl, [], ◌∷◌, codes, str_instance, List}
use pqc_gateway.Common.Decimal.{decimal, decimal_loop}
use pqc_gateway.Metrics.{
  request_key_instance, new, record_request, request_lines, to_json, dec_active_connections,
}
use pqc_gateway.Metrics.Counting.{
  Event, request, connection_closed, IsConsistent, apply, apply_all, apply_all-new-IsConsistent,
}

abbrev three_requests : List Event
three_requests =
    request (codes "r1") (codes "GET") 200 42
    ∷ request (codes "r1") (codes "GET") 200 50
    ∷ request (codes "r1") (codes "POST") 201 100
    ∷ []

apply_all-new-IsConsistent_example : IsConsistent (apply_all new three_requests)
apply_all-new-IsConsistent_example = apply_all-new-IsConsistent three_requests

three_counted : (to_json (apply_all new three_requests)).total_requests ≡ 3
unfolding to_json apply_all apply new record_request
three_counted = refl

-- A connection that is closed without being opened wraps the gauge around.
closed_first :
    (to_json (apply_all new (connection_closed ∷ []))).active_connections
    ≡ 18_446_744_073_709_551_615
unfolding to_json apply_all apply new dec_active_connections
closed_first = refl

one_line :
    request_lines ((record { route_id = codes "a"; method = codes "GET"; status = 200 }, 7) ∷ [])
    ≡ codes "gateway_requests_total{route=\"a\",method=\"GET\",status=\"200\"} 7\n"
unfolding request_lines decimal decimal_loop
one_line = refl
