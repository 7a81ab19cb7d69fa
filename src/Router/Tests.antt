-- ===== src/Router/Tests.antt =====
-- The scenarios of the unit tests of router.rs.
use mathlib.Core.List.{Memᴰ}
use pqc_gateway.Common.{
  ◌%◌, ◌≤◌, ◌≡◌, refl, ◌↔◌, true, false, none, some, List, [], ◌∷◌, ◌++◌, map, Str, codes, arith,
  length, take, drop, to_uppercase, starts_with, str_eq, contains, strip_prefix, trim_end_matches,
  done, length,
}
use pqc_gateway.Config.{RouteConfig}
use pqc_gateway.Router.{
  Route, from_config, next_upstream, new_matcher, sort_routes, match_route, accepts_path,
  accepts_method, upstream_path,
}
use pqc_gateway.Router.Fits.{IsRewritten}
use pqc_gateway.Router.Matching.{IsFirstFit, match_route_iff}
use pqc_gateway.Router.Order.{longest_prefix_wins}
use pqc_gateway.Router.Balance.{picks, round_robin}

abbrev short_cfg : RouteConfig
short_cfg = record {
  id = codes "short";
  path_prefix = codes "/api";
  upstream = codes "http://short:9001";
  upstreams = [];
  strip_prefix = false;
  methods = codes "get" ∷ [];
  timeout_ms = 5000;
  signature_mode = none;
  rate_limit = none;
  max_request_body_bytes = none;
  mtls = none;
  upstream_tls = false;
}

abbrev long_cfg : RouteConfig
long_cfg = record short_cfg {
  id = codes "long";
  path_prefix = codes "/api/v1/items";
  upstreams = codes "http://b:9002" ∷ codes "http://c:9003" ∷ [];
  strip_prefix = true;
}

abbrev configs : List RouteConfig
configs = short_cfg ∷ long_cfg ∷ []

abbrev path : Str
path = codes "/api/v1/items/42"

abbrev long_route : Route
long_route = record {
  id = codes "long";
  path_prefix = codes "/api/v1/items";
  upstreams = codes "http://short:9001" ∷ codes "http://b:9002" ∷ codes "http://c:9003" ∷ [];
  upstream = codes "http://short:9001";
  strip_prefix = true;
  methods = codes "GET" ∷ [];
  timeout_ms = 5000;
  signature_mode = none;
  rate_limit = none;
  max_request_body_bytes = none;
  upstream_tls = false;
}

longer_prefix :
    match_route (new_matcher configs) path (codes "GET") ≡ some (long_route, codes "/42")
unfolding match_route new_matcher sort_routes from_config to_uppercase accepts_path accepts_method
    upstream_path starts_with contains strip_prefix str_eq trim_end_matches
longer_prefix = refl

match_route_iff_example :
    (match_route (new_matcher configs) path (codes "GET") ≡ some (long_route, codes "/42")) ↔ (
      IsFirstFit path (to_uppercase (codes "GET")) long_route (new_matcher configs)
      × IsRewritten long_route path (codes "/42"))
match_route_iff_example =
    match_route_iff (new_matcher configs) path (codes "GET") (codes "/42") long_route

longest_prefix_wins_example : length (codes "/api") ≤ length (codes "/api/v1/items")
unfolding accepts_path accepts_method from_config to_uppercase starts_with contains str_eq
longest_prefix_wins_example =
    longest_prefix_wins configs path (codes "GET") (codes "/42") long_route short_cfg longer_prefix
      (Memᴰ.head refl) (refl, refl)

abbrev three : List Str
three = codes "http://a:9001" ∷ codes "http://b:9001" ∷ codes "http://c:9001" ∷ []

round_robin_example :
    picks (length three) 4 three
    ≡ map done (drop (4 % length three) three ++ take (4 % length three) three)
round_robin_example = round_robin three 4 (omega arith) (omega arith)

round_robin_runs :
    picks 3 4 three
    ≡ done (codes "http://b:9001")
      ∷ done (codes "http://c:9001")
      ∷ done (codes "http://a:9001")
      ∷ []
unfolding picks next_upstream
round_robin_runs = refl
