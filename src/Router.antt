-- ===== src/Router.antt =====
-- crates/pqc-proxy/src/router.rs: routes, the round-robin load balancer and the route matcher.
-- Texts are ASCII where their case is changed. The atomic counter of the load balancer is a number
-- that a pick returns with its result.
mod Fits
pub mod Matching
pub mod Order
pub mod Balance
mod Tests
use pqc_gateway.Common.{
  ℕ, zero, suc, ◌+◌, ◌%◌, ◌^◌, Bool, true, false, ◌&&◌, ◌||◌, not, Option, none, some, List, [],
  ◌∷◌, map, Str, str_eq, str_instance, starts_with, strip_prefix, trim_end_matches, to_uppercase,
  contains, length, get_elem?, leb, if◌then◌else◌, Outcome, done, panic,
}
use pqc_gateway.Config.{RouteConfig, RouteRateLimit, all_upstreams, is_empty}
use pqc_gateway.Signature.{SignatureMode, from_str, ok?}

pub record Route : Type 0 where
  pub id : Str
  pub path_prefix : Str
  pub upstreams : List Str
  pub upstream : Str
  pub strip_prefix : Bool
  pub methods : List Str
  pub timeout_ms : ℕ
  pub signature_mode : Option SignatureMode
  pub rate_limit : Option (ℕ × ℕ)
  pub max_request_body_bytes : Option ℕ
  pub upstream_tls : Bool

parsed_mode : Option Str → Option SignatureMode
parsed_mode none = none
parsed_mode (some s) = ok? (from_str s)

limit_pair : Option RouteRateLimit → Option (ℕ × ℕ)
limit_pair none = none
limit_pair (some rl) = some (rl.requests, rl.window_seconds)

-- `Route::from`. The list of `all_upstreams` begins with the primary one, so `upstreams[0]` is it.
unfoldable pub from_config : RouteConfig → Route
unfolding all_upstreams parsed_mode limit_pair
from_config cfg = record {
  id = cfg.id;
  path_prefix = cfg.path_prefix;
  upstreams = all_upstreams cfg;
  upstream = cfg.upstream;
  strip_prefix = cfg.strip_prefix;
  methods = map to_uppercase cfg.methods;
  timeout_ms = cfg.timeout_ms;
  signature_mode = parsed_mode cfg.signature_mode;
  rate_limit = limit_pair cfg.rate_limit;
  max_request_body_bytes = cfg.max_request_body_bytes;
  upstream_tls = cfg.upstream_tls;
}

abbrev index : List Str → ℕ → Outcome Str
index upstreams i = elim (get_elem? upstreams i) [ none ↦ panic | some u ↦ done u ]

-- `next_upstream`: the new counter, and the upstream or a panic on an empty list.
unfoldable pub next_upstream : ℕ → List Str → ℕ × Outcome Str
next_upstream counter upstreams =
    if leb (length upstreams) 1
    then (counter, index upstreams 0)
    else ((counter + 1) % 2 ^ 64, index upstreams (counter % length upstreams))

-- `sort_by` with the longer prefix first. The standard library's sort is stable.
insert_route : Route → List Route → List Route
insert_route r [] = r ∷ []
insert_route r (s ∷ rs) =
    let rest = insert_route r rs in
    if leb (length s.path_prefix) (length r.path_prefix) then r ∷ s ∷ rs else s ∷ rest

unfoldable pub sort_routes : List Route → List Route
unfolding insert_route
sort_routes [] = []
sort_routes (r ∷ rs) = insert_route r (sort_routes rs)

-- `RouteMatcher::new`.
unfoldable pub new_matcher : List RouteConfig → List Route
new_matcher configs = sort_routes (map from_config configs)

is_empty_list : List Str → Bool
is_empty_list [] = true
is_empty_list (m ∷ ms) = false

-- The two tests of the loop of `match_route`.
unfoldable pub accepts_path : Route → Str → Bool
accepts_path r path =
    starts_with path r.path_prefix || str_eq path (trim_end_matches b'/' r.path_prefix)

unfoldable pub accepts_method : Route → Str → Bool
unfolding is_empty_list
accepts_method r method_upper = is_empty_list r.methods || contains r.methods method_upper

-- The path that is left after the prefix, with a slash in front.
slashed : Option Str → Str
slashed none = []
slashed (some []) = []
slashed (some (c ∷ s)) = if starts_with (c ∷ s) (b'/' ∷ []) then c ∷ s else b'/' ∷ c ∷ s

unfoldable pub upstream_path : Route → Str → Str
unfolding slashed
upstream_path r path = if r.strip_prefix then slashed (strip_prefix path r.path_prefix) else path

-- The loop of `match_route`.
unfoldable pub find_route : List Route → Str → Str → Option (Route × Str)
find_route [] path method_upper = none
find_route (r ∷ rs) path method_upper =
    let rest = find_route rs path method_upper in
    if accepts_path r path
    then if accepts_method r method_upper then some (r, upstream_path r path) else rest
    else rest

unfoldable pub match_route : List Route → Str → Str → Option (Route × Str)
unfolding find_route
match_route routes path method = find_route routes path (to_uppercase method)
