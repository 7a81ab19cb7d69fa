-- ===== src/Config/Validate.antt =====
-- config.rs: exactly which configurations `validate` accepts, and what it reports.
use pqc_gateway.Common.{
  ◌≡◌, refl, ◌≢◌, ◌↔◌, true, List, [], ◌∷◌, ◌++◌, Str, ok, err, All, arith, if◌then◌else◌,
}
use pqc_gateway.Config.{
  RouteConfig, GatewayConfig, empty_path_prefix, empty_upstream, is_empty, validate_routes,
  validate_all, validate,
}

abbrev pub IsUsable : RouteConfig → Type 0
IsUsable r = (r.path_prefix ≢ []) × (r.upstream ≢ [])

is_empty_iff : (s : Str) → (is_empty s ≡ true) ↔ (s ≡ [])
is_empty_iff [] = (λ _. refl, λ _. refl)
is_empty_iff (c ∷ s) = (λ h. cc, λ h. cc)

validate_routes_iff : (rs : List RouteConfig) → (validate_routes rs ≡ ok tt) ↔ All IsUsable rs
unfolding validate_routes
validate_routes_iff [] = (λ _. tt, λ _. refl)
validate_routes_iff (r ∷ rs) = (
  λ h. ground (arith, is_empty_iff r.path_prefix, is_empty_iff r.upstream, validate_routes_iff rs),
  λ h. ground (arith, is_empty_iff r.path_prefix, is_empty_iff r.upstream, validate_routes_iff rs),
)

-- A configuration is accepted exactly when it has a route and every route has a path prefix and an
-- upstream.
pub validate_iff :
    (g : GatewayConfig) → (validate g ≡ ok tt) ↔ ((g.routes ≢ []) × All IsUsable g.routes)
unfolding validate
validate_iff g = routes_iff g.routes
  where
    routes_iff : (rs : List RouteConfig) → (validate_all rs ≡ ok tt) ↔ ((rs ≢ []) × All IsUsable rs)
    routes_iff [] = (λ h. cc, λ h. absurd (h.0 refl))
    routes_iff (r ∷ rs) = (
      λ h. (λ e. cc, (validate_routes_iff (r ∷ rs)).0 h),
      λ h. (validate_routes_iff (r ∷ rs)).1 h.1,
    )

validate_routes_first :
    (good : List RouteConfig) (bad : RouteConfig) (rest : List RouteConfig)
    → All IsUsable good
    → ¬ IsUsable bad
    → validate_routes (good ++ (bad ∷ rest))
      ≡ err (if is_empty bad.path_prefix then empty_path_prefix bad.id else empty_upstream bad.id)
unfolding validate_routes
validate_routes_first [] bad rest h n =
    ground (arith, is_empty_iff bad.path_prefix, is_empty_iff bad.upstream)
validate_routes_first (g ∷ gs) bad rest (h, hs) n = ground (
  arith,
  is_empty_iff g.path_prefix,
  is_empty_iff g.upstream,
  validate_routes_first gs bad rest hs n,
)

-- The report is about the first route that is not usable, its path prefix before its upstream.
pub validate_first :
    (g : GatewayConfig) (good : List RouteConfig) (bad : RouteConfig) (rest : List RouteConfig)
    → g.routes ≡ good ++ (bad ∷ rest)
    → All IsUsable good
    → ¬ IsUsable bad
    → validate g
      ≡ err (if is_empty bad.path_prefix then empty_path_prefix bad.id else empty_upstream bad.id)
unfolding validate
validate_first g good bad rest e h n = rw e (all good h)
  where
    all :
        (good : List RouteConfig)
        → All IsUsable good
        → validate_all (good ++ (bad ∷ rest))
          ≡ err
              (if is_empty bad.path_prefix then empty_path_prefix bad.id else empty_upstream bad.id)
    all [] h = validate_routes_first [] bad rest h n
    all (x ∷ xs) h = validate_routes_first (x ∷ xs) bad rest h n
