-- ===== src/Router/Order.antt =====
-- router.rs: the order in which `RouteMatcher::new` puts the routes, and that the longest prefix wins.
use mathlib.Core.List.{Memᴰ}
use mathlib.Core.Path.{subst}
use pqc_gateway.Common.{
  ℕ, ◌≤◌, ◌≡◌, refl, sym, inl, inr, List, [], ◌∷◌, Str, map, some, arith, All, if◌then◌else◌, leb,
  ◌==◌, length, Bool-cases, to_uppercase,
}
use pqc_gateway.Config.{RouteConfig}
use pqc_gateway.Router.{Route, from_config, insert_route, sort_routes, new_matcher, match_route}
use pqc_gateway.Router.Matching.{Accepts, IsFirst, here, later, match_route-IsFirst_iff}

abbrev pub prefix_length : Route → ℕ
prefix_length r = length r.path_prefix

abbrev pub IsDescending : List Route → Type 0
IsDescending [] = Unit
IsDescending (r ∷ rs) = All (λ s. prefix_length s ≤ prefix_length r) rs × IsDescending rs

-- The routes whose prefix has the length `n`, in order.
pub with_length : ℕ → List Route → List Route
with_length n [] = []
with_length n (r ∷ rs) =
    let rest = with_length n rs in if prefix_length r == n then r ∷ rest else rest

All-weaken :
    (a b : ℕ) (rs : List Route)
    → a ≤ b
    → All (λ s. prefix_length s ≤ a) rs
    → All (λ s. prefix_length s ≤ b) rs
All-weaken a b [] h hs = tt
All-weaken a b (r ∷ rs) h (k, hs) = (omega arith, All-weaken a b rs h hs)

All-insert_route {ℓ} :
    (P : Route → Type ℓ) (r : Route) (rs : List Route) → P r → All P rs → All P (insert_route r rs)
unfolding insert_route
All-insert_route P r [] h hs = (h, tt)
All-insert_route P r (s ∷ rs) h (k, hs) =
    elim (Bool-cases (leb (prefix_length s) (prefix_length r))) [
      | inl first ↦ rw first (h, (k, hs))
      | inr after ↦ rw after (k, All-insert_route P r rs h hs)
    ]

-- Sorting keeps what holds of every route.
pub sort_routes-All {ℓ} : (P : Route → Type ℓ) (rs : List Route) → All P rs → All P (sort_routes rs)
unfolding sort_routes
sort_routes-All P [] h = tt
sort_routes-All P (r ∷ rs) (h, hs) =
    All-insert_route P r (sort_routes rs) h (sort_routes-All P rs hs)

insert_route-IsDescending :
    (r : Route) (rs : List Route) → IsDescending rs → IsDescending (insert_route r rs)
unfolding insert_route
insert_route-IsDescending r [] d = (tt, tt)
insert_route-IsDescending r (s ∷ rs) (h, d) =
    elim (Bool-cases (leb (prefix_length s) (prefix_length r))) [
      | inl first ↦
          let le : prefix_length s ≤ prefix_length r = ground arith in
          rw first ((le, All-weaken (prefix_length s) (prefix_length r) rs le h), (h, d))
      | inr after ↦ rw after (
        All-insert_route (λ x. prefix_length x ≤ prefix_length s) r rs (ground arith) h,
        insert_route-IsDescending r rs d,
      )
    ]

with_length-insert_route :
    (n : ℕ) (r : Route) (rs : List Route)
    → with_length n (insert_route r rs) ≡ with_length n (r ∷ rs)
unfolding insert_route with_length
with_length-insert_route n r [] = refl
with_length-insert_route n r (s ∷ rs) = ground (arith, with_length-insert_route n r rs)

sort_routes-IsDescending : (rs : List Route) → IsDescending (sort_routes rs)
unfolding sort_routes
sort_routes-IsDescending [] = tt
sort_routes-IsDescending (r ∷ rs) =
    insert_route-IsDescending r (sort_routes rs) (sort_routes-IsDescending rs)

with_length-sort_routes :
    (n : ℕ) (rs : List Route) → with_length n (sort_routes rs) ≡ with_length n rs
unfolding sort_routes with_length
with_length-sort_routes n [] = refl
with_length-sort_routes n (r ∷ rs) =
    ground (arith, with_length-insert_route n r (sort_routes rs), with_length-sort_routes n rs)

-- The matcher holds the routes of the configuration with the longer prefixes first, and those of
-- each length in the order of the configuration.
pub new_matcher_sorted :
    (configs : List RouteConfig) (n : ℕ)
    → IsDescending (new_matcher configs)
      × (with_length n (new_matcher configs) ≡ with_length n (map from_config configs))
unfolding new_matcher
new_matcher_sorted configs n = (
  sort_routes-IsDescending (map from_config configs),
  with_length-sort_routes n (map from_config configs),
)

All-of_insert_route {ℓ} :
    (P : Route → Type ℓ) (r : Route) (rs : List Route) → All P (insert_route r rs) → P r × All P rs
unfolding insert_route
All-of_insert_route P r [] h = h
All-of_insert_route P r (s ∷ rs) h = elim (Bool-cases (leb (prefix_length s) (prefix_length r))) [
  | inl first ↦ rw first at h
  | inr after ↦
      let (k, hs) : P s × All P (insert_route r rs) = rw after at h in
      let (p, ps) = All-of_insert_route P r rs hs in (p, (k, ps))
]

All-of_sort_routes {ℓ} : (P : Route → Type ℓ) (rs : List Route) → All P (sort_routes rs) → All P rs
unfolding sort_routes
All-of_sort_routes P [] h = tt
All-of_sort_routes P (r ∷ rs) h =
    let (p, ps) = All-of_insert_route P r (sort_routes rs) h in (p, All-of_sort_routes P rs ps)

IsFirst-longest :
    (path method : Str) (r : Route) (rs : List Route)
    → IsDescending rs
    → IsFirst path method r rs
    → All (λ s. Accepts path method s → prefix_length s ≤ prefix_length r) rs
IsFirst-longest path method r [] d f = elim f [ ]
IsFirst-longest path method r (s ∷ rs) (h, d) (here a) = (λ _. omega arith, all_le rs h)
  where
    all_le :
        (rs : List Route)
        → All (λ x. prefix_length x ≤ prefix_length s) rs
        → All (λ x. Accepts path method x → prefix_length x ≤ prefix_length s) rs
    all_le [] _ = tt
    all_le (x ∷ xs) (k, ks) = (λ _. k, all_le xs ks)
IsFirst-longest path method r (s ∷ rs) (h, d) (later n f) =
    (λ a. absurd (n a), IsFirst-longest path method r rs d f)

All-of_map-from_config {ℓ} :
    (P : Route → Type ℓ) (configs : List RouteConfig)
    → All P (map from_config configs)
    → All (λ c. P (from_config c)) configs
All-of_map-from_config P [] h = tt
All-of_map-from_config P (c ∷ cs) (h, hs) = (h, All-of_map-from_config P cs hs)

All-Memᴰ {ℓ κ} : {A : Type ℓ} (P : A → Type κ) (x : A) (xs : List A) → All P xs → Memᴰ x xs → P x
All-Memᴰ P x [] h m = elim m [ ]
All-Memᴰ P x (y ∷ ys) (h, hs) (Memᴰ.head e) = subst P (sym e) h
All-Memᴰ P x (y ∷ ys) (h, hs) (Memᴰ.tail m) = All-Memᴰ P x ys hs m

-- The route that is found has the longest prefix of all configured routes that take the request.
pub longest_prefix_wins :
    (configs : List RouteConfig) (path method up : Str) (r : Route) (c : RouteConfig)
    → match_route (new_matcher configs) path method ≡ some (r, up)
    → Memᴰ c configs
    → Accepts path (to_uppercase method) (from_config c)
    → length c.path_prefix ≤ length r.path_prefix
unfolding new_matcher from_config
longest_prefix_wins configs path method up r c h m a =
    let (f, _) = (match_route-IsFirst_iff (new_matcher configs) path method up r).0 h in
    let P =
      λ (s : Route). Accepts path (to_uppercase method) s → prefix_length s ≤ prefix_length r in
    All-Memᴰ (λ (x : RouteConfig). P (from_config x)) c configs
      (All-of_map-from_config P configs (
        All-of_sort_routes P (map from_config configs) (
          IsFirst-longest path (to_uppercase method) r (new_matcher configs)
            (sort_routes-IsDescending (map from_config configs)) f)))
      m a
