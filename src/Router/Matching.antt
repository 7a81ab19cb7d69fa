-- ===== src/Router/Matching.antt =====
-- router.rs: which route `match_route` finds, and the path that it rewrites the request to.
use mathlib.Core.Path.{subst, ap₂}
use pqc_gateway.Common.{
  ℕ, ◌≡◌, refl, sym, ap, ◌∙◌, ◌↔◌, ◌⊎◌, inl, inr, true, ◌||◌, Option, none, some, List, [], ◌∷◌,
  ◌++◌, Str, starts_with, strip_prefix_iff, upper, to_uppercase, arith, All, if◌then◌else◌,
  Bool-cases,
}
use pqc_gateway.Config.{is_empty}
use pqc_gateway.Router.Fits.{Fits, Fits-iff, IsRewritten, upstream_path_iff}
use pqc_gateway.Router.{
  Route, accepts_path, accepts_method, slashed, upstream_path, find_route, match_route,
}

-- A route that takes a request for the path, with the method in upper case.
abbrev pub Accepts : Str → Str → Route → Type 0
Accepts path method r = (accepts_path r path ≡ true) × (accepts_method r method ≡ true)

-- The first route of the list that takes the request, with those before it that do not.
pub data IsFirst (path method : Str) (r : Route) : List Route → Type 0 where
  here : {rs : List Route} → Accepts path method r → IsFirst path method r (r ∷ rs)
  later :
      {s : Route} {rs : List Route}
      → ¬ Accepts path method s
      → IsFirst path method r rs
      → IsFirst path method r (s ∷ rs)

some_pair {ℓ κ} :
    {A : Type ℓ} {B : Type κ} {a c : A} {b d : B}
    → ◌≡◌ {A = Option (A × B)} (some (a, b)) (some (c, d))
    → (a ≡ c) × (b ≡ d)
some_pair h = ground arith

Accepts-cases : (path method : Str) (r : Route) → Accepts path method r ⊎ (¬ Accepts path method r)
Accepts-cases path method r = elim (Bool-cases (accepts_path r path)) [
  | inr no_ ↦ inr (λ a. cc (sym a.0))
  | inl p ↦ elim (Bool-cases (accepts_method r method)) [
    | inr no_ ↦ inr (λ a. cc (sym a.1))
    | inl q ↦ inl (p, q)
  ]
]

find_route-accept :
    (r : Route) (rs : List Route) (path method : Str)
    → Accepts path method r
    → find_route (r ∷ rs) path method ≡ some (r, upstream_path r path)
unfolding find_route
find_route-accept r rs path method (p, q) = rw (p, q)

find_route-skip :
    (r : Route) (rs : List Route) (path method : Str)
    → ¬ Accepts path method r
    → find_route (r ∷ rs) path method ≡ find_route rs path method
unfolding find_route
find_route-skip r rs path method h = elim (Bool-cases (accepts_path r path)) [
  | inr no_ ↦ rw no_
  | inl p ↦ elim (Bool-cases (accepts_method r method)) [
    | inr no_ ↦ rw (p, no_)
    | inl q ↦ absurd (h (p, q))
  ]
]

find_route_sound :
    (routes : List Route) (path method up : Str) (r : Route)
    → find_route routes path method ≡ some (r, up)
    → IsFirst path method r routes × (up ≡ upstream_path r path)
find_route_sound [] path method up r h = unfold find_route in cc
find_route_sound (s ∷ rs) path method up r h = elim (Accepts-cases path method s) [
  | inl a ↦
      let (same, up_same) = some_pair (sym (find_route-accept s rs path method a) ∙ h) in
      (
        subst (λ x. IsFirst path method x (s ∷ rs)) same (here a),
        sym up_same ∙ ap (λ x. upstream_path x path) same,
      )
  | inr n ↦
      let (f, e) =
        find_route_sound rs path method up r (sym (find_route-skip s rs path method n) ∙ h) in
      (later n f, e)
]

find_route_complete :
    (routes : List Route) (path method : Str) (r : Route)
    → IsFirst path method r routes
    → find_route routes path method ≡ some (r, upstream_path r path)
find_route_complete [] path method r f = elim f [ ]
find_route_complete (s ∷ rs) path method r (here a) = find_route-accept r rs path method a
find_route_complete (s ∷ rs) path method r (later n f) =
    find_route-skip s rs path method n ∙ find_route_complete rs path method r f

-- `match_route` finds a route exactly when it is the first of the list that passes its two tests.
pub match_route-IsFirst_iff :
    (routes : List Route) (path method up : Str) (r : Route)
    → (match_route routes path method ≡ some (r, up))
      ↔ (IsFirst path (to_uppercase method) r routes × (up ≡ upstream_path r path))
unfolding match_route
match_route-IsFirst_iff routes path method up r = (
  λ h. find_route_sound routes path (to_uppercase method) up r h,
  λ (f, e). rw e (find_route_complete routes path (to_uppercase method) r f),
)

-- The first route of the list that fits the request, with those before it that do not.
pub data IsFirstFit (path method : Str) (r : Route) : List Route → Type 0 where
  first_fit : {rs : List Route} → Fits path method r → IsFirstFit path method r (r ∷ rs)
  later_fit :
      {s : Route} {rs : List Route}
      → ¬ Fits path method s
      → IsFirstFit path method r rs
      → IsFirstFit path method r (s ∷ rs)

IsFirst-of_fit :
    (path method : Str) (r : Route) (rs : List Route)
    → IsFirstFit path method r rs
    → IsFirst path method r rs
IsFirst-of_fit path method r _ (first_fit h) = here ((Fits-iff path method r).1 h)
IsFirst-of_fit path method r (s ∷ rs) (later_fit n f) =
    later (λ a. n ((Fits-iff path method s).0 a)) (IsFirst-of_fit path method r rs f)

IsFirstFit-of_first :
    (path method : Str) (r : Route) (rs : List Route)
    → IsFirst path method r rs
    → IsFirstFit path method r rs
IsFirstFit-of_first path method r _ (here h) = first_fit ((Fits-iff path method r).0 h)
IsFirstFit-of_first path method r (s ∷ rs) (later n f) =
    later_fit (λ a. n ((Fits-iff path method s).1 a)) (IsFirstFit-of_first path method r rs f)

-- `match_route` finds a route and a path exactly when the route is the first of the list that fits
-- the request: the path begins with its prefix, or is the prefix without its trailing slashes, and it
-- names no method at all or the method of the request in upper case. The path is that of the request,
-- or, where the route strips its prefix, the rest after it, with a slash put in front of a rest that
-- is not empty and has none, and empty where the path does not begin with the prefix.
pub match_route_iff :
    (routes : List Route) (path method up : Str) (r : Route)
    → (match_route routes path method ≡ some (r, up))
      ↔ (IsFirstFit path (to_uppercase method) r routes × IsRewritten r path up)
match_route_iff routes path method up r =
    let (to, from) = match_route-IsFirst_iff routes path method up r in
    let (w, w') = upstream_path_iff r path up in
    let m = to_uppercase method in
    (
      (λ h. let (f, e) = to h in (IsFirstFit-of_first path m r routes f, w e)),
      (λ (f, e). from (IsFirst-of_fit path m r routes f, w' e)),
    )

find_route-none :
    (routes : List Route) (path method : Str)
    → (find_route routes path method ≡ none) ↔ All (λ r. ¬ Accepts path method r) routes
find_route-none [] path method = (λ h. tt, λ h. unfold find_route in refl)
find_route-none (s ∷ rs) path method = elim (Accepts-cases path method s) [
  | inl a ↦
      (λ h. absurd (cc (sym (find_route-accept s rs path method a) ∙ h)), λ (n, ns). absurd (n a))
  | inr n ↦ (
    λ h. (n, (find_route-none rs path method).0 (sym (find_route-skip s rs path method n) ∙ h)),
    λ (_, ns). find_route-skip s rs path method n ∙ (find_route-none rs path method).1 ns,
  )
]

-- `match_route` finds nothing exactly when no route takes the request.
pub match_route-none_iff :
    (routes : List Route) (path method : Str)
    → (match_route routes path method ≡ none)
      ↔ All (λ r. ¬ Accepts path (to_uppercase method) r) routes
unfolding match_route
match_route-none_iff routes path method = find_route-none routes path (to_uppercase method)

upper_idempotent : (c : ℕ) → upper (upper c) ≡ upper c
unfolding upper
upper_idempotent c = ground arith

to_uppercase_idempotent : (s : Str) → to_uppercase (to_uppercase s) ≡ to_uppercase s
unfolding to_uppercase
to_uppercase_idempotent [] = refl
to_uppercase_idempotent (c ∷ s) = ap₂ ◌∷◌ (upper_idempotent c) (to_uppercase_idempotent s)

-- The case of the request's method makes no difference.
pub match_route_case :
    (routes : List Route) (path method : Str)
    → match_route routes path (to_uppercase method) ≡ match_route routes path method
unfolding match_route
match_route_case routes path method = rw to_uppercase_idempotent

slashed_lem :
    (rest : Str)
    → slashed (some rest)
      ≡ (if is_empty rest || starts_with rest (b'/' ∷ []) then rest else b'/' ∷ rest)
unfolding slashed
slashed_lem [] = refl
slashed_lem (c ∷ s) = refl

-- For a path under the prefix of a route, what goes to the upstream is the whole path or, with
-- `strip_prefix`, the rest after the prefix, with a slash put in front of a rest that is not empty
-- and does not begin with one.
pub upstream_path_under_prefix :
    (r : Route) (rest : Str)
    → upstream_path r (r.path_prefix ++ rest) ≡ (
        if r.strip_prefix
        then if is_empty rest || starts_with rest (b'/' ∷ []) then rest else b'/' ∷ rest
        else r.path_prefix ++ rest)
unfolding upstream_path
upstream_path_under_prefix r rest =
    rw ((strip_prefix_iff (r.path_prefix ++ rest) r.path_prefix rest).1 refl)
      (ap (λ (p : Str). if r.strip_prefix then p else r.path_prefix ++ rest) (slashed_lem rest))
