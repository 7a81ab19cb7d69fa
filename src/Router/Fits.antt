-- ===== src/Router/Fits.antt =====
-- router.rs: what it means that a route takes a request, and the path that the upstream sees, in terms
-- of the texts alone.
use mathlib.Core.List.{Memᴰ}
use pqc_gateway.Common.{
  ℕ, ◌≡◌, ◌≢◌, refl, sym, ap, ◌∙◌, ◌↔◌, ◌⊎◌, inl, inr, true, false, ◌||◌, Bool, Bool-cases, Option,
  none, some, List, [], ◌∷◌, ◌++◌, ◌==◌, ==_iff, Str, str_eq, str_eq_iff, str_instance, starts_with,
  starts_with_iff, strip_prefix, strip_prefix_iff, trim_end_matches, contains, if◌then◌else◌,
}
use pqc_gateway.Router.{Route, accepts_path, accepts_method, is_empty_list, slashed, upstream_path}

-- The path begins with the prefix of the route, or is the prefix without its trailing slashes.
abbrev pub FitsPath : Str → Route → Type 0
FitsPath path r =
    ((rest : Str) × (path ≡ r.path_prefix ++ rest)) ⊎ (path ≡ trim_end_matches b'/' r.path_prefix)

-- The route names no method at all, or this one.
abbrev pub FitsMethod : Str → Route → Type 0
FitsMethod method r = (r.methods ≡ []) ⊎ Memᴰ method r.methods

abbrev pub Fits : Str → Str → Route → Type 0
Fits path method r = FitsPath path r × FitsMethod method r

-- What is left of a path, with a slash in front.
abbrev pub IsSlashed : Str → Str → Type 0
IsSlashed rest up =
    ((rest ≡ []) × (up ≡ []))
    ⊎ (((s : Str) × (rest ≡ b'/' ∷ s) × (up ≡ rest))
        ⊎ ((c : ℕ) × (s : Str) × (rest ≡ c ∷ s) × (c ≢ b'/') × (up ≡ b'/' ∷ rest)))

-- A route that keeps the prefix sends the path as it is; one that strips it sends the rest, with a
-- slash in front, or nothing where the path does not begin with the prefix.
abbrev pub IsRewritten : Route → Str → Str → Type 0
IsRewritten r path up =
    ((r.strip_prefix ≡ false) × (up ≡ path))
    ⊎ (((r.strip_prefix ≡ true)
          × ((rest : Str) × (path ≡ r.path_prefix ++ rest) × IsSlashed rest up))
        ⊎ ((r.strip_prefix ≡ true)
            × (¬ ((rest : Str) × (path ≡ r.path_prefix ++ rest)))
            × (up ≡ [])))

or_iff : (a b : Bool) (P Q : Type 0) → (a ≡ true) ↔ P → (b ≡ true) ↔ Q → ((a || b) ≡ true) ↔ (P ⊎ Q)
or_iff true b P Q (p, p') (q, q') = ((λ h. inl (p refl)), (λ h. refl))
or_iff false b P Q (p, p') (q, q') =
    ((λ h. inr (q h)), (λ h. elim h [ inl x ↦ (let w = p' x in cc) | inr y ↦ q' y ]))

contains_iff : (xs : List Str) (a : Str) → (contains xs a ≡ true) ↔ Memᴰ a xs
unfolding contains
contains_iff [] a = ((λ h. cc), (λ m. elim m [ ]))
contains_iff (x ∷ xs) a =
    let (to, from) = contains_iff xs a in
    let (e, e') = str_eq_iff x a in
    let (f, g) = or_iff (str_eq x a) (contains xs a) (x ≡ a) (Memᴰ a xs) (e, e') (to, from) in
    ((λ h. into (f h)), (λ m. g (out m)))
  where
    into : (x ≡ a) ⊎ Memᴰ a xs → Memᴰ a (x ∷ xs)
    into (inl p) = Memᴰ.head (sym p)
    into (inr m) = Memᴰ.tail m

    out : Memᴰ a (x ∷ xs) → (x ≡ a) ⊎ Memᴰ a xs
    out (Memᴰ.head p) = inl (sym p)
    out (Memᴰ.tail m) = inr m

accepts_path_iff : (r : Route) (path : Str) → (accepts_path r path ≡ true) ↔ FitsPath path r
unfolding accepts_path
accepts_path_iff r path =
    or_iff (starts_with path r.path_prefix) (str_eq path (trim_end_matches b'/' r.path_prefix)) _ _
      (starts_with_iff path r.path_prefix) (str_eq_iff path (trim_end_matches b'/' r.path_prefix))

is_empty_list_iff : (ms : List Str) → (is_empty_list ms ≡ true) ↔ (ms ≡ [])
unfolding is_empty_list
is_empty_list_iff [] = ((λ h. refl), (λ h. refl))
is_empty_list_iff (m ∷ ms) = ((λ h. cc), (λ h. cc))

accepts_method_iff :
    (r : Route) (method : Str) → (accepts_method r method ≡ true) ↔ FitsMethod method r
unfolding accepts_method
accepts_method_iff r method =
    or_iff (is_empty_list r.methods) (contains r.methods method) _ _ (is_empty_list_iff r.methods)
      (contains_iff r.methods method)

pub Fits-iff :
    (path method : Str) (r : Route)
    → ((accepts_path r path ≡ true) × (accepts_method r method ≡ true)) ↔ Fits path method r
Fits-iff path method r =
    let (p, p') = accepts_path_iff r path in
    let (m, m') = accepts_method_iff r method in ((λ (a, b). (p a, m b)), (λ (a, b). (p' a, m' b)))

slashed_iff : (rest up : Str) → (up ≡ slashed (some rest)) ↔ IsSlashed rest up
unfolding slashed starts_with
slashed_iff [] up = (
  (λ h. inl (refl, h)),
  (λ s. elim s [ inl (_, h) ↦ h | inr (inl (s, e, _)) ↦ cc | inr (inr (c, s, e, _, _)) ↦ cc ]),
)
slashed_iff (c ∷ s) up = elim (Bool-cases (c == b'/')) [
  | inl b ↦
      let e : c ≡ b'/' = (==_iff c b'/').0 b in
      rw b ((λ h. inr (inl (s, ap (λ x. x ∷ s) e, h))), (λ x. with_slash x e))
  | inr b ↦ rw b (
    (λ h. inr (inr (c, s, refl, (λ e. let w = (==_iff c b'/').1 e in cc), h))),
    (λ x. without x b),
  )
]
  where
    with_slash : IsSlashed (c ∷ s) up → c ≡ b'/' → up ≡ c ∷ s
    with_slash (inl (e, _)) q = cc
    with_slash (inr (inl (t, e, h))) q = h
    with_slash (inr (inr (d, t, e, n, h))) q = let same : c ≡ d = cc in absurd (n (sym same ∙ q))

    without : IsSlashed (c ∷ s) up → (c == b'/') ≡ false → up ≡ b'/' ∷ c ∷ s
    without (inl (e, _)) b = cc
    without (inr (inl (t, e, h))) b =
        let same : c ≡ b'/' = cc in let w = (==_iff c b'/').1 same in cc
    without (inr (inr (d, t, e, n, h))) b = h

pub upstream_path_iff :
    (r : Route) (path up : Str) → (up ≡ upstream_path r path) ↔ IsRewritten r path up
unfolding upstream_path slashed
upstream_path_iff r path up = by_case r.strip_prefix (strip_prefix path r.path_prefix) refl
  where
    Rewritten : Bool → Type 0
    Rewritten b =
        ((b ≡ false) × (up ≡ path))
        ⊎ (((b ≡ true) × ((rest : Str) × (path ≡ r.path_prefix ++ rest) × IsSlashed rest up))
            ⊎ ((b ≡ true) × (¬ ((rest : Str) × (path ≡ r.path_prefix ++ rest))) × (up ≡ [])))

    by_case :
        (b : Bool) (o : Option Str)
        → strip_prefix path r.path_prefix ≡ o
        → (up ≡ (if b then slashed o else path)) ↔ Rewritten b
    by_case false o e = (
      (λ h. inl (refl, h)),
      (λ x. elim x [ inl (_, h) ↦ h | inr (inl (q, _)) ↦ cc | inr (inr (q, _, _)) ↦ cc ]),
    )
    by_case true none e = (
      (λ h. inr (
          inr (
            refl,
            (λ (rest, p). let f = (strip_prefix_iff path r.path_prefix rest).1 p in cc),
            h,
          ))),
      (λ x. elim x [
        | inl (q, _) ↦ cc
        | inr (inl (_, (rest, p, _))) ↦ let f = (strip_prefix_iff path r.path_prefix rest).1 p in cc
        | inr (inr (_, _, h)) ↦ h
      ]),
    )
    by_case true (some rest) e =
        let p = (strip_prefix_iff path r.path_prefix rest).0 e in
        let (to, from) = slashed_iff rest up in
        (
          (λ h. inr (inl (refl, (rest, p, to h)))),
          (λ x. elim x [
            | inl (q, _) ↦ cc
            | inr (inl (_, (t, p', s))) ↦
                let f = (strip_prefix_iff path r.path_prefix t).1 p' in
                let same : t ≡ rest = cc in from (rw same at s)
            | inr (inr (_, n, _)) ↦ absurd (n (rest, p))
          ]),
        )
