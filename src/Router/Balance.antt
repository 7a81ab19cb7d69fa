-- ===== src/Router/Balance.antt =====
-- router.rs: `LoadBalancer::next_upstream` goes round the upstreams, and never panics for a route.
use mathlib.Core.List.{map-append}
use mathlib.Core.Path.{subst}
use native.Mathlib.Nat.{
  zero-add, suc-add, mod-eq_of_lt, mul-add-mod_self_right, mod-lt, div-add-mod',
}
use pqc_gateway.Common.{
  ℕ, zero, suc, ◌+◌, ◌-◌, ◌*◌, ◌/◌, ◌%◌, ◌^◌, ◌≤◌, ◌<◌, ◌≡◌, refl, sym, ap, ◌∙◌, inl, inr, false,
  some, List, [], ◌∷◌, ◌++◌, map, Str, arith, length, get_elem?, take, drop, length-drop,
  get_elem?_in_range, leb, Outcome, done, Bool-cases,
}
use pqc_gateway.Config.{RouteConfig}
use pqc_gateway.Router.{from_config, index, next_upstream}

-- The upstreams that `rounds` requests get, one after the other.
unfoldable pub picks : ℕ → ℕ → List Str → List (Outcome Str)
picks zero counter us = []
picks (suc rounds) counter us =
    let (counter', u) = next_upstream counter us in u ∷ picks rounds counter' us

-- The counter after as many requests.
pub counter_after : ℕ → ℕ → List Str → ℕ
counter_after zero counter us = counter
counter_after (suc rounds) counter us = counter_after rounds (next_upstream counter us).0 us

drop_step :
    (us : List Str) (j : ℕ)
    → j < length us
    → (u : Str) × (get_elem? us j ≡ some u) × (drop j us ≡ u ∷ drop (suc j) us)
drop_step [] j h = elim h [ ]
drop_step (u ∷ us) zero h = (u, refl, refl)
drop_step (u ∷ us) (suc j) h = drop_step us j (omega arith)

picks-add :
    (a b c : ℕ) (us : List Str)
    → picks (a + b) c us ≡ picks a c us ++ picks b (counter_after a c us) us
unfolding picks counter_after
picks-add zero b c us = rw zero-add
picks-add (suc a) b c us =
    rw suc-add (ap (◌∷◌ (next_upstream c us).1) (picks-add a b (next_upstream c us).0 us))

index-some : (us : List Str) (i : ℕ) (u : Str) → get_elem? us i ≡ some u → index us i ≡ done u
index-some us i u e = ground arith

take_all {ℓ} : {A : Type ℓ} (xs : List A) (n : ℕ) → length xs ≤ n → take n xs ≡ xs
take_all [] zero h = refl
take_all [] (suc n) h = refl
take_all (x ∷ xs) zero h = absurd (omega arith)
take_all (x ∷ xs) (suc n) h = ap (◌∷◌ x) (take_all xs n (omega arith))

module _ (us : List Str) (many : 1 < length us) where
  next_lem :
      (q j : ℕ)
      → j < length us
      → q * length us + j < 2 ^ 64 - 1
      → (next_upstream (q * length us + j) us).0 ≡ q * length us + suc j
  unfolding next_upstream
  next_lem q j h small = ground arith

  next_index : (q j : ℕ) → j < length us → (next_upstream (q * length us + j) us).1 ≡ index us j
  unfolding next_upstream
  next_index q j h =
      let wrapped : (q * length us + j) % length us ≡ j =
        mul-add-mod_self_right q (length us) j ∙ mod-eq_of_lt h in
      let test : leb (length us) 1 ≡ false = ground arith in rw (test, wrapped)

  -- As long as the counter is within one pass, the picks are the next upstreams of the list.
  picks_in_pass :
      (k q j : ℕ)
      → j + k ≤ length us
      → q * length us + j + k < 2 ^ 64
      → (picks k (q * length us + j) us ≡ map done (take k (drop j us)))
        × (counter_after k (q * length us + j) us ≡ q * length us + (j + k))
  unfolding picks counter_after
  picks_in_pass zero q j h small = (refl, omega arith)
  picks_in_pass (suc k) q j h small =
      let (u, e, d) = drop_step us j (omega arith) in
      let (ps, cs) = picks_in_pass k q (suc j) (omega arith) (omega arith) in
      let next = next_lem q j (omega arith) (omega arith) in
      (
        rw (next_index q j (omega arith), next, index-some us j u e, d) (ap (◌∷◌ (done u)) ps),
        rw next (cs ∙ omega arith),
      )

  round_lem :
      (q j : ℕ)
      → j < length us
      → q * length us + j + length us < 2 ^ 64
      → picks (length us) (q * length us + j) us ≡ map done (drop j us ++ take j us)
  round_lem q j h small =
      let a = length us - j in
      let split : length us ≡ a + j = omega arith in
      let (first, counter) = picks_in_pass a q j (omega arith) (omega arith) in
      let wrap : q * length us + (j + a) ≡ suc q * length us + 0 = grind arith in
      let (second, _) = picks_in_pass j (suc q) 0 (omega arith) (grind arith) in
      let whole : take a (drop j us) ≡ drop j us =
        take_all (drop j us) a (omega (arith, length-drop j us)) in
      ap (λ n. picks n (q * length us + j) us) split
      ∙ picks-add a j (q * length us + j) us
      ∙ rw (counter, wrap, first, second, whole) (sym (map-append done (drop j us) (take j us)))

-- With two upstreams or more, as many requests as there are upstreams get each upstream once, in
-- the list's order, from the one at the counter's place on; the counter does not pass its end.
pub round_robin :
    (us : List Str) (counter : ℕ)
    → 1 < length us
    → counter + length us < 2 ^ 64
    → picks (length us) counter us
      ≡ map done (drop (counter % length us) us ++ take (counter % length us) us)
round_robin us counter many small =
    let n = length us in
    let parts : counter / n * n + counter % n ≡ counter = div-add-mod' counter n in
    subst (λ c. picks n c us ≡ map done (drop (counter % n) us ++ take (counter % n) us)) parts
      (round_lem us many (counter / n) (counter % n) (mod-lt counter (omega arith))
        (rw parts small))

pub next_upstream_total :
    (us : List Str) (counter : ℕ)
    → 0 < length us
    → (i : ℕ) × (u : Str) × (get_elem? us i ≡ some u) × ((next_upstream counter us).1 ≡ done u)
unfolding next_upstream
next_upstream_total us counter h = elim (Bool-cases (leb (length us) 1)) [
  | inl one ↦ let (u, e) = get_elem?_in_range us 0 h in (0, u, e, rw one (index-some us 0 u e))
  | inr many ↦
      let i = counter % length us in
      let (u, e) = get_elem?_in_range us i (mod-lt counter h) in
      (i, u, e, rw many (index-some us i u e))
]

-- A route that comes from the configuration always gets one of its upstreams.
pub next_upstream_of_config :
    (cfg : RouteConfig) (counter : ℕ)
    → (i : ℕ) × (u : Str) × (get_elem? (from_config cfg).upstreams i ≡ some u)
      × ((next_upstream counter (from_config cfg).upstreams).1 ≡ done u)
unfolding from_config
next_upstream_of_config cfg counter =
    next_upstream_total (cfg.upstream ∷ cfg.upstreams) counter (omega arith)
