-- ===== src/Threshold/Recovery.antt =====
-- Any shares of a secret, as many as the threshold says, put the secret together again.
use pqc_gateway.Common.{
  ℕ, zero, suc, ◌+◌, ◌%◌, ◌<◌, ◌≤◌, ◌≡◌, refl, sym, ap, ◌∙◌, ◌≢◌, List, [], ◌∷◌, ◌++◌, map, All,
  All-Mem, All-map, All-imp, AllDifferent, arith, length, length-map, Bytes, done, panic, get_elem?,
  some, length-append, true, if◌then◌else◌,
}
use pqc_gateway.Threshold.Gf256.{gf256_poly_eval, gf256_lagrange_interpolate_zero}
use pqc_gateway.Threshold.Interpolation.{Apart, eval}
use pqc_gateway.Threshold.Field.{Byte, byte_field}
use pqc_gateway.Threshold.Lagrange.{raw, points_of, poly_eval_lem, lagrange_lem}
use pqc_gateway.Threshold.Shares.{
  Share, SharingConfig, ids_from, new_shares, push_value, split_loop, split_secret, same_length,
  point_before, points_at, interpolated, byte_before, reconstruct_loop, reconstruct_secret,
}
use mathlib.Core.List.{Memᴰ, append_assoc, append-nil, map-map}
use mathlib.Core.Path.{ap₂, subst}

bytes : (xs : List ℕ) → All (λ x. x < 256) xs → List Byte
bytes [] _ = []
bytes (x ∷ xs) (h, hs) = (x, h) ∷ bytes xs hs

raw-bytes : (xs : List ℕ) (h : All (λ x. x < 256) xs) → raw (bytes xs h) ≡ xs
unfolding raw bytes
raw-bytes [] _ = refl
raw-bytes (x ∷ xs) (h, hs) = ap (◌∷◌ x) (raw-bytes xs hs)

length-bytes : (xs : List ℕ) (h : All (λ x. x < 256) xs) → length (bytes xs h) ≡ length xs
unfolding bytes
length-bytes [] _ = refl
length-bytes (x ∷ xs) (h, hs) = ap suc (length-bytes xs hs)

bytes-Apart :
    (xs : List ℕ) (h : All (λ x. x < 256) xs) → AllDifferent xs → Apart byte_field (bytes xs h)
unfolding bytes
bytes-Apart [] _ _ = tt
bytes-Apart (x ∷ xs) (h, hs) (d, ds) = (others xs hs d, bytes-Apart xs hs ds)
  where
    others :
        (ys : List ℕ) (hs : All (λ y. y < 256) ys)
        → All (λ y. y ≢ x) ys
        → All (λ (y : Byte). y ≢ (x, h)) (bytes ys hs)
    others [] _ _ = tt
    others (y ∷ ys) (k, ks) (m, ms) = ((λ e. m (ap (λ (t : Byte). t.0) e)), others ys ks ms)

-- The points of a polynomial.
abbrev graph : List ℕ → List ℕ → List (ℕ × ℕ)
graph coeffs xs = map (λ x. (x, gf256_poly_eval coeffs x)) xs

graph-bytes :
    (cs : List Byte) (xs : List ℕ) (h : All (λ x. x < 256) xs)
    → graph (raw cs) xs ≡ points_of (eval byte_field cs) (bytes xs h)
unfolding bytes points_of
graph-bytes cs [] _ = refl
graph-bytes cs (x ∷ xs) (h, hs) =
    ap (λ y. (x, y) ∷ graph (raw cs) xs) (poly_eval_lem cs (x, h))
    ∙ ap (◌∷◌ (x, (eval byte_field cs (x, h)).0)) (graph-bytes cs xs hs)

-- Through different points, as many as a polynomial has coefficients, the code finds its constant.
pub interpolate_lem :
    (c : ℕ) (cs xs : List ℕ)
    → c < 256
    → All (λ c. c < 256) cs
    → All (λ x. x < 256) xs
    → AllDifferent xs
    → suc (length cs) ≤ length xs
    → gf256_lagrange_interpolate_zero (graph (c ∷ cs) xs) ≡ done c
unfolding eval bytes
interpolate_lem c cs xs p ps h d n =
    let k = byte_field in
    let rest = eval k (bytes cs ps) k.zero in
    ap (λ l. gf256_lagrange_interpolate_zero (graph l xs)) (sym (raw-bytes (c ∷ cs) (p, ps)))
    ∙ ap gf256_lagrange_interpolate_zero (graph-bytes (bytes (c ∷ cs) (p, ps)) xs h)
    ∙ lagrange_lem (bytes (c ∷ cs) (p, ps)) (bytes xs h)
        (omega (arith, n, length-bytes cs ps, length-bytes xs h)) (bytes-Apart xs h d)
    ∙ ap (λ (t : Byte). done t.0)
        (ap (k.add (c, p)) (k.mul_comm k.zero rest ∙ k.mul_zero rest) ∙ k.add_zero (c, p))

-- The polynomials that `split_secret` makes, one for each byte, from the `i`-th on.
polys : (ℕ → ℕ → Bytes) → ℕ → ℕ → Bytes → List (List ℕ)
polys fill threshold i [] = []
polys fill threshold i (b ∷ secret) =
    (b ∷ fill i ((threshold + 255) % 256)) ∷ polys fill threshold (i + 1) secret

share_of : List (List ℕ) → ℕ → Share
share_of ps id = record { id = id; data_ = map (λ cs. gf256_poly_eval cs id) ps }

with_values : List (List ℕ) → Share → Share
with_values ps s = record s { data_ = s.data_ ++ map (λ cs. gf256_poly_eval cs s.id) ps }

with_values-nil : (shares : List Share) → map (with_values []) shares ≡ shares
unfolding with_values
with_values-nil [] = refl
with_values-nil (s ∷ shares) =
    ap₂ ◌∷◌ (ap (λ d. record s { data_ = d }) (append-nil s.data_)) (with_values-nil shares)

split_loop_lem :
    (fill : ℕ → ℕ → Bytes) (threshold i : ℕ) (secret : Bytes) (shares : List Share)
    → split_loop fill threshold i secret shares
      ≡ map (with_values (polys fill threshold i secret)) shares
unfolding split_loop polys with_values push_value
split_loop_lem fill threshold i [] shares = sym (with_values-nil shares)
split_loop_lem fill threshold i (b ∷ secret) shares =
    split_loop_lem fill threshold (i + 1) secret _
    ∙ map-map _ _ shares
    ∙ ap (λ f. map f shares)
        (λ j s. record s {
          data_ =
              append_assoc s.data_
                (gf256_poly_eval (b ∷ fill i ((threshold + 255) % 256)) s.id ∷ [])
                (map (λ cs. gf256_poly_eval cs s.id) (polys fill threshold (i + 1) secret)) j;
        })

module _ (fill : ℕ → ℕ → Bytes) (secret : Bytes) (threshold : ℕ) where
  split_secret_lem :
      (b : ℕ) (total : ℕ)
      → split_loop fill threshold 0 (b ∷ secret) (new_shares total)
        ≡ map (share_of (polys fill threshold 0 (b ∷ secret))) (ids_from 1 total)
  unfolding new_shares share_of with_values
  split_secret_lem b total =
      split_loop_lem fill threshold 0 (b ∷ secret) (new_shares total)
      ∙ map-map _ _ (ids_from 1 total)

ids_from-lt : (id n : ℕ) → id + n ≤ 256 → All (λ x. x < 256) (ids_from id n)
unfolding ids_from
ids_from-lt id zero h = tt
ids_from-lt id (suc n) h = (omega arith, ids_from-lt (id + 1) n (omega arith))

-- What reconstruction reads from the shares of these polynomials.
get_elem?-map_middle :
    (f : List ℕ → ℕ) (ps rest : List (List ℕ)) (cs : List ℕ)
    → get_elem? (map f (ps ++ cs ∷ rest)) (length ps) ≡ some (f cs)
get_elem?-map_middle f [] rest cs = refl
get_elem?-map_middle f (p ∷ ps) rest cs = get_elem?-map_middle f ps rest cs

points_at_lem :
    (ids : List ℕ) (ps rest : List (List ℕ)) (cs : List ℕ)
    → points_at (length ps) (map (share_of (ps ++ cs ∷ rest)) ids) ≡ done (graph cs ids)
unfolding points_at share_of point_before
points_at_lem [] ps rest cs = refl
points_at_lem (x ∷ ids) ps rest cs =
    ap₂ (point_before x) (get_elem?-map_middle (λ cs. gf256_poly_eval cs x) ps rest cs)
      (points_at_lem ids ps rest cs)

same_length_lem :
    (ids : List ℕ) (ps : List (List ℕ)) → same_length (length ps) (map (share_of ps) ids) ≡ true
unfolding same_length share_of
same_length_lem [] ps = refl
same_length_lem (x ∷ ids) ps =
    ground (arith, length-map (λ cs. gf256_poly_eval cs x) ps, same_length_lem ids ps)

module _ (fill : ℕ → ℕ → Bytes)
    (fill_bytes : (i n : ℕ) → (length (fill i n) ≡ n) × All (λ b. b < 256) (fill i n))
    (threshold : ℕ) (positive : 1 ≤ threshold) (small : threshold < 256) (ids : List ℕ)
    (ids_u8 : All (λ x. x < 256) ids) (different : AllDifferent ids)
    (enough : threshold ≤ length ids) where
  reconstruct_loop_lem :
      (i : ℕ) (pre : List (List ℕ)) (secret : Bytes)
      → All (λ b. b < 256) secret
      → reconstruct_loop
          (map (share_of (pre ++ polys fill threshold i secret)) ids)
          (length pre)
          (length secret)
        ≡ done secret
  unfolding reconstruct_loop polys interpolated byte_before
  reconstruct_loop_lem i pre [] _ = refl
  reconstruct_loop_lem i pre (b ∷ secret) (h, hs) =
      let coeffs = b ∷ fill i ((threshold + 255) % 256) in
      let later = polys fill threshold (i + 1) secret in
      let (len, small_bytes) = fill_bytes i ((threshold + 255) % 256) in
      ap₂ byte_before
        (ap interpolated (points_at_lem ids pre later coeffs)
          ∙ interpolate_lem b (fill i ((threshold + 255) % 256)) ids h small_bytes ids_u8 different
              (omega (arith, len)))
        (ap₂ (λ ps n. reconstruct_loop (map (share_of ps) ids) n (length secret))
            (sym (append_assoc pre (coeffs ∷ []) later)) (sym (length-append pre (coeffs ∷ [])))
          ∙ reconstruct_loop_lem (i + 1) (pre ++ coeffs ∷ []) secret hs)

length-polys :
    (fill : ℕ → ℕ → Bytes) (threshold i : ℕ) (secret : Bytes)
    → length (polys fill threshold i secret) ≡ length secret
unfolding polys
length-polys fill threshold i [] = refl
length-polys fill threshold i (b ∷ secret) = ap suc (length-polys fill threshold (i + 1) secret)

-- The shares that were picked are those of their identifiers.
picked_lem :
    (ps : List (List ℕ)) (ids : List ℕ) (picked : List Share)
    → All (λ x. x < 256) ids
    → All (λ s. Memᴰ s (map (share_of ps) ids)) picked
    → (picked ≡ map (share_of ps) (map (λ s. s.id) picked))
      × All (λ x. x < 256) (map (λ s. s.id) picked)
unfolding share_of
picked_lem ps ids [] small m = (refl, tt)
picked_lem ps ids (s ∷ picked) small (m, ms) =
    let (e, h) =
      All-Mem (λ s. (s ≡ share_of ps s.id) × (s.id < 256)) (map (share_of ps) ids)
        (All-map (λ s. (s ≡ share_of ps s.id) × (s.id < 256)) (share_of ps) ids
          (All-imp (λ x. x < 256) _ ids (λ x p. (refl, p)) small))
        s m in
    let (es, hs) = picked_lem ps ids picked small ms in (ap₂ ◌∷◌ e es, (h, hs))

reconstruct_shares :
    (ps : List (List ℕ)) (ids : List ℕ) (secret : Bytes)
    → 1 ≤ length ids
    → length ps ≡ length secret
    → reconstruct_loop (map (share_of ps) ids) 0 (length secret) ≡ done secret
    → reconstruct_secret (map (share_of ps) ids) ≡ done secret
unfolding reconstruct_secret share_of
reconstruct_shares ps [] secret h len e = elim h [ ]
reconstruct_shares ps (x ∷ ids) secret h len e =
    let shares = map (share_of ps) (x ∷ ids) in
    ap (λ l. if same_length l shares then reconstruct_loop shares 0 l else panic)
      (length-map (λ cs. gf256_poly_eval cs x) ps)
    ∙ ap (λ t. if t then reconstruct_loop shares 0 (length ps) else panic)
        (same_length_lem (x ∷ ids) ps)
    ∙ ap (reconstruct_loop shares 0) len
    ∙ e

poly_eval-lt : (cs : List ℕ) (x : ℕ) → All (λ c. c < 256) cs → x < 256 → gf256_poly_eval cs x < 256
poly_eval-lt cs x hs h =
    let value = eval byte_field (bytes cs hs) (x, h) in
    let e =
      sym (ap (λ l. gf256_poly_eval l x) (raw-bytes cs hs)) ∙ poly_eval_lem (bytes cs hs) (x, h) in
    rw e value.1

polys_bytes :
    (fill : ℕ → ℕ → Bytes)
    → ((i n : ℕ) → (length (fill i n) ≡ n) × All (λ b. b < 256) (fill i n))
    → (threshold i : ℕ) (secret : Bytes) → All (λ b. b < 256) secret
    → All (All (λ c. c < 256)) (polys fill threshold i secret)
unfolding polys
polys_bytes fill fb threshold i [] _ = tt
polys_bytes fill fb threshold i (b ∷ secret) (h, hs) =
    ((h, (fb i ((threshold + 255) % 256)).1), polys_bytes fill fb threshold (i + 1) secret hs)

-- The shares of a secret hold bytes only.
pub split_secret_bytes :
    (fill : ℕ → ℕ → Bytes)
    → ((i n : ℕ) → (length (fill i n) ≡ n) × All (λ b. b < 256) (fill i n))
    → (secret : Bytes) → All (λ b. b < 256) secret
    → (config : SharingConfig) → config.total_shares < 256
    → (shares : List Share) → split_secret fill secret config ≡ done shares
    → All (λ s. (s.id < 256) × All (λ b. b < 256) s.data_) shares
unfolding split_secret share_of
split_secret_bytes fill fb [] bs config total shares e = cc
split_secret_bytes fill fb (b ∷ secret) bs config total shares e =
    let ps = polys fill config.threshold 0 (b ∷ secret) in
    let made = split_loop fill config.threshold 0 (b ∷ secret) (new_shares config.total_shares) in
    let q : made ≡ shares = cc in
    subst (All (λ s. (s.id < 256) × All (λ b. b < 256) s.data_))
      (sym (split_secret_lem fill secret config.threshold b config.total_shares) ∙ q)
      (All-map _ (share_of ps) (ids_from 1 config.total_shares) (
        All-imp (λ x. x < 256) _ (ids_from 1 config.total_shares)
          (λ x h. (
            h,
            All-map (λ b. b < 256) (λ cs. gf256_poly_eval cs x) ps
                (All-imp (All (λ c. c < 256)) _ ps (λ cs hs. poly_eval-lt cs x hs h)
                  (polys_bytes fill fb config.threshold 0 (b ∷ secret) bs)),
          ))
          (ids_from-lt 1 config.total_shares (omega arith))))

-- Of the shares that `split_secret` makes of a secret, any that are as many as the threshold and
-- have different identifiers give the secret back, whatever the random bytes were. The random
-- generator fills the buffers that it is given with bytes.
pub reconstruct_secret-split_secret :
    (fill : ℕ → ℕ → Bytes)
    → ((i n : ℕ) → (length (fill i n) ≡ n) × All (λ b. b < 256) (fill i n))
    → (secret : Bytes) → All (λ b. b < 256) secret
    → (config : SharingConfig) → 1 ≤ config.threshold
    → config.threshold < 256
    → config.total_shares < 256
    → (shares : List Share) → split_secret fill secret config ≡ done shares
    → (picked : List Share) → All (λ s. Memᴰ s shares) picked
    → AllDifferent (map (λ s. s.id) picked)
    → config.threshold ≤ length picked
    → reconstruct_secret picked ≡ done secret
unfolding split_secret
reconstruct_secret-split_secret fill fb [] bs config pos small total shares e picked m d n = cc
reconstruct_secret-split_secret fill fb (b ∷ secret) bs config pos small total shares e picked m d
      n =
    let ps = polys fill config.threshold 0 (b ∷ secret) in
    let made = split_loop fill config.threshold 0 (b ∷ secret) (new_shares config.total_shares) in
    let q : made ≡ shares = cc in
    let r = sym q ∙ split_secret_lem fill secret config.threshold b config.total_shares in
    let (picks, ids_u8) =
      picked_lem ps (ids_from 1 config.total_shares) picked
        (ids_from-lt 1 config.total_shares (omega arith))
        (subst (λ ss. All (λ s. Memᴰ s ss) picked) r m) in
    let enough : config.threshold ≤ length (map (λ s. s.id) picked) =
      omega (arith, n, length-map (λ (s : Share). s.id) picked) in
    ap reconstruct_secret picks
    ∙ reconstruct_shares ps (map (λ s. s.id) picked) (b ∷ secret) (omega (arith, enough, pos))
        (length-polys fill config.threshold 0 (b ∷ secret))
        (reconstruct_loop_lem fill fb config.threshold pos small (map (λ s. s.id) picked) ids_u8 d
          enough 0 [] (b ∷ secret) bs)
