-- ===== src/BatchVerify/Aggregation.antt =====
-- crates/pqc-tls/src/batch_verify.rs: aggregated signatures are verified as a batch of them is.
use pqc_gateway.Common.{
  ℕ, zero, suc, ◌+◌, ◌≡◌, refl, ap, sym, ◌∙◌, List, [], ◌∷◌, ◌++◌, map, Bytes, str_eq, str_eq_iff,
  str_eq_refl, true, Option, none, some, done, panic, length, get_elem?, if◌then◌else◌, ◌==◌,
  Bool-cases, inl, inr, arith, get_elem?-append_length, length-append, length-map,
}
use mathlib.Core.Path.{subst}
use mathlib.Core.List.{append_assoc, append-nil}
use pqc_gateway.BatchVerify.{
  SignatureEntry, Counts, count_entry, verify_entry, batch_loop, batch_verify,
}
use pqc_gateway.BatchVerify.Aggregate.{
  AggregateEntry, SignatureAggregator, AggregatedSignatures, new, next, position, key_at, finalize,
  message_hash_of, add, entry_result, counted, key_of, then_counts, verify_loop, result_of,
  verify_all,
}
use pqc_gateway.Crypto.{Crypto}

position_lem :
    (keys : List Bytes) (k : Bytes) (i : ℕ) → position keys k ≡ some i → get_elem? keys i ≡ some k
unfolding position
position_lem [] k i h = cc
position_lem (x ∷ xs) k i h = elim (Bool-cases (str_eq x k)) [
  | inl b ↦
      let s : some 0 ≡ some i = ap (λ c. if c then some 0 else next (position xs k)) (sym b) ∙ h in
      let same : 0 ≡ i = cc in rw⁻¹ same (ap some ((str_eq_iff x k).0 b))
  | inr b ↦
      later (λ j e. position_lem xs k j e) (position xs k) refl
        (ap (λ c. if c then some 0 else next (position xs k)) (sym b) ∙ h)
]
  where
    later :
        ((j : ℕ) → position xs k ≡ some j → get_elem? xs j ≡ some k)
        → (o : Option ℕ) → position xs k ≡ o
        → next o ≡ some i
        → get_elem? (x ∷ xs) i ≡ some k
    later below none e q = cc
    later below (some j) e q =
        let same : j + 1 ≡ i = cc in let succ : suc j ≡ i = omega arith in rw⁻¹ succ (below j e)

some_append :
    {A : Type 0} (xs ys : List A) (i : ℕ) (a : A)
    → get_elem? xs i ≡ some a
    → get_elem? (xs ++ ys) i ≡ some a
some_append [] ys i a h = cc
some_append (x ∷ xs) ys zero a h = h
some_append (x ∷ xs) ys (suc i) a h = some_append xs ys i a h

module _ (cr : Crypto) where
  abbrev entry_of : SignatureEntry → AggregateEntry
  entry_of e = record { message_hash = message_hash_of cr e.message; signature = e.signature }

  -- Every index leads to the key of its entry.
  data Leads (keys : List Bytes) : List ℕ → List SignatureEntry → Type 0 where
    nowhere : Leads keys [] []
    leads :
        (i : ℕ) (e : SignatureEntry) (is : List ℕ) (es : List SignatureEntry)
        → get_elem? keys i ≡ some e.public_key
        → Leads keys is es
        → Leads keys (i ∷ is) (e ∷ es)

  Leads-grown :
      (keys more : List Bytes) (is : List ℕ) (es : List SignatureEntry)
      → Leads keys is es
      → Leads (keys ++ more) is es
  Leads-grown keys more _ _ nowhere = nowhere
  Leads-grown keys more _ _ (leads i e is es h l) =
      leads i e is es (some_append keys more i e.public_key h) (Leads-grown keys more is es l)

  Leads-snoc :
      (keys : List Bytes) (is : List ℕ) (es : List SignatureEntry) (i : ℕ) (e : SignatureEntry)
      → Leads keys is es
      → get_elem? keys i ≡ some e.public_key
      → Leads keys (is ++ (i ∷ [])) (es ++ (e ∷ []))
  Leads-snoc keys _ _ i e nowhere h = leads i e [] [] h nowhere
  Leads-snoc keys _ _ i e (leads j f is es g l) h =
      leads j f (is ++ (i ∷ [])) (es ++ (e ∷ [])) g (Leads-snoc keys is es i e l h)

  record Holds (a : SignatureAggregator) (es : List SignatureEntry) : Type 0 where
    same_entries : a.entries ≡ map entry_of es
    indices : Leads a.public_keys a.key_indices es

  abbrev pub add_all : SignatureAggregator → List SignatureEntry → SignatureAggregator
  add_all a [] = a
  add_all a (e ∷ es) = add_all (add cr a e.public_key e.message e.signature) es

  map-snoc :
      (es : List SignatureEntry) (e : SignatureEntry)
      → map entry_of (es ++ (e ∷ [])) ≡ map entry_of es ++ (entry_of e ∷ [])
  map-snoc [] e = refl
  map-snoc (x ∷ es) e = ap (◌∷◌ (entry_of x)) (map-snoc es e)

  add-Holds :
      (a : SignatureAggregator) (es : List SignatureEntry) (e : SignatureEntry)
      → Holds a es
      → Holds (add cr a e.public_key e.message e.signature) (es ++ (e ∷ []))
  unfolding add key_at
  add-Holds a es e h = record {
    same_entries = ap (λ x. x ++ (entry_of e ∷ [])) h.same_entries ∙ sym (map-snoc es e);
    indices = placed (position a.public_keys e.public_key) refl;
  }
    where
      placed :
          (o : Option ℕ)
          → position a.public_keys e.public_key ≡ o
          → Leads
              (key_at a.public_keys e.public_key o).1
              (a.key_indices ++ ((key_at a.public_keys e.public_key o).0 ∷ []))
              (es ++ (e ∷ []))
      placed (some i) p =
          Leads-snoc a.public_keys a.key_indices es i e h.indices
            (position_lem a.public_keys e.public_key i p)
      placed none p =
          Leads-snoc (a.public_keys ++ (e.public_key ∷ [])) a.key_indices es (length a.public_keys)
            e (Leads-grown a.public_keys (e.public_key ∷ []) a.key_indices es h.indices)
            (get_elem?-append_length a.public_keys [] e.public_key)

  add_all-Holds :
      (a : SignatureAggregator) (es more : List SignatureEntry)
      → Holds a es
      → Holds (add_all a more) (es ++ more)
  add_all-Holds a es [] h = rw (append-nil es) h
  add_all-Holds a es (e ∷ more) h =
      subst (Holds (add_all a (e ∷ more))) (append_assoc es (e ∷ []) more) (
        add_all-Holds (add cr a e.public_key e.message e.signature) (es ++ (e ∷ [])) more
          (add-Holds a es e h))

  entry_result_lem :
      (e : SignatureEntry)
      → entry_result cr e.public_key (entry_of e) e.message ≡ verify_entry cr.ml e
  unfolding entry_result verify_entry
  entry_result_lem e = rw (str_eq_refl (message_hash_of cr e.message)) refl

  -- The loop from the position of `before` on.
  verify_loop_lem :
      (a : AggregatedSignatures) (before is : List ℕ) (es : List SignatureEntry) (s : Counts)
      → a.key_indices ≡ before ++ is
      → Leads a.public_keys is es
      → verify_loop cr a (length before) (map entry_of es) (map (λ e. e.message) es) s
        ≡ done (batch_loop cr.ml (length before) es s)
  unfolding verify_loop batch_loop then_counts counted key_of
  verify_loop_lem a before _ _ s h nowhere = refl
  verify_loop_lem a before _ _ s h (leads i e is es g l) =
      let here : get_elem? a.key_indices (length before) ≡ some i =
        ap (λ x. get_elem? x (length before)) h ∙ get_elem?-append_length before is i in
      let step = count_entry (length before) s (verify_entry cr.ml e) in
      let rest =
        verify_loop_lem a (before ++ (i ∷ [])) is es step
          (h ∙ sym (append_assoc before (i ∷ []) is)) l in
      let longer : length (before ++ (i ∷ [])) ≡ length before + 1 =
        omega (arith, length-append before (i ∷ [])) in
      rw (here, g, entry_result_lem e) (rw longer at rest)

  -- Signatures that are added one by one, in any number and with keys that may repeat, are verified
  -- with their messages without a panic, and the result is that of the sequential batch.
  pub verify_all-batch_verify :
      (es : List SignatureEntry)
      → verify_all cr (finalize (add_all new es)) (map (λ e. e.message) es)
        ≡ done (batch_verify cr.ml es)
  unfolding verify_all finalize batch_verify result_of new
  verify_all-batch_verify es =
      let h = add_all-Holds new [] es (record { same_entries = refl; indices = nowhere }) in
      let a = finalize (add_all new es) in
      let n : length a.entries ≡ length es = ap length h.same_entries ∙ length-map entry_of es in
      let same : (length (map (λ e. e.message) es) == length a.entries) ≡ true =
        ground (arith, n, length-map (λ e. e.message) es) in
      let start : Counts = record { verified = 0; failed = 0; failed_indices = [] } in
      let messages = map (λ e. e.message) es in
      ap
        (λ c.
          if c
          then result_of cr (length a.entries) (verify_loop cr a 0 a.entries messages start)
          else panic)
        same
      ∙ ap (result_of cr (length a.entries)) (
          ap (λ x. verify_loop cr a 0 x messages start) h.same_entries
          ∙ verify_loop_lem a [] (add_all new es).key_indices es start refl h.indices)
      ∙ ap (λ k. result_of cr k (done (batch_loop cr.ml 0 es start))) n
