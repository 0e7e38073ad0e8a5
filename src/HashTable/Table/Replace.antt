-- ===== src/HashTable/Table/Replace.antt =====
-- A bucket of a chain is replaced: the cells then.
use kvx.Common.{
  ℕ, ◌<◌, ◌≡◌, ◌≢◌, ◌⊎◌, sym, ap, ◌∙◌, true, false, Option, none, List, [], arith, ◌==◌, length,
  Bool-cases, inl, inr, set, get_or-set_self, get_or-set_ne, length-set,
}
use kvx.HashTable.Bucket.{Bucket, zero_bucket, set_slot_state, set_slot_hash_tag, set_slot_item}
use kvx.HashTable.Bucket.Cells.{
  Cell, cell, IsBucket, put_cell, set_slot_state-cell, set_slot_hash_tag-cell, set_slot_item-cell,
}
use kvx.HashTable.Probe.Chain.{nth}
use kvx.HashTable.Table.{Half, chain_at, busy_bucket, cleared}
use kvx.HashTable.Table.View.{IsShaped, Writes}

-- `b'` is `b` but for the cell at one index.
pub record Puts (b b' : Bucket) (s : ℕ) (c : Cell) : Type 0 where
  pub ok : IsBucket b'
  pub here : cell b' s ≡ c
  pub there : (j : ℕ) → j < 8 → j ≢ s → cell b' j ≡ cell b j

put_cell_self : (f : ℕ → Cell) (s : ℕ) (c : Cell) → put_cell f s c s ≡ c
put_cell_self f s c = elim (Bool-cases (s == s)) [
  | inl e ↦ rw e
  | inr e ↦ absurd (ground (arith, e))
]

put_cell_ne : (f : ℕ → Cell) (s : ℕ) (c : Cell) (j : ℕ) → j ≢ s → put_cell f s c j ≡ f j
put_cell_ne f s c j ne = elim (Bool-cases (s == j)) [
  | inl e ↦ absurd (ne (ground (arith, e)))
  | inr e ↦ rw e
]

pub put-Puts :
    (b b' : Bucket) (s : ℕ) (c : Cell)
    → s < 8
    → IsBucket b' × ((j : ℕ) → j < 8 → cell b' j ≡ put_cell (cell b) s c j)
    → Puts b b' s c
put-Puts b b' s c low (ok, law) = record {
  ok = ok;
  here = law s low ∙ put_cell_self (cell b) s c;
  there = λ j hj ne. law j hj ∙ put_cell_ne (cell b) s c j ne;
}

pub Puts-trans :
    (b b1 b2 : Bucket) (s : ℕ) (c1 c2 : Cell) → Puts b b1 s c1 → Puts b1 b2 s c2 → Puts b b2 s c2
Puts-trans b b1 b2 s c1 c2 p q = record {
  ok = q.ok;
  here = q.here;
  there = λ j hj ne. q.there j hj ne ∙ p.there j hj ne;
}

pub item-Puts :
    (b : Bucket) (s : ℕ) (v : Option ℕ)
    → IsBucket b
    → s < 8
    → Puts b (set_slot_item b s v) s (record (cell b s) { item = v })
item-Puts b s v ok low = put-Puts b (set_slot_item b s v) s _ low (set_slot_item-cell b s v ok low)

pub busy_bucket-Puts :
    (b : Bucket) (s tag : ℕ)
    → IsBucket b
    → s < 8
    → tag < 256
    → Puts b (busy_bucket b s tag) s (record (cell b s) { busy = true; tag = tag })
busy_bucket-Puts b s tag ok low small =
    let b1 = set_slot_state b s true in
    let c1 : Cell = record (cell b s) { busy = true } in
    let p : Puts b b1 s c1 = put-Puts b b1 s c1 low (set_slot_state-cell b s true ok low) in
    let q : Puts b1 (busy_bucket b s tag) s (record (cell b1 s) { tag = tag }) =
      put-Puts b1 (busy_bucket b s tag) s _ low (set_slot_hash_tag-cell b1 s tag p.ok low small) in
    Puts-trans b b1 (busy_bucket b s tag) s c1 (record c1 { tag = tag }) p
      (record {
        ok = q.ok;
        here = q.here ∙ ap (λ (r : Cell). record r { tag = tag }) p.here;
        there = q.there;
      })

pub cleared-Puts :
    (b : Bucket) (s : ℕ)
    → IsBucket b
    → s < 8
    → Puts b (cleared b s) s (record { busy = false; tag = 0; item = none })
cleared-Puts b s ok low =
    let b1 = set_slot_state b s false in
    let b2 = set_slot_hash_tag b1 s 0 in
    let c1 : Cell = record (cell b s) { busy = false } in
    let c2 : Cell = record c1 { tag = 0 } in
    let p : Puts b b1 s c1 = put-Puts b b1 s c1 low (set_slot_state-cell b s false ok low) in
    let q : Puts b1 b2 s (record (cell b1 s) { tag = 0 }) =
      put-Puts b1 b2 s _ low (set_slot_hash_tag-cell b1 s 0 p.ok low (omega arith)) in
    let q_here : cell b2 s ≡ c2 = q.here ∙ ap (λ (r : Cell). record r { tag = 0 }) p.here in
    let r = item-Puts b2 s none q.ok low in
    record {
      ok = r.ok;
      here = r.here ∙ ap (λ (r : Cell). record r { item = none }) q_here;
      there = λ j hj ne. r.there j hj ne ∙ (q.there j hj ne ∙ p.there j hj ne);
    }

-- A half with a new chain at one index.
module _ (h h' : Half) (i : ℕ) (chain : List Bucket) (shaped : IsShaped h) (hi : i < h.bucket_count)
    (swapped : h'.buckets ≡ set h.buckets i chain) (count : h'.bucket_count ≡ h.bucket_count)
    (nonempty : 0 < length chain) (ok : (d : ℕ) → IsBucket (nth chain d)) where
  pub chain_at_here : chain_at h' i ≡ chain
  chain_at_here = rw swapped (get_or-set_self h.buckets i chain [] (omega (arith, shaped.width)))

  pub chain_at_there : (j : ℕ) → i ≢ j → chain_at h' j ≡ chain_at h j
  chain_at_there j ne = rw swapped (get_or-set_ne h.buckets i j chain [] ne)

  -- The chain at an index is the new one or the one before.
  pub chain_at_cases :
      (j : ℕ) → ((j ≡ i) × (chain_at h' j ≡ chain)) ⊎ (chain_at h' j ≡ chain_at h j)
  chain_at_cases j = elim (Bool-cases (i == j)) [
    | inl e ↦
        let same : j ≡ i = ground (arith, e) in inl (same, ap (chain_at h') same ∙ chain_at_here)
    | inr e ↦ inr (chain_at_there j (ground (arith, e)))
  ]

  pub swap-IsShaped : IsShaped h'
  swap-IsShaped = record {
    width = ap length swapped ∙ (length-set h.buckets i chain ∙ (shaped.width ∙ sym count));
    nonempty = omega (arith, shaped.nonempty, count);
    chains = λ j hj. elim (chain_at_cases j) [
      | inl (_, e) ↦ rw e nonempty
      | inr e ↦ rw e (shaped.chains j (omega (arith, hj, count)))
    ];
    buckets = λ j d. elim (chain_at_cases j) [
      | inl (_, e) ↦ rw e (ok d)
      | inr e ↦ rw e (shaped.buckets j d)
    ];
  }

  pub swap-Writes :
      (d s : ℕ) (c : Cell)
      → cell (nth chain d) s ≡ c
      → ((d' s' : ℕ)
          → s' < 8
          → (d' ≢ d) ⊎ (s' ≢ s)
          → cell (nth chain d') s' ≡ cell (nth (chain_at h i) d') s')
      → Writes h h' i d s c
  swap-Writes d s c here there = record {
    shaped = swap-IsShaped;
    count = count;
    here = ap (λ r. cell (nth r d) s) chain_at_here ∙ here;
    there = λ i' d' s' hs apart. elim (chain_at_cases i') [
      | inr e ↦ ap (λ r. cell (nth r d') s') e
      | inl (ei, e) ↦
          ap (λ r. cell (nth r d') s') e
          ∙ (there d' s' hs (elim apart [ inl f ↦ absurd (f ei) | inr f ↦ f ])
              ∙ ap (λ r. cell (nth (chain_at h r) d') s') (sym ei))
    ];
  }

-- A bucket of the chain is replaced, where the chain before may have been extended.
module _ (h h' : Half) (i : ℕ) (chain : List Bucket) (d s : ℕ) (b' : Bucket) (c : Cell)
    (shaped : IsShaped h) (hi : i < h.bucket_count)
    (same : (j : ℕ) → nth chain j ≡ nth (chain_at h i) j) (depth : d < length chain)
    (puts : Puts (nth (chain_at h i) d) b' s c) where
  nth_replaced :
      (j : ℕ)
      → ((j ≡ d) × (nth (set chain d b') j ≡ b'))
        ⊎ ((j ≢ d) × (nth (set chain d b') j ≡ nth (chain_at h i) j))
  nth_replaced j = elim (Bool-cases (d == j)) [
    | inl e ↦
        let ed : j ≡ d = ground (arith, e) in
        inl (ed, rw ed (get_or-set_self chain d b' zero_bucket depth))
    | inr e ↦
        let ne : d ≢ j = ground (arith, e) in
        inr (λ f. ne (sym f), get_or-set_ne chain d j b' zero_bucket ne ∙ same j)
  ]

  pub replace-Writes :
      h'.buckets ≡ set h.buckets i (set chain d b')
      → h'.bucket_count ≡ h.bucket_count
      → Writes h h' i d s c
  replace-Writes swapped count =
      swap-Writes h h' i (set chain d b') shaped hi swapped count
        (omega (arith, length-set chain d b'))
        (λ j. elim (nth_replaced j) [
          | inl (_, e) ↦ rw e puts.ok
          | inr (_, e) ↦ rw e (shaped.buckets i j)
        ])
        d s c (ap (λ r. cell r s) (get_or-set_self chain d b' zero_bucket depth) ∙ puts.here)
        (λ d' s' hs apart. elim (nth_replaced d') [
          | inr (_, e) ↦ ap (λ r. cell r s') e
          | inl (ed, e) ↦
              ap (λ r. cell r s') e
              ∙ (puts.there s' hs (elim apart [ inl f ↦ absurd (f ed) | inr f ↦ f ])
                  ∙ ap (λ r. cell (nth (chain_at h i) r) s') (sym ed))
        ])
