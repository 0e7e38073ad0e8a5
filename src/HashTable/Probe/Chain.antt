-- ===== src/HashTable/Probe/Chain.antt =====
-- The searches along a chain.
use kvx.Common.{
  ℕ, zero, suc, ◌+◌, ◌<◌, ◌≡◌, ◌⊎◌, refl, Bool, true, false, Option, none, some, List, [], ◌∷◌,
  arith, ◌==◌, length, get_or, All, Bytes, inl, inr,
}
use kvx.Item.{Item}
use kvx.HashTable.Bucket.{Bucket, zero_bucket, is_busy, get_slot_item, first_free_slot, not8, ctz}
use kvx.HashTable.Bucket.States.{free_slot_cases, is_busy_zero}
use kvx.HashTable.Bucket.Cells.{IsBucket}
use kvx.HashTable.Probe.{
  Match, null_read, no_match, match_at, Found, found_null, missing, found, Place, place_null, place,
  chain_end, or_free, match_candidates, find_item_slot_in_bucket_chained, find_item_slot_in_bucket,
  find_item_slot_or_next_free_slot_chained, find_item_slot_or_next_free_slot_in_bucket,
}
use kvx.HashTable.Probe.Candidates.{HasKey, MatchLaw, Holding, match_candidates-MatchLaw}

abbrev pub nth : List Bucket → ℕ → Bucket
nth chain d = get_or chain d zero_bucket

abbrev pub busy_at : List Bucket → ℕ → ℕ → Bool
busy_at chain d s = is_busy (nth chain d).slot_states s

-- A slot that first_free_slot names is free; where it names none, all are busy.
pub first_free_slot_free :
    (b : Bucket) (s : ℕ)
    → IsBucket b
    → first_free_slot b ≡ some s
    → (s < 8) × (is_busy b.slot_states s ≡ false)
unfolding first_free_slot
first_free_slot_free b s ok h = elim (free_slot_cases b.slot_states ok.states) [
  | inl (e, _) ↦ let z : (not8 b.slot_states == 0) ≡ true = ground arith in cc (rw z at h)
  | inr (e, low, free) ↦
      let z : (not8 b.slot_states == 0) ≡ false = ground arith in
      let same : ctz 8 (not8 b.slot_states) ≡ s = cc (rw z at h) in rw (← same) (low, free)
]

or_free-some :
    (free : Option (ℕ × ℕ)) (depth : ℕ) (slot : Option ℕ) (d s : ℕ)
    → or_free free depth slot ≡ some (d, s)
    → (free ≡ some (d, s)) ⊎ ((d ≡ depth) × (slot ≡ some s))
or_free-some (some p) depth slot d s h = inl h
or_free-some none depth none d s h = cc
or_free-some none depth (some t) d s h = inr (ground (arith, h), ground (arith, h))

or_free-none :
    (free : Option (ℕ × ℕ)) (depth : ℕ) (slot : Option ℕ)
    → or_free free depth slot ≡ none
    → free ≡ none
or_free-none (some p) depth slot h = cc
or_free-none none depth slot h = refl

module _ (mem : ℕ → Item) (key : Bytes) where
  -- The slot is busy with an item of that key, at this distance behind the start.
  abbrev pub Holds : List Bucket → ℕ → ℕ → Type 0
  Holds chain d s =
      (d < length chain)
      × (s < 8)
      × (busy_at chain d s ≡ true)
      × HasKey mem key (get_slot_item (nth chain d) s)

  abbrev pub Lacks : List Bucket → Type 0
  Lacks chain =
      (d s : ℕ)
      → s < 8
      → busy_at chain d s ≡ true
      → HasKey mem key (get_slot_item (nth chain d) s)
      → true ≡ false

  Lacks-cons :
      (b : Bucket) (chain : List Bucket)
      → MatchLaw mem key b b.slot_states no_match
      → Lacks chain
      → Lacks (b ∷ chain)
  Lacks-cons b chain here there zero s hs busy k = here s hs busy k
  Lacks-cons b chain here there (suc d) s hs busy k = there d s hs busy k

  Lacks-nil : Lacks []
  Lacks-nil d s hs busy k = cc (is_busy_zero s hs, busy)

  abbrev pub FoundLaw : ℕ → List Bucket → Found → Type 0
  FoundLaw depth chain found_null = true ≡ false
  FoundLaw depth chain missing = Lacks chain
  FoundLaw depth chain (found d s) = (k : ℕ) × (d ≡ depth + k) × Holds chain k s

  FoundLaw-cons :
      (depth : ℕ) (b : Bucket) (chain : List Bucket) (f : Found)
      → MatchLaw mem key b b.slot_states no_match
      → FoundLaw (suc depth) chain f
      → FoundLaw depth (b ∷ chain) f
  FoundLaw-cons depth b chain found_null here h = h
  FoundLaw-cons depth b chain missing here h = Lacks-cons b chain here h
  FoundLaw-cons depth b chain (found d s) here (k, e, at) =
      (suc k, omega arith, (omega arith, at.1, at.2, at.3))

  module _ (tag : ℕ) (small : tag < 256) where
    find_chained-FoundLaw :
        (chain : List Bucket) (depth : ℕ)
        → All (Holding mem key tag) chain
        → FoundLaw depth chain
            (find_item_slot_in_bucket_chained mem key (length key) tag chain depth)
    unfolding find_item_slot_in_bucket_chained
    find_chained-FoundLaw [] depth h = Lacks-nil
    find_chained-FoundLaw (b ∷ chain) depth (h, hs) =
        go (match_candidates mem key (length key) tag b)
          (match_candidates-MatchLaw mem key tag b small h)
          (find_chained-FoundLaw chain (suc depth) hs)
      where
        go :
            (m : Match)
            → MatchLaw mem key b b.slot_states m
            → FoundLaw
                (suc depth)
                chain
                (find_item_slot_in_bucket_chained mem key (length key) tag chain (suc depth))
            → FoundLaw depth (b ∷ chain) (elim m [
              | null_read ↦ found_null
              | match_at slot_idx ↦ found depth slot_idx
              | no_match ↦
                  find_item_slot_in_bucket_chained mem key (length key) tag chain (suc depth)
            ])
        go null_read law rest = law
        go (match_at s) law rest = (0, omega arith, (omega arith, law.0, law.1, law.2))
        go no_match law rest = FoundLaw-cons depth b chain _ law rest

    -- With a byte as the tag and the keys' tags in the buckets, the search for a slot in a chain ends
    -- with one that holds the key, or with none and then no slot does.
    pub find_item_slot-FoundLaw :
        (chain : List Bucket)
        → All (Holding mem key tag) chain
        → FoundLaw 0 chain (find_item_slot_in_bucket mem key (length key) tag chain)
    unfolding find_item_slot_in_bucket
    find_item_slot-FoundLaw [] h = Lacks-nil
    find_item_slot-FoundLaw (b ∷ chain) (h, hs) =
        go (match_candidates mem key (length key) tag b)
          (match_candidates-MatchLaw mem key tag b small h) (find_chained-FoundLaw chain 1 hs)
      where
        go :
            (m : Match)
            → MatchLaw mem key b b.slot_states m
            → FoundLaw 1 chain (find_item_slot_in_bucket_chained mem key (length key) tag chain 1)
            → FoundLaw 0 (b ∷ chain) (elim m [
              | null_read ↦ found_null
              | match_at slot ↦ found 0 slot
              | no_match ↦ find_item_slot_in_bucket_chained mem key (length key) tag chain 1
            ])
        go null_read law rest = law
        go (match_at s) law rest = (0, omega arith, (omega arith, law.0, law.1, law.2))
        go no_match law rest = FoundLaw-cons 0 b chain _ law rest

  -- A free slot of the chain.
  abbrev pub FreeAt : ℕ → List Bucket → ℕ → ℕ → Type 0
  FreeAt depth chain d s =
      (k : ℕ) × (d ≡ depth + k) × (k < length chain) × (s < 8) × (busy_at chain k s ≡ false)

  -- The slot holds the key; or no slot does, and it is the free one given or a free one of the chain,
  -- or the chain and what was before it are full.
  abbrev pub PlaceLaw : ℕ → List Bucket → Option (ℕ × ℕ) → Place → Type 0
  PlaceLaw depth chain free place_null = true ≡ false
  PlaceLaw depth chain free (place d s) =
      ((k : ℕ) × (d ≡ depth + k) × Holds chain k s)
      ⊎ (Lacks chain × ((free ≡ some (d, s)) ⊎ FreeAt depth chain d s))
  PlaceLaw depth chain free (chain_end d) = Lacks chain × (d ≡ depth + length chain) × (free ≡ none)

  PlaceLaw-cons :
      (depth : ℕ) (b : Bucket) (chain : List Bucket) (free : Option (ℕ × ℕ)) (p : Place)
      → IsBucket b
      → MatchLaw mem key b b.slot_states no_match
      → PlaceLaw (suc depth) chain (or_free free depth (first_free_slot b)) p
      → PlaceLaw depth (b ∷ chain) free p
  PlaceLaw-cons depth b chain free place_null ok here h = h
  PlaceLaw-cons depth b chain free (place d s) ok here (inl (k, e, at)) =
      inl (suc k, omega arith, (omega arith, at.1, at.2, at.3))
  PlaceLaw-cons depth b chain free (place d s) ok here
        (inr (lacks, inr (k, e, low, hs, free_slot))) =
      inr (Lacks-cons b chain here lacks, inr (suc k, omega arith, omega arith, hs, free_slot))
  PlaceLaw-cons depth b chain free (place d s) ok here (inr (lacks, inl e)) = inr (
    Lacks-cons b chain here lacks,
    elim (or_free-some free depth (first_free_slot b) d s e) [
      | inl given ↦ inl given
      | inr (same, first) ↦
          let (hs, free_slot) = first_free_slot_free b s ok first in
          inr (0, omega (arith, same), omega arith, hs, free_slot)
    ],
  )
  PlaceLaw-cons depth b chain free (chain_end d) ok here (lacks, e, full) =
      (Lacks-cons b chain here lacks, omega arith, or_free-none free depth (first_free_slot b) full)

  module _ (tag : ℕ) (small : tag < 256) where
    place_chained-PlaceLaw :
        (chain : List Bucket) (depth : ℕ) (free : Option (ℕ × ℕ))
        → All (Holding mem key tag) chain
        → PlaceLaw depth chain free
            (find_item_slot_or_next_free_slot_chained mem key (length key) tag chain depth free)
    unfolding find_item_slot_or_next_free_slot_chained
    place_chained-PlaceLaw [] depth none h = (Lacks-nil, omega arith, refl)
    place_chained-PlaceLaw [] depth (some (d, s)) h = inr (Lacks-nil, inl refl)
    place_chained-PlaceLaw (b ∷ chain) depth free (h, hs) =
        go (match_candidates mem key (length key) tag b)
          (match_candidates-MatchLaw mem key tag b small h)
          (place_chained-PlaceLaw chain (suc depth) (or_free free depth (first_free_slot b)) hs)
      where
        go :
            (m : Match)
            → MatchLaw mem key b b.slot_states m
            → PlaceLaw (suc depth) chain (or_free free depth (first_free_slot b)) (
                find_item_slot_or_next_free_slot_chained mem key
                  (length key)
                  tag
                  chain
                  (suc depth)
                  (or_free free depth (first_free_slot b)))
            → PlaceLaw depth (b ∷ chain) free (elim m [
              | null_read ↦ place_null
              | match_at slot ↦ place depth slot
              | no_match ↦
                  find_item_slot_or_next_free_slot_chained mem key
                    (length key)
                    tag
                    chain
                    (suc depth)
                    (or_free free depth (first_free_slot b))
            ])
        go null_read law rest = law
        go (match_at s) law rest = inl (0, omega arith, (omega arith, law.0, law.1, law.2))
        go no_match law rest = PlaceLaw-cons depth b chain free _ h.ranges law rest

    -- With a byte as the tag and the keys' tags in the buckets, the search for a place in a chain ends
    -- with the slot that holds the key; or no slot does and it ends with a free one, or all are busy
    -- and it ends with a bucket to be added behind the last.
    pub find_place-PlaceLaw :
        (b : Bucket) (next : List Bucket)
        → All (Holding mem key tag) (b ∷ next)
        → PlaceLaw 0
            (b ∷ next)
            none
            (find_item_slot_or_next_free_slot_in_bucket mem key (length key) tag (b ∷ next))
    unfolding find_item_slot_or_next_free_slot_in_bucket
    find_place-PlaceLaw b chain (h, hs) =
        go (match_candidates mem key (length key) tag b)
          (match_candidates-MatchLaw mem key tag b small h)
          (place_chained-PlaceLaw chain 1 (or_free none 0 (first_free_slot b)) hs)
      where
        go :
            (m : Match)
            → MatchLaw mem key b b.slot_states m
            → PlaceLaw 1 chain (or_free none 0 (first_free_slot b)) (
                find_item_slot_or_next_free_slot_chained mem key
                  (length key)
                  tag
                  chain
                  1
                  (or_free none 0 (first_free_slot b)))
            → PlaceLaw 0 (b ∷ chain) none (elim m [
              | null_read ↦ place_null
              | match_at slot ↦ place 0 slot
              | no_match ↦
                  find_item_slot_or_next_free_slot_chained mem key
                    (length key)
                    tag
                    chain
                    1
                    (or_free none 0 (first_free_slot b))
            ])
        go null_read law rest = law
        go (match_at s) law rest = inl (0, omega arith, (omega arith, law.0, law.1, law.2))
        go no_match law rest = PlaceLaw-cons 0 b chain none _ h.ranges law rest
