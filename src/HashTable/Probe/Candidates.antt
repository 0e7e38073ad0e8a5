-- ===== src/HashTable/Probe/Candidates.antt =====
-- The loop over the candidates of a bucket.
use Prim.Native.Nat.{bit_and}
use kvx.Common.{
  ℕ, zero, suc, ◌-◌, ◌<◌, ◌≡◌, refl, ap, ◌∙◌, true, false, Option, some, arith, ◌==◌, length, Bytes,
  Bool-cases, inl, inr,
}
use kvx.Item.{Item, item_key, item_key_matches}
use kvx.Item.Laws.{IsItem, item_key_matches_iff}
use kvx.HashTable.Bucket.{Bucket, is_busy, get_slot_item, ctz, match_tag}
use kvx.HashTable.Bucket.States.{ctz-Lowest, popcount, popcount_bound, is_busy_zero}
use kvx.HashTable.Bucket.Match.{byte_at, match_tag-Candidates}
use kvx.HashTable.Bucket.Cells.{IsBucket}
use kvx.HashTable.Probe.{Match, null_read, no_match, match_at, match_loop, match_candidates}

module _ (mem : ℕ → Item) where
  -- The cell has an item, with the key where one is given.
  abbrev pub HasItem : Option ℕ → Type 0
  HasItem o = (h : ℕ) × (o ≡ some h) × IsItem (mem h)

  abbrev pub HasKey : Bytes → Option ℕ → Type 0
  HasKey key o = (h : ℕ) × (o ≡ some h) × (item_key (mem h) ≡ key)

  -- What the loop found among the candidates `c`.
  abbrev pub MatchLaw : Bytes → Bucket → ℕ → Match → Type 0
  MatchLaw key b c null_read = true ≡ false
  MatchLaw key b c no_match =
      (i : ℕ) → i < 8 → is_busy c i ≡ true → HasKey key (get_slot_item b i) → true ≡ false
  MatchLaw key b c (match_at i) = (i < 8) × (is_busy c i ≡ true) × HasKey key (get_slot_item b i)

  MatchLaw-weaken :
      (key : Bytes) (b : Bucket) (r c : ℕ) (m : Match)
      → ((i : ℕ) → i < 8 → is_busy r i ≡ true → is_busy c i ≡ true)
      → ((i : ℕ) → i < 8 → is_busy c i ≡ true → HasKey key (get_slot_item b i) → is_busy r i ≡ true)
      → MatchLaw key b r m
      → MatchLaw key b c m
  MatchLaw-weaken key b r c null_read sub sup h = h
  MatchLaw-weaken key b r c no_match sub sup h = λ i hi busy k. h i hi (sup i hi busy k) k
  MatchLaw-weaken key b r c (match_at i) sub sup h = (h.0, sub i h.0 h.1, h.2)

  match_loop-MatchLaw :
      (fuel : ℕ) (key : Bytes) (b : Bucket) (c : ℕ)
      → c < 256
      → popcount 8 c < fuel
      → ((i : ℕ) → i < 8 → is_busy c i ≡ true → HasItem (get_slot_item b i))
      → MatchLaw key b c (match_loop mem key (length key) fuel c b)
  unfolding match_loop
  match_loop-MatchLaw zero key b c small enough items = absurd (omega arith)
  match_loop-MatchLaw (suc fuel) key b c small enough items = elim (Bool-cases (c == 0)) [
    | inl e ↦
        let none_left : c ≡ 0 = ground arith in
        rw e (λ i hi busy k. cc (is_busy_zero i hi, ap (λ x. is_busy x i) none_left, busy))
    | inr e ↦
        let l = ctz-Lowest c small (ground arith) in
        let (h, item, ok) = items (ctz 8 c) l.low l.here in
        let r = bit_and c (c - 1) in
        let sub : (i : ℕ) → i < 8 → is_busy r i ≡ true → is_busy c i ≡ true =
          λ i hi busy. ground (arith, l.others i hi, busy) in
        let rest =
          match_loop-MatchLaw fuel key b r l.small (omega (arith, l.fewer))
            (λ i hi busy. items i hi (sub i hi busy)) in
        elim (Bool-cases (item_key_matches (mem h) key (length key))) [
          | inl f ↦
              rw (e, item, f) (l.low, l.here, (h, item, (item_key_matches_iff (mem h) key ok).0 f))
          | inr f ↦
              let other : (i : ℕ)
                  → i < 8
                  → is_busy c i ≡ true
                  → HasKey key (get_slot_item b i)
                  → is_busy r i ≡ true =
                λ i hi busy k. elim (Bool-cases (ctz 8 c == i)) [
                  | inr g ↦ l.others i hi ∙ rw (g, busy) refl
                  | inl g ↦
                      let same : ctz 8 c ≡ i = ground arith in
                      let (h', item', e') = k in
                      let one : h ≡ h' = cc (item, item', ap (get_slot_item b) same) in
                      let found =
                        (item_key_matches_iff (mem h) key ok).1
                          (ap (λ x. item_key (mem x)) one ∙ e') in
                      absurd (ground (arith, found, f))
                ] in
              rw (e, item, f)
                (MatchLaw-weaken key b r c (match_loop mem key (length key) fuel r b) sub other
                  rest)
        ]
  ]

  -- A bucket whose busy slots have items, with their tags where the key is the one looked for.
  pub record Holding (key : Bytes) (tag : ℕ) (b : Bucket) : Type 0 where
    pub ranges : IsBucket b
    pub items : (i : ℕ) → i < 8 → is_busy b.slot_states i ≡ true → HasItem (get_slot_item b i)
    pub tagged :
        (i : ℕ)
        → i < 8
        → is_busy b.slot_states i ≡ true
        → HasKey key (get_slot_item b i)
        → byte_at b.hash_tags i ≡ tag

  -- All candidates together: the busy slots are searched.
  pub match_candidates-MatchLaw :
      (key : Bytes) (tag : ℕ) (b : Bucket)
      → tag < 256
      → Holding key tag b
      → MatchLaw key b b.slot_states (match_candidates mem key (length key) tag b)
  unfolding match_candidates
  match_candidates-MatchLaw key tag b small h =
      let c = match_tag-Candidates b tag h.ranges.tags h.ranges.states small in
      MatchLaw-weaken key b (match_tag b tag) b.slot_states _ c.busy
        (λ i hi busy k. c.all i hi busy (h.tagged i hi busy k))
        (match_loop-MatchLaw 9 key b (match_tag b tag) c.small
          (omega (arith, popcount_bound (match_tag b tag)))
          (λ i hi busy. h.items i hi (c.busy i hi busy)))
