-- ===== src/HashTable/Table/Claim.antt =====
-- The slot that is claimed in one half of the table in src/hashtable.c, and the write through it.
use kvx.Common.{
  ℕ, ◌+◌, ◌%◌, ◌^◌, ◌<◌, ◌≡◌, refl, sym, ap, ◌∙◌, Bool, true, false, Option, none, some, List, [],
  ◌∷◌, arith, Bytes, length, Bool-cases, inl, inr, set, All, if◌then◌else◌, length-set,
  get_or-set_self,
}
use kvx.Item.{Item}
use kvx.HashTable.Bucket.{Bucket, get_slot_state, set_slot_item}
use kvx.HashTable.Bucket.Cells.{Cell, cell}
use kvx.HashTable.Probe.{find_item_slot_or_next_free_slot_in_bucket}
use kvx.HashTable.Probe.Candidates.{Holding}
use kvx.HashTable.Probe.Chain.{nth, PlaceLaw, find_place-PlaceLaw}
use kvx.HashTable.Table.{Half, chain_at, write_slot, claim, busy_bucket, set_chain, bucket_at}
use kvx.HashTable.Table.View.{cell_at, Writes, IsShaped}
use kvx.HashTable.Table.Replace.{busy_bucket-Puts, item-Puts, replace-Writes, swap-Writes}

-- Two writes at one position are the second one.
pub Writes-trans :
    (h h1 h2 : Half) (i d s : ℕ) (c1 c2 : Cell)
    → Writes h h1 i d s c1
    → Writes h1 h2 i d s c2
    → Writes h h2 i d s c2
Writes-trans h h1 h2 i d s c1 c2 v w = record {
  shaped = w.shaped;
  count = w.count ∙ v.count;
  here = w.here;
  there = λ i' d' s' hs apart. w.there i' d' s' hs apart ∙ v.there i' d' s' hs apart;
}

busy_cell : (c : Cell) (t : ℕ) → c.busy ≡ true → c.tag ≡ t → c ≡ record c { busy = true; tag = t }
busy_cell c t hb ht =
    ap (λ (b : Bool). record c { busy = b }) hb
    ∙ ap (λ (u : ℕ). record c { busy = true; tag = u }) ht

-- The size after a set whose slot holds `r`.
abbrev pub more : ℕ → Option ℕ → ℕ
more size none = (size + 1) % 2 ^ 64
more size (some x) = size

module _ (h : Half) (shaped : IsShaped h) (i : ℕ) (hi : i < h.bucket_count) (d s tag : ℕ)
    (low : s < 8) (small : tag < 256) (chain : List Bucket)
    (same : (j : ℕ) → nth chain j ≡ nth (chain_at h i) j) (depth : d < length chain)
    (tagged : (cell_at h i d s).busy ≡ true → (cell_at h i d s).tag ≡ tag) where
  abbrev pub claimed : Half
  claimed = claim h chain (record { chain = i; depth = d; index = s }) tag

  pub claim-Writes :
      Writes h claimed i d s (record (cell_at h i d s) { busy = true; tag = tag })
      × (d < length (chain_at claimed i))
      × (claimed.size ≡ (if (cell_at h i d s).busy then h.size else (h.size + 1) % 2 ^ 64))
  unfolding claim cell
  claim-Writes =
      let here : bucket_at chain d ≡ nth (chain_at h i) d = same d in
      elim (Bool-cases (get_slot_state (bucket_at chain d) s)) [
        | inl e ↦
            let before : get_slot_state (nth (chain_at h i) d) s ≡ true =
              ap (λ b. get_slot_state b s) (sym here) ∙ e in
            rw (e, before)
              (
                swap-Writes h (set_chain h i chain) i chain shaped hi refl refl
                    (omega (arith, depth)) (λ j. rw (same j) (shaped.buckets i j)) d s
                    (record (cell_at h i d s) { busy = true; tag = tag })
                    (ap (λ r. cell r s) here
                      ∙ busy_cell (cell_at h i d s) tag before (tagged before))
                    (λ d' s' hs apart. ap (λ r. cell r s') (same d')),
                rw (get_or-set_self h.buckets i chain [] (omega (arith, shaped.width, hi))) depth,
                refl,
              )
        | inr e ↦
            let before : get_slot_state (nth (chain_at h i) d) s ≡ false =
              ap (λ b. get_slot_state b s) (sym here) ∙ e in
            let b' = busy_bucket (bucket_at chain d) s tag in
            rw (e, before)
              (
                replace-Writes h
                    (record (set_chain h i (set chain d b')) { size = (h.size + 1) % 2 ^ 64 }) i
                    chain d s b' (record (cell_at h i d s) { busy = true; tag = tag }) shaped hi
                    same depth
                    (rw here (
                      busy_bucket-Puts (nth (chain_at h i) d) s tag (shaped.buckets i d) low small))
                    refl refl,
                rw
                    (get_or-set_self h.buckets i (set chain d b') []
                      (omega (arith, shaped.width, hi)))
                    (omega (arith, depth, length-set chain d b')),
                refl,
              )
      ]

-- A write through a slot.
pub write_slot-Writes :
    (h : Half) (i d s : ℕ) (v : Option ℕ)
    → IsShaped h
    → i < h.bucket_count
    → s < 8
    → d < length (chain_at h i)
    → Writes h
        (write_slot h (record { chain = i; depth = d; index = s }) v)
        i
        d
        s
        (record (cell_at h i d s) { item = v })
write_slot-Writes h i d s v shaped hi low depth =
    let b = bucket_at (chain_at h i) d in
    replace-Writes h _ i (chain_at h i) d s (set_slot_item b s v)
      (record (cell_at h i d s) { item = v }) shaped hi (λ j. refl) depth
      (item-Puts b s v (shaped.buckets i d) low) refl refl

pub chain-PlaceLaw :
    (mem : ℕ → Item) (key : Bytes) (tag : ℕ) (small : tag < 256) (chain : List Bucket)
    → 0 < length chain
    → All (Holding mem key tag) chain
    → PlaceLaw mem key 0 chain none
        (find_item_slot_or_next_free_slot_in_bucket mem key (length key) tag chain)
chain-PlaceLaw mem key tag small [] nonempty all = absurd (omega arith)
chain-PlaceLaw mem key tag small (b ∷ next) nonempty all =
    find_place-PlaceLaw mem key tag small b next all
