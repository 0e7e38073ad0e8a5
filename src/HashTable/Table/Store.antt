-- ===== src/HashTable/Table/Store.antt =====
-- The slot that a set in one half of the table in src/hashtable.c returns, and the write through it.
use kvx.Common.{
  ℕ, ◌+◌, ◌%◌, ◌^◌, ◌<◌, ◌≤◌, ◌≡◌, ◌≢◌, ◌⊎◌, ◌↔◌, refl, sym, ap, ◌∙◌, true, none, some, [], ◌∷◌,
  arith, Bytes, length, inl, inr, if◌then◌else◌, length-append, get_or_beyond,
}
use kvx.Item.{Item}
use kvx.Item.Laws.{IsItem}
use kvx.HashTable.Bucket.{zero_bucket, is_busy, get_slot_state}
use kvx.HashTable.Bucket.Cells.{Cell, cell}
use kvx.HashTable.Probe.{
  Place, place_null, place, chain_end, find_item_slot_or_next_free_slot_in_bucket,
}
use kvx.HashTable.Probe.Chain.{PlaceLaw}
use kvx.HashTable.Table.{
  Half, Slot, chain_at, extended, tag_of, set_in, read_slot, write_slot, claim, slot_of,
}
use kvx.HashTable.Table.View.{cell_at, Writes, home, Entry, Keeps, IsHalf, Stores, Was, key_of}
use kvx.HashTable.Table.Access.{
  home_low, chain_Holding, Holds-Keeps, Lacks-LacksKey, Stores-one, tag_of_small, nth-extended,
}
use kvx.HashTable.Table.Update.{written-IsHalf, written-Stores}
use kvx.HashTable.Table.Claim.{Writes-trans, more, claim-Writes, write_slot-Writes, chain-PlaceLaw}
use kvx.HashTable.Table.Change.{Answers}

module _ (hash_of : Bytes → ℕ) (mem : ℕ → Item) {from : ℕ} (h : Half)
    (half : IsHalf hash_of mem from h) (key : Bytes) where
  abbrev pub own : ℕ
  own = home hash_of mem h.bucket_count key

  -- The slot of a place, and what it was.
  pub record Placed (p : Place) : Type 0 where
    pub depth : ℕ
    pub index : ℕ
    pub slot : slot_of own p ≡ some (record { chain = own; depth = depth; index = index })
    pub low : index < 8
    pub deep : depth < length (extended (chain_at h own) p)
    pub was : Was hash_of mem h own depth index key

  pub place-Placed : (p : Place) → PlaceLaw mem key 0 (chain_at h own) none p → Placed p
  unfolding cell get_slot_state
  place-Placed place_null law = cc law
  place-Placed (place d s) (inl (k, e, at)) =
      let same : d ≡ k = omega (arith, e) in
      record {
        depth = k;
        index = s;
        slot = rw same refl;
        low = at.1;
        deep = at.0;
        was = inr (Holds-Keeps hash_of mem h half key own k s at);
      }
  place-Placed (place d s) (inr (lacks, inl e)) = cc e
  place-Placed (place d s) (inr (lacks, inr (k, e, hd, hs, free))) =
      let same : d ≡ k = omega (arith, e) in
      record {
        depth = k;
        index = s;
        slot = rw same refl;
        low = hs;
        deep = hd;
        was = inl (free, Lacks-LacksKey hash_of mem h half key own lacks);
      }
  place-Placed (chain_end d) (lacks, e, _) =
      let same : d ≡ length (chain_at h own) = omega (arith, e) in
      record {
        depth = d;
        index = 0;
        slot = refl;
        low = omega arith;
        deep = omega (arith, same, length-append (chain_at h own) (zero_bucket ∷ []));
        was = inl (
          ap (λ b. is_busy b.slot_states 0)
              (get_or_beyond (chain_at h own) d zero_bucket (omega (arith, same))),
          Lacks-LacksKey hash_of mem h half key own lacks,
        );
      }

  -- The write of an item of that key: it is stored under the key, and each other key keeps its item.
  abbrev pub Stored : ℕ → Half → Type 0
  Stored x h' =
      IsHalf hash_of mem from h'
      × ((q : Bytes) (y : ℕ)
          → Stores hash_of mem h' q y
            ↔ (((q ≡ key) × (y ≡ x)) ⊎ ((q ≢ key) × Stores hash_of mem h q y)))
      × (h'.bucket_count ≡ h.bucket_count)

  pub written-Stored :
      (h' : Half) (d s x : ℕ)
      → s < 8
      → Was hash_of mem h own d s key
      → IsItem (mem x)
      → key_of hash_of mem x ≡ key
      → Writes h h' own d s (record { busy = true; tag = tag_of (hash_of key); item = some x })
      → Stored x h'
  written-Stored h' d s x hs was intact same w =
      let c : Cell = record { busy = true; tag = tag_of (hash_of key); item = some x } in
      let entry : c.busy ≡ true → Entry hash_of mem h.bucket_count own c = λ _. record {
        stored = x;
        item = refl;
        intact = intact;
        tag = rw same refl;
        at_home = rw same refl;
      } in
      let mine : (q : Bytes) (y : ℕ) → Keeps hash_of mem q y c → q ≡ key = λ q y k.
        let e : x ≡ y = cc k.item in sym k.key ∙ (ap (λ r. key_of hash_of mem r) (sym e) ∙ same) in
      (
        written-IsHalf hash_of mem h h' own d s c key half hs w was entry (λ e. cc e) mine,
        λ q y.
            let law =
              written-Stores hash_of mem h h' own d s c key half hs w was entry (λ e. cc e) mine
                refl q y in
            (
              λ stored. elim (law.0 stored) [
                | inl (e, at) ↦ let f : y ≡ x = cc at.item in inl (e, f)
                | inr r ↦ inr r
              ],
              λ r. elim r [
                | inl (e, f) ↦
                    law.1 (inl (e, record { busy = refl; item = ap some (sym f); key = rw f same }))
                | inr r ↦ law.1 (inr r)
              ],
            ),
        w.count,
      )

  -- What the position held, and whether the set counts it.
  Was-Answers :
      (d s : ℕ)
      → from ≤ own
      → s < 8
      → Was hash_of mem h own d s key
      → Answers hash_of mem h half key (cell_at h own d s).item
        × ((if (cell_at h own d s).busy then h.size else (h.size + 1) % 2 ^ 64)
            ≡ more h.size (cell_at h own d s).item)
  Was-Answers d s behind hs (inl (free, lacks)) =
      let e = half.vacant own d s behind hs free in
      rw (free, e) (λ y. (λ (d', s', hs', keeps). cc (lacks y d' s' hs' keeps), λ f. cc f), refl)
  Was-Answers d s behind hs (inr (x, keeps)) =
      rw (keeps.busy, keeps.item)
        (
          λ y. (
            λ stored. ap some (Stores-one hash_of mem h half key x y d s hs keeps stored),
            λ f.
                let e : x ≡ y = cc f in
                (
                  d,
                  s,
                  hs,
                  record { busy = keeps.busy; item = keeps.item ∙ f; key = rw (← e) keeps.key },
                ),
          ),
          refl,
        )

  Was-tag :
      (d s : ℕ)
      → s < 8
      → Was hash_of mem h own d s key
      → (cell_at h own d s).busy ≡ true
      → (cell_at h own d s).tag ≡ tag_of (hash_of key)
  Was-tag d s hs (inl (free, _)) busy = cc (free, busy)
  Was-tag d s hs (inr (x, keeps)) busy =
      let e = half.entries own d s hs busy in
      let one : e.stored ≡ x = cc (e.item, keeps.item) in
      e.tag ∙ ap (λ r. tag_of (hash_of r)) (ap (λ r. key_of hash_of mem r) one ∙ keeps.key)

  set_in_slot :
      (sl : Slot)
      → let p =
          find_item_slot_or_next_free_slot_in_bucket mem key
            (length key)
            (tag_of (hash_of key))
            (chain_at h own) in
        slot_of own p ≡ some sl
        → set_in mem h (hash_of key) (tag_of (hash_of key)) key (length key)
          ≡ some (claim h (extended (chain_at h own) p) sl (tag_of (hash_of key)), sl)
  unfolding set_in claim
  set_in_slot sl e = rw (set_in, e) refl

  -- For a key whose chain is not moved yet, a set returns a slot that holds the item stored under the
  -- key, or NULL where none is, which the size counts then. A write through the slot makes it a busy
  -- one with the item and the tag of the key.
  pub set_in-Writes :
      from ≤ own
      → (h1 : Half) × (sl : Slot) × (set_in mem h
            (hash_of key)
            (tag_of (hash_of key))
            key
            (length key)
          ≡ some (h1, sl))
        × Answers hash_of mem h half key (read_slot h1 sl)
        × (h1.size ≡ more h.size (read_slot h1 sl))
        × (d : ℕ) × (s : ℕ) × (s < 8)
        × Was hash_of mem h own d s key
        × ((x : ℕ)
            → Writes h
                (write_slot h1 sl (some x))
                own
                d
                s
                (record { busy = true; tag = tag_of (hash_of key); item = some x }))
  unfolding cell
  set_in-Writes behind =
      let p =
        find_item_slot_or_next_free_slot_in_bucket mem key (length key) (tag_of (hash_of key))
          (chain_at h own) in
      let at = place-Placed p (
        chain-PlaceLaw mem key (tag_of (hash_of key)) (tag_of_small (hash_of key)) (chain_at h own)
          (half.shaped.chains own (home_low hash_of mem h half key))
          (chain_Holding hash_of mem h half key own)) in
      let sl : Slot = record { chain = own; depth = at.depth; index = at.index } in
      let chain = extended (chain_at h own) p in
      let h1 = claim h chain sl (tag_of (hash_of key)) in
      let c = cell_at h own at.depth at.index in
      let (w, deep, size) =
        claim-Writes h half.shaped own (home_low hash_of mem h half key) at.depth at.index
          (tag_of (hash_of key)) at.low (tag_of_small (hash_of key)) chain
          (nth-extended (chain_at h own) p) at.deep (Was-tag at.depth at.index at.low at.was) in
      let (answers, counted) = Was-Answers at.depth at.index behind at.low at.was in
      let held : read_slot h1 sl ≡ c.item = ap (λ r. r.item) w.here in
      (
        h1,
        sl,
        set_in_slot sl at.slot,
        rw held answers,
        size ∙ (counted ∙ ap (more h.size) (sym held)),
        at.depth,
        at.index,
        at.low,
        at.was,
        λ x.
            let v =
              write_slot-Writes h1 own at.depth at.index (some x) w.shaped
                (omega (arith, home_low hash_of mem h half key, w.count)) at.low deep in
            Writes-trans h h1 (write_slot h1 sl (some x)) own at.depth at.index _ _ w
              (rw (← ap (λ (r : Cell). record r { item = some x }) w.here) v),
      )

  -- In such a half, for a key whose chain is not moved yet, a set returns a slot that holds the item stored under the key, or NULL where none
  -- is, which the size counts then. The write of an intact item of that key through the slot stores it:
  -- the item is the key's one, and each other key keeps its item.
  pub set_in-Stored :
      (x : ℕ)
      → from ≤ own
      → IsItem (mem x)
      → key_of hash_of mem x ≡ key
      → (h1 : Half) × (sl : Slot) × (set_in mem h
            (hash_of key)
            (tag_of (hash_of key))
            key
            (length key)
          ≡ some (h1, sl))
        × Answers hash_of mem h half key (read_slot h1 sl)
        × (h1.size ≡ more h.size (read_slot h1 sl))
        × Stored x (write_slot h1 sl (some x))
  set_in-Stored x behind intact same =
      let (h1, sl, run, answers, size, d, s, hs, was, w) = set_in-Writes behind in
      (
        h1,
        sl,
        run,
        answers,
        size,
        written-Stored (write_slot h1 sl (some x)) d s x hs was intact same (w x),
      )
