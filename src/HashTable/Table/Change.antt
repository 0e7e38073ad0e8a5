-- ===== src/HashTable/Table/Change.antt =====
-- The operations of one half of the table in src/hashtable.c, against the keys that it stores.
use kvx.Common.{
  ℕ, ◌+◌, ◌-◌, ◌%◌, ◌^◌, ◌<◌, ◌≡◌, ◌≢◌, ◌↔◌, refl, sym, subst, ap, ◌∙◌, false, Option, none, some,
  arith, Bytes, length, inl, inr, set,
}
use kvx.Item.{Item}
use kvx.HashTable.Bucket.{get_slot_item}
use kvx.HashTable.Bucket.Cells.{Cell, cell}
use kvx.HashTable.Probe.{Found, found_null, missing, found, find_item_slot_in_bucket}
use kvx.HashTable.Probe.Chain.{nth, Holds, Lacks, FoundLaw, find_item_slot-FoundLaw}
use kvx.HashTable.Table.{Half, tag_of, get_in, delete_in, read_slot, cleared, set_chain, bucket_at}
use kvx.HashTable.Table.View.{cell_at, Writes, home, Keeps, IsHalf, Stores}
use kvx.HashTable.Table.Access.{
  own_chain, home_low, chain_Holding, Holds-Keeps, Lacks-LacksKey, Stores-one, tag_of_small,
}
use kvx.HashTable.Table.Replace.{cleared-Puts, replace-Writes}
use kvx.HashTable.Table.Update.{written-IsHalf, written-Stores}

module _ (hash_of : Bytes → ℕ) (mem : ℕ → Item) {from : ℕ} (h : Half)
    (half : IsHalf hash_of mem from h) (key : Bytes) where
  -- The answer is the item that is stored under the key, or none where no item is.
  abbrev pub Answers : Option ℕ → Type 0
  Answers r = (y : ℕ) → Stores hash_of mem h key y ↔ (r ≡ some y)

  found-Answers :
      (d s : ℕ)
      → Holds mem key (own_chain hash_of mem h half key) d s
      → Answers (cell_at h (home hash_of mem h.bucket_count key) d s).item
  found-Answers d s at y =
      let i = home hash_of mem h.bucket_count key in
      let (x, keeps) = Holds-Keeps hash_of mem h half key i d s at in
      (
        λ stored.
            keeps.item ∙ ap some (Stores-one hash_of mem h half key x y d s at.1 keeps stored),
        λ e.
            let same : x ≡ y = cc (keeps.item, e) in
            (d, s, at.1, record { busy = keeps.busy; item = e; key = rw (← same) keeps.key }),
      )

  missing-Answers : Lacks mem key (own_chain hash_of mem h half key) → Answers none
  missing-Answers lacks y = (
    λ (d, s, hs, keeps). cc (
        Lacks-LacksKey hash_of mem h half key (home hash_of mem h.bucket_count key) lacks y d s hs
          keeps),
    λ e. cc e,
  )

  -- In a half whose busy slots hold their items with their tags, in the chains of their hashes, a get
  -- finds the item that is stored under the key, or NULL where none is.
  pub get_in-Answers :
      (r : Option ℕ) × (get_in mem h (hash_of key) (tag_of (hash_of key)) key (length key) ≡ some r)
      × Answers r
  unfolding get_in cell
  get_in-Answers =
      go
        (find_item_slot_in_bucket mem key (length key) (tag_of (hash_of key))
          (own_chain hash_of mem h half key))
        (find_item_slot-FoundLaw mem key (tag_of (hash_of key)) (tag_of_small (hash_of key))
          (own_chain hash_of mem h half key) (chain_Holding hash_of mem h half key _))
    where
      go :
          (f : Found)
          → FoundLaw mem key 0 (own_chain hash_of mem h half key) f
          → (r : Option ℕ) × ((elim f [
            | found_null ↦ none
            | missing ↦ some none
            | found depth slot ↦ some (
                read_slot h (record {
                  chain = home hash_of mem h.bucket_count key;
                  depth = depth;
                  index = slot;
                }))
          ])
              ≡ some r)
            × Answers r
      go found_null law = cc law
      go missing law = (none, refl, missing-Answers law)
      go (found d s) (k, e, at) =
          let same : d ≡ k = omega (arith, e) in
          (
            get_slot_item (nth (own_chain hash_of mem h half key) k) s,
            rw same refl,
            found-Answers k s at,
          )

  -- The size after a deletion that returned `r`.
  abbrev pub fewer : Option ℕ → ℕ
  fewer none = h.size
  fewer (some x) = (h.size + 2 ^ 64 - 1) % 2 ^ 64

  cleared-Writes :
      (d s : ℕ)
      → d < length (own_chain hash_of mem h half key)
      → s < 8
      → let i = home hash_of mem h.bucket_count key in
        let chain = own_chain hash_of mem h half key in
        Writes h
          (record (set_chain h i (set chain d (cleared (bucket_at chain d) s))) {
            size = (h.size + 2 ^ 64 - 1) % 2 ^ 64;
          })
          i
          d
          s
          (record { busy = false; tag = 0; item = none })
  cleared-Writes d s hd hs =
      let i = home hash_of mem h.bucket_count key in
      let chain = own_chain hash_of mem h half key in
      replace-Writes h _ i chain d s (cleared (bucket_at chain d) s)
        (record { busy = false; tag = 0; item = none }) half.shaped
        (home_low hash_of mem h half key) (λ j. refl) hd
        (cleared-Puts (bucket_at chain d) s (half.shaped.buckets i d) hs) refl refl

  -- What a deletion leaves.
  abbrev pub Removed : Half → Type 0
  Removed h' =
      IsHalf hash_of mem from h'
      × ((q : Bytes) (y : ℕ) → Stores hash_of mem h' q y ↔ ((q ≢ key) × Stores hash_of mem h q y))
      × (h'.bucket_count ≡ h.bucket_count)

  written-Removed :
      (h' : Half) (d s x : ℕ)
      → let i = home hash_of mem h.bucket_count key in
        s < 8
        → Keeps hash_of mem key x (cell_at h i d s)
        → Writes h h' i d s (record { busy = false; tag = 0; item = none })
        → Removed h'
  written-Removed h' d s x hs keeps w =
      let i = home hash_of mem h.bucket_count key in
      let c : Cell = record { busy = false; tag = 0; item = none } in
      (
        written-IsHalf hash_of mem h h' i d s c key half hs w (inr (x, keeps)) (λ e. cc e)
            (λ e. refl) (λ q y k. cc k.busy),
        λ q y.
            let law =
              written-Stores hash_of mem h h' i d s c key half hs w (inr (x, keeps)) (λ e. cc e)
                (λ e. refl) (λ q y k. cc k.busy) refl q y in
            (
              λ stored. elim (law.0 stored) [ inl (_, at) ↦ cc at.busy | inr r ↦ r ],
              λ r. law.1 (inr r),
            ),
        w.count,
      )

  Removed-none : Lacks mem key (own_chain hash_of mem h half key) → Removed h
  Removed-none lacks = (
    half,
    λ q y. (
      λ stored. (
        λ same.
            cc ((missing-Answers lacks y).0 (subst (λ r. Stores hash_of mem h r y) same stored)),
        stored,
      ),
      λ r. r.1,
    ),
    refl,
  )

  -- In such a half, a deletion returns the item that was stored under the key, or NULL where none was;
  -- no item is stored under the key then, each other key keeps its item, and the size counts the change.
  pub delete_in-Removed :
      (h' : Half) × (r : Option ℕ) × (delete_in mem h
          (hash_of key)
          (tag_of (hash_of key))
          key
          (length key)
        ≡ some (h', r))
      × Answers r
      × (h'.size ≡ fewer r)
      × Removed h'
  unfolding delete_in cell
  delete_in-Removed =
      go
        (find_item_slot_in_bucket mem key (length key) (tag_of (hash_of key))
          (own_chain hash_of mem h half key))
        (find_item_slot-FoundLaw mem key (tag_of (hash_of key)) (tag_of_small (hash_of key))
          (own_chain hash_of mem h half key) (chain_Holding hash_of mem h half key _))
    where
      go :
          (f : Found)
          → FoundLaw mem key 0 (own_chain hash_of mem h half key) f
          → let i = home hash_of mem h.bucket_count key in
            let chain = own_chain hash_of mem h half key in
            let result : Option (Half × Option ℕ) = elim f [
              | found_null ↦ none
              | missing ↦ some (h, none)
              | found depth slot ↦ some (
                record (set_chain h i (set chain depth (cleared (bucket_at chain depth) slot))) {
                  size = (h.size + 2 ^ 64 - 1) % 2 ^ 64;
                },
                get_slot_item (bucket_at chain depth) slot,
              )
            ] in
            (h' : Half) × (r : Option ℕ) × (result ≡ some (h', r))
            × Answers r
            × (h'.size ≡ fewer r)
            × Removed h'
      go found_null law = cc law
      go missing law = (h, none, refl, missing-Answers law, refl, Removed-none law)
      go (found d s) (k, e, at) =
          let same : d ≡ k = omega (arith, e) in
          let i = home hash_of mem h.bucket_count key in
          let chain = own_chain hash_of mem h half key in
          let (x, keeps) = Holds-Keeps hash_of mem h half key i k s at in
          let h' : Half = record (set_chain h i (set chain k (cleared (bucket_at chain k) s))) {
            size = (h.size + 2 ^ 64 - 1) % 2 ^ 64;
          } in
          (
            h',
            get_slot_item (bucket_at chain k) s,
            rw same refl,
            found-Answers k s at,
            sym (ap fewer keeps.item),
            written-Removed h' k s x at.1 keeps (cleared-Writes k s at.0 at.1),
          )
