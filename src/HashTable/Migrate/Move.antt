-- ===== src/HashTable/Migrate/Move.antt =====
-- An item is moved into the new half: hashtable_migrate_slot of src/hashtable.c from the hash on.
use kvx.Common.{
  ℕ, ◌+◌, ◌%◌, ◌^◌, ◌<◌, ◌≡◌, ◌⊎◌, ◌↔◌, refl, sym, subst, ap, ◌∙◌, true, false, some, Bytes, length,
  inl, inr, set,
}
use kvx.Item.{Item}
use kvx.Item.Laws.{IsItem, length-item_key}
use kvx.HashTable.Bucket.{get_slot_state, set_slot_item}
use kvx.HashTable.Bucket.Cells.{Cell, cell, IsBucket}
use kvx.HashTable.Probe.{Place, find_item_slot_or_next_free_slot_in_bucket}
use kvx.HashTable.Table.{
  Half, Slot, chain_at, extended, tag_of, slot_of, busy_bucket, set_chain, bucket_at,
}
use kvx.HashTable.Table.View.{cell_at, Writes, IsHalf, Stores, Was, key_of}
use kvx.HashTable.Table.Access.{home_low, chain_Holding, tag_of_small, nth-extended}
use kvx.HashTable.Table.Replace.{busy_bucket-Puts, item-Puts, Puts, replace-Writes}
use kvx.HashTable.Table.Claim.{chain-PlaceLaw}
use kvx.HashTable.Table.Store.{own, Placed, place-Placed, Stored, written-Stored}
use kvx.HashTable.Migrate.{adopt, move_item}

module _ (hash_of : Bytes → ℕ) (mem : ℕ → Item) (new : Half) (half : IsHalf hash_of mem 0 new)
    (x : ℕ) (intact : IsItem (mem x))
    (absent : (y : ℕ) → Stores hash_of mem new (key_of hash_of mem x) y → true ≡ false) where
  abbrev key : Bytes
  key = key_of hash_of mem x

  abbrev at : ℕ
  at = own hash_of mem new half key

  -- The half after a move: the item is stored under its key, all else as before, and it is counted.
  abbrev pub Moved : Half → Type 0
  Moved new' =
      IsHalf hash_of mem 0 new'
      × (new'.bucket_count ≡ new.bucket_count)
      × (new'.size ≡ (new.size + 1) % 2 ^ 64)
      × ((q : Bytes) (y : ℕ)
          → Stores hash_of mem new' q y ↔ (((q ≡ key) × (y ≡ x)) ⊎ Stores hash_of mem new q y))

  place_free :
      (d s : ℕ) → s < 8 → Was hash_of mem new at d s key → (cell_at new at d s).busy ≡ false
  place_free d s low (inl (free, lacks)) = free
  place_free d s low (inr (y, keeps)) = cc (absent y (d, s, low, keeps))

  Stored-Moved :
      (new' : Half)
      → new'.bucket_count ≡ new.bucket_count
      → new'.size ≡ (new.size + 1) % 2 ^ 64
      → Stored hash_of mem new half key x new'
      → Moved new'
  Stored-Moved new' count size (half', law, _) = (
    half',
    count,
    size,
    λ q y. (
      λ stored. elim ((law q y).0 stored) [ inl e ↦ inl e | inr (_, r) ↦ inr r ],
      λ r. elim r [
        | inl e ↦ (law q y).1 (inl e)
        | inr stored ↦ (law q y).1 (
            inr
              (λ same. cc (absent y (subst (λ r. Stores hash_of mem new r y) same stored)), stored))
      ],
    ),
  )

  adopt-Moved :
      (p : Place) (f : Placed hash_of mem new half key p)
      → let s : Slot = record { chain = at; depth = f.depth; index = f.index } in
        Moved (adopt hash_of mem new (extended (chain_at new at) p) s (tag_of (hash_of key)) x)
  unfolding adopt cell
  adopt-Moved p f =
      let chain = extended (chain_at new at) p in
      let b = bucket_at chain f.depth in
      let tag = tag_of (hash_of key) in
      let same : b ≡ bucket_at (chain_at new at) f.depth =
        nth-extended (chain_at new at) p f.depth in
      let free : get_slot_state b f.index ≡ false =
        ap (λ r. get_slot_state r f.index) same ∙ place_free f.depth f.index f.low f.was in
      let ok : IsBucket b = rw same (half.shaped.buckets at f.depth) in
      let busy = busy_bucket-Puts b f.index tag ok f.low (tag_of_small (hash_of key)) in
      let item = item-Puts (busy_bucket b f.index tag) f.index (some x) busy.ok f.low in
      let c : Cell = record { busy = true; tag = tag; item = some x } in
      let b' = set_slot_item (busy_bucket b f.index tag) f.index (some x) in
      let puts : Puts b b' f.index c = record {
        ok = item.ok;
        here = item.here ∙ ap (λ (r : Cell). record r { item = some x }) busy.here;
        there = λ j hj ne. item.there j hj ne ∙ busy.there j hj ne;
      } in
      let new' : Half = record (set_chain new at (set chain f.depth b')) {
        size = (new.size + 1) % 2 ^ 64;
      } in
      let w : Writes new new' at f.depth f.index c =
        replace-Writes new new' at chain f.depth f.index b' c half.shaped
          (home_low hash_of mem new half key) (nth-extended (chain_at new at) p) f.deep
          (subst (λ r. Puts r b' f.index c) same puts) refl refl in
      let s : Slot = record { chain = at; depth = f.depth; index = f.index } in
      let adopted : adopt hash_of mem new chain s tag x ≡ new' = rw free refl in
      subst Moved (sym adopted) (
        Stored-Moved new' refl refl (
          written-Stored hash_of mem new half key new' f.depth f.index x f.low f.was intact refl w))

  move_item_slot :
      (p : Place) (s : Slot)
      → find_item_slot_or_next_free_slot_in_bucket mem key
          (mem x).key_len
          (tag_of (hash_of key))
          (chain_at new at)
        ≡ p
      → slot_of at p ≡ some s
      → move_item hash_of mem new x
        ≡ some (adopt hash_of mem new (extended (chain_at new at) p) s (tag_of (hash_of key)) x)
  unfolding move_item
  move_item_slot p s found slot =
      rw (move_item, found, slot)
        (ap
          (λ r.
            some (adopt hash_of mem new (extended (chain_at new at) r) s (tag_of (hash_of key)) x))
          found)

  -- The move of an item whose key the new half does not have.
  pub move_item-Moved : (new' : Half) × (move_item hash_of mem new x ≡ some new') × Moved new'
  move_item-Moved =
      let p =
        find_item_slot_or_next_free_slot_in_bucket mem key (length key) (tag_of (hash_of key))
          (chain_at new at) in
      let f = place-Placed hash_of mem new half key p (
        chain-PlaceLaw mem key (tag_of (hash_of key)) (tag_of_small (hash_of key)) (chain_at new at)
          (half.shaped.chains at (home_low hash_of mem new half key))
          (chain_Holding hash_of mem new half key at)) in
      let s : Slot = record { chain = at; depth = f.depth; index = f.index } in
      (
        adopt hash_of mem new (extended (chain_at new at) p) s (tag_of (hash_of key)) x,
        move_item_slot p s
            (ap
              (λ n.
                find_item_slot_or_next_free_slot_in_bucket mem key n (tag_of (hash_of key))
                  (chain_at new at))
              (sym (length-item_key (mem x) intact)))
            f.slot,
        adopt-Moved p f,
      )
