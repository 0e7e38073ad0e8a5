-- ===== src/HashTable/Migrate/Chain.antt =====
-- A chain is moved into the new half: hashtable_migrate_bucket of src/hashtable.c.
use kvx.Common.{
  ℕ, zero, suc, ◌+◌, ◌%◌, ◌^◌, ◌<◌, ◌≡◌, ◌⊎◌, ◌↔◌, refl, sym, ◌∙◌, true, false, some, List, [], ◌∷◌,
  arith, Bytes, inl, inr,
}
use kvx.Item.{Item}
use kvx.Item.Laws.{IsItem}
use kvx.HashTable.Bucket.{Bucket, zero_bucket, get_slot_state}
use kvx.HashTable.Bucket.States.{is_busy_zero}
use kvx.HashTable.Bucket.Cells.{cell, IsBucket}
use kvx.HashTable.Probe.Chain.{nth}
use kvx.HashTable.Table.{Half}
use kvx.HashTable.Table.View.{Keeps, IsHalf, Stores}
use kvx.HashTable.Migrate.{Moving, migrate_slots, migrate_next, migrate_bucket}
use kvx.HashTable.Migrate.Pending.{Movable, Emptied}
use kvx.HashTable.Migrate.Slots.{migrate_slots_loop-Emptied}

pub zero_cell : (s : ℕ) → s < 8 → (cell zero_bucket s).busy ≡ false
unfolding cell get_slot_state
zero_cell s hs = is_busy_zero s hs

module _ (hash_of : Bytes → ℕ) (mem : ℕ → Item) where
  -- The busy slots of a chain hold items whose keys differ and are not in the new half.
  pub record ChainMovable (chain : List Bucket) (new : Half) : Type 0 where
    pub half : IsHalf hash_of mem 0 new
    pub ok : (d : ℕ) → IsBucket (nth chain d)
    pub items :
        (d s : ℕ)
        → s < 8
        → (cell (nth chain d) s).busy ≡ true
        → (x : ℕ) × ((cell (nth chain d) s).item ≡ some x) × IsItem (mem x)
    pub fresh :
        (k : Bytes) (y z d s : ℕ)
        → s < 8
        → Keeps hash_of mem k y (cell (nth chain d) s)
        → Stores hash_of mem new k z
        → true ≡ false
    pub once :
        (k : Bytes) (y z d s d' s' : ℕ)
        → s < 8
        → s' < 8
        → Keeps hash_of mem k y (cell (nth chain d) s)
        → Keeps hash_of mem k z (cell (nth chain d') s')
        → (d' ≡ d) × (s' ≡ s)

  abbrev pub InChain : List Bucket → Bytes → ℕ → Type 0
  InChain chain q y = (d : ℕ) × (s : ℕ) × (s < 8) × Keeps hash_of mem q y (cell (nth chain d) s)

  -- The new half stores what the chain held as well, and the sum of the sizes is as before.
  pub record Carried (chain : List Bucket) (old_size : ℕ) (new : Half) (r : ℕ × Half) : Type 0 where
    pub half : IsHalf hash_of mem 0 r.1
    pub count : r.1.bucket_count ≡ new.bucket_count
    pub stores :
        (q : Bytes) (y : ℕ)
        → Stores hash_of mem r.1 q y ↔ (Stores hash_of mem new q y ⊎ InChain chain q y)
    pub total : (r.0 + r.1.size) % 2 ^ 64 ≡ (old_size + new.size) % 2 ^ 64

  Carried-nil :
      (old_size : ℕ) (new : Half)
      → IsHalf hash_of mem 0 new
      → Carried [] old_size new (old_size, new)
  Carried-nil old_size new half = record {
    half = half;
    count = refl;
    stores = λ q y. (
      λ r. inl r,
      λ r. elim r [ inl stored ↦ stored | inr (d, s, hs, keeps) ↦ cc (keeps.busy, zero_cell s hs) ],
    );
    total = refl;
  }

  module _ (b : Bucket) (next : List Bucket) (old_size : ℕ) (new : Half)
      (movable : ChainMovable (b ∷ next) new) where
    head-Movable : Movable hash_of mem b 0 new
    head-Movable = record {
      half = movable.half;
      ok = movable.ok 0;
      items = λ j low hj busy. movable.items 0 j hj busy;
      fresh = λ k y z j low hj keeps stored. movable.fresh k y z 0 j hj keeps stored;
      once = λ k y z j j' low hj low' hj' p q. sym ((movable.once k y z 0 j 0 j' hj hj' p q).1);
    }

    module _ (m : Moving) (emptied : Emptied hash_of mem b 0 old_size new m) where
      ChainMovable-tail : ChainMovable next m.2
      ChainMovable-tail = record {
        half = emptied.half;
        ok = λ d. movable.ok (suc d);
        items = λ d s hs busy. movable.items (suc d) s hs busy;
        fresh = λ k y z d s hs keeps stored. elim ((emptied.stores k z).0 stored) [
          | inl before ↦ movable.fresh k y z (suc d) s hs keeps before
          | inr (j, low, hj, at) ↦
              let e : 0 ≡ suc d = (movable.once k y z (suc d) s 0 j hs hj keeps at).0 in
              absurd (omega (arith, e))
        ];
        once = λ k y z d s d' s' hs hs' p q.
            let (e, f) = movable.once k y z (suc d) s (suc d') s' hs hs' p q in
            (omega (arith, e), f);
      }

      Carried-cons : (r : ℕ × Half) → Carried next m.1 m.2 r → Carried (b ∷ next) old_size new r
      Carried-cons r carried = record {
        half = carried.half;
        count = carried.count ∙ emptied.count;
        stores = λ q y. (
          λ stored. elim ((carried.stores q y).0 stored) [
            | inr (d, s, hs, keeps) ↦ inr (suc d, s, hs, keeps)
            | inl stored1 ↦ elim ((emptied.stores q y).0 stored1) [
              | inl before ↦ inl before
              | inr (j, low, hj, keeps) ↦ inr (0, j, hj, keeps)
            ]
          ],
          λ r. elim r [
            | inl before ↦ (carried.stores q y).1 (inl ((emptied.stores q y).1 (inl before)))
            | inr (d, s, hs, keeps) ↦ from q y d s hs keeps
          ],
        );
        total = carried.total ∙ emptied.total;
      }
        where
          from :
              (q : Bytes) (y d s : ℕ)
              → s < 8
              → Keeps hash_of mem q y (cell (nth (b ∷ next) d) s)
              → Stores hash_of mem r.1 q y
          from q y zero s hs keeps =
              (carried.stores q y).1
                (inl ((emptied.stores q y).1 (inr (s, omega arith, hs, keeps))))
          from q y (suc d) s hs keeps = (carried.stores q y).1 (inr (d, s, hs, keeps))

  migrate_next-Carried :
      (chain : List Bucket) (old_size : ℕ) (new : Half)
      → ChainMovable chain new
      → (r : ℕ × Half) × (migrate_next hash_of mem chain old_size new ≡ some r)
        × Carried chain old_size new r
  unfolding migrate_next migrate_slots
  migrate_next-Carried [] old_size new movable =
      ((old_size, new), refl, Carried-nil old_size new movable.half)
  migrate_next-Carried (b ∷ next) old_size new movable =
      let (m, e, emptied) =
        migrate_slots_loop-Emptied hash_of mem 8 0 old_size b new (omega arith)
          (head-Movable b next old_size new movable) in
      let (r, f, carried) =
        migrate_next-Carried next m.1 m.2
          (ChainMovable-tail b next old_size new movable m emptied) in
      (r, rw e f, Carried-cons b next old_size new movable m emptied r carried)

  -- The chain of the array is left with its first bucket, all free.
  pub migrate_bucket-Carried :
      (b : Bucket) (next : List Bucket) (old_size : ℕ) (new : Half)
      → ChainMovable (b ∷ next) new
      → (b' : Bucket) × (r : ℕ × Half) × (migrate_bucket hash_of mem (b ∷ next) old_size new
          ≡ some (b' ∷ [], r.0, r.1))
        × Carried (b ∷ next) old_size new r
        × IsBucket b'
        × ((j : ℕ) → j < 8 → (cell b' j).busy ≡ false)
  unfolding migrate_bucket migrate_slots
  migrate_bucket-Carried b next old_size new movable =
      let (m, e, emptied) =
        migrate_slots_loop-Emptied hash_of mem 8 0 old_size b new (omega arith)
          (head-Movable b next old_size new movable) in
      let (r, f, carried) =
        migrate_next-Carried next m.1 m.2
          (ChainMovable-tail b next old_size new movable m emptied) in
      (
        m.0,
        r,
        rw (e, f) refl,
        Carried-cons b next old_size new movable m emptied r carried,
        emptied.ok,
        λ j hj. emptied.free j hj (inl (omega arith)),
      )
