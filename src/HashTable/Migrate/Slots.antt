-- ===== src/HashTable/Migrate/Slots.antt =====
-- The busy slots of one bucket are moved into the new half: hashtable_migrate_slots of src/hashtable.c.
use kvx.Common.{
  ℕ, zero, suc, ◌+◌, ◌-◌, ◌%◌, ◌^◌, ◌≤◌, ◌<◌, ◌≡◌, ◌≢◌, refl, sym, subst, ap, ◌∙◌, true, false,
  some, arith, ◌==◌, Bytes, Bool-cases, inl, inr,
}
use kvx.Item.{Item}
use kvx.Item.Laws.{IsItem}
use kvx.HashTable.Bucket.{Bucket, get_slot_state, get_slot_item, set_slot_state}
use kvx.HashTable.Bucket.Cells.{cell, set_slot_state-cell}
use kvx.HashTable.Table.{Half}
use kvx.HashTable.Table.View.{Keeps, Stores, key_of}
use kvx.HashTable.Table.Update.{Keeps-same, Keeps-one}
use kvx.HashTable.Table.Replace.{Puts, put-Puts}
use kvx.HashTable.Migrate.{Moving, move_item, migrate_slot, migrate_slots_loop}
use kvx.HashTable.Migrate.Move.{Moved, move_item-Moved}
use kvx.HashTable.Migrate.Pending.{
  le_cases, Movable, Emptied, Emptied-end, Movable-skip, Emptied-skip,
}

module _ (hash_of : Bytes → ℕ) (mem : ℕ → Item) where
  -- The bucket without slot `i`, whose item `x` has been moved.
  module _ (b : Bucket) (i : ℕ) (new new1 : Half) (x : ℕ) (movable : Movable hash_of mem b i new)
      (low : i < 8) (at : Keeps hash_of mem (key_of hash_of mem x) x (cell b i))
      (intact : IsItem (mem x))
      (absent : (y : ℕ) → Stores hash_of mem new (key_of hash_of mem x) y → true ≡ false)
      (moved : Moved hash_of mem new movable.half x intact absent new1) where
    abbrev b1 : Bucket
    b1 = set_slot_state b i false

    emptied-Puts : Puts b b1 i (record (cell b i) { busy = false })
    emptied-Puts = put-Puts b b1 i _ low (set_slot_state-cell b i false movable.ok low)

    behind : (j : ℕ) → suc i ≤ j → j < 8 → cell b1 j ≡ cell b j
    behind j h hj = emptied-Puts.there j hj (λ e. absurd (omega (arith, h, e)))

    back :
        (k : Bytes) (y j : ℕ)
        → suc i ≤ j
        → j < 8
        → Keeps hash_of mem k y (cell b1 j)
        → Keeps hash_of mem k y (cell b j)
    back k y j h hj keeps = Keeps-same hash_of mem k y (cell b1 j) (cell b j) (behind j h hj) keeps

    Movable-next : Movable hash_of mem b1 (suc i) new1
    Movable-next = record {
      half = moved.0;
      ok = emptied-Puts.ok;
      items = λ j h hj busy.
          rw (behind j h hj)
            (movable.items j (omega (arith, h)) hj (sym (ap (λ c. c.busy) (behind j h hj)) ∙ busy));
      fresh = λ k y z j h hj keeps stored. elim ((moved.3 k z).0 stored) [
        | inr before ↦ movable.fresh k y z j (omega (arith, h)) hj (back k y j h hj keeps) before
        | inl (same, _) ↦
            let there =
              subst (λ r. Keeps hash_of mem r y (cell b j)) same (back k y j h hj keeps) in
            let e : j ≡ i =
              movable.once (key_of hash_of mem x) y x j i (omega (arith, h)) hj (omega arith) low
                there at in
            absurd (omega (arith, h, e))
      ];
      once = λ k y z j j' h hj h' hj' p q.
          movable.once k y z j j' (omega (arith, h)) hj (omega (arith, h')) hj' (back k y j h hj p)
            (back k z j' h' hj' q);
    }

    Emptied-next :
        (old_size : ℕ) (m : Moving)
        → Emptied hash_of mem b1 (suc i) ((old_size + 2 ^ 64 - 1) % 2 ^ 64) new1 m
        → Emptied hash_of mem b i old_size new m
    Emptied-next old_size m e = record {
      half = e.half;
      count = e.count ∙ moved.1;
      stores = λ q y. (
        λ stored. elim ((e.stores q y).0 stored) [
          | inr (j, h, hj, keeps) ↦ inr (j, omega (arith, h), hj, back q y j h hj keeps)
          | inl stored1 ↦ elim ((moved.3 q y).0 stored1) [
            | inr before ↦ inl before
            | inl (same, one) ↦ inr (i, omega arith, low, rw (same, one) at)
          ]
        ],
        λ r. elim r [
          | inl before ↦ (e.stores q y).1 (inl ((moved.3 q y).1 (inr before)))
          | inr (j, h, hj, keeps) ↦ elim (le_cases i j h) [
            | inr above ↦ (e.stores q y).1 (
                inr (
                  j,
                  above,
                  hj,
                  Keeps-same hash_of mem q y (cell b j) (cell b1 j) (sym (behind j above hj)) keeps,
                ))
            | inl same ↦
                let here = subst (λ s. Keeps hash_of mem q y (cell b s)) same keeps in
                let (one, key) =
                  Keeps-one hash_of mem (key_of hash_of mem x) q x y (cell b i) at here in
                (e.stores q y).1 (inl ((moved.3 q y).1 (inl (sym key, sym one))))
          ]
        ],
      );
      total = e.total ∙ omega (arith, moved.2);
      ok = e.ok;
      free = λ j hj r. elim (Bool-cases (i == j)) [
        | inl f ↦
            let same : j ≡ i = ground (arith, f) in
            e.free j hj (inr (ap (λ s. (cell b1 s).busy) same ∙ ap (λ c. c.busy) emptied-Puts.here))
        | inr f ↦
            let ne : j ≢ i = ground (arith, f) in
            elim r [
              | inr free ↦ e.free j hj (inr (ap (λ c. c.busy) (emptied-Puts.there j hj ne) ∙ free))
              | inl h ↦ elim (le_cases i j h) [
                | inl same ↦ absurd (ne same)
                | inr above ↦ e.free j hj (inl above)
              ]
            ]
      ];
    }

  migrate_slot_run :
      (i old_size x : ℕ) (b : Bucket) (new new1 : Half)
      → get_slot_item b i ≡ some x
      → move_item hash_of mem new x ≡ some new1
      → migrate_slot hash_of mem i (b, old_size, new)
        ≡ some (set_slot_state b i false, (old_size + 2 ^ 64 - 1) % 2 ^ 64, new1)
  unfolding migrate_slot
  migrate_slot_run i old_size x b new new1 item step = rw (migrate_slot, item, step) refl

  -- The round of the loop for a busy slot.
  busy_round :
      (n i : ℕ) (m m1 : Moving)
      → get_slot_state m.0 i ≡ true
      → migrate_slot hash_of mem i m ≡ some m1
      → migrate_slots_loop hash_of mem (suc n) i m ≡ migrate_slots_loop hash_of mem n (suc i) m1
  unfolding migrate_slots_loop
  busy_round n i m m1 busy step = rw (busy, step) refl

  -- The loop from slot `i` on.
  pub migrate_slots_loop-Emptied :
      (n i old_size : ℕ) (b : Bucket) (new : Half)
      → i + n ≡ 8
      → Movable hash_of mem b i new
      → (m : Moving) × (migrate_slots_loop hash_of mem n i (b, old_size, new) ≡ some m)
        × Emptied hash_of mem b i old_size new m
  unfolding migrate_slots_loop cell
  migrate_slots_loop-Emptied zero i old_size b new h movable = (
    (b, old_size, new),
    refl,
    Emptied-end hash_of mem b i old_size new (omega (arith, h)) movable,
  )
  migrate_slots_loop-Emptied (suc n) i old_size b new h movable =
      elim (Bool-cases (get_slot_state b i)) [
        | inr f ↦
            let (m, e, emptied) =
              migrate_slots_loop-Emptied n (suc i) old_size b new (omega (arith, h))
                (Movable-skip hash_of mem b i new movable) in
            (m, rw f e, Emptied-skip hash_of mem b i old_size new m f emptied)
        | inl f ↦
            let low : i < 8 = omega (arith, h) in
            let (x, item, intact) = movable.items i (omega arith) low f in
            let at : Keeps hash_of mem (key_of hash_of mem x) x (cell b i) = record {
              busy = f;
              item = item;
              key = refl;
            } in
            let absent : (y : ℕ) → Stores hash_of mem new (key_of hash_of mem x) y → true ≡ false =
              λ y stored. movable.fresh (key_of hash_of mem x) x y i (omega arith) low at stored in
            let (new1, step, moved) =
              move_item-Moved hash_of mem new movable.half x intact absent in
            let (m, e, emptied) =
              migrate_slots_loop-Emptied n (suc i) ((old_size + 2 ^ 64 - 1) % 2 ^ 64)
                (set_slot_state b i false) new1 (omega (arith, h))
                (Movable-next b i new new1 x movable low at intact absent moved) in
            (
              m,
              busy_round n i (b, old_size, new)
                    (set_slot_state b i false, (old_size + 2 ^ 64 - 1) % 2 ^ 64, new1) f
                    (migrate_slot_run i old_size x b new new1 item step)
                  ∙ e,
              Emptied-next b i new new1 x movable low at intact absent moved old_size m emptied,
            )
      ]
