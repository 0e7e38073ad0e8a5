-- ===== src/HashTable/Migrate/Pending.antt =====
-- What hashtable_migrate_slots of src/hashtable.c starts from and ends with, for the slots from an index on.
use kvx.Common.{
  ℕ, suc, ◌+◌, ◌%◌, ◌^◌, ◌≤◌, ◌<◌, ◌≡◌, ◌⊎◌, ◌↔◌, refl, ap, ◌∙◌, true, false, some, arith, ◌==◌,
  Bytes, Bool-cases, inl, inr,
}
use kvx.Item.{Item}
use kvx.Item.Laws.{IsItem}
use kvx.HashTable.Bucket.{Bucket}
use kvx.HashTable.Bucket.Cells.{cell, IsBucket}
use kvx.HashTable.Table.{Half}
use kvx.HashTable.Table.View.{Keeps, IsHalf, Stores}
use kvx.HashTable.Migrate.{Moving}

pub le_cases : (i j : ℕ) → i ≤ j → (j ≡ i) ⊎ (suc i ≤ j)
le_cases i j h = elim (Bool-cases (i == j)) [
  | inl e ↦ inl (ground (arith, e))
  | inr e ↦ inr (ground (arith, e, h))
]

module _ (hash_of : Bytes → ℕ) (mem : ℕ → Item) where
  -- The busy slots from `i` on hold items whose keys differ and are not in the new half.
  pub record Movable (b : Bucket) (i : ℕ) (new : Half) : Type 0 where
    pub half : IsHalf hash_of mem 0 new
    pub ok : IsBucket b
    pub items :
        (j : ℕ)
        → i ≤ j
        → j < 8
        → (cell b j).busy ≡ true
        → (x : ℕ) × ((cell b j).item ≡ some x) × IsItem (mem x)
    pub fresh :
        (k : Bytes) (y z j : ℕ)
        → i ≤ j
        → j < 8
        → Keeps hash_of mem k y (cell b j)
        → Stores hash_of mem new k z
        → true ≡ false
    pub once :
        (k : Bytes) (y z j j' : ℕ)
        → i ≤ j
        → j < 8
        → i ≤ j'
        → j' < 8
        → Keeps hash_of mem k y (cell b j)
        → Keeps hash_of mem k z (cell b j')
        → j ≡ j'

  -- The slots from `i` on are free, and the new half stores what they held as well.
  pub record Emptied (b : Bucket) (i old_size : ℕ) (new : Half) (m : Moving) : Type 0 where
    pub half : IsHalf hash_of mem 0 m.2
    pub count : m.2.bucket_count ≡ new.bucket_count
    pub stores :
        (q : Bytes) (y : ℕ)
        → Stores hash_of mem m.2 q y ↔ (
            Stores hash_of mem new q y
            ⊎ ((j : ℕ) × (i ≤ j) × (j < 8) × Keeps hash_of mem q y (cell b j)))
    pub total : (m.1 + m.2.size) % 2 ^ 64 ≡ (old_size + new.size) % 2 ^ 64
    pub ok : IsBucket m.0
    pub free : (j : ℕ) → j < 8 → (i ≤ j) ⊎ ((cell b j).busy ≡ false) → (cell m.0 j).busy ≡ false

  pub Emptied-end :
      (b : Bucket) (i old_size : ℕ) (new : Half)
      → 8 ≤ i
      → Movable b i new
      → Emptied b i old_size new (b, old_size, new)
  Emptied-end b i old_size new h movable = record {
    half = movable.half;
    count = refl;
    stores = λ q y. (
      λ r. inl r,
      λ r. elim r [
        | inl stored ↦ stored
        | inr (j, low, high, _) ↦ absurd (omega (arith, low, high, h))
      ],
    );
    total = refl;
    ok = movable.ok;
    free = λ j hj r. elim r [ inl low ↦ absurd (omega (arith, low, hj, h)) | inr e ↦ e ];
  }

  pub Movable-skip : (b : Bucket) (i : ℕ) (new : Half) → Movable b i new → Movable b (suc i) new
  Movable-skip b i new movable = record {
    half = movable.half;
    ok = movable.ok;
    items = λ j low. movable.items j (omega (arith, low));
    fresh = λ k y z j low. movable.fresh k y z j (omega (arith, low));
    once = λ k y z j j' low hj low'.
        movable.once k y z j j' (omega (arith, low)) hj (omega (arith, low'));
  }

  pub Emptied-skip :
      (b : Bucket) (i old_size : ℕ) (new : Half) (m : Moving)
      → (cell b i).busy ≡ false
      → Emptied b (suc i) old_size new m
      → Emptied b i old_size new m
  Emptied-skip b i old_size new m free e = record {
    half = e.half;
    count = e.count;
    stores = λ q y. (
      λ stored. elim ((e.stores q y).0 stored) [
        | inl r ↦ inl r
        | inr (j, low, hj, keeps) ↦ inr (j, omega (arith, low), hj, keeps)
      ],
      λ r. elim r [
        | inl stored ↦ (e.stores q y).1 (inl stored)
        | inr (j, low, hj, keeps) ↦ elim (le_cases i j low) [
          | inl same ↦ cc (keeps.busy, free, same)
          | inr above ↦ (e.stores q y).1 (inr (j, above, hj, keeps))
        ]
      ],
    );
    total = e.total;
    ok = e.ok;
    free = λ j hj r. elim r [
      | inr f ↦ e.free j hj (inr f)
      | inl low ↦ elim (le_cases i j low) [
        | inl same ↦ e.free j hj (inr (ap (λ s. (cell b s).busy) same ∙ free))
        | inr above ↦ e.free j hj (inl above)
      ]
    ];
  }
