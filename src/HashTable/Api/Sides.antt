-- ===== src/HashTable/Api/Sides.antt =====
-- One half of the table of src/hashtable.c changes under one key: the whole table then.
use kvx.Common.{ℕ, ◌≤◌, ◌<◌, ◌≡◌, ◌≢◌, ◌⊎◌, ◌↔◌, sym, subst, ap, none, some, arith, Bytes, inl, inr}
use kvx.Item.{Item}
use kvx.HashTable.Table.{Half, Table}
use kvx.HashTable.Table.View.{IsHalf, Stores, home}
use kvx.HashTable.Migrate.Whole.{BothStore, TableStores, IsTable}

-- `Added` says which items are stored under the key afterwards; the other keys keep theirs.
module _ (hash_of : Bytes → ℕ) (mem : ℕ → Item) (key : Bytes) (Added : ℕ → Type 0) where
  abbrev pub Changed : ℕ → Half → Half → Type 0
  Changed from h h' =
      IsHalf hash_of mem from h'
      × ((q : Bytes) (y : ℕ)
          → Stores hash_of mem h' q y
            ↔ (((q ≡ key) × Added y) ⊎ ((q ≢ key) × Stores hash_of mem h q y)))
      × (h'.bucket_count ≡ h.bucket_count)

  abbrev pub ChangedTable : Table → Table → Type 0
  ChangedTable t t' =
      IsTable hash_of mem t'
      × ((q : Bytes) (y : ℕ)
          → TableStores hash_of mem t' q y
            ↔ (((q ≡ key) × Added y) ⊎ ((q ≢ key) × TableStores hash_of mem t q y)))

  pub change_alone :
      (t : Table) (h' : Half)
      → IsTable hash_of mem (record t { new = none })
      → Changed t.migration_pos t.old h'
      → ChangedTable (record t { new = none }) (record t { old = h'; new = none })
  change_alone t h' table (half, law, count) =
      (record { old = half; far = λ k x stored. omega (arith, table.new); new = table.new }, law)

  pub change_new :
      (t : Table) (new h' : Half)
      → IsTable hash_of mem (record t { new = some new })
      → home hash_of mem t.old.bucket_count key < t.migration_pos
      → Changed 0 new h'
      → ChangedTable (record t { new = some new }) (record t { new = some h' })
  change_new t new h' table side (half, law, count) = (
    record {
      old = table.old;
      far = table.far;
      new = (
        table.new.0,
        half,
        λ k x stored. elim ((law k x).0 stored) [
          | inl (same, _) ↦
              subst (λ r. home hash_of mem t.old.bucket_count r < t.migration_pos) (sym same) side
          | inr (_, before) ↦ table.new.2 k x before
        ],
      );
    },
    λ q y. (
      λ both. elim both [
        | inl (low, stored) ↦ elim ((law q y).0 stored) [
          | inl added ↦ inl added
          | inr (ne, before) ↦ inr (ne, inl (low, before))
        ]
        | inr (high, stored) ↦ inr (
          λ same.
              let e = ap (home hash_of mem t.old.bucket_count) same in
              absurd (omega (arith, e, high, side)),
          inr (high, stored),
        )
      ],
      λ r. elim r [
        | inl (same, added) ↦ inl (
          subst (λ r. home hash_of mem t.old.bucket_count r < t.migration_pos) (sym same) side,
          (law q y).1 (inl (same, added)),
        )
        | inr (ne, both) ↦ elim both [
          | inl (low, before) ↦ inl (low, (law q y).1 (inr (ne, before)))
          | inr old ↦ inr old
        ]
      ],
    ),
  )

  pub change_old :
      (t : Table) (new h' : Half)
      → IsTable hash_of mem (record t { new = some new })
      → t.migration_pos ≤ home hash_of mem t.old.bucket_count key
      → Changed t.migration_pos t.old h'
      → ChangedTable (record t { new = some new }) (record t { old = h'; new = some new })
  change_old t new h' table side (half, law, count) = (
    record {
      old = half;
      far = λ k x stored. rw count (elim ((law k x).0 stored) [
        | inl (same, _) ↦
            subst (λ r. t.migration_pos ≤ home hash_of mem t.old.bucket_count r) (sym same) side
        | inr (_, before) ↦ table.far k x before
      ]);
      new = (
        omega (arith, table.new.0, count),
        table.new.1,
        λ k x stored. rw count (table.new.2 k x stored),
      );
    },
    λ q y.
        subst
          (λ n. BothStore hash_of mem n t.migration_pos h' (some new) q y ↔ (
            ((q ≡ key) × Added y)
            ⊎ ((q ≢ key) × TableStores hash_of mem (record t { new = some new }) q y)))
          (sym count)
          (
            λ both. elim both [
              | inl (low, stored) ↦ inr (
                λ same.
                    let e = ap (home hash_of mem t.old.bucket_count) same in
                    absurd (omega (arith, e, low, side)),
                inl (low, stored),
              )
              | inr (high, stored) ↦ elim ((law q y).0 stored) [
                | inl added ↦ inl added
                | inr (ne, before) ↦ inr (ne, inr (high, before))
              ]
            ],
            λ r. elim r [
              | inl (same, added) ↦ inr (
                subst (λ r. t.migration_pos ≤ home hash_of mem t.old.bucket_count r) (sym same)
                    side,
                (law q y).1 (inl (same, added)),
              )
              | inr (ne, both) ↦ elim both [
                | inl new ↦ inl new
                | inr (high, before) ↦ inr (high, (law q y).1 (inr (ne, before)))
              ]
            ],
          ),
  )
