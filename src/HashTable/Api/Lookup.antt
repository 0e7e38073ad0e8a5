-- ===== src/HashTable/Api/Lookup.antt =====
-- hashtable_get of src/hashtable.c, while a migration runs or not.
use kvx.Common.{
  ℕ, ◌≤◌, ◌<◌, ◌≡◌, ◌↔◌, Option, none, some, arith, Bytes, Bool-cases, inl, inr, length, ltb,
}
use kvx.Item.{Item}
use kvx.HashTable.Table.{Half, Table}
use kvx.HashTable.Table.View.{Stores, home}
use kvx.HashTable.Table.Change.{get_in-Answers}
use kvx.HashTable.Migrate.{item_in_new_bucket}
use kvx.HashTable.Migrate.Whole.{BothStore, TableStores, IsTable}
use kvx.HashTable.Api.{hashtable_get}

module _ (hash_of : Bytes → ℕ) (mem : ℕ → Item) (key : Bytes) where
  -- The answer of the half that the key belongs to is the answer of the table.
  pub new_answer :
      (count pos : ℕ) (old new : Half) (r : Option ℕ) (y : ℕ)
      → home hash_of mem count key < pos
      → (Stores hash_of mem new key y ↔ (r ≡ some y))
      → BothStore hash_of mem count pos old (some new) key y ↔ (r ≡ some y)
  new_answer count pos old new r y low answer = (
    λ both. elim both [
      | inl (_, stored) ↦ answer.0 stored
      | inr (high, _) ↦ absurd (omega (arith, low, high))
    ],
    λ f. inl (low, answer.1 f),
  )

  pub old_answer :
      (count pos : ℕ) (old new : Half) (r : Option ℕ) (y : ℕ)
      → pos ≤ home hash_of mem count key
      → (Stores hash_of mem old key y ↔ (r ≡ some y))
      → BothStore hash_of mem count pos old (some new) key y ↔ (r ≡ some y)
  old_answer count pos old new r y high answer = (
    λ both. elim both [
      | inr (_, stored) ↦ answer.0 stored
      | inl (low, _) ↦ absurd (omega (arith, low, high))
    ],
    λ f. inr (high, answer.1 f),
  )

  abbrev pub GetLaw : Table → Type 0
  GetLaw t =
      (r : Option ℕ) × (hashtable_get mem t (hash_of key) key (length key) ≡ some r)
      × ((y : ℕ) → TableStores hash_of mem t key y ↔ (r ≡ some y))

  get_by_half :
      (t : Table) (o : Option Half)
      → IsTable hash_of mem (record t { new = o })
      → GetLaw (record t { new = o })
  unfolding hashtable_get item_in_new_bucket
  get_by_half t none table = get_in-Answers hash_of mem t.old table.old key
  get_by_half t (some new) table =
      elim (Bool-cases (ltb (home hash_of mem t.old.bucket_count key) t.migration_pos)) [
        | inl e ↦
            let (r, run, answers) = get_in-Answers hash_of mem new (table.new.1) key in
            (
              r,
              rw e run,
              λ y.
                  new_answer t.old.bucket_count t.migration_pos t.old new r y (ground (arith, e))
                    (answers y),
            )
        | inr e ↦
            let (r, run, answers) = get_in-Answers hash_of mem t.old table.old key in
            (
              r,
              rw e run,
              λ y.
                  old_answer t.old.bucket_count t.migration_pos t.old new r y (ground (arith, e))
                    (answers y),
            )
      ]

  -- In a well-formed table, with a migration running or not, hashtable_get finds the item that is
  -- stored under the key, or NULL where none is.
  pub hashtable_get-TableStores : (t : Table) → IsTable hash_of mem t → GetLaw t
  hashtable_get-TableStores t table = get_by_half t t.new table
