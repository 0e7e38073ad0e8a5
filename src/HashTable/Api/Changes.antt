-- ===== src/HashTable/Api/Changes.antt =====
-- hashtable_delete and hashtable_set of src/hashtable.c, while a migration runs or not.
use kvx.Common.{
  ℕ, ◌≤◌, ◌<◌, ◌≡◌, ◌≢◌, ◌↔◌, refl, true, false, Option, none, some, arith, Bytes, Bool-cases, inl,
  inr, length, ltb,
}
use kvx.Common.Faults.{◌>>=◌}
use kvx.Item.{Item}
use kvx.HashTable.Table.{Half, Table, tag_of, delete_in}
use kvx.HashTable.Table.View.{IsHalf, home}
use kvx.HashTable.Table.Change.{Removed, delete_in-Removed}
use kvx.HashTable.Migrate.{item_in_new_bucket}
use kvx.HashTable.Migrate.Whole.{TableStores, IsTable}
use kvx.HashTable.Migrate.Maintain.{maintenance-Preserved}
use kvx.HashTable.Api.{hashtable_delete, half_of, with_half, side_of}
use kvx.HashTable.Api.Lookup.{new_answer, old_answer}
use kvx.HashTable.Api.Sides.{Changed, ChangedTable, change_alone, change_new, change_old}

module _ (hash_of : Bytes → ℕ) (mem : ℕ → Item) (key : Bytes) where
  abbrev Nothing : ℕ → Type 0
  Nothing y = true ≡ false

  Removed-Changed :
      {from : ℕ} (h h' : Half) (half : IsHalf hash_of mem from h)
      → Removed hash_of mem h half key h'
      → Changed hash_of mem key Nothing from h h'
  Removed-Changed h h' half (half', law, count) = (
    half',
    λ q y. (
      λ stored. inr ((law q y).0 stored),
      λ r. elim r [ inl (_, f) ↦ cc f | inr p ↦ (law q y).1 p ],
    ),
    count,
  )

  -- A deletion behind the maintenance.
  abbrev delete_now : Table → Option (Table × Option ℕ)
  delete_now t =
      delete_in mem (half_of t (side_of t (hash_of key))) (hash_of key) (tag_of (hash_of key)) key
        (length key)
      >>= λ r. some (with_half t (side_of t (hash_of key)) r.0, r.1)

  abbrev DeleteLaw : Table → Option (Table × Option ℕ) → Type 0
  DeleteLaw t result =
      (t' : Table) × (r : Option ℕ) × (result ≡ some (t', r))
      × ((y : ℕ) → TableStores hash_of mem t key y ↔ (r ≡ some y))
      × ChangedTable hash_of mem key Nothing t t'

  delete_by_half :
      (t : Table) (o : Option Half)
      → IsTable hash_of mem (record t { new = o })
      → DeleteLaw (record t { new = o }) (delete_now (record t { new = o }))
  unfolding item_in_new_bucket
  delete_by_half t none table =
      let (h', r, run, answers, size, removed) =
        delete_in-Removed hash_of mem t.old table.old key in
      (
        record t { old = h'; new = none },
        r,
        rw run refl,
        answers,
        change_alone hash_of mem key Nothing t h' table
            (Removed-Changed t.old h' table.old removed),
      )
  delete_by_half t (some new) table =
      elim (Bool-cases (ltb (home hash_of mem t.old.bucket_count key) t.migration_pos)) [
        | inl e ↦
            let low : home hash_of mem t.old.bucket_count key < t.migration_pos =
              ground (arith, e) in
            let (h', r, run, answers, size, removed) =
              delete_in-Removed hash_of mem new (table.new.1) key in
            (
              record t { new = some h' },
              r,
              rw (e, run) refl,
              λ y.
                  new_answer hash_of mem key t.old.bucket_count t.migration_pos t.old new r y low
                    (answers y),
              change_new hash_of mem key Nothing t new h' table low
                  (Removed-Changed new h' (table.new.1) removed),
            )
        | inr e ↦
            let high : t.migration_pos ≤ home hash_of mem t.old.bucket_count key =
              ground (arith, e) in
            let (h', r, run, answers, size, removed) =
              delete_in-Removed hash_of mem t.old table.old key in
            (
              record t { old = h'; new = some new },
              r,
              rw (e, run) refl,
              λ y.
                  old_answer hash_of mem key t.old.bucket_count t.migration_pos t.old new r y high
                    (answers y),
              change_old hash_of mem key Nothing t new h' table high
                  (Removed-Changed t.old h' table.old removed),
            )
      ]

  -- In a well-formed table, hashtable_delete runs the maintenance, returns the item that was
  -- stored under the key, or NULL where none was, and leaves a well-formed table in which no item is
  -- stored under the key and each other key has the item that it had.
  pub hashtable_delete-TableStores :
      (t : Table)
      → IsTable hash_of mem t
      → (t' : Table) × (r : Option ℕ) × (hashtable_delete hash_of mem t
            (hash_of key)
            key
            (length key)
          ≡ some (t', r))
        × ((y : ℕ) → TableStores hash_of mem t key y ↔ (r ≡ some y))
        × IsTable hash_of mem t'
        × ((q : Bytes) (y : ℕ)
            → TableStores hash_of mem t' q y ↔ ((q ≢ key) × TableStores hash_of mem t q y))
  unfolding hashtable_delete
  hashtable_delete-TableStores t table =
      let (t1, run, (table1, same), _) = maintenance-Preserved hash_of mem t table in
      let (t', r, run1, answers, (table', law)) = delete_by_half t1 t1.new table1 in
      (
        t',
        r,
        rw run run1,
        λ y. (λ s. (answers y).0 ((same key y).1 s), λ f. (same key y).0 ((answers y).1 f)),
        table',
        λ q y. (
          λ s. elim ((law q y).0 s) [ inl (_, f) ↦ cc f | inr (ne, b) ↦ (ne, (same q y).0 b) ],
          λ (ne, b). (law q y).1 (inr (ne, (same q y).1 b)),
        ),
      )
