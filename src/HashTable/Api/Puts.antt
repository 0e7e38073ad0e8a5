-- ===== src/HashTable/Api/Puts.antt =====
-- hashtable_set of src/hashtable.c with the write through the slot that it returns.
use kvx.Common.{
  ℕ, ◌*◌, ◌%◌, ◌^◌, ◌≤◌, ◌<◌, ◌≡◌, ◌≢◌, ◌⊎◌, ◌↔◌, refl, ap, true, false, Option, none, some, arith,
  Bytes, Bool-cases, Option-cases, inl, inr, length, ltb, ◌==◌, if◌then◌else◌,
}
use kvx.Item.{Item}
use kvx.Item.Laws.{IsItem}
use kvx.Pages.{Os, pages_map}
use kvx.HashTable.Table.{Half, Table, bucket_size, fresh_half}
use kvx.HashTable.Table.View.{Stores, home, key_of}
use kvx.HashTable.Table.Rewrite.{write_slot-read_slot}
use kvx.HashTable.Table.Store.{written-Stored, set_in-Writes}
use kvx.HashTable.Table.Fresh.{fresh_half-IsHalf, fresh_half-Stores}
use kvx.HashTable.Migrate.Later.{SameKey, later-IsTable, later-Was, agree_old, stored-IsItem}
use kvx.HashTable.Migrate.{item_in_new_bucket, check_init_migration}
use kvx.HashTable.Migrate.Whole.{TableStores, IsTable}
use kvx.HashTable.Migrate.Maintain.{Preserved, maintenance-Preserved}
use kvx.HashTable.Api.{SlotPtr, hashtable_set, side_of, set_side, read_ptr, write_ptr}
use kvx.HashTable.Api.Lookup.{new_answer, old_answer}
use kvx.HashTable.Api.Sides.{change_alone, change_new, change_old}

module _ (hash_of : Bytes → ℕ) (mem : ℕ → Item) where
  check-Preserved :
      (os : Os) (t : Table)
      → pages_map os 0 ≡ none
      → IsTable hash_of mem (record t { new = none })
      → Preserved hash_of mem
          (record t { new = none })
          (check_init_migration os (record t { new = none }))
        × ((check_init_migration os (record t { new = none })).migration_pos ≡ 0)
  unfolding check_init_migration
  check-Preserved os t empty table = elim (Bool-cases (ltb t.old.size t.scale_at_size)) [
    | inl e ↦ rw e ((table, λ k x. (λ r. r, λ r. r)), table.new)
    | inr e ↦
        let cap = t.old.bucket_count * 2 % 2 ^ 64 in
        elim (Option-cases (pages_map os (cap * bucket_size % 2 ^ 64))) [
          | inl f ↦ rw (e, f) ((table, λ k x. (λ r. r, λ r. r)), table.new)
          | inr (bytes, f) ↦
              let cap_positive : 0 < cap = elim (Bool-cases (cap == 0)) [
                | inl z ↦
                    let none_left : cap * bucket_size % 2 ^ 64 ≡ 0 = ground (arith, z) in
                    cc (ap (pages_map os) none_left, empty, f)
                | inr z ↦ ground (arith, z)
              ] in
              let new = fresh_half cap bytes in
              rw (e, f)
                (
                  (
                    record {
                      old = table.old;
                      far = table.far;
                      new = (
                        omega (arith, table.new, table.old.shaped.nonempty),
                        fresh_half-IsHalf hash_of mem cap bytes cap_positive,
                        λ k x stored.
                            cc (fresh_half-Stores hash_of mem cap bytes cap_positive k x stored),
                      );
                    },
                    λ k x. (
                      λ both. elim both [
                        | inl (low, stored) ↦
                            cc (fresh_half-Stores hash_of mem cap bytes cap_positive k x stored)
                        | inr (high, stored) ↦ stored
                      ],
                      λ stored. inr (omega (arith, table.new), stored),
                    ),
                  ),
                  table.new,
                )
        ]
  ]

  -- The law of a set holds over what was stored, or over the same under another view.
  rebase :
      {P Q R : Bytes → ℕ → Type 0} (key : Bytes) (x : ℕ)
      → ((q : Bytes) (y : ℕ) → P q y ↔ (((q ≡ key) × (y ≡ x)) ⊎ ((q ≢ key) × Q q y)))
      → ((q : Bytes) (y : ℕ) → Q q y ↔ R q y)
      → ((q : Bytes) (y : ℕ) → P q y ↔ (((q ≡ key) × (y ≡ x)) ⊎ ((q ≢ key) × R q y)))
  rebase key x law kept q y = (
    λ p. elim ((law q y).0 p) [ inl added ↦ inl added | inr (ne, b) ↦ inr (ne, (kept q y).0 b) ],
    λ r. elim r [
      | inl added ↦ (law q y).1 (inl added)
      | inr (ne, b) ↦ (law q y).1 (inr (ne, (kept q y).1 b))
    ],
  )

  module _ (key : Bytes) where
    -- After the write of an item through the slot, over any memory in which the stored items kept their
    -- keys and that item is an intact one of the key.
    abbrev pub Written : Table → Table → SlotPtr → Type 0
    Written t t1 ptr =
        (mem' : ℕ → Item) (x : ℕ)
        → ((k : Bytes) (y : ℕ) → TableStores hash_of mem t k y → SameKey hash_of mem mem' y)
        → IsItem (mem' x)
        → key_of hash_of mem' x ≡ key
        → IsTable hash_of mem' (write_ptr t1 ptr (some x))
          × ((q : Bytes) (y : ℕ)
              → TableStores hash_of mem' (write_ptr t1 ptr (some x)) q y
                ↔ (((q ≡ key) × (y ≡ x)) ⊎ ((q ≢ key) × TableStores hash_of mem t q y)))

    -- The set of a side, and a write through the slot.
    abbrev pub SetLaw : Table → Option (Table × SlotPtr) → Type 0
    SetLaw t result =
        (t1 : Table) × (ptr : SlotPtr) × (result ≡ some (t1, ptr))
        × ((y : ℕ) → TableStores hash_of mem t key y ↔ (read_ptr t1 ptr ≡ some y))
        × (write_ptr t1 ptr (read_ptr t1 ptr) ≡ t1)
        × Written t t1 ptr

    set_new :
        (t : Table) (new : Half)
        → IsTable hash_of mem (record t { new = some new })
        → home hash_of mem t.old.bucket_count key < t.migration_pos
        → SetLaw
            (record t { new = some new })
            (set_side hash_of mem (record t { new = some new }) true (hash_of key) key (length key))
    unfolding read_ptr write_ptr
    set_new t new table low =
        let (h1, sl, run, answers, size, d, s, hs, was, w) =
          set_in-Writes hash_of mem new (table.new.1) key (omega arith) in
        (
          record t { new = some h1 },
          (true, sl),
          rw run refl,
          λ y.
              new_answer hash_of mem key t.old.bucket_count t.migration_pos t.old new _ y low
                (answers y),
          ap (λ h. record t { new = some h }) (write_slot-read_slot h1 sl),
          λ mem' x agree intact same.
              let (table', kept) =
                later-IsTable hash_of mem mem' (record t { new = some new }) table agree in
              let agree_new = λ (k : Bytes) (y : ℕ) (r : Stores hash_of mem new k y).
                agree k y (inl (table.new.2 k y r, r)) in
              let was' =
                later-Was hash_of mem mem' new (table.new.1) agree_new
                  (home hash_of mem new.bucket_count key) d s key hs was in
              let stored =
                written-Stored hash_of mem' new (table'.new.1) key _ d s x hs was' intact same
                  (w x) in
              let (after, law) =
                change_new hash_of mem' key (λ y. y ≡ x) t new _ table' low stored in
              (after, rebase key x law kept),
        )

    set_old :
        (t : Table) (o : Option Half)
        → IsTable hash_of mem (record t { new = o })
        → t.migration_pos ≤ home hash_of mem t.old.bucket_count key
        → SetLaw
            (record t { new = o })
            (set_side hash_of mem (record t { new = o }) false (hash_of key) key (length key))
    unfolding read_ptr write_ptr
    set_old t none table high =
        let (h1, sl, run, answers, size, d, s, hs, was, w) =
          set_in-Writes hash_of mem t.old table.old key high in
        (
          record t { old = h1; new = none },
          (false, sl),
          rw run refl,
          answers,
          ap (λ h. record t { old = h; new = none }) (write_slot-read_slot h1 sl),
          λ mem' x agree intact same.
              let (table', kept) =
                later-IsTable hash_of mem mem' (record t { new = none }) table agree in
              let was' =
                later-Was hash_of mem mem' t.old table.old agree
                  (home hash_of mem t.old.bucket_count key) d s key hs was in
              let stored =
                written-Stored hash_of mem' t.old table'.old key _ d s x hs was' intact same
                  (w x) in
              let (after, law) = change_alone hash_of mem' key (λ y. y ≡ x) t _ table' stored in
              (after, rebase key x law kept),
        )
    set_old t (some new) table high =
        let (h1, sl, run, answers, size, d, s, hs, was, w) =
          set_in-Writes hash_of mem t.old table.old key high in
        (
          record t { old = h1; new = some new },
          (false, sl),
          rw run refl,
          λ y.
              old_answer hash_of mem key t.old.bucket_count t.migration_pos t.old new _ y high
                (answers y),
          ap (λ h. record t { old = h; new = some new }) (write_slot-read_slot h1 sl),
          λ mem' x agree intact same.
              let (table', kept) =
                later-IsTable hash_of mem mem' (record t { new = some new }) table agree in
              let was' =
                later-Was hash_of mem mem' t.old table.old
                  (agree_old hash_of mem mem' (record t { new = some new }) table agree)
                  (home hash_of mem t.old.bucket_count key) d s key hs was in
              let stored =
                written-Stored hash_of mem' t.old table'.old key _ d s x hs was' intact same
                  (w x) in
              let (after, law) =
                change_old hash_of mem' key (λ y. y ≡ x) t new _ table' high stored in
              (after, rebase key x law kept),
        )

    SetLaw-back :
        (t t1 : Table) (result : Option (Table × SlotPtr))
        → Preserved hash_of mem t t1
        → SetLaw t1 result
        → SetLaw t result
    SetLaw-back t t1 result (table1, kept) (t2, ptr, run, answers, back, written) = (
      t2,
      ptr,
      run,
      λ y. (λ s. (answers y).0 ((kept key y).1 s), λ f. (kept key y).0 ((answers y).1 f)),
      back,
      λ mem' x agree intact same.
          let (table2, law) = written mem' x (λ k y r. agree k y ((kept k y).0 r)) intact same in
          (table2, rebase key x law kept),
    )

    -- A set behind the maintenance.
    abbrev set_now : Os → Table → Option (Table × SlotPtr)
    set_now os t =
        if side_of t (hash_of key)
        then set_side hash_of mem t true (hash_of key) key (length key)
        else set_side hash_of mem (check_init_migration os t) false (hash_of key) key (length key)

    set_by_half :
        (os : Os) (t : Table) (o : Option Half)
        → pages_map os 0 ≡ none
        → IsTable hash_of mem (record t { new = o })
        → SetLaw (record t { new = o }) (set_now os (record t { new = o }))
    unfolding item_in_new_bucket check_init_migration
    set_by_half os t none empty table =
        let t1 = check_init_migration os (record t { new = none }) in
        let (kept, zero_pos) = check-Preserved os t empty table in
        SetLaw-back (record t { new = none }) t1 _ kept
          (set_old t1 t1.new kept.0 (omega (arith, zero_pos)))
    set_by_half os t (some new) empty table =
        elim (Bool-cases (ltb (home hash_of mem t.old.bucket_count key) t.migration_pos)) [
          | inl e ↦ rw e (set_new t new table (ground (arith, e)))
          | inr e ↦ rw e (set_old t (some new) table (ground (arith, e)))
        ]

    pub hashtable_set-SetLaw :
        (os : Os) (t : Table)
        → pages_map os 0 ≡ none
        → IsTable hash_of mem t
        → SetLaw t (hashtable_set hash_of mem os t (hash_of key) key (length key))
    unfolding hashtable_set
    hashtable_set-SetLaw os t empty table =
        let (t0, run, kept, _) = maintenance-Preserved hash_of mem t table in
        let (t1, ptr, run1, answers, back, written) =
          SetLaw-back t t0 (set_now os t0) kept (set_by_half os t0 t0.new empty kept.0) in
        (t1, ptr, rw run run1, answers, back, written)

    -- In a well-formed table, where mmap refuses an empty mapping, hashtable_set runs the
    -- maintenance, may start a migration, and returns a slot that holds the item stored under the key, or NULL
    -- where none is. After the write of an intact item of that key through the slot the table is
    -- well-formed, the item is the one under the key, and each other key has the item that it had.
    pub hashtable_set-TableStores :
        (x : ℕ)
        → IsItem (mem x)
        → key_of hash_of mem x ≡ key
        → (os : Os) (t : Table) → pages_map os 0 ≡ none
        → IsTable hash_of mem t
        → (t1 : Table) × (ptr : SlotPtr) × (hashtable_set hash_of mem os t
              (hash_of key)
              key
              (length key)
            ≡ some (t1, ptr))
          × ((y : ℕ) → TableStores hash_of mem t key y ↔ (read_ptr t1 ptr ≡ some y))
          × IsTable hash_of mem (write_ptr t1 ptr (some x))
          × ((q : Bytes) (y : ℕ)
              → TableStores hash_of mem (write_ptr t1 ptr (some x)) q y
                ↔ (((q ≡ key) × (y ≡ x)) ⊎ ((q ≢ key) × TableStores hash_of mem t q y)))
    hashtable_set-TableStores x intact same os t empty table =
        let (t1, ptr, run, answers, back, written) = hashtable_set-SetLaw os t empty table in
        let (after, law) =
          written mem x
            (λ k y r. record { key = refl; intact = (stored-IsItem hash_of mem t k y table r).1 })
            intact same in
        (t1, ptr, run, answers, after, law)
