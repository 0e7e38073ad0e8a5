-- ===== src/HashTable/Migrate.antt =====
-- The growth of the table in src/hashtable.c: the steps that move the old half into the new one. The
-- hash of a key is a parameter, XXH3_64bits.
pub mod Move
pub mod Pending
pub mod Slots
pub mod Chain
pub mod Whole
pub mod Later
pub mod Step
pub mod Maintain
use kvx.Common.{
  ℕ, zero, suc, ◌+◌, ◌-◌, ◌*◌, ◌%◌, ◌^◌, Bool, false, Option, none, some, List, [], ◌∷◌, Bytes, set,
  ltb, ◌==◌, if◌then◌else◌,
}
use kvx.Common.Faults.{◌>>=◌}
use kvx.Item.{Item, item_key}
use kvx.Pages.{Os, pages_map}
use kvx.HashTable.Bucket.{
  Bucket, bucket_slots, set_slot_state, get_slot_state, set_slot_item, get_slot_item,
}
use kvx.HashTable.Probe.{find_item_slot_or_next_free_slot_in_bucket}
use kvx.HashTable.Table.{
  Half, Table, Slot, bucket_size, scale_at, fresh_half, bucket_idx, tag_of, chain_at, bucket_at,
  set_chain, extended, slot_of, busy_bucket,
}

-- hashtable_item_in_new_bucket.
unfoldable pub item_in_new_bucket : Table → ℕ → Bool
item_in_new_bucket t hash = elim (t.new) [
  | none ↦ false
  | some new ↦ ltb (bucket_idx hash t.old.bucket_count) t.migration_pos
]

-- hashtable_check_init_migration. The new half starts with `new_size` 0, as the last one left it.
unfoldable pub check_init_migration : Os → Table → Table
check_init_migration os t = elim (t.new) [
  | some new ↦ t
  | none ↦
      if ltb t.old.size t.scale_at_size
      then t
      else (let new_cap = t.old.bucket_count * 2 % 2 ^ 64 in
          elim (pages_map os (new_cap * bucket_size % 2 ^ 64)) [
            | none ↦ t
            | some bytes ↦ record t { new = some (fresh_half new_cap bytes) }
          ])
]

-- hashtable_finish_migration: `old_bytes` stays.
unfoldable pub finish_migration : Table → Half → Table
finish_migration t new = record {
  scale_at_size = scale_at new.bucket_count;
  migration_pos = 0;
  old = record new { bytes = t.old.bytes };
  new = none;
}

-- The bucket that is emptied, `old_size`, and the new half.
abbrev pub Moving : Type 0
Moving = Bucket × ℕ × Half

module _ (hash_of : Bytes → ℕ) (mem : ℕ → Item) where
  -- An empty slot gets the item; a busy one holds the key already.
  unfoldable pub adopt : Half → List Bucket → Slot → ℕ → ℕ → Half
  adopt new chain s tag item =
      let b = bucket_at chain s.depth in
      if get_slot_state b s.index
      then set_chain new s.chain chain
      else record (set_chain new s.chain
          (set chain s.depth (set_slot_item (busy_bucket b s.index tag) s.index (some item)))) {
            size = (new.size + 1) % 2 ^ 64;
          }

  -- hashtable_migrate_slot, on the new half.
  unfoldable pub move_item : Half → ℕ → Option Half
  move_item new item =
      let key = item_key (mem item) in
      let hash = hash_of key in
      let i = bucket_idx hash new.bucket_count in
      let chain = chain_at new i in
      let p =
        find_item_slot_or_next_free_slot_in_bucket mem key (mem item).key_len (tag_of hash) chain in
      elim (slot_of i p) [
        | none ↦ none
        | some s ↦ some (adopt new (extended chain p) s (tag_of hash) item)
      ]

  unfoldable pub migrate_slot : ℕ → Moving → Option Moving
  migrate_slot i (b, old_size, new) = elim (get_slot_item b i) [
    | none ↦ none
    | some item ↦ elim (move_item new item) [
      | none ↦ none
      | some new' ↦ some (set_slot_state b i false, (old_size + 2 ^ 64 - 1) % 2 ^ 64, new')
    ]
  ]

  -- The loop of hashtable_migrate_slots, from slot `i` on, for so many slots.
  unfoldable pub migrate_slots_loop : ℕ → ℕ → Moving → Option Moving
  migrate_slots_loop zero i m = some m
  migrate_slots_loop (suc n) i m =
      (if get_slot_state m.0 i then migrate_slot i m else some m) >>= migrate_slots_loop n (suc i)

  unfoldable pub migrate_slots : Moving → Option Moving
  migrate_slots = migrate_slots_loop bucket_slots 0

  -- The buckets behind the first, each freed after its slots are moved.
  unfoldable pub migrate_next : List Bucket → ℕ → Half → Option (ℕ × Half)
  migrate_next [] old_size new = some (old_size, new)
  migrate_next (current ∷ next) old_size new =
      migrate_slots (current, old_size, new) >>= λ m. migrate_next next m.1 m.2

  -- The chain is left with its first bucket.
  unfoldable pub migrate_bucket : List Bucket → ℕ → Half → Option (List Bucket × ℕ × Half)
  migrate_bucket [] old_size new = some ([], old_size, new)
  migrate_bucket (bucket ∷ next) old_size new = migrate_slots (bucket, old_size, new) >>= λ m.
      migrate_next next m.1 m.2 >>= λ r. some (m.0 ∷ [], r.0, r.1)

  -- hashtable_process_migration_step, with the half that `new_buckets` names.
  unfoldable pub process_migration_step : Table → Half → Option Table
  process_migration_step t new =
      migrate_bucket (chain_at t.old t.migration_pos) t.old.size new >>= λ r.
      let pos = t.migration_pos + 1 in
      let old = record (set_chain t.old t.migration_pos r.0) { size = r.1 } in
      let t' = record t { migration_pos = pos; old = old; new = some r.2 } in
      if pos == t.old.bucket_count then some (finish_migration t' r.2) else some t'

  unfoldable pub maintenance : Table → Option Table
  maintenance t = elim (t.new) [ none ↦ some t | some new ↦ process_migration_step t new ]
