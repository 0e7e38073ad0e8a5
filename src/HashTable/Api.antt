-- ===== src/HashTable/Api.antt =====
-- The public functions of src/hashtable.c. none is a fault of the code.
pub mod Lookup
pub mod Sides
pub mod Changes
pub mod Puts
pub mod Setup
use kvx.Common.{ℕ, ◌+◌, ◌%◌, ◌^◌, Bool, true, false, Option, none, some, Bytes, if◌then◌else◌}
use kvx.Common.Faults.{◌>>=◌}
use kvx.Item.{Item}
use kvx.Pages.{Os}
use kvx.HashTable.Table.{
  Half, Table, Slot, tag_of, read_slot, write_slot, set_in, get_in, delete_in,
}
use kvx.HashTable.Migrate.{item_in_new_bucket, check_init_migration, maintenance}

-- An `item_t **`: a slot of the old half or, where true, of the new one.
abbrev pub SlotPtr : Type 0
SlotPtr = Bool × Slot

abbrev pub half_of : Table → Bool → Half
half_of t false = t.old
half_of t true = elim (t.new) [ none ↦ t.old | some new ↦ new ]

abbrev pub with_half : Table → Bool → Half → Table
with_half t false h = record t { old = h }
with_half t true h = record t { new = some h }

-- *ptr and *ptr = item.
unfoldable pub read_ptr : Table → SlotPtr → Option ℕ
read_ptr t (side, s) = read_slot (half_of t side) s

unfoldable pub write_ptr : Table → SlotPtr → Option ℕ → Table
write_ptr t (side, s) item = with_half t side (write_slot (half_of t side) s item)

-- The half that a hash belongs to.
abbrev pub side_of : Table → ℕ → Bool
side_of t hash = item_in_new_bucket t hash

unfoldable pub hashtable_get : (ℕ → Item) → Table → ℕ → Bytes → ℕ → Option (Option ℕ)
hashtable_get mem t hash key key_len =
    get_in mem (half_of t (side_of t hash)) hash (tag_of hash) key key_len

module _ (hash_of : Bytes → ℕ) (mem : ℕ → Item) where
  abbrev pub set_side : Table → Bool → ℕ → Bytes → ℕ → Option (Table × SlotPtr)
  set_side t side hash key key_len =
      set_in mem (half_of t side) hash (tag_of hash) key key_len >>= λ r.
      some (with_half t side r.0, (side, r.1))

  unfoldable pub hashtable_set : Os → Table → ℕ → Bytes → ℕ → Option (Table × SlotPtr)
  hashtable_set os table hash key key_len = maintenance hash_of mem table >>= λ t.
      if side_of t hash
      then set_side t true hash key key_len
      else set_side (check_init_migration os t) false hash key key_len

  unfoldable pub hashtable_delete : Table → ℕ → Bytes → ℕ → Option (Table × Option ℕ)
  hashtable_delete table hash key key_len = maintenance hash_of mem table >>= λ t.
      let side = side_of t hash in
      delete_in mem (half_of t side) hash (tag_of hash) key key_len >>= λ r.
      some (with_half t side r.0, r.1)

unfoldable pub hashtable_len : Table → ℕ
hashtable_len t = elim (t.new) [ none ↦ t.old.size | some new ↦ (t.old.size + new.size) % 2 ^ 64 ]

unfoldable pub hashtable_bucket_count : Table → ℕ
hashtable_bucket_count t = elim (t.new) [ none ↦ t.old.bucket_count | some new ↦ new.bucket_count ]

unfoldable pub hashtable_migrating : Table → Bool
hashtable_migrating t = elim (t.new) [ none ↦ false | some new ↦ true ]
