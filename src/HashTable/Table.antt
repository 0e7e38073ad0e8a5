-- ===== src/HashTable/Table.antt =====
-- The state of src/hashtable.c, its life, and the access to one of its two arrays of chains.
pub mod View
pub mod Update
pub mod Replace
pub mod Access
pub mod Change
pub mod Claim
pub mod Store
pub mod Fresh
pub mod Rewrite
use Prim.Native.Nat.{bit_and}
use kvx.Common.{
  ℕ, ◌+◌, ◌-◌, ◌*◌, ◌/◌, ◌%◌, ◌^◌, Bool, true, false, not, Option, none, some, List, [], ◌∷◌, ◌++◌,
  Bytes, get_or, set, replicate, ltb, ◌==◌, ◌||◌, if◌then◌else◌,
}
use kvx.Common.Faults.{◌>>=◌}
use kvx.Item.{Item}
use kvx.Pages.{Os, pages_map}
use kvx.HashTable.Bucket.{
  Bucket, zero_bucket, bucket_slots, set_slot_state, get_slot_state, set_slot_hash_tag,
  set_slot_item, get_slot_item,
}
use kvx.HashTable.Probe.{
  Found, found_null, missing, found, Place, place_null, place, chain_end, find_item_slot_in_bucket,
  find_item_slot_or_next_free_slot_in_bucket,
}

-- The four fields `old_*`, or the four `new_*`. An element of the array is the chain that starts at it.
pub record Half : Type 0 where
  pub size : ℕ
  pub bytes : ℕ
  pub bucket_count : ℕ
  pub buckets : List (List Bucket)

-- `new` is none where `new_buckets` is NULL; then `new_size` and `new_bucket_count` are 0.
pub record Table : Type 0 where
  pub scale_at_size : ℕ
  pub migration_pos : ℕ
  pub old : Half
  pub new : Option Half

-- A slot: its chain, the depth of its bucket, and its index.
pub record Slot : Type 0 where
  pub chain : ℕ
  pub depth : ℕ
  pub index : ℕ

abbrev pub init_cap : ℕ
init_cap = 128

-- sizeof(hashtable_bucket_t).
abbrev pub bucket_size : ℕ
bucket_size = 88

-- The product with 6.0 / 8.0 is exact where the count is a power of two.
abbrev pub scale_at : ℕ → ℕ
scale_at count = count * bucket_slots % 2 ^ 64 * 6 / 8

abbrev pub fresh_half : ℕ → ℕ → Half
fresh_half cap bytes = record {
  size = 0;
  bytes = bytes;
  bucket_count = cap;
  buckets = replicate cap (zero_bucket ∷ []);
}

-- malloc does not fail. none is NULL.
unfoldable pub hashtable_init : Os → ℕ → Option Table
hashtable_init os cap_arg =
    let cap = if cap_arg == 0 then init_cap else cap_arg in
    if bit_and cap (cap - 1) == 0
    then elim (pages_map os (cap * bucket_size % 2 ^ 64)) [
      | none ↦ none
      | some bytes ↦ some (record {
        scale_at_size = scale_at cap;
        migration_pos = 0;
        old = fresh_half cap bytes;
        new = none;
      })
    ]
    else none

-- The bucket index of a hash, with SHARD_BITS = 8, and its tag.
abbrev pub bucket_idx : ℕ → ℕ → ℕ
bucket_idx hash count = bit_and (hash / 2 ^ 8) (count - 1)

abbrev pub tag_of : ℕ → ℕ
tag_of hash = hash / 2 ^ 56 % 256

abbrev pub chain_at : Half → ℕ → List Bucket
chain_at h i = get_or h.buckets i []

abbrev pub bucket_at : List Bucket → ℕ → Bucket
bucket_at chain depth = get_or chain depth zero_bucket

abbrev pub set_chain : Half → ℕ → List Bucket → Half
set_chain h i chain = record h { buckets = set h.buckets i chain }

-- hashtable_bucket_get_slot_item_ptr is the slot itself: the read and the write through it.
abbrev pub read_slot : Half → Slot → Option ℕ
read_slot h s = get_slot_item (bucket_at (chain_at h s.chain) s.depth) s.index

abbrev pub write_slot : Half → Slot → Option ℕ → Half
write_slot h s item =
    let chain = chain_at h s.chain in
    set_chain h s.chain (set chain s.depth (set_slot_item (bucket_at chain s.depth) s.index item))

-- The chain in which a place is, with the bucket that hashtable_bucket_init_chain adds.
abbrev pub extended : List Bucket → Place → List Bucket
extended chain (chain_end depth) = chain ++ (zero_bucket ∷ [])
extended chain _ = chain

abbrev pub slot_of : ℕ → Place → Option Slot
slot_of i place_null = none
slot_of i (place depth slot) = some (record { chain = i; depth = depth; index = slot })
slot_of i (chain_end depth) = some (record { chain = i; depth = depth; index = 0 })

abbrev pub busy_bucket : Bucket → ℕ → ℕ → Bucket
busy_bucket b slot tag = set_slot_hash_tag (set_slot_state b slot true) slot tag

-- An empty slot becomes busy and is counted.
unfoldable pub claim : Half → List Bucket → Slot → ℕ → Half
claim h chain s tag =
    let b = bucket_at chain s.depth in
    if get_slot_state b s.index
    then set_chain h s.chain chain
    else record (set_chain h s.chain (set chain s.depth (busy_bucket b s.index tag))) {
      size = (h.size + 1) % 2 ^ 64;
    }

-- hashtable_set_old and hashtable_set_new, which differ in the half that they name.
unfoldable pub set_in : (ℕ → Item) → Half → ℕ → ℕ → Bytes → ℕ → Option (Half × Slot)
set_in mem h hash tag key key_len =
    let i = bucket_idx hash h.bucket_count in
    let chain = chain_at h i in
    let p = find_item_slot_or_next_free_slot_in_bucket mem key key_len tag chain in
    elim (slot_of i p) [ none ↦ none | some s ↦ some (claim h (extended chain p) s tag, s) ]

-- hashtable_get_old and hashtable_get_new.
unfoldable pub get_in : (ℕ → Item) → Half → ℕ → ℕ → Bytes → ℕ → Option (Option ℕ)
get_in mem h hash tag key key_len =
    let i = bucket_idx hash h.bucket_count in
    elim (find_item_slot_in_bucket mem key key_len tag (chain_at h i)) [
      | found_null ↦ none
      | missing ↦ some none
      | found depth slot ↦ some (read_slot h (record { chain = i; depth = depth; index = slot }))
    ]

abbrev pub cleared : Bucket → ℕ → Bucket
cleared b slot = set_slot_item (set_slot_hash_tag (set_slot_state b slot false) slot 0) slot none

-- hashtable_delete_old and hashtable_delete_new.
unfoldable pub delete_in : (ℕ → Item) → Half → ℕ → ℕ → Bytes → ℕ → Option (Half × Option ℕ)
delete_in mem h hash tag key key_len =
    let i = bucket_idx hash h.bucket_count in
    let chain = chain_at h i in
    elim (find_item_slot_in_bucket mem key key_len tag chain) [
      | found_null ↦ none
      | missing ↦ some (h, none)
      | found depth slot ↦
          let b = bucket_at chain depth in
          some (
            record (set_chain h i (set chain depth (cleared b slot))) {
              size = (h.size + 2 ^ 64 - 1) % 2 ^ 64;
            },
            get_slot_item b slot,
          )
    ]
