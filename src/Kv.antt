-- ===== src/Kv.antt =====
-- src/kv.c and src/kv.h: the shards, each a hash table over the items of a slab allocator. A call holds the
-- mutex of its shard from the first access to the last, so the shards are states that calls change one
-- behind the other.
pub mod Fill
pub mod Shards
pub mod Stores
pub mod Sets
pub mod Upsert
pub mod Whole
pub mod Refuse
pub mod Api
pub mod RoundTrip
use Prim.Native.Nat.{bit_and}
use kvx.Common.{
  length, ℕ, zero, suc, ◌+◌, ◌%◌, ◌^◌, Option, none, some, List, [], ◌∷◌, Bytes, get_or, set,
  memcpy, ltb, if◌then◌else◌,
}
use kvx.Common.Faults.{◌>>=◌}
use kvx.Item.{Item, item_value, item_set_key, item_set_value}
use kvx.Pages.{Os}
use kvx.Slab.Pool.{
  Malloc, SlabAllocator, write, slab_allocator_alloc_item, slab_allocator_free_item, init_allocator,
}
use kvx.HashTable.Table.{Table, hashtable_init}
use kvx.HashTable.Api.{SlotPtr, read_ptr, write_ptr, hashtable_get, hashtable_set, hashtable_delete}

pub data KvError : Type 0 where
  kv_ok : KvError
  kv_err_not_found : KvError
  kv_err_no_mem : KvError
  kv_err_value_len_exceeds_dst_buffer_size : KvError

abbrev pub kv_shard_table_initial_size : ℕ
kv_shard_table_initial_size = 128

abbrev pub kv_shard_num : ℕ
kv_shard_num = 256

abbrev pub kv_shard_mask : ℕ
kv_shard_mask = 255

-- The table is none where hashtable_init returned NULL.
pub record Shard : Type 0 where
  pub table : Option Table
  pub allocator : SlabAllocator

-- What the pointers `value_len_out`, `flags_out` and `exp_out` point to, and the bytes of `dst`.
pub record Out : Type 0 where
  pub value_len_out : ℕ
  pub flags_out : ℕ
  pub exp_out : ℕ
  pub dst : Bytes

abbrev pub shard_of : Table → SlabAllocator → Shard
shard_of t h = record { table = some t; allocator = h }

unfoldable pub kv_shard_init : Os → (ℕ → Item) → Shard
kv_shard_init os mem = record {
  table = hashtable_init os kv_shard_table_initial_size;
  allocator = init_allocator mem;
}

-- kv_shard_get behind hashtable_get.
unfoldable pub read_item : (ℕ → Item) → ℕ → Out → Option ℕ → KvError × Out
read_item mem dst_len out none = (kv_err_not_found, out)
read_item mem dst_len out (some x) =
    let item = mem x in
    let out1 = record out { value_len_out = item.value_len } in
    if ltb dst_len item.value_len then (kv_err_value_len_exceeds_dst_buffer_size, out1) else (
      kv_ok,
      record out1 {
        flags_out = item.flags;
        exp_out = item.expire_at;
        dst = memcpy out.dst 0 (item_value item);
      },
    )

unfoldable pub kv_shard_get : Shard → ℕ → Bytes → ℕ → ℕ → Out → Option (KvError × Out)
kv_shard_get shard hash key key_len dst_len out = shard.table >>= λ t.
    hashtable_get shard.allocator.mem t hash key key_len >>= λ r.
    some (read_item shard.allocator.mem dst_len out r)

module _ (key : Bytes) (key_len : ℕ) (value : Bytes) (value_len flags exp : ℕ) where
  -- The writes of the item at the end of kv_shard_set.
  unfoldable pub fill : SlabAllocator → ℕ → SlabAllocator
  fill h x = record h {
    mem = write h.mem x (
        item_set_value
          (item_set_key (record (h.mem x) { expire_at = exp; flags = flags }) key key_len) value
          value_len);
  }

module _ (m : Malloc) (key : Bytes) (key_len : ℕ) (value : Bytes) (value_len flags exp : ℕ) where
  abbrev pub data_len : ℕ
  data_len = (key_len + value_len) % 2 ^ 64

  unfoldable pub replace_item :
      Table → SlotPtr → ℕ → SlabAllocator × Option ℕ → Option (Shard × KvError)
  replace_item t ptr x (h, none) = some (shard_of t h, kv_err_no_mem)
  replace_item t ptr x (h, some fresh) = slab_allocator_free_item h x >>= λ h1. some (
    shard_of (write_ptr t ptr (some fresh)) (fill key key_len value value_len flags exp h1 fresh),
    kv_ok,
  )

  -- kv_shard_set from the test of `data_size` on.
  unfoldable pub store_item : Table → SlotPtr → SlabAllocator → ℕ → Option (Shard × KvError)
  store_item t ptr h x =
      if ltb (h.mem x).data_size data_len
      then (slab_allocator_alloc_item m h data_len >>= λ r. replace_item t ptr x r)
      else some (shard_of t (fill key key_len value value_len flags exp h x), kv_ok)

  module _ (hash_of : Bytes → ℕ) (hash : ℕ) where
    unfoldable pub new_item : Table → SlotPtr → SlabAllocator × Option ℕ → Option (Shard × KvError)
    new_item t ptr (h, none) = hashtable_delete hash_of h.mem t hash key key_len >>= λ r.
        some (shard_of r.0 h, kv_err_no_mem)
    new_item t ptr (h, some x) = store_item (write_ptr t ptr (some x)) ptr h x

    -- kv_shard_set behind hashtable_set, with the item in the slot.
    unfoldable pub set_through :
        Table → SlotPtr → SlabAllocator → Option ℕ → Option (Shard × KvError)
    set_through t ptr h none = slab_allocator_alloc_item m h data_len >>= λ r. new_item t ptr r
    set_through t ptr h (some x) = store_item t ptr h x

    unfoldable pub kv_shard_set : Os → Shard → Option (Shard × KvError)
    kv_shard_set os shard = shard.table >>= λ t.
        hashtable_set hash_of shard.allocator.mem os t hash key key_len >>= λ r.
        set_through r.0 r.1 shard.allocator (read_ptr r.0 r.1)

-- kv_shard_delete behind hashtable_delete.
unfoldable pub free_deleted : SlabAllocator → Table → Option ℕ → Option (Shard × KvError)
free_deleted h t none = some (shard_of t h, kv_err_not_found)
free_deleted h t (some x) = slab_allocator_free_item h x >>= λ h1. some (shard_of t h1, kv_ok)

module _ (hash_of : Bytes → ℕ) where
  unfoldable pub kv_shard_delete : Shard → ℕ → Bytes → ℕ → Option (Shard × KvError)
  kv_shard_delete shard hash key key_len = shard.table >>= λ t.
      hashtable_delete hash_of shard.allocator.mem t hash key key_len >>= λ r.
      free_deleted shard.allocator r.0 r.1

pub record Kv : Type 0 where
  pub shards : List Shard

-- The loop of kv_init, for `n` shards from `i` on.
unfoldable pub init_shards : Os → (ℕ → ℕ → Item) → ℕ → ℕ → List Shard
init_shards os mems zero i = []
init_shards os mems (suc n) i = kv_shard_init os (mems i) ∷ init_shards os mems n (suc i)

unfoldable pub kv_init : Os → (ℕ → ℕ → Item) → Kv
kv_init os mems = record { shards = init_shards os mems kv_shard_num 0 }

abbrev pub shard_idx : ℕ → ℕ
shard_idx hash = bit_and hash kv_shard_mask % 2 ^ 8

abbrev pub no_item : Item
no_item = record {
  slab_ptr = 0;
  key_len = 0;
  flags = 0;
  data_size = 0;
  value_len = 0;
  expire_at = 0;
  payload = [];
}

abbrev pub no_shard : Shard
no_shard = record {
  table = none;
  allocator = record { mem = λ a. no_item; slabs = []; classes = [] };
}

abbrev pub shard_at : Kv → ℕ → Shard
shard_at kv i = get_or kv.shards i no_shard

abbrev with_shard : Kv → ℕ → Shard × KvError → Kv × KvError
with_shard kv i (shard, error) = (record { shards = set kv.shards i shard }, error)

-- A key or a value is the bytes that its pointer and its length delimit; XXH3_64bits is `hash_of`, and `mallocs` gives the malloc calls of each shard.
module _ (hash_of : Bytes → ℕ) where
  unfoldable pub kv_get : Kv → Bytes → ℕ → Out → Option (KvError × Out)
  kv_get kv key dst_len out =
      kv_shard_get (shard_at kv (shard_idx (hash_of key))) (hash_of key) key (length key) dst_len
        out

  unfoldable pub kv_set : (ℕ → Malloc) → Os → Kv → Bytes → Bytes → ℕ → ℕ → Option (Kv × KvError)
  kv_set mallocs os kv key value flags exp =
      let i = shard_idx (hash_of key) in
      kv_shard_set (mallocs i) key (length key) value (length value) flags exp hash_of (hash_of key)
        os (shard_at kv i)
      >>= λ r. some (with_shard kv i r)

  unfoldable pub kv_delete : Kv → Bytes → Option (Kv × KvError)
  kv_delete kv key =
      let i = shard_idx (hash_of key) in
      kv_shard_delete hash_of (shard_at kv i) (hash_of key) key (length key) >>= λ r.
      some (with_shard kv i r)
