-- ===== src/Kv/Upsert.antt =====
-- kv_shard_set of src/kv.c as a whole: a new key, and a new value in the key's item or in a larger one.
use kvx.Common.{
  ℕ, ◌+◌, ◌%◌, ◌^◌, ◌≤◌, ◌<◌, ◌≡◌, ◌↔◌, refl, subst, true, false, Option, none, some, arith, Bytes,
  length, leb, Bool-cases, inl, inr,
}
use kvx.Pages.{Os, pages_map}
use kvx.Slab.{item_size, max_data_chunk_size}
use kvx.Slab.Pool.{Malloc, SlabAllocator, slab_allocator_alloc_item}
use kvx.Slab.Pool.Invariant.{IsMalloc, Ghost}
use kvx.Slab.Pool.Serve.{Served}
use kvx.Slab.Pool.Allocate.{IsAllocator, alloc_item-Served}
use kvx.Slab.Pool.Items.{slab_allocator_free_item-Returned}
use kvx.HashTable.Table.{Table}
use kvx.HashTable.Migrate.Whole.{TableStores}
use kvx.HashTable.Api.{SlotPtr, read_ptr, write_ptr}
use kvx.HashTable.Api.Puts.{Written, hashtable_set-SetLaw}
use kvx.Kv.{KvError, kv_ok, Shard, shard_of, replace_item, new_item, set_through, kv_shard_set}
use kvx.Kv.Shards.{IsShard}
use kvx.Kv.Stores.{Stores, Stores-IsShard}
use kvx.Kv.Sets.{
  filled_at, SetDone, store_fits, store_grows, in_place_Stores, replaced_Stores, new_Stores,
}

-- The lengths that the fields of an item can hold, and a size that the allocator has a class for.
pub record Fits (key value : Bytes) : Type 0 where
  pub key_fits : length key < 2 ^ 16
  pub value_fits : length value < 2 ^ 32
  pub positive : 0 < length key + length value
  pub size_fits : length key + length value + item_size ≤ max_data_chunk_size

module _ (hash_of : Bytes → ℕ) (m : Malloc) (key value : Bytes) (flags exp : ℕ) where
  abbrev size : ℕ
  size = length key + length value

  abbrev through : Table → SlotPtr → SlabAllocator → Option ℕ → Option (Shard × KvError)
  through t ptr h r =
      set_through m key (length key) value (length value) flags exp hash_of (hash_of key) t ptr h r

  -- An allocation of that size succeeds.
  abbrev Allocated : SlabAllocator → Ghost → Type 0
  Allocated h g =
      (h1 : SlabAllocator) × (y : ℕ) × (g1 : Ghost) × (n : ℕ) × (slab_allocator_alloc_item m h size
        ≡ some (h1, some y))
      × (size ≤ n)
      × IsAllocator m h1 g1
      × Served h g h1 g1 y n

  allocated :
      (h : SlabAllocator) (g : Ghost)
      → IsMalloc m
      → Fits key value
      → IsAllocator m h g
      → Allocated h g
  allocated h g ok fits alloc =
      elim (alloc_item-Served m ok h g size alloc (omega (arith, fits.size_fits))) [
        | inl (_, why) ↦ absurd (omega (arith, why, fits.positive, fits.size_fits))
        | inr (h1, y, g1, n, run, _, room, alloc1, served) ↦
            (h1, y, g1, n, run, room, alloc1, served)
      ]

  module _ (t : Table) (h : SlabAllocator) (g : Ghost) (shard : IsShard hash_of m t h g)
      (t1 : Table) (ptr : SlotPtr) (written : Written hash_of h.mem key t t1 ptr) (ok : IsMalloc m)
      (fits : Fits key value) where
    done :
        (h' : SlabAllocator) (g' : Ghost) (y : ℕ)
        → Stores hash_of m key value flags exp t h g shard t1 ptr written h' g' y
        → SetDone hash_of m key value flags exp t h
            (some (shard_of (write_ptr t1 ptr (some y)) h', kv_ok))
    done h' g' y stores =
        let (shard', puts) =
          Stores-IsShard hash_of m key value flags exp t h g shard t1 ptr written h' g' y stores in
        (write_ptr t1 ptr (some y), h', g', refl, shard', puts)

    set_new_key :
        ((b : ℕ) → TableStores hash_of h.mem t key b → true ≡ false)
        → SetDone hash_of m key value flags exp t h (through t1 ptr h none)
    unfolding set_through new_item
    set_new_key absent =
        let (h1, y, g1, n, run, room, alloc1, served) = allocated h g ok fits shard.alloc in
        let whole : size % 2 ^ 64 ≡ size = omega (arith, fits.size_fits) in
        let fill =
          store_fits hash_of m key value flags exp t h g shard t1 ptr written ok fits.key_fits
            fits.value_fits (write_ptr t1 ptr (some y)) h1 y
            (omega (arith, room, served.data_size)) in
        rw (whole, run, fill)
          (done (filled_at hash_of m key value flags exp h1 y) g1 y (
            new_Stores hash_of m key value flags exp t h g shard t1 ptr written ok fits.key_fits
              fits.value_fits h1 g1 y n absent room alloc1 served))

    set_old_key :
        (x : ℕ)
        → ((y : ℕ) → TableStores hash_of h.mem t key y ↔ (some x ≡ some y))
        → write_ptr t1 ptr (some x) ≡ t1
        → SetDone hash_of m key value flags exp t h (through t1 ptr h (some x))
    unfolding set_through replace_item
    set_old_key x answers back = elim (Bool-cases (leb size (h.mem x).data_size)) [
      | inl e ↦
          let room : size ≤ (h.mem x).data_size = ground (arith, e) in
          let fill =
            store_fits hash_of m key value flags exp t h g shard t1 ptr written ok fits.key_fits
              fits.value_fits t1 h x room in
          let stores =
            in_place_Stores hash_of m key value flags exp t h g shard t1 ptr written ok
              fits.key_fits fits.value_fits x answers room in
          rw fill (
            subst
              (λ r.
                SetDone hash_of m key value flags exp t h
                  (some (shard_of r (filled_at hash_of m key value flags exp h x), kv_ok)))
              back (done (filled_at hash_of m key value flags exp h x) g x stores))
      | inr e ↦
          let grow =
            store_grows hash_of m key value flags exp t h g shard t1 ptr written ok fits.key_fits
              fits.value_fits t1 h x (ground (arith, e)) in
          let (h1, y, g1, n, run, room, alloc1, served) = allocated h g ok fits shard.alloc in
          let (h2, g2, run2, alloc2, returned) =
            slab_allocator_free_item-Returned m h1 g1 x ok alloc1
              ((served.live x).1 (inl (shard.live key x ((answers x).1 refl)))) in
          rw (grow, run, run2)
            (done (filled_at hash_of m key value flags exp h2 y) g2 y (
              replaced_Stores hash_of m key value flags exp t h g shard t1 ptr written ok
                fits.key_fits fits.value_fits x answers h1 h2 g1 g2 y n room served alloc2
                returned))
    ]

    set_by_answer :
        (r : Option ℕ)
        → ((y : ℕ) → TableStores hash_of h.mem t key y ↔ (r ≡ some y))
        → write_ptr t1 ptr r ≡ t1
        → SetDone hash_of m key value flags exp t h (through t1 ptr h r)
    set_by_answer none answers back = set_new_key (λ b s. cc ((answers b).0 s))
    set_by_answer (some x) answers back = set_old_key x answers back

  -- In a well-formed shard, for a key of less than 2^16 bytes and a value whose lengths have a size class
  -- together, kv_shard_set succeeds, whether the key is new, its item has room, or a larger item takes its
  -- place. It leaves a well-formed shard in which the key has the value, the flags and the expiry time,
  -- and each other key the entry that it had.
  pub kv_shard_set-Entry :
      (os : Os) (t : Table) (h : SlabAllocator) (g : Ghost)
      → IsMalloc m
      → pages_map os 0 ≡ none
      → Fits key value
      → IsShard hash_of m t h g
      → SetDone hash_of m key value flags exp t h (
          kv_shard_set m key
            (length key)
            value
            (length value)
            flags
            exp
            hash_of
            (hash_of key)
            os
            (shard_of t h))
  unfolding kv_shard_set
  kv_shard_set-Entry os t h g ok empty fits shard =
      let (t1, ptr, run, answers, back, written) =
        hashtable_set-SetLaw hash_of h.mem key os t empty shard.table in
      rw run (set_by_answer t h g shard t1 ptr written ok fits (read_ptr t1 ptr) answers back)
