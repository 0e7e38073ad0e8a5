-- ===== src/Kv/Refuse.antt =====
-- kv_set of src/kv.c with a value that is too large for the allocator, for a key that has an entry.
use kvx.Common.{
  ℕ, ◌+◌, ◌^◌, ◌<◌, ◌≡◌, ◌≢◌, ◌⊎◌, ◌↔◌, refl, sym, subst, Option, none, some, arith, Bytes, length,
  same_bytes, same_bytes_iff, Bool-cases, inl, inr,
}
use kvx.Item.{item_key}
use kvx.Pages.{Os, pages_map}
use kvx.Slab.{item_size, max_data_chunk_size}
use kvx.Slab.Pool.{Malloc, SlabAllocator, slab_allocator_alloc_item}
use kvx.Slab.Pool.Invariant.{IsMalloc, Ghost}
use kvx.Slab.Pool.Allocate.{alloc_item-Served}
use kvx.Slab.Pool.Items.{Live-size}
use kvx.HashTable.Table.{Table}
use kvx.HashTable.Migrate.Whole.{TableStores, IsTable}
use kvx.HashTable.Migrate.Later.{SameKey, stored-IsItem}
use kvx.HashTable.Api.{SlotPtr, read_ptr, write_ptr}
use kvx.HashTable.Api.Puts.{Written, hashtable_set-SetLaw}
use kvx.Kv.{
  KvError, kv_err_no_mem, Kv, Shard, shard_of, shard_at, replace_item, set_through, kv_shard_set,
  kv_set,
}
use kvx.Kv.Shards.{IsShard, Entry}
use kvx.Kv.Sets.{store_grows}
use kvx.Kv.Whole.{
  ShardOk, EntryIn, KvEntry, IsKv, idx_of, idx_of_low, changed-IsKv, changed-KvEntry,
}

-- The fields of an item hold the lengths, and no size class is large enough.
pub record TooLarge (key value : Bytes) : Type 0 where
  pub key_fits : length key < 2 ^ 16
  pub value_fits : length value < 2 ^ 32
  pub large : max_data_chunk_size < length key + length value + item_size

-- What holds of a string, by whether it is the key.
split_key : (P : Bytes → Type 0) (key q : Bytes) → P q ↔ (((q ≡ key) × P key) ⊎ ((q ≢ key) × P q))
split_key P key q = (
  λ p. elim (Bool-cases (same_bytes q key)) [
    | inl e ↦ let same : q ≡ key = (same_bytes_iff q key).0 e in inl (same, subst P same p)
    | inr e ↦ inr (λ same. cc ((same_bytes_iff q key).1 same, e), p)
  ],
  λ r. elim r [ inl (same, p) ↦ subst P (sym same) p | inr (_, p) ↦ p ],
)

module _ (hash_of : Bytes → ℕ) (m : Malloc) (key value : Bytes) (flags exp : ℕ) where
  abbrev size : ℕ
  size = length key + length value

  -- The set fails, and every key has the entry that it had.
  abbrev Refused : Table → SlabAllocator → Ghost → Option (Shard × KvError) → Type 0
  Refused t h g result =
      (t' : Table) × (result ≡ some (shard_of t' h, kv_err_no_mem))
      × IsShard hash_of m t' h g
      × ((q v : Bytes) (f e : ℕ) → Entry hash_of t' h q v f e ↔ Entry hash_of t h q v f e)

  module _ (t : Table) (h : SlabAllocator) (g : Ghost) (shard : IsShard hash_of m t h g)
      (t1 : Table) (ptr : SlotPtr) (written : Written hash_of h.mem key t t1 ptr) (ok : IsMalloc m)
      (large : TooLarge key value) (x : ℕ)
      (answers : (y : ℕ) → TableStores hash_of h.mem t key y ↔ (some x ≡ some y))
      (back : write_ptr t1 ptr (some x) ≡ t1) where
    stored : TableStores hash_of h.mem t key x
    stored = (answers x).1 refl

    same-IsTable :
        IsTable hash_of h.mem t1
        × ((q : Bytes) (y : ℕ) → TableStores hash_of h.mem t1 q y ↔ TableStores hash_of h.mem t q y)
    same-IsTable =
        let (key_x, intact) = stored-IsItem hash_of h.mem t key x shard.table stored in
        let agree : (k : Bytes) (y : ℕ)
            → TableStores hash_of h.mem t k y
            → SameKey hash_of h.mem h.mem y =
          λ k y r. record {
            key = refl;
            intact = (stored-IsItem hash_of h.mem t k y shard.table r).1;
          } in
        let (table, law) = written h.mem x agree intact key_x in
        subst
          (λ r.
            IsTable hash_of h.mem r
            × ((q : Bytes) (y : ℕ)
                → TableStores hash_of h.mem r q y ↔ TableStores hash_of h.mem t q y))
          back
          (
            table,
            λ q y. (
              λ s. elim ((law q y).0 s) [
                | inl (e, f) ↦
                    subst (λ k. TableStores hash_of h.mem t k y) (sym e)
                      (subst (TableStores hash_of h.mem t key) (sym f) stored)
                | inr (_, r) ↦ r
              ],
              λ r. elim ((split_key (λ k. TableStores hash_of h.mem t k y) key q).0 r) [
                | inl (same, s) ↦
                    let both : some x ≡ some y = (answers y).0 s in
                    (law q y).1 (inl (same, cc both))
                | inr (ne, s) ↦ (law q y).1 (inr (ne, s))
              ],
            ),
          )

    refused : Refused t h g (
        set_through m key
          (length key)
          value
          (length value)
          flags
          exp
          hash_of
          (hash_of key)
          t1
          ptr
          h
          (some x))
    unfolding set_through replace_item
    refused =
        let (table, same) = same-IsTable in
        let (_, bound) = Live-size m h g x shard.alloc (shard.live key x stored) in
        let grow =
          store_grows hash_of m key value flags exp t h g shard t1 ptr written ok large.key_fits
            large.value_fits t1 h x (omega (arith, bound, large.large)) in
        let null : slab_allocator_alloc_item m h size ≡ some (h, none) =
          elim (alloc_item-Served m ok h g size shard.alloc
            (omega (arith, large.key_fits, large.value_fits))) [
              | inl (e, _) ↦ e
              | inr (h1, y, g1, n, _, _, room, alloc1, served) ↦
                  let (e, top) = Live-size m h1 g1 y alloc1 ((served.live y).1 (inr refl)) in
                  absurd (omega (arith, top, served.data_size, room, large.large))
            ] in
        (
          t1,
          rw (grow, null) refl,
          record {
            table = table;
            alloc = shard.alloc;
            live = λ k y s. shard.live k y ((same k y).0 s);
            kept = λ y l. (same (item_key (h.mem y)) y).1 (shard.kept y l);
            fits = shard.fits;
          },
          λ q v f e. (
            λ (y, s, r1, r2, r3). (y, (same q y).0 s, r1, r2, r3),
            λ (y, s, r1, r2, r3). (y, (same q y).1 s, r1, r2, r3),
          ),
        )

  by_answer-Refused :
      (t : Table) (h : SlabAllocator) (g : Ghost) (shard : IsShard hash_of m t h g) (t1 : Table)
      (ptr : SlotPtr) (written : Written hash_of h.mem key t t1 ptr) (ok : IsMalloc m)
      (large : TooLarge key value) (x : ℕ) (r : Option ℕ)
      → TableStores hash_of h.mem t key x
      → ((y : ℕ) → TableStores hash_of h.mem t key y ↔ (r ≡ some y))
      → write_ptr t1 ptr r ≡ t1
      → Refused t h g (
          set_through m key
            (length key)
            value
            (length value)
            flags
            exp
            hash_of
            (hash_of key)
            t1
            ptr
            h
            r)
  by_answer-Refused t h g shard t1 ptr written ok large x none s answers back = cc ((answers x).0 s)
  by_answer-Refused t h g shard t1 ptr written ok large x (some y) s answers back =
      refused t h g shard t1 ptr written ok large y answers back

  shard_set-Refused :
      (os : Os) (t : Table) (h : SlabAllocator) (g : Ghost) (v : Bytes) (f e : ℕ)
      → IsMalloc m
      → pages_map os 0 ≡ none
      → TooLarge key value
      → IsShard hash_of m t h g
      → Entry hash_of t h key v f e
      → Refused t h g (
          kv_shard_set m key
            (length key)
            value
            (length value)
            flags
            exp
            hash_of
            (hash_of key)
            os
            (shard_of t h))
  unfolding kv_shard_set
  shard_set-Refused os t h g v f e ok empty large shard (x, s, _, _, _) =
      let (t1, ptr, run, answers, back, written) =
        hashtable_set-SetLaw hash_of h.mem key os t empty shard.table in
      rw run
        (by_answer-Refused t h g shard t1 ptr written ok large x (read_ptr t1 ptr) s answers back)

  abbrev RefusedOpen : Option Table → SlabAllocator → Option (Shard × KvError) → Type 0
  RefusedOpen o h result =
      (shard' : Shard) × (result ≡ some (shard', kv_err_no_mem))
      × ShardOk hash_of m shard'.table shard'.allocator
      × ((q v : Bytes) (f e : ℕ)
          → EntryIn hash_of shard'.table shard'.allocator q v f e ↔ EntryIn hash_of o h q v f e)

  refuse_open :
      (os : Os) (o : Option Table) (h : SlabAllocator) (v : Bytes) (f e : ℕ)
      → IsMalloc m
      → pages_map os 0 ≡ none
      → TooLarge key value
      → ShardOk hash_of m o h
      → EntryIn hash_of o h key v f e
      → RefusedOpen o h (
          kv_shard_set m key
            (length key)
            value
            (length value)
            flags
            exp
            hash_of
            (hash_of key)
            os
            (record { table = o; allocator = h }))
  refuse_open os none h v f e malloc empty large ok entry = cc ok
  refuse_open os (some t) h v f e malloc empty large (g, shard) entry =
      let (t', run, shard', law) =
        shard_set-Refused os t h g v f e malloc empty large shard entry in
      (record { table = some t'; allocator = h }, run, (g, shard'), law)

module _ (hash_of : Bytes → ℕ) where
  abbrev Kept : Kv → Bytes → Bytes → ℕ → ℕ → Type 0
  Kept kv key v f e = KvEntry hash_of kv key v f e

  -- In a well-formed store, over mallocs with disjoint blocks and an mmap that refuses an empty mapping:
  -- for a key of less than 2^16 bytes that has an entry and a value of less than 2^32 bytes whose lengths
  -- have no size class together, kv_set returns KV_ERR_NO_MEM and leaves a well-formed store in which
  -- every key has the entry that it had.
  pub kv_set-TooLarge :
      (mallocs : ℕ → Malloc) (os : Os) (kv : Kv) (key value : Bytes) (flags exp : ℕ) (v : Bytes)
      (f e : ℕ)
      → ((i : ℕ) → IsMalloc (mallocs i))
      → pages_map os 0 ≡ none
      → TooLarge key value
      → IsKv hash_of mallocs kv
      → KvEntry hash_of kv key v f e
      → (kv' : Kv) × (kv_set hash_of mallocs os kv key value flags exp ≡ some (kv', kv_err_no_mem))
        × IsKv hash_of mallocs kv'
        × ((q w : Bytes) (c d : ℕ) → KvEntry hash_of kv' q w c d ↔ KvEntry hash_of kv q w c d)
  unfolding kv_set
  kv_set-TooLarge mallocs os kv key value flags exp v f e malloc empty large ok entry =
      let i = idx_of hash_of key in
      let o = (shard_at kv i).table in
      let h = (shard_at kv i).allocator in
      let (shard', run, ok', law) =
        refuse_open hash_of (mallocs i) key value flags exp os o h v f e (malloc i) empty large
          (ok.shards i (idx_of_low hash_of key)) entry in
      let by_key : (q w : Bytes) (c d : ℕ)
          → EntryIn hash_of shard'.table shard'.allocator q w c d ↔ (
              ((q ≡ key) × EntryIn hash_of o h key w c d)
              ⊎ ((q ≢ key) × EntryIn hash_of o h q w c d)) =
        λ q w c d.
          let parts = split_key (λ k. EntryIn hash_of o h k w c d) key q in
          (λ r. parts.0 ((law q w c d).0 r), λ r. (law q w c d).1 (parts.1 r)) in
      let changed = changed-KvEntry hash_of mallocs kv ok key (Kept kv key) shard' ok' by_key in
      (
        _,
        rw run refl,
        changed-IsKv hash_of mallocs kv ok key (Kept kv key) shard' ok' by_key,
        λ q w c d.
            let parts = split_key (λ k. KvEntry hash_of kv k w c d) key q in
            (λ r. parts.1 ((changed q w c d).0 r), λ s. (changed q w c d).1 (parts.0 s)),
      )
