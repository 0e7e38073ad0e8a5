-- ===== src/Kv/Api.antt =====
-- The public functions of src/kv.c on the store as one map.
use kvx.Common.{
  ℕ, zero, suc, ◌+◌, ◌*◌, ◌%◌, ◌^◌, ◌<◌, ◌≡◌, ◌≢◌, ◌⊎◌, ◌↔◌, refl, sym, subst, ap, ◌∙◌, true, false,
  Option, none, some, arith, Bytes, length, get_or, inl, inr,
}
use kvx.Item.{Item}
use kvx.Pages.{Os, pages_map}
use kvx.Slab.Pool.{Malloc, SlabAllocator, init_allocator}
use kvx.Slab.Pool.Invariant.{IsMalloc}
use kvx.Slab.Pool.Setup.{no_chunks, init_allocator-IsAllocator}
use kvx.HashTable.Table.{Table, bucket_size}
use kvx.HashTable.Api.Setup.{hashtable_init-IsTable}
use kvx.Kv.{
  KvError, kv_ok, kv_err_not_found, Shard, Out, Kv, kv_shard_num, shard_at, no_shard, init_shards,
  kv_shard_init, kv_shard_get, kv_shard_set, kv_shard_delete, kv_init, kv_get, kv_set, kv_delete,
}
use kvx.Kv.Shards.{read_entry, kv_shard_get-Entry, kv_shard_delete-Entry}
use kvx.Kv.Upsert.{Fits, kv_shard_set-Entry}
use kvx.Kv.Whole.{
  ShardOk, EntryIn, KvEntry, IsKv, idx_of, idx_of_low, changed-IsKv, changed-KvEntry,
}

module _ (hash_of : Bytes → ℕ) where
  -- What a call gives for a shard with this table and these items.
  abbrev GetOpen : Option Table → SlabAllocator → Bytes → ℕ → Out → Option (KvError × Out) → Type 0
  GetOpen o h key dst_len out result =
      ((result ≡ some (kv_err_not_found, out))
        × ((v : Bytes) (f e : ℕ) → EntryIn hash_of o h key v f e → true ≡ false))
      ⊎ ((v : Bytes) × (f : ℕ) × (e : ℕ) × (result ≡ some (read_entry dst_len out v f e))
          × EntryIn hash_of o h key v f e
          × ((v' : Bytes) (f' e' : ℕ)
              → EntryIn hash_of o h key v' f' e'
              → (v' ≡ v) × (f' ≡ f) × (e' ≡ e)))

  abbrev ChangeOpen :
      Malloc
      → Option Table
      → SlabAllocator
      → Bytes
      → (Bytes → ℕ → ℕ → Type 0)
      → Option (Shard × KvError)
      → KvError
      → Type 0
  ChangeOpen m o h key Added result error =
      (shard' : Shard) × (result ≡ some (shard', error))
      × ShardOk hash_of m shard'.table shard'.allocator
      × ((q v : Bytes) (f e : ℕ)
          → EntryIn hash_of shard'.table shard'.allocator q v f e
            ↔ (((q ≡ key) × Added v f e) ⊎ ((q ≢ key) × EntryIn hash_of o h q v f e)))

  get_open :
      (m : Malloc) (o : Option Table) (h : SlabAllocator) (key : Bytes) (dst_len : ℕ) (out : Out)
      → ShardOk hash_of m o h
      → GetOpen o h key dst_len out (
          kv_shard_get
            (record { table = o; allocator = h })
            (hash_of key)
            key
            (length key)
            dst_len
            out)
  get_open m none h key dst_len out ok = cc ok
  get_open m (some t) h key dst_len out (g, shard) =
      kv_shard_get-Entry hash_of m t h g shard key dst_len out

  -- In a well-formed store, kv_get returns KV_ERR_NOT_FOUND and writes nothing where the key has no entry.
  -- Else the key has one entry: the length of its value is written, and where that is at most `dst_len`
  -- the flags, the expiry time and the value are written too and KV_OK is returned; where it is more, the
  -- error for a small buffer is returned.
  pub kv_get-KvEntry :
      (mallocs : ℕ → Malloc) (kv : Kv) (key : Bytes) (dst_len : ℕ) (out : Out)
      → IsKv hash_of mallocs kv
      → ((kv_get hash_of kv key dst_len out ≡ some (kv_err_not_found, out))
          × ((v : Bytes) (f e : ℕ) → KvEntry hash_of kv key v f e → true ≡ false))
        ⊎ ((v : Bytes) × (f : ℕ) × (e : ℕ) × (kv_get hash_of kv key dst_len out
              ≡ some (read_entry dst_len out v f e))
            × KvEntry hash_of kv key v f e
            × ((v' : Bytes) (f' e' : ℕ)
                → KvEntry hash_of kv key v' f' e'
                → (v' ≡ v) × (f' ≡ f) × (e' ≡ e)))
  unfolding kv_get
  kv_get-KvEntry mallocs kv key dst_len out ok =
      let i = idx_of hash_of key in
      get_open (mallocs i) (shard_at kv i).table (shard_at kv i).allocator key dst_len out
        (ok.shards i (idx_of_low hash_of key))

  abbrev Is : Bytes → ℕ → ℕ → Bytes → ℕ → ℕ → Type 0
  Is value flags exp v f e = (v ≡ value) × (f ≡ flags) × (e ≡ exp)

  set_open :
      (m : Malloc) (os : Os) (o : Option Table) (h : SlabAllocator) (key value : Bytes)
      (flags exp : ℕ)
      → IsMalloc m
      → pages_map os 0 ≡ none
      → Fits key value
      → ShardOk hash_of m o h
      → ChangeOpen m o h key
          (Is value flags exp)
          (kv_shard_set m key
            (length key)
            value
            (length value)
            flags
            exp
            hash_of
            (hash_of key)
            os
            (record { table = o; allocator = h }))
          kv_ok
  set_open m os none h key value flags exp malloc empty fits ok = cc ok
  set_open m os (some t) h key value flags exp malloc empty fits (g, shard) =
      let (t', h', g', run, shard', puts) =
        kv_shard_set-Entry hash_of m key value flags exp os t h g malloc empty fits shard in
      (record { table = some t'; allocator = h' }, run, (g', shard'), puts)

  -- In a well-formed store, over mallocs with disjoint blocks and an mmap that refuses an empty mapping,
  -- for a key of less than 2^16 bytes and a value whose lengths have a size class together: kv_set
  -- returns KV_OK and leaves a well-formed store in which the key has the value, the flags and the
  -- expiry time, and each other key the entry that it had.
  pub kv_set-KvEntry :
      (mallocs : ℕ → Malloc) (os : Os) (kv : Kv) (key value : Bytes) (flags exp : ℕ)
      → ((i : ℕ) → IsMalloc (mallocs i))
      → pages_map os 0 ≡ none
      → Fits key value
      → IsKv hash_of mallocs kv
      → (kv' : Kv) × (kv_set hash_of mallocs os kv key value flags exp ≡ some (kv', kv_ok))
        × IsKv hash_of mallocs kv'
        × ((q v : Bytes) (f e : ℕ)
            → KvEntry hash_of kv' q v f e ↔ (
                ((q ≡ key) × ((v ≡ value) × (f ≡ flags) × (e ≡ exp)))
                ⊎ ((q ≢ key) × KvEntry hash_of kv q v f e)))
  unfolding kv_set
  kv_set-KvEntry mallocs os kv key value flags exp malloc empty fits ok =
      let i = idx_of hash_of key in
      let (shard', run, ok', law) =
        set_open (mallocs i) os (shard_at kv i).table (shard_at kv i).allocator key value flags exp
          (malloc i) empty fits (ok.shards i (idx_of_low hash_of key)) in
      (
        _,
        rw run refl,
        changed-IsKv hash_of mallocs kv ok key (Is value flags exp) shard' ok' law,
        changed-KvEntry hash_of mallocs kv ok key (Is value flags exp) shard' ok' law,
      )

  abbrev Nothing : Bytes → ℕ → ℕ → Type 0
  Nothing v f e = true ≡ false

  abbrev DeleteOpen :
      Malloc → Option Table → SlabAllocator → Bytes → Option (Shard × KvError) → Type 0
  DeleteOpen m o h key result =
      (error : KvError) × ChangeOpen m o h key Nothing result error
      × (((error ≡ kv_err_not_found)
            × ((v : Bytes) (f e : ℕ) → EntryIn hash_of o h key v f e → true ≡ false))
          ⊎ ((error ≡ kv_ok) × ((v : Bytes) × (f : ℕ) × (e : ℕ) × EntryIn hash_of o h key v f e)))

  delete_open :
      (m : Malloc) (o : Option Table) (h : SlabAllocator) (key : Bytes)
      → IsMalloc m
      → ShardOk hash_of m o h
      → DeleteOpen m o h key (
          kv_shard_delete hash_of
            (record { table = o; allocator = h })
            (hash_of key)
            key
            (length key))
  delete_open m none h key malloc ok = cc ok
  delete_open m (some t) h key malloc (g, shard) =
      let (t', h', g', error, run, shard', law, which) =
        kv_shard_delete-Entry hash_of m t h g shard key malloc in
      (
        error,
        (
          record { table = some t'; allocator = h' },
          run,
          (g', shard'),
          λ q v f e. (
            λ r. inr ((law q v f e).0 r),
            λ r. elim r [ inl (_, n) ↦ cc n | inr p ↦ (law q v f e).1 p ],
          ),
        ),
        which,
      )

  -- In a well-formed store, over mallocs with disjoint blocks, kv_delete leaves a well-formed store in
  -- which the key has no entry and each other key the one that it had. It returns KV_ERR_NOT_FOUND
  -- where the key had no entry, and else KV_OK.
  pub kv_delete-KvEntry :
      (mallocs : ℕ → Malloc) (kv : Kv) (key : Bytes)
      → ((i : ℕ) → IsMalloc (mallocs i))
      → IsKv hash_of mallocs kv
      → (kv' : Kv) × (error : KvError) × (kv_delete hash_of kv key ≡ some (kv', error))
        × IsKv hash_of mallocs kv'
        × ((q v : Bytes) (f e : ℕ)
            → KvEntry hash_of kv' q v f e ↔ ((q ≢ key) × KvEntry hash_of kv q v f e))
        × (((error ≡ kv_err_not_found)
              × ((v : Bytes) (f e : ℕ) → KvEntry hash_of kv key v f e → true ≡ false))
            ⊎ ((error ≡ kv_ok) × ((v : Bytes) × (f : ℕ) × (e : ℕ) × KvEntry hash_of kv key v f e)))
  unfolding kv_delete
  kv_delete-KvEntry mallocs kv key malloc ok =
      let i = idx_of hash_of key in
      let (error, (shard', run, ok', law), which) =
        delete_open (mallocs i) (shard_at kv i).table (shard_at kv i).allocator key (malloc i)
          (ok.shards i (idx_of_low hash_of key)) in
      let changed = changed-KvEntry hash_of mallocs kv ok key Nothing shard' ok' law in
      (
        _,
        error,
        rw run refl,
        changed-IsKv hash_of mallocs kv ok key Nothing shard' ok' law,
        λ q v f e. (
          λ r. elim ((changed q v f e).0 r) [ inl (_, n) ↦ cc n | inr p ↦ p ],
          λ p. (changed q v f e).1 (inr p),
        ),
        which,
      )

  get_or-init_shards :
      (os : Os) (mems : ℕ → ℕ → Item) (n i j : ℕ)
      → j < n
      → get_or (init_shards os mems n i) j no_shard ≡ kv_shard_init os (mems (i + j))
  unfolding init_shards
  get_or-init_shards os mems zero i j low = absurd (omega (arith, low))
  get_or-init_shards os mems (suc n) i zero low = ap (λ r. kv_shard_init os (mems r)) (omega arith)
  get_or-init_shards os mems (suc n) i (suc j) low =
      get_or-init_shards os mems n (suc i) j (omega (arith, low))
      ∙ ap (λ r. kv_shard_init os (mems r)) (omega arith)

  length-init_shards :
      (os : Os) (mems : ℕ → ℕ → Item) (n i : ℕ) → length (init_shards os mems n i) ≡ n
  unfolding init_shards
  length-init_shards os mems zero i = refl
  length-init_shards os mems (suc n) i = ap suc (length-init_shards os mems n (suc i))

  -- A shard that is made.
  abbrev Fresh : Malloc → Shard → Type 0
  Fresh m shard =
      ShardOk hash_of m shard.table shard.allocator
      × ((k v : Bytes) (f e : ℕ)
          → EntryIn hash_of shard.table shard.allocator k v f e
          → true ≡ false)

  init-Fresh :
      (m : Malloc) (os : Os) (mem : ℕ → Item) (bytes : ℕ)
      → pages_map os (128 * bucket_size % 2 ^ 64) ≡ some bytes
      → Fresh m (kv_shard_init os mem)
  unfolding kv_shard_init init_allocator
  init-Fresh m os mem bytes pages =
      let (t, run, table, none_stored, _, _, _) =
        hashtable_init-IsTable hash_of mem os 128 bytes refl pages in
      let (alloc, none_live) = init_allocator-IsAllocator m mem in
      rw run (
        (
          no_chunks,
          record {
            table = table;
            alloc = alloc;
            live = λ k x s. cc (none_stored k x s);
            kept = λ x l. cc (none_live x l);
            fits = λ x l. cc (none_live x l);
          },
        ),
        λ k v f e (x, s, _, _, _). none_stored k x s,
      )

  -- Where mmap gives the pages of the tables, kv_init makes a well-formed store without entries.
  pub kv_init-IsKv :
      (mallocs : ℕ → Malloc) (os : Os) (mems : ℕ → ℕ → Item) (bytes : ℕ)
      → pages_map os (128 * bucket_size % 2 ^ 64) ≡ some bytes
      → IsKv hash_of mallocs (kv_init os mems)
        × ((k v : Bytes) (f e : ℕ) → KvEntry hash_of (kv_init os mems) k v f e → true ≡ false)
  unfolding kv_init
  kv_init-IsKv mallocs os mems bytes pages =
      let fresh : (i : ℕ) → i < kv_shard_num → Fresh (mallocs i) (shard_at (kv_init os mems) i) =
        λ i low.
          subst (Fresh (mallocs i)) (sym (get_or-init_shards os mems kv_shard_num 0 i low))
            (init-Fresh (mallocs i) os (mems (0 + i)) bytes pages) in
      (
        record {
          count = length-init_shards os mems kv_shard_num 0;
          shards = λ i low. (fresh i low).0;
        },
        λ k. (fresh (idx_of hash_of k) (idx_of_low hash_of k)).1 k,
      )
