-- ===== src/Kv/Shards.antt =====
-- What a shard of src/kv.c stores, and kv_shard_get and kv_shard_delete.
use kvx.Common.{
  ℕ, ◌+◌, ◌≤◌, ◌≡◌, ◌≢◌, ◌⊎◌, ◌↔◌, refl, sym, subst, ap, ◌∙◌, true, false, Option, none, some,
  arith, Bytes, drop, memcpy, length, ltb, if◌then◌else◌, inl, inr, length-take, length-drop,
}
use kvx.Item.{item_key, item_value}
use kvx.Item.Laws.{IsItem}
use kvx.Slab.Pool.{Malloc, SlabAllocator}
use kvx.Slab.Pool.Invariant.{IsMalloc, Ghost, Live}
use kvx.Slab.Pool.Allocate.{IsAllocator}
use kvx.Slab.Pool.Items.{slab_allocator_free_item-Returned}
use kvx.HashTable.Table.{Table}
use kvx.HashTable.Migrate.Whole.{TableStores, IsTable}
use kvx.HashTable.Migrate.Later.{SameKey, later-IsTable, stored-IsItem}
use kvx.HashTable.Api.Lookup.{hashtable_get-TableStores}
use kvx.HashTable.Api.Changes.{hashtable_delete-TableStores}
use kvx.Kv.{
  KvError, kv_ok, kv_err_not_found, kv_err_value_len_exceeds_dst_buffer_size, Shard, Out, shard_of,
  kv_shard_get, read_item, kv_shard_delete, free_deleted,
}

-- What kv_shard_get returns for a value, flags and an expiry time.
abbrev pub read_entry : ℕ → Out → Bytes → ℕ → ℕ → KvError × Out
read_entry dst_len out v f e =
    if ltb dst_len (length v)
    then (kv_err_value_len_exceeds_dst_buffer_size, record out { value_len_out = length v })
    else (
      kv_ok,
      record out { value_len_out = length v; flags_out = f; exp_out = e; dst = memcpy out.dst 0 v },
    )

module _ (hash_of : Bytes → ℕ) where
  -- The items that are handed out are those in the table, and their keys and values lie inside them.
  pub record IsShard (m : Malloc) (t : Table) (h : SlabAllocator) (g : Ghost) : Type 0 where
    pub table : IsTable hash_of h.mem t
    pub alloc : IsAllocator m h g
    pub live : (k : Bytes) (x : ℕ) → TableStores hash_of h.mem t k x → Live h g x
    pub kept : (x : ℕ) → Live h g x → TableStores hash_of h.mem t (item_key (h.mem x)) x
    pub fits :
        (x : ℕ) → Live h g x → (h.mem x).key_len + (h.mem x).value_len ≤ length (h.mem x).payload

  -- A key has this value, with these flags and this expiry time.
  abbrev pub Entry : Table → SlabAllocator → Bytes → Bytes → ℕ → ℕ → Type 0
  Entry t h k v f e =
      (x : ℕ) × TableStores hash_of h.mem t k x
      × (item_value (h.mem x) ≡ v)
      × ((h.mem x).flags ≡ f)
      × ((h.mem x).expire_at ≡ e)

  abbrev pub NoEntry : Table → SlabAllocator → Bytes → Type 0
  NoEntry t h k = (v : Bytes) (f e : ℕ) → Entry t h k v f e → true ≡ false

  abbrev pub OneEntry : Table → SlabAllocator → Bytes → Bytes → ℕ → ℕ → Type 0
  OneEntry t h k v f e =
      (v' : Bytes) (f' e' : ℕ) → Entry t h k v' f' e' → (v' ≡ v) × (f' ≡ f) × (e' ≡ e)

  module _ (m : Malloc) (t : Table) (h : SlabAllocator) (g : Ghost) (shard : IsShard m t h g)
      (key : Bytes) where
    length-item_value : (x : ℕ) → Live h g x → length (item_value (h.mem x)) ≡ (h.mem x).value_len
    length-item_value x live = omega (
      arith,
      shard.fits x live,
      length-take (h.mem x).value_len (drop (h.mem x).key_len (h.mem x).payload),
      length-drop (h.mem x).key_len (h.mem x).payload,
    )

    abbrev pub GetLaw : ℕ → Out → Option (KvError × Out) → Type 0
    GetLaw dst_len out result =
        ((result ≡ some (kv_err_not_found, out)) × NoEntry t h key)
        ⊎ ((v : Bytes) × (f : ℕ) × (e : ℕ) × (result ≡ some (read_entry dst_len out v f e))
            × Entry t h key v f e
            × OneEntry t h key v f e)

    read_by_answer :
        (dst_len : ℕ) (out : Out) (r : Option ℕ)
        → ((y : ℕ) → TableStores hash_of h.mem t key y ↔ (r ≡ some y))
        → GetLaw dst_len out (some (read_item h.mem dst_len out r))
    unfolding read_item
    read_by_answer dst_len out none answers =
        inl (refl, λ v f e (x, stored, _, _, _). cc ((answers x).0 stored))
    read_by_answer dst_len out (some x) answers =
        let stored = (answers x).1 refl in
        let size = length-item_value x (shard.live key x stored) in
        inr (
          item_value (h.mem x),
          (h.mem x).flags,
          (h.mem x).expire_at,
          rw size refl,
          (x, stored, refl, refl, refl),
          λ v' f' e' (y, stored', hv, hf, he).
              let both : some x ≡ some y = (answers y).0 stored' in
              let p : y ≡ x = cc both in
              (
                sym hv ∙ ap (λ r. item_value (h.mem r)) p,
                sym hf ∙ ap (λ r. (h.mem r).flags) p,
                sym he ∙ ap (λ r. (h.mem r).expire_at) p,
              ),
        )

    -- In a well-formed shard, kv_shard_get returns KV_ERR_NOT_FOUND and writes nothing where the key has
    -- no entry. Else it writes the length of the entry's value, and where that is at most `dst_len` also
    -- the flags, the expiry time and the value, or else it returns the error for a small buffer.
    pub kv_shard_get-Entry :
        (dst_len : ℕ) (out : Out)
        → GetLaw dst_len out
            (kv_shard_get (shard_of t h) (hash_of key) key (length key) dst_len out)
    unfolding kv_shard_get
    kv_shard_get-Entry dst_len out =
        let (r, run, answers) = hashtable_get-TableStores hash_of h.mem key t shard.table in
        rw run (read_by_answer dst_len out r answers)

    -- One key is taken from the table, and its item from those that are handed out.
    pub without_key :
        (t' : Table) (h' : SlabAllocator) (g' : Ghost)
        → IsTable hash_of h.mem t'
        → ((q : Bytes) (y : ℕ)
            → TableStores hash_of h.mem t' q y ↔ ((q ≢ key) × TableStores hash_of h.mem t q y))
        → IsAllocator m h' g'
        → ((b : ℕ) → Live h' g' b ↔ (Live h g b × (item_key (h.mem b) ≢ key)))
        → ((b : ℕ) → Live h' g' b → h'.mem b ≡ h.mem b)
        → IsShard m t' h' g'
          × ((q v : Bytes) (f e : ℕ) → Entry t' h' q v f e ↔ ((q ≢ key) × Entry t h q v f e))
    without_key t' h' g' table law alloc live same =
        let other : (q : Bytes) (y : ℕ) → q ≢ key → TableStores hash_of h.mem t q y → Live h' g' y =
          λ q y ne stored.
            let k = (stored-IsItem hash_of h.mem t q y shard.table stored).0 in
            (live y).1 (shard.live q y stored, λ e. ne (sym k ∙ e)) in
        let agree : (q : Bytes) (y : ℕ)
            → TableStores hash_of h.mem t' q y
            → SameKey hash_of h.mem h'.mem y =
          λ q y stored'.
            let (ne, stored) = (law q y).0 stored' in
            let e = same y (other q y ne stored) in
            record {
              key = ap item_key e;
              intact =
                  subst IsItem (sym e) (stored-IsItem hash_of h.mem t q y shard.table stored).1;
            } in
        let (table', kept) = later-IsTable hash_of h.mem h'.mem t' table agree in
        (
          record {
            table = table';
            alloc = alloc;
            live = λ k x stored'.
                let (ne, stored) = (law k x).0 ((kept k x).0 stored') in other k x ne stored;
            kept = λ x l'.
                let (l, ne) = (live x).0 l' in
                subst (λ r. TableStores hash_of h'.mem t' (item_key r) x) (sym (same x l'))
                  ((kept (item_key (h.mem x)) x).1
                    ((law (item_key (h.mem x)) x).1 (ne, shard.kept x l)));
            fits = λ x l'.
                subst (λ r. r.key_len + r.value_len ≤ length r.payload) (sym (same x l'))
                  (shard.fits x ((live x).0 l').0);
          },
          λ q v f e. (
            λ (x, stored', hv, hf, he).
                let (ne, stored) = (law q x).0 ((kept q x).0 stored') in
                let p = sym (same x (other q x ne stored)) in
                (
                  ne,
                  (
                    x,
                    stored,
                    ap item_value p ∙ hv,
                    ap (λ r. r.flags) p ∙ hf,
                    ap (λ r. r.expire_at) p ∙ he,
                  ),
                ),
            λ (ne, (x, stored, hv, hf, he)).
                let p = same x (other q x ne stored) in
                (
                  x,
                  (kept q x).1 ((law q x).1 (ne, stored)),
                  ap item_value p ∙ hv,
                  ap (λ r. r.flags) p ∙ hf,
                  ap (λ r. r.expire_at) p ∙ he,
                ),
          ),
        )

    abbrev pub DeleteLaw : Option (Shard × KvError) → Type 0
    DeleteLaw result =
        (t' : Table) × (h' : SlabAllocator) × (g' : Ghost) × (error : KvError) × (result
          ≡ some (shard_of t' h', error))
        × IsShard m t' h' g'
        × ((q v : Bytes) (f e : ℕ) → Entry t' h' q v f e ↔ ((q ≢ key) × Entry t h q v f e))
        × (((error ≡ kv_err_not_found) × NoEntry t h key)
            ⊎ ((error ≡ kv_ok) × ((v : Bytes) × (f : ℕ) × (e : ℕ) × Entry t h key v f e)))

    free_by_answer :
        (t' : Table) (r : Option ℕ)
        → IsMalloc m
        → ((y : ℕ) → TableStores hash_of h.mem t key y ↔ (r ≡ some y))
        → IsTable hash_of h.mem t'
        → ((q : Bytes) (y : ℕ)
            → TableStores hash_of h.mem t' q y ↔ ((q ≢ key) × TableStores hash_of h.mem t q y))
        → DeleteLaw (free_deleted h t' r)
    unfolding free_deleted
    free_by_answer t' none ok answers table law =
        let (shard', entries) =
          without_key t' h g table law shard.alloc
            (λ b. (
              λ l. (
                l,
                λ e. cc (
                    (answers b).0
                      (subst (λ k. TableStores hash_of h.mem t k b) e (shard.kept b l))),
              ),
              λ (l, ne). l,
            ))
            (λ b l. refl) in
        (
          t',
          h,
          g,
          kv_err_not_found,
          refl,
          shard',
          entries,
          inl (refl, λ v f e (x, stored, _, _, _). cc ((answers x).0 stored)),
        )
    free_by_answer t' (some x) ok answers table law =
        let stored = (answers x).1 refl in
        let (h', g', run, alloc, returned) =
          slab_allocator_free_item-Returned m h g x ok shard.alloc (shard.live key x stored) in
        let has_key = (stored-IsItem hash_of h.mem t key x shard.table stored).0 in
        let (shard', entries) =
          without_key t' h' g' table law alloc
            (λ b. (
              λ l'.
                  let (l, ne) = (returned.live b).0 l' in
                  (
                    l,
                    λ e.
                        let both : some x ≡ some b =
                          (answers b).0
                            (subst (λ k. TableStores hash_of h.mem t k b) e (shard.kept b l)) in
                        ne (cc both),
                  ),
              λ (l, ne).
                  (returned.live b).1 (l, λ e. ne (ap (λ r. item_key (h.mem r)) e ∙ has_key)),
            ))
            (λ b l'. returned.mem b ((returned.live b).0 l').1) in
        (
          t',
          h',
          g',
          kv_ok,
          rw run refl,
          shard',
          entries,
          inr (
            refl,
            (
              item_value (h.mem x),
              (h.mem x).flags,
              (h.mem x).expire_at,
              (x, stored, refl, refl, refl),
            ),
          ),
        )

    -- In a well-formed shard, kv_shard_delete leaves a well-formed one in which the key has no entry and
    -- each other key has its own. It returns KV_ERR_NOT_FOUND where the key had no entry, and else KV_OK.
    pub kv_shard_delete-Entry :
        IsMalloc m
        → DeleteLaw (kv_shard_delete hash_of (shard_of t h) (hash_of key) key (length key))
    unfolding kv_shard_delete
    kv_shard_delete-Entry ok =
        let (t', r, run, answers, table, law) =
          hashtable_delete-TableStores hash_of h.mem key t shard.table in
        rw run (free_by_answer t' r ok answers table law)
