-- ===== src/Kv/Whole.antt =====
-- The store of src/kv.c as one map: its 256 shards, and the shard of a key.
use kvx.Common.{
  ℕ, ◌<◌, ◌≡◌, ◌≢◌, ◌⊎◌, ◌↔◌, sym, subst, ap, ◌∙◌, true, false, Option, none, some, arith, Bytes,
  length, set, ◌==◌, Bool-cases, inl, inr, get_or-set_self, get_or-set_ne, length-set,
}
use kvx.Slab.Pool.{Malloc, SlabAllocator}
use kvx.Slab.Pool.Invariant.{Ghost}
use kvx.HashTable.Table.{Table}
use kvx.Kv.{Shard, Kv, kv_shard_num, shard_idx, shard_at, no_shard}
use kvx.Kv.Shards.{IsShard, Entry}

module _ (hash_of : Bytes → ℕ) where
  -- A shard has a table, and is well-formed.
  abbrev pub ShardOk : Malloc → Option Table → SlabAllocator → Type 0
  ShardOk m none h = true ≡ false
  ShardOk m (some t) h = (g : Ghost) × IsShard hash_of m t h g

  abbrev pub EntryIn : Option Table → SlabAllocator → Bytes → Bytes → ℕ → ℕ → Type 0
  EntryIn none h k v f e = true ≡ false
  EntryIn (some t) h k v f e = Entry hash_of t h k v f e

  abbrev pub idx_of : Bytes → ℕ
  idx_of k = shard_idx (hash_of k)

  -- In the whole store, the entry of a key is the one in the key's shard.
  abbrev pub KvEntry : Kv → Bytes → Bytes → ℕ → ℕ → Type 0
  KvEntry kv k v f e =
      EntryIn (shard_at kv (idx_of k)).table (shard_at kv (idx_of k)).allocator k v f e

  pub record IsKv (mallocs : ℕ → Malloc) (kv : Kv) : Type 0 where
    pub count : length kv.shards ≡ kv_shard_num
    pub shards :
        (i : ℕ)
        → i < kv_shard_num
        → ShardOk (mallocs i) (shard_at kv i).table (shard_at kv i).allocator

  pub idx_of_low : (k : Bytes) → idx_of k < kv_shard_num
  idx_of_low k = omega arith

  -- A call changes the shard of its key only.
  module _ (mallocs : ℕ → Malloc) (kv : Kv) (ok : IsKv mallocs kv) (key : Bytes)
      (Added : Bytes → ℕ → ℕ → Type 0) (shard' : Shard)
      (ok' : ShardOk (mallocs (idx_of key)) shard'.table shard'.allocator)
      (law : (q v : Bytes) (f e : ℕ)
        → EntryIn shard'.table shard'.allocator q v f e ↔ (
            ((q ≡ key) × Added v f e)
            ⊎ ((q ≢ key)
                × EntryIn
                    (shard_at kv (idx_of key)).table
                    (shard_at kv (idx_of key)).allocator
                    q
                    v
                    f
                    e))) where
    abbrev i : ℕ
    i = idx_of key

    abbrev pub kv' : Kv
    kv' = record { shards = set kv.shards i shard' }

    here : shard_at kv' i ≡ shard'
    here = get_or-set_self kv.shards i shard' no_shard (omega (arith, idx_of_low key, ok.count))

    there : (j : ℕ) → j ≢ i → shard_at kv' j ≡ shard_at kv j
    there j ne = get_or-set_ne kv.shards i j shard' no_shard (λ e. ne (sym e))

    pub changed-IsKv : IsKv mallocs kv'
    changed-IsKv = record {
      count = length-set kv.shards i shard' ∙ ok.count;
      shards = λ j low. elim (Bool-cases (j == i)) [
        | inl e ↦
            let same : i ≡ j = ground (arith, e) in
            subst (λ n. ShardOk (mallocs n) (shard_at kv' n).table (shard_at kv' n).allocator) same
              (subst (λ s. ShardOk (mallocs i) s.table s.allocator) (sym here) ok')
        | inr e ↦
            subst (λ s. ShardOk (mallocs j) s.table s.allocator) (sym (there j (ground (arith, e))))
              (ok.shards j low)
      ];
    }

    abbrev After : Bytes → Bytes → ℕ → ℕ → Type 0
    After q v f e = ((q ≡ key) × Added v f e) ⊎ ((q ≢ key) × KvEntry kv q v f e)

    pub changed-KvEntry : (q v : Bytes) (f e : ℕ) → KvEntry kv' q v f e ↔ After q v f e
    changed-KvEntry q v f e = elim (Bool-cases (idx_of q == i)) [
      | inl d ↦
          let same : i ≡ idx_of q = ground (arith, d) in
          let at_shard : shard_at kv' (idx_of q) ≡ shard' = ap (shard_at kv') (sym same) ∙ here in
          let before : EntryIn (shard_at kv i).table (shard_at kv i).allocator q v f e
              ↔ KvEntry kv q v f e =
            subst
              (λ n.
                EntryIn (shard_at kv i).table (shard_at kv i).allocator q v f e
                ↔ EntryIn (shard_at kv n).table (shard_at kv n).allocator q v f e)
              same (λ r. r, λ r. r) in
          (
            λ stored.
                elim ((law q v f e).0
                  (subst (λ s. EntryIn s.table s.allocator q v f e) at_shard stored)) [
                    | inl r ↦ inl r
                    | inr (ne, r) ↦ inr (ne, before.0 r)
                  ],
            λ r.
                subst (λ s. EntryIn s.table s.allocator q v f e) (sym at_shard)
                  ((law q v f e).1 (elim r [ inl p ↦ inl p | inr (ne, p) ↦ inr (ne, before.1 p) ])),
          )
      | inr d ↦
          let ne : q ≢ key = λ same. let p = ap idx_of same in absurd (ground (arith, d, p)) in
          let at_shard = there (idx_of q) (ground (arith, d)) in
          (
            λ stored. inr (ne, subst (λ s. EntryIn s.table s.allocator q v f e) at_shard stored),
            λ r. elim r [
              | inl (same, _) ↦ absurd (ne same)
              | inr (_, p) ↦ subst (λ s. EntryIn s.table s.allocator q v f e) (sym at_shard) p
            ],
          )
    ]
