-- ===== src/Kv/Stores.antt =====
-- One key of a shard of src/kv.c gets a new entry: what kv_shard_set leaves, in terms of the table and the items.
use kvx.Common.{
  ℕ, ◌+◌, ◌≤◌, ◌≡◌, ◌≢◌, ◌⊎◌, ◌↔◌, refl, sym, subst, ap, ◌∙◌, some, arith, Bytes, length,
  same_bytes, same_bytes_iff, Bool-cases, inl, inr,
}
use kvx.Item.{Item, item_key, item_value}
use kvx.Item.Laws.{IsItem}
use kvx.Slab.Pool.{Malloc, SlabAllocator}
use kvx.Slab.Pool.Invariant.{Ghost, Live}
use kvx.Slab.Pool.Allocate.{IsAllocator}
use kvx.HashTable.Table.{Table}
use kvx.HashTable.Migrate.Whole.{TableStores, IsTable}
use kvx.HashTable.Migrate.Later.{SameKey, stored-IsItem}
use kvx.HashTable.Api.{SlotPtr, write_ptr}
use kvx.HashTable.Api.Puts.{Written}
use kvx.Kv.Fill.{Filled}
use kvx.Kv.Shards.{IsShard, Entry}

module _ (hash_of : Bytes → ℕ) (m : Malloc) (key value : Bytes) (flags exp : ℕ) where
  -- The key has the new entry, and the others have theirs.
  abbrev pub Puts : Table → SlabAllocator → Table → SlabAllocator → Type 0
  Puts t h t' h' =
      (q v : Bytes) (f e : ℕ)
      → Entry hash_of t' h' q v f e ↔ (
          ((q ≡ key) × ((v ≡ value) × (f ≡ flags) × (e ≡ exp)))
          ⊎ ((q ≢ key) × Entry hash_of t h q v f e))

  module _ (t : Table) (h : SlabAllocator) (g : Ghost) (shard : IsShard hash_of m t h g)
      (t1 : Table) (ptr : SlotPtr) (written : Written hash_of h.mem key t t1 ptr) where
    abbrev after : ℕ → Table
    after y = write_ptr t1 ptr (some y)

    -- `y` is the item of the key then, and the items of the other keys are what they were.
    pub record Stores (h' : SlabAllocator) (g' : Ghost) (y : ℕ) : Type 0 where
      pub alloc : IsAllocator m h' g'
      pub live : (b : ℕ) → Live h' g' b ↔ ((Live h g b × (item_key (h.mem b) ≢ key)) ⊎ (b ≡ y))
      pub same : (b : ℕ) → Live h g b → item_key (h.mem b) ≢ key → h'.mem b ≡ h.mem b
      pub mine : (b : ℕ) → TableStores hash_of h.mem t key b → SameKey hash_of h.mem h'.mem b
      pub old : Item
      pub filled : Filled key value flags exp old (h'.mem y)

    module _ (h' : SlabAllocator) (g' : Ghost) (y : ℕ) (stores : Stores h' g' y) where
      other :
          (q : Bytes) (b : ℕ)
          → q ≢ key
          → TableStores hash_of h.mem t q b
          → Live h g b × (item_key (h.mem b) ≢ key)
      other q b ne stored =
          let k = (stored-IsItem hash_of h.mem t q b shard.table stored).0 in
          (shard.live q b stored, λ e. ne (sym k ∙ e))

      agree : (q : Bytes) (b : ℕ) → TableStores hash_of h.mem t q b → SameKey hash_of h.mem h'.mem b
      agree q b stored = elim (Bool-cases (same_bytes q key)) [
        | inl e ↦
            stores.mine b
              (subst (λ k. TableStores hash_of h.mem t k b) ((same_bytes_iff q key).0 e) stored)
        | inr e ↦
            let ne : q ≢ key = λ f. cc ((same_bytes_iff q key).1 f, e) in
            let (l, nk) = other q b ne stored in
            let p = stores.same b l nk in
            record {
              key = ap item_key p;
              intact =
                  subst IsItem (sym p) (stored-IsItem hash_of h.mem t q b shard.table stored).1;
            }
      ]

      stores-IsTable :
          IsTable hash_of h'.mem (after y)
          × ((q : Bytes) (x : ℕ)
              → TableStores hash_of h'.mem (after y) q x
                ↔ (((q ≡ key) × (x ≡ y)) ⊎ ((q ≢ key) × TableStores hash_of h.mem t q x)))
      stores-IsTable =
          written h'.mem y agree (record { inside = omega (arith, stores.filled.inside) })
            stores.filled.has_key

      own_kept : TableStores hash_of h'.mem (after y) (item_key (h'.mem y)) y
      own_kept =
          subst (λ k. TableStores hash_of h'.mem (after y) k y) (sym stores.filled.has_key)
            ((stores-IsTable.1 key y).1 (inl (refl, refl)))

      after-IsShard : IsShard hash_of m (after y) h' g'
      after-IsShard =
          let (table, law) = stores-IsTable in
          record {
            table = table;
            alloc = stores.alloc;
            live = λ k x stored. elim ((law k x).0 stored) [
              | inl (_, e) ↦ (stores.live x).1 (inr e)
              | inr (ne, s) ↦ (stores.live x).1 (inl (other k x ne s))
            ];
            kept = λ x l'. elim ((stores.live x).0 l') [
              | inl (l, ne) ↦
                  subst (λ r. TableStores hash_of h'.mem (after y) (item_key r) x)
                    (sym (stores.same x l ne))
                    ((law (item_key (h.mem x)) x).1 (inr (ne, shard.kept x l)))
              | inr e ↦
                  subst (λ b. TableStores hash_of h'.mem (after y) (item_key (h'.mem b)) b) (sym e)
                    own_kept
            ];
            fits = λ x l'. elim ((stores.live x).0 l') [
              | inl (l, ne) ↦
                  subst (λ r. r.key_len + r.value_len ≤ length r.payload) (sym (stores.same x l ne))
                    (shard.fits x l)
              | inr e ↦
                  subst (λ b. (h'.mem b).key_len + (h'.mem b).value_len ≤ length (h'.mem b).payload)
                    (sym e) stores.filled.inside
            ];
          }

      after-Puts : Puts t h (after y) h'
      after-Puts q v f e =
          let (table, law) = stores-IsTable in
          (
            λ (x, stored, hv, hf, he). elim ((law q x).0 stored) [
              | inl (same, at) ↦
                  let p : h'.mem x ≡ h'.mem y = ap h'.mem at in
                  inl (
                    same,
                    (
                      sym hv ∙ (ap item_value p ∙ stores.filled.has_value),
                      sym hf ∙ (ap (λ r. r.flags) p ∙ stores.filled.has_flags),
                      sym he ∙ (ap (λ r. r.expire_at) p ∙ stores.filled.has_exp),
                    ),
                  )
              | inr (ne, s) ↦
                  let (l, nk) = other q x ne s in
                  let p = sym (stores.same x l nk) in
                  inr (
                    ne,
                    (
                      x,
                      s,
                      ap item_value p ∙ hv,
                      ap (λ r. r.flags) p ∙ hf,
                      ap (λ r. r.expire_at) p ∙ he,
                    ),
                  )
            ],
            λ r. elim r [
              | inl (same, (ev, ef, ee)) ↦ (
                y,
                (law q y).1 (inl (same, refl)),
                stores.filled.has_value ∙ sym ev,
                stores.filled.has_flags ∙ sym ef,
                stores.filled.has_exp ∙ sym ee,
              )
              | inr (ne, (x, s, hv, hf, he)) ↦
                  let (l, nk) = other q x ne s in
                  let p = stores.same x l nk in
                  (
                    x,
                    (law q x).1 (inr (ne, s)),
                    ap item_value p ∙ hv,
                    ap (λ r. r.flags) p ∙ hf,
                    ap (λ r. r.expire_at) p ∙ he,
                  )
            ],
          )

      -- The shard is well-formed then, and the key has the new entry.
      pub Stores-IsShard : IsShard hash_of m (after y) h' g' × Puts t h (after y) h'
      Stores-IsShard = (after-IsShard, after-Puts)
