-- ===== src/Kv/Sets.antt =====
-- kv_shard_set of src/kv.c.
use kvx.Common.{
  ℕ, ◌+◌, ◌%◌, ◌^◌, ◌≤◌, ◌<◌, ◌≡◌, ◌≢◌, ◌↔◌, refl, sym, subst, ap, ◌∙◌, true, false, Option, some,
  arith, Bytes, length, ltb, ◌==◌, Bool-cases, inl, inr,
}
use kvx.Common.Faults.{◌>>=◌}
use kvx.Item.{Item, item_key}
use kvx.Item.Laws.{IsItem}
use kvx.Slab.Pool.{Malloc, SlabAllocator, slab_allocator_alloc_item}
use kvx.Slab.Pool.Invariant.{IsMalloc, Ghost, Live}
use kvx.Slab.Pool.Serve.{Returned, Served}
use kvx.Slab.Pool.Allocate.{IsAllocator}
use kvx.Slab.Pool.Items.{Live-size}
use kvx.HashTable.Table.{Table}
use kvx.HashTable.Migrate.Whole.{TableStores}
use kvx.HashTable.Migrate.Later.{SameKey, stored-IsItem}
use kvx.HashTable.Api.{SlotPtr}
use kvx.HashTable.Api.Puts.{Written}
use kvx.Kv.{KvError, kv_ok, Shard, shard_of, fill, replace_item, store_item}
use kvx.Kv.Fill.{fill-Filled}
use kvx.Kv.Shards.{IsShard}
use kvx.Kv.Stores.{Puts, Stores}

module _ (hash_of : Bytes → ℕ) (m : Malloc) (key value : Bytes) (flags exp : ℕ) where
  abbrev pub filled_at : SlabAllocator → ℕ → SlabAllocator
  filled_at = fill key (length key) value (length value) flags exp

  -- The set succeeded: the shard is well-formed, and the key has the new entry.
  abbrev pub SetDone : Table → SlabAllocator → Option (Shard × KvError) → Type 0
  SetDone t h result =
      (t' : Table) × (h' : SlabAllocator) × (g' : Ghost) × (result ≡ some (shard_of t' h', kv_ok))
      × IsShard hash_of m t' h' g'
      × Puts hash_of m key value flags exp t h t' h'

  module _ (t : Table) (h : SlabAllocator) (g : Ghost) (shard : IsShard hash_of m t h g)
      (t1 : Table) (ptr : SlotPtr) (written : Written hash_of h.mem key t t1 ptr) (ok : IsMalloc m)
      (hk : length key < 2 ^ 16) (hv : length value < 2 ^ 32) where
    abbrev size : ℕ
    size = length key + length value

    abbrev pub store : Table → SlabAllocator → ℕ → Option (Shard × KvError)
    store t2 h2 x = store_item m key (length key) value (length value) flags exp t2 ptr h2 x

    pub store_fits :
        (t2 : Table) (h2 : SlabAllocator) (x : ℕ)
        → size ≤ (h2.mem x).data_size
        → store t2 h2 x ≡ some (shard_of t2 (filled_at h2 x), kv_ok)
    unfolding store_item
    store_fits t2 h2 x room =
        let whole : size % 2 ^ 64 ≡ size = omega (arith, hk, hv) in
        let enough : ltb (h2.mem x).data_size (size % 2 ^ 64) ≡ false =
          ground (arith, whole, room) in
        rw enough refl

    pub store_grows :
        (t2 : Table) (h2 : SlabAllocator) (x : ℕ)
        → (h2.mem x).data_size < size
        → store t2 h2 x ≡ (
            slab_allocator_alloc_item m h2 size >>= λ r.
            replace_item m key (length key) value (length value) flags exp t2 ptr x r)
    unfolding store_item
    store_grows t2 h2 x small =
        let whole : size % 2 ^ 64 ≡ size = omega (arith, hk, hv) in
        let short : ltb (h2.mem x).data_size (size % 2 ^ 64) ≡ true =
          ground (arith, whole, small) in
        rw (short, whole) refl

    -- The key has the item `x`, in the slot.
    module _ (x : ℕ)
        (answers : (y : ℕ) → TableStores hash_of h.mem t key y ↔ (some x ≡ some y)) where
      stored : TableStores hash_of h.mem t key x
      stored = (answers x).1 refl

      pub x-Live : Live h g x
      x-Live = shard.live key x stored

      key_x : item_key (h.mem x) ≡ key
      key_x = (stored-IsItem hash_of h.mem t key x shard.table stored).0

      one : (b : ℕ) → Live h g b → item_key (h.mem b) ≡ key → b ≡ x
      one b l e =
          let both : some x ≡ some b =
            (answers b).0 (subst (λ k. TableStores hash_of h.mem t k b) e (shard.kept b l)) in
          cc both

      pub in_place_Stores :
          size ≤ (h.mem x).data_size
          → Stores hash_of m key value flags exp t h g shard t1 ptr written (filled_at h x) g x
      in_place_Stores room =
          let sizes = Live-size m h g x shard.alloc x-Live in
          let (alloc, new, others, lives) =
            fill-Filled key value flags exp m h g x shard.alloc hk hv
              (omega (arith, room, sizes.0)) in
          record {
            alloc = alloc;
            live = λ b. (
              λ l'.
                  let l = (lives b).0 l' in
                  elim (Bool-cases (b == x)) [
                    | inl e ↦ inr (ground (arith, e))
                    | inr e ↦ let ne : b ≢ x = ground (arith, e) in inl (l, λ f. ne (one b l f))
                  ],
              λ r. elim r [
                | inl (l, _) ↦ (lives b).1 l
                | inr e ↦ (lives b).1 (subst (Live h g) (sym e) x-Live)
              ],
            );
            same = λ b l ne. others b (λ e. ne (ap (λ r. item_key (h.mem r)) e ∙ key_x));
            mine = λ b s.
                let e : b ≡ x =
                  one b (shard.live key b s)
                    (stored-IsItem hash_of h.mem t key b shard.table s).0 in
                subst (SameKey hash_of h.mem (filled_at h x).mem) (sym e) (record {
                  key = new.has_key ∙ sym key_x;
                  intact = record { inside = omega (arith, new.inside) };
                });
            old = h.mem x;
            filled = new;
          }

      pub replaced_Stores :
          (h1 h2 : SlabAllocator) (g1 g2 : Ghost) (y n : ℕ)
          → size ≤ n
          → Served h g h1 g1 y n
          → IsAllocator m h2 g2
          → Returned h1 g1 h2 g2 x
          → Stores hash_of m key value flags exp t h g shard t1 ptr written (filled_at h2 y) g2 y
      replaced_Stores h1 h2 g1 g2 y n room served alloc2 returned =
          let apart : x ≢ y = λ e. cc (served.fresh (subst (Live h g) e x-Live)) in
          let kept_y = returned.mem y (λ e. apart (sym e)) in
          let (alloc, new, others, lives) =
            fill-Filled key value flags exp m h2 g2 y alloc2 hk hv
              (omega (arith, room, served.size, ap (λ r. length r.payload) kept_y)) in
          let (p, over) = returned.overwritten in
          let at_x : (filled_at h2 y).mem x ≡ record (h.mem x) { slab_ptr = p } =
            others x apart
            ∙ (over ∙ ap (λ (r : Item). record r { slab_ptr = p }) (served.mem x apart)) in
          record {
            alloc = alloc;
            live = λ b. (
              λ l'.
                  let (l1, ne) = (returned.live b).0 ((lives b).0 l') in
                  elim ((served.live b).0 l1) [
                    | inl l ↦ inl (l, λ f. ne (one b l f))
                    | inr e ↦ inr e
                  ],
              λ r. elim r [
                | inl (l, ne) ↦ (lives b).1 (
                    (returned.live b).1
                      ((served.live b).1 (inl l), λ e. ne (ap (λ r. item_key (h.mem r)) e ∙ key_x)))
                | inr e ↦
                    (lives b).1
                      ((returned.live b).1 ((served.live b).1 (inr e), λ f. apart (sym f ∙ e)))
              ],
            );
            same = λ b l ne.
                let not_y : b ≢ y = λ e. cc (served.fresh (subst (Live h g) e l)) in
                let not_x : b ≢ x = λ e. ne (ap (λ r. item_key (h.mem r)) e ∙ key_x) in
                others b not_y ∙ (returned.mem b not_x ∙ served.mem b not_y);
            mine = λ b s.
                let e : b ≡ x =
                  one b (shard.live key b s)
                    (stored-IsItem hash_of h.mem t key b shard.table s).0 in
                let intact = (stored-IsItem hash_of h.mem t key x shard.table stored).1 in
                subst (SameKey hash_of h.mem (filled_at h2 y).mem) (sym e) (record {
                  key = ap item_key at_x;
                  intact = subst IsItem (sym at_x) (record { inside = intact.inside });
                });
            old = h2.mem y;
            filled = new;
          }

    -- The key has no item.
    pub new_Stores :
        (h1 : SlabAllocator) (g1 : Ghost) (y n : ℕ)
        → ((b : ℕ) → TableStores hash_of h.mem t key b → true ≡ false)
        → size ≤ n
        → IsAllocator m h1 g1
        → Served h g h1 g1 y n
        → Stores hash_of m key value flags exp t h g shard t1 ptr written (filled_at h1 y) g1 y
    new_Stores h1 g1 y n absent room alloc1 served =
        let (alloc, new, others, lives) =
          fill-Filled key value flags exp m h1 g1 y alloc1 hk hv
            (omega (arith, room, served.size)) in
        record {
          alloc = alloc;
          live = λ b. (
            λ l'. elim ((served.live b).0 ((lives b).0 l')) [
              | inl l ↦ inl (
                l,
                λ e.
                    cc (absent b (subst (λ k. TableStores hash_of h.mem t k b) e (shard.kept b l))),
              )
              | inr e ↦ inr e
            ],
            λ r. elim r [
              | inl (l, _) ↦ (lives b).1 ((served.live b).1 (inl l))
              | inr e ↦ (lives b).1 ((served.live b).1 (inr e))
            ],
          );
          same = λ b l ne.
              let not_y : b ≢ y = λ e. cc (served.fresh (subst (Live h g) e l)) in
              others b not_y ∙ served.mem b not_y;
          mine = λ b s. cc (absent b s);
          old = h1.mem y;
          filled = new;
        }
