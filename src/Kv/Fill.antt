-- ===== src/Kv/Fill.antt =====
-- The writes of an item at the end of kv_shard_set of src/kv.c, which leave the allocator as it is.
use kvx.Common.{
  ℕ, ◌+◌, ◌%◌, ◌^◌, ◌≤◌, ◌<◌, ◌≡◌, ◌≢◌, ◌↔◌, refl, sym, subst, ap, ◌∙◌, Option, List, [], ◌∷◌,
  arith, Bytes, take, drop, memcpy, length, ◌++◌, ◌==◌, Bool-cases, inl, inr, length-take,
  length-drop, length-append, take_all,
}
use kvx.Item.{Item, item_key, item_value, item_set_key, item_set_value}
use kvx.Item.Laws.{item_set_value-item_set_key}
use kvx.Slab.Pool.{Malloc, Slab, SlabAllocator, write, link}
use kvx.Slab.Pool.Invariant.{Chain, IsSlab, Ghost, Live}
use kvx.Slab.Pool.Chunk.{write_self, write_ne}
use kvx.Slab.Pool.Serve.{Live-same}
use kvx.Slab.Pool.Allocate.{IsAllocator}
use kvx.Kv.{fill}

-- What the allocator reads of an item has not changed.
pub record SameHeader (old new : Item) : Type 0 where
  pub slab_ptr : new.slab_ptr ≡ old.slab_ptr
  pub data_size : new.data_size ≡ old.data_size
  pub size : length new.payload ≡ length old.payload

module _ (mem mem' : ℕ → Item) (same : (a : ℕ) → SameHeader (mem a) (mem' a)) where
  later-Chain : (head : Option ℕ) (chunks : List ℕ) → Chain mem head chunks → Chain mem' head chunks
  later-Chain head [] chain = chain
  later-Chain head (a ∷ rest) (e, positive, chain) = (
    e,
    positive,
    later-Chain (link (mem' a).slab_ptr) rest
        (subst (λ r. Chain mem (link r) rest) (sym (same a).slab_ptr) chain),
  )

  later-IsSlab :
      (start s : ℕ) (slab : Slab) (carved freed : List ℕ)
      → IsSlab mem start s slab carved freed
      → IsSlab mem' start s slab carved freed
  later-IsSlab start s slab carved freed own = record {
    chunk_size = own.chunk_size;
    span = own.span;
    spaced = own.spaced;
    bump = own.bump;
    rest = own.rest;
    room = own.room;
    few = own.few;
    free_count = own.free_count;
    chain = later-Chain slab.free_list freed own.chain;
    distinct = own.distinct;
    inside = own.inside;
    sized = λ a h. (same a).size ∙ own.sized a h;
    owned =
        λ a h f. let (p, d) = own.owned a h f in ((same a).slab_ptr ∙ p, (same a).data_size ∙ d);
  }

-- Writes of items that keep what the allocator reads keep it well-formed.
pub later-IsAllocator :
    (m : Malloc) (h : SlabAllocator) (g : Ghost) (mem' : ℕ → Item)
    → ((a : ℕ) → SameHeader (h.mem a) (mem' a))
    → IsAllocator m h g
    → IsAllocator m (record h { mem = mem' }) g
later-IsAllocator m h g mem' same alloc = record {
  pool = record {
    slabs = λ s low. later-IsSlab h.mem mem' same _ s _ _ _ (alloc.pool.slabs s low);
    parents = alloc.pool.parents;
    classes = alloc.pool.classes;
  };
  sizes = alloc.sizes;
}

length-memcpy :
    (p : Bytes) (at : ℕ) (src : Bytes)
    → at + length src ≤ length p
    → length (memcpy p at src) ≡ length p
length-memcpy p at src room = omega (
  arith,
  room,
  length-append (take at p) (src ++ drop (at + length src) p),
  length-append src (drop (at + length src) p),
  length-take at p,
  length-drop (at + length src) p,
)

module _ (key value : Bytes) (flags exp : ℕ) where
  abbrev pub filled : Item → Item
  filled item =
      item_set_value
        (item_set_key (record item { expire_at = exp; flags = flags }) key (length key)) value
        (length value)

  -- The item that is written, and what it has kept.
  pub record Filled (old new : Item) : Type 0 where
    pub has_key : item_key new ≡ key
    pub has_value : item_value new ≡ value
    pub has_flags : new.flags ≡ flags
    pub has_exp : new.expire_at ≡ exp
    pub header : SameHeader old new
    pub inside : new.key_len + new.value_len ≤ length new.payload

  pub filled-Filled :
      (item : Item)
      → length key < 2 ^ 16
      → length value < 2 ^ 32
      → length key + length value ≤ length item.payload
      → Filled item (filled item)
  unfolding item_set_key item_set_value
  filled-Filled item hk hv room =
      let (first, second) =
        item_set_value-item_set_key (record item { expire_at = exp; flags = flags }) key value hk hv
          room in
      let ek : length key % 2 ^ 16 ≡ length key = omega arith in
      let ev : length value % 2 ^ 32 ≡ length value = omega arith in
      let p1 = memcpy item.payload 0 (take (length key) key) in
      let all_key = take_all (length key) key (omega arith) in
      let all_value = take_all (length value) value (omega arith) in
      let size1 : length p1 ≡ length item.payload =
        length-memcpy item.payload 0 (take (length key) key)
          (omega (arith, ap length all_key, room)) in
      let size2 : length (memcpy p1 (length key % 2 ^ 16) (take (length value) value)) ≡ length p1 =
        length-memcpy p1 (length key % 2 ^ 16) (take (length value) value)
          (omega (arith, ek, ap length all_value, size1, room)) in
      record {
        has_key = first;
        has_value = second;
        has_flags = refl;
        has_exp = refl;
        header = record { slab_ptr = refl; data_size = refl; size = size2 ∙ size1 };
        inside = omega (arith, ek, ev, size2, size1, room);
      }

  -- After the writes the allocator is well-formed, the item is written and no other item has changed.
  pub fill-Filled :
      (m : Malloc) (h : SlabAllocator) (g : Ghost) (x : ℕ)
      → IsAllocator m h g
      → length key < 2 ^ 16
      → length value < 2 ^ 32
      → length key + length value ≤ length (h.mem x).payload
      → IsAllocator m (fill key (length key) value (length value) flags exp h x) g
        × Filled (h.mem x) ((fill key (length key) value (length value) flags exp h x).mem x)
        × ((b : ℕ)
            → b ≢ x
            → (fill key (length key) value (length value) flags exp h x).mem b ≡ h.mem b)
        × ((b : ℕ)
            → Live (fill key (length key) value (length value) flags exp h x) g b ↔ Live h g b)
  unfolding fill
  fill-Filled m h g x alloc hk hv room =
      let new = filled-Filled (h.mem x) hk hv room in
      let mem' = write h.mem x (filled (h.mem x)) in
      let at : mem' x ≡ filled (h.mem x) = write_self h.mem x (filled (h.mem x)) in
      let same = λ (b : ℕ) (ne : b ≢ x). write_ne h.mem x b (filled (h.mem x)) ne in
      (
        later-IsAllocator m h g mem'
            (λ a. elim (Bool-cases (a == x)) [
              | inl e ↦
                  subst (λ b. SameHeader (h.mem b) (mem' b)) (sym (ground (arith, e)))
                    (subst (SameHeader (h.mem x)) (sym at) new.header)
              | inr e ↦
                  subst (SameHeader (h.mem a)) (sym (same a (ground (arith, e))))
                    (record { slab_ptr = refl; data_size = refl; size = refl })
            ])
            alloc,
        subst (Filled (h.mem x)) (sym at) new,
        same,
        λ b. (
          Live-same (record h { mem = mem' }) h g b refl,
          Live-same h (record h { mem = mem' }) g b refl,
        ),
      )
