-- ===== src/Slab/Pool/Items.antt =====
-- What the items that are handed out by src/slab_alloc.c have: their sizes, their distance, and their way back.
use kvx.Common.{
  subst, ◌<◌, ℕ, ◌+◌, ◌≤◌, ◌≡◌, ◌≢◌, ◌⊎◌, ◌^◌, sym, ap, ◌∙◌, some, arith, length, ◌==◌, inl, inr,
  Bool-cases, refl,
}
use kvx.Common.Members.{has}
use kvx.Slab.{max_data_chunk_size, item_size}
use kvx.Slab.Pool.{
  slab_size, slab_header, slab_allocator_alloc_item, Malloc, SlabAllocator, slab_at,
  slab_allocator_free_item,
}
use kvx.Slab.Pool.Invariant.{IsMalloc, Ghost, Live}
use kvx.Slab.Pool.Serve.{Returned, free_item-Returned}
use kvx.Slab.Pool.Allocate.{alloc_item-Served, IsAllocator}

-- An item that is handed out has the bytes that its header says, and fits the largest chunk.
pub Live-size :
    (m : Malloc) (h : SlabAllocator) (g : Ghost) (a : ℕ)
    → IsAllocator m h g
    → Live h g a
    → (length (h.mem a).payload ≡ (h.mem a).data_size) × ((h.mem a).data_size + item_size ≤ 2 ^ 19)
Live-size m h g a alloc live =
    let own = alloc.pool.slabs live.slab live.low in
    let (_, size) = own.owned a live.carved live.taken in
    (own.sized a live.carved ∙ sym size, omega (arith, size, own.chunk_size.0, own.chunk_size.1))

-- In a well-formed allocator over a malloc with disjoint blocks, freeing an item that is handed out
-- runs without overrunning an array and leaves a well-formed allocator: exactly that item is not handed
-- out any more, no other item has changed, and of the freed one only the slab pointer.
pub slab_allocator_free_item-Returned :
    (m : Malloc) (h : SlabAllocator) (g : Ghost) (a : ℕ)
    → IsMalloc m
    → IsAllocator m h g
    → Live h g a
    → (h' : SlabAllocator) × (g' : Ghost) × (slab_allocator_free_item h a ≡ some h')
      × IsAllocator m h' g'
      × Returned h g h' g' a
slab_allocator_free_item-Returned m h g a ok alloc live =
    let (h', g', run, pool, sizes, returned) = free_item-Returned m ok h g alloc.pool a live in
    (h', g', run, record { pool = pool; sizes = sizes ∙ alloc.sizes }, returned)

-- Two items that are handed out have no byte in common, headers included, in a well-formed allocator
-- over a malloc whose blocks do not overlap.
pub Live-apart :
    (m : Malloc) (h : SlabAllocator) (g : Ghost) (a b : ℕ)
    → IsMalloc m
    → IsAllocator m h g
    → Live h g a
    → Live h g b
    → a ≢ b
    → (a + item_size + (h.mem a).data_size ≤ b) ⊎ (b + item_size + (h.mem b).data_size ≤ a)
Live-apart m h g a b ok alloc la lb ne =
    let own_a = alloc.pool.slabs la.slab la.low in
    let own_b = alloc.pool.slabs lb.slab lb.low in
    let (_, size_a) = own_a.owned a la.carved la.taken in
    let (_, size_b) = own_b.owned b lb.carved lb.taken in
    let (low_a, high_a) = own_a.span a la.carved in
    let (low_b, high_b) = own_b.span b lb.carved in
    elim (Bool-cases (la.slab == lb.slab)) [
      | inl e ↦
          let same : lb.slab ≡ la.slab = ground (arith, e) in
          let chunk : (slab_at h lb.slab).chunk_size ≡ (slab_at h la.slab).chunk_size =
            ap (λ s. (slab_at h s).chunk_size) same in
          elim (own_a.spaced a b la.carved (ap (λ s. has b (g.carved s)) (sym same) ∙ lb.carved)
            ne) [
              | inl before ↦ inl (omega (arith, before, size_a, own_a.chunk_size.0))
              | inr after ↦ inr (omega (arith, after, size_b, chunk, own_a.chunk_size.0))
            ]
      | inr e ↦ elim (ok.apart la.slab lb.slab (ground (arith, e))) [
        | inl before ↦
            inl (omega (arith, before, high_a, low_b, size_a, own_a.room, own_a.chunk_size.0))
        | inr after ↦
            inr (omega (arith, after, high_b, low_a, size_b, own_b.room, own_b.chunk_size.0))
      ]
    ]

-- In a well-formed allocator over a malloc with disjoint blocks, for a positive length that fits
-- MAX_DATA_CHUNK_SIZE with the header: slab_allocator_alloc_item returns an item with at least so many
-- bytes, which has no byte in common with any item that was handed out, headers included, and lies
-- behind the header of a block that malloc returned and before its end.
pub alloc_item-Apart :
    (m : Malloc) (h : SlabAllocator) (g : Ghost) (data_len : ℕ)
    → IsMalloc m
    → IsAllocator m h g
    → 0 < data_len
    → data_len + item_size ≤ max_data_chunk_size
    → (h' : SlabAllocator) × (a : ℕ) × (slab_allocator_alloc_item m h data_len ≡ some (h', some a))
      × (data_len ≤ (h'.mem a).data_size)
      × ((b : ℕ)
          → Live h g b
          → (a + item_size + (h'.mem a).data_size ≤ b) ⊎ (b + item_size + (h.mem b).data_size ≤ a))
      × ((s : ℕ) × (s < length h'.slabs)
          × (m.block s + slab_header ≤ a)
          × (a + item_size + (h'.mem a).data_size ≤ m.block s + slab_size))
alloc_item-Apart m h g data_len ok alloc positive fits =
    elim (alloc_item-Served m ok h g data_len alloc (omega (arith, fits))) [
      | inl (_, why) ↦ absurd (omega (arith, why, positive, fits))
      | inr (h', a, g', n, run, _, room, alloc', served) ↦
          let live : Live h' g' a = (served.live a).1 (inr refl) in
          let own = alloc'.pool.slabs live.slab live.low in
          let (_, size) = own.owned a live.carved live.taken in
          let (low, high) = own.span a live.carved in
          (
            h',
            a,
            run,
            omega (arith, room, served.data_size),
            λ b was.
                let ne : a ≢ b = λ e. cc (served.fresh (subst (Live h g) (sym e) was)) in
                let same : (h'.mem b).data_size ≡ (h.mem b).data_size =
                  ap (λ r. r.data_size) (served.mem b (λ e. ne (sym e))) in
                elim (Live-apart m h' g' a b ok alloc' live ((served.live b).1 (inl was)) ne) [
                  | inl before ↦ inl before
                  | inr after ↦ inr (omega (arith, after, same))
                ],
            (live.slab, live.low, low, omega (arith, high, size, own.room, own.chunk_size.0)),
          )
    ]
