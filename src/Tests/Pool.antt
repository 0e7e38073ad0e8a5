-- ===== src/Tests/Pool.antt =====
-- The slabs at concrete states: an allocator in use, and the calls on it.
use kvx.Common.{
  length, ℕ, ◌+◌, ◌*◌, ◌^◌, ◌≤◌, ◌<◌, ◌≡◌, ◌≢◌, ◌⊎◌, refl, subst, none, some, [], arith, replicate,
  length-replicate, inl, inr,
}
use kvx.Item.{Item}
use kvx.Slab.{item_size, max_data_chunk_size}
use kvx.Slab.Pool.{
  slab_size, slab_header, Malloc, SlabAllocator, init_allocator, slab_allocator_alloc_item,
  slab_allocator_free_item,
}
use kvx.Slab.Pool.Invariant.{IsMalloc, Ghost, Live}
use kvx.Slab.Pool.Serve.{Served, Returned}
use kvx.Slab.Pool.Allocate.{IsAllocator, alloc_item-Served}
use kvx.Slab.Pool.Setup.{no_chunks, init_allocator-IsAllocator}
use kvx.Slab.Pool.Items.{slab_allocator_free_item-Returned, alloc_item-Apart}

-- Blocks of 2^21 bytes one behind the other, of zero bytes.
abbrev pub zero_malloc : Malloc
zero_malloc = record { block = λ i. (i + 1) * 2 ^ 21; junk = λ a n. replicate n 0 }

pub zero_malloc-IsMalloc : IsMalloc zero_malloc
zero_malloc-IsMalloc = record {
  apart = λ i j ne. ground (arith, ne);
  nonnull = λ i. omega arith;
  junk = λ a n. length-replicate n 0;
}

abbrev pub zero_items : ℕ → Item
zero_items a = record {
  slab_ptr = 0;
  key_len = 0;
  flags = 0;
  data_size = 0;
  value_len = 0;
  expire_at = 0;
  payload = [];
}

abbrev hundred : ℕ
hundred = 100

-- An allocator from which two items are taken.
record InUse : Type 0 where
  state : SlabAllocator
  ghost : Ghost
  alloc : IsAllocator zero_malloc state ghost
  first : ℕ
  second : ℕ
  first_live : Live state ghost first
  second_live : Live state ghost second
  ne : first ≢ second

one_more :
    (h : SlabAllocator) (g : Ghost)
    → IsAllocator zero_malloc h g
    → (h' : SlabAllocator) × (a : ℕ) × (g' : Ghost) × (n : ℕ) × IsAllocator zero_malloc h' g'
      × Served h g h' g' a n
one_more h g alloc =
    elim (alloc_item-Served zero_malloc zero_malloc-IsMalloc h g 100 alloc (omega arith)) [
      | inl (_, why) ↦ absurd (omega (arith, why))
      | inr (h', a, g', n, _, _, _, alloc', served) ↦ (h', a, g', n, alloc', served)
    ]

abbrev in_use : InUse
in_use =
    let (h1, a, g1, n1, alloc1, served1) =
      one_more (init_allocator zero_items) no_chunks
        (init_allocator-IsAllocator zero_malloc zero_items).0 in
    let (h2, b, g2, n2, alloc2, served2) = one_more h1 g1 alloc1 in
    let live1 : Live h1 g1 a = (served1.live a).1 (inr refl) in
    record {
      state = h2;
      ghost = g2;
      alloc = alloc2;
      first = a;
      second = b;
      first_live = (served2.live a).1 (inl live1);
      second_live = (served2.live b).1 (inr refl);
      ne = λ e. cc (served2.fresh (subst (Live h1 g1) e live1));
    }

alloc_item-Served_example :
    ((slab_allocator_alloc_item zero_malloc in_use.state 100 ≡ some (in_use.state, none))
      × ((hundred ≡ 0) ⊎ (max_data_chunk_size < 100 + item_size)))
    ⊎ ((h' : SlabAllocator) × (a : ℕ) × (g' : Ghost) × (n : ℕ) × (slab_allocator_alloc_item
            zero_malloc in_use.state 100
          ≡ some (h', some a))
        × (0 < hundred)
        × (hundred ≤ n)
        × IsAllocator zero_malloc h' g'
        × Served in_use.state in_use.ghost h' g' a n)
alloc_item-Served_example =
    alloc_item-Served zero_malloc zero_malloc-IsMalloc in_use.state in_use.ghost 100 in_use.alloc
      (omega arith)

slab_allocator_free_item-Returned_example :
    (h' : SlabAllocator) × (g' : Ghost) × (slab_allocator_free_item in_use.state in_use.first
      ≡ some h')
    × IsAllocator zero_malloc h' g'
    × Returned in_use.state in_use.ghost h' g' in_use.first
slab_allocator_free_item-Returned_example =
    slab_allocator_free_item-Returned zero_malloc in_use.state in_use.ghost in_use.first
      zero_malloc-IsMalloc in_use.alloc in_use.first_live

alloc_item-Apart_example :
    (h' : SlabAllocator) × (a : ℕ) × (slab_allocator_alloc_item zero_malloc in_use.state 100
      ≡ some (h', some a))
    × (hundred ≤ (h'.mem a).data_size)
    × ((b : ℕ)
        → Live in_use.state in_use.ghost b
        → (a + item_size + (h'.mem a).data_size ≤ b)
          ⊎ (b + item_size + (in_use.state.mem b).data_size ≤ a))
    × ((s : ℕ) × (s < length h'.slabs)
        × (zero_malloc.block s + slab_header ≤ a)
        × (a + item_size + (h'.mem a).data_size ≤ zero_malloc.block s + slab_size))
alloc_item-Apart_example =
    alloc_item-Apart zero_malloc in_use.state in_use.ghost 100 zero_malloc-IsMalloc in_use.alloc
      (omega arith) (omega arith)
