-- ===== src/Slab/Pool/Allocate.antt =====
-- slab_allocator_init and slab_allocator_alloc_item of src/slab_alloc.c.
use kvx.Common.{
  ℕ, zero, suc, ◌+◌, ◌-◌, ◌≤◌, ◌<◌, ◌≡◌, ◌⊎◌, ◌↔◌, refl, sym, subst, ap, ◌∙◌, false, Option, none,
  some, List, [], ◌∷◌, arith, length, get_or, ◌==◌, inl, inr, size_max,
}
use kvx.Slab.{
  align_up, item_align, item_size, max_data_chunk_size, alloc_class, slab_allocator_init,
}
use kvx.Slab.Sizes.{alloc_class-IsSmallestClass}
use kvx.Slab.Pool.{
  Malloc, SlabClass, SlabAllocator, no_class, class_at, class_sizes, alloc_from_top,
  slab_class_alloc_item, slab_allocator_alloc_item,
}
use kvx.Slab.Pool.Invariant.{IsMalloc, IsPool, Ghost, Live}
use kvx.Slab.Pool.Serve.{Served, alloc_from_top-Served}
use kvx.Slab.Pool.Grow.{chunk_bounds, slab_class_grow-IsPool}

-- The allocator is well-formed and has the classes of slab_allocator_init.
pub record IsAllocator (m : Malloc) (h : SlabAllocator) (g : Ghost) : Type 0 where
  pub pool : IsPool m h g
  pub sizes : class_sizes h.classes ≡ slab_allocator_init

Served-from :
    (h h1 h2 : SlabAllocator) (g g1 g2 : Ghost) (a n : ℕ)
    → ((b : ℕ) → Live h1 g1 b ↔ Live h g b)
    → ((b : ℕ) → h1.mem b ≡ h.mem b)
    → Served h1 g1 h2 g2 a n
    → Served h g h2 g2 a n
Served-from h h1 h2 g g1 g2 a n live same served = record {
  live = λ b. (
    λ l. elim ((served.live b).0 l) [ inl before ↦ inl ((live b).0 before) | inr e ↦ inr e ],
    λ r. elim r [
      | inl before ↦ (served.live b).1 (inl ((live b).1 before))
      | inr e ↦ (served.live b).1 (inr e)
    ],
  );
  fresh = λ l. served.fresh ((live a).1 l);
  data_size = served.data_size;
  size = served.size;
  mem = λ b ne. served.mem b ne ∙ same b;
}

pub length-class_sizes : (classes : List SlabClass) → length (class_sizes classes) ≡ length classes
length-class_sizes [] = refl
length-class_sizes (x ∷ xs) = ap suc (length-class_sizes xs)

get_or-class_sizes :
    (classes : List SlabClass) (c : ℕ)
    → get_or (class_sizes classes) c 0 ≡ (get_or classes c no_class).data_chunk_size
get_or-class_sizes [] c = refl
get_or-class_sizes (x ∷ xs) zero = refl
get_or-class_sizes (x ∷ xs) (suc c) = get_or-class_sizes xs c

module _ (m : Malloc) (ok : IsMalloc m) where
  -- What an allocation from class `c` gives.
  abbrev FromClass : SlabAllocator → Ghost → ℕ → Option (SlabAllocator × Option ℕ) → Type 0
  FromClass h g c result =
      (h' : SlabAllocator) × (a : ℕ) × (g' : Ghost) × (result ≡ some (h', some a))
      × IsPool m h' g'
      × Served h g h' g' a (align_up (class_at h c).data_chunk_size item_align - item_size)
      × (class_sizes h'.classes ≡ class_sizes h.classes)

  from_stack :
      (h : SlabAllocator) (g : Ghost) (c s : ℕ) (rest : List ℕ)
      → IsPool m h g
      → c < length h.classes
      → (class_at h c).free_stack ≡ s ∷ rest
      → FromClass h g c (alloc_from_top m h c (s ∷ rest))
  from_stack h g c s rest pool low stack =
      let (h', a, g', run, pool', served, sizes, chunk) =
        alloc_from_top-Served m ok h g pool c low s rest stack in
      (h', a, g', run, pool', subst (λ n. Served h g h' g' a (n - item_size)) chunk served, sizes)

  class_alloc_by_stack :
      (h : SlabAllocator) (g : Ghost) (c : ℕ) (stack : List ℕ)
      → IsPool m h g
      → c < length h.classes
      → (class_at h c).free_stack ≡ stack
      → FromClass h g c (slab_class_alloc_item m h c)
  unfolding slab_class_alloc_item
  class_alloc_by_stack h g c [] pool low e =
      let (h1, s, g1, run, pool1, top, size, sizes, live, same) =
        slab_class_grow-IsPool m ok h g pool c low e in
      let low1 : c < length h1.classes = omega (
        arith,
        low,
        length-class_sizes h1.classes,
        length-class_sizes h.classes,
        ap length sizes,
      ) in
      let (h', a, g', run1, pool', served, sizes1) = from_stack h1 g1 c s [] pool1 low1 top in
      (
        h',
        a,
        g',
        rw (e, run, top) run1,
        pool',
        Served-from h h1 h' g g1 g' a
            (align_up (class_at h c).data_chunk_size item_align - item_size) live same
            (subst (λ n. Served h1 g1 h' g' a (align_up n item_align - item_size)) size served),
        sizes1 ∙ sizes,
      )
  class_alloc_by_stack h g c (s ∷ rest) pool low e =
      let (h', a, g', run, pool', served, sizes) = from_stack h g c s rest pool low e in
      let some_slab : (length (class_at h c).free_stack == 0) ≡ false =
        ground (arith, ap length e) in
      (h', a, g', rw (some_slab, e) run, pool', served, sizes)

  alloc_item_none :
      (h : SlabAllocator) (data_len : ℕ)
      → alloc_class (class_sizes h.classes) data_len ≡ none
      → slab_allocator_alloc_item m h data_len ≡ some (h, none)
  unfolding slab_allocator_alloc_item
  alloc_item_none h data_len e = rw (slab_allocator_alloc_item, e) refl

  alloc_item_some :
      (h : SlabAllocator) (data_len c : ℕ)
      → alloc_class (class_sizes h.classes) data_len ≡ some c
      → slab_allocator_alloc_item m h data_len ≡ slab_class_alloc_item m h c
  unfolding slab_allocator_alloc_item
  alloc_item_some h data_len c e = rw (slab_allocator_alloc_item, e) refl

  -- In a well-formed allocator over a malloc with disjoint blocks, for a length to which ITEM_SIZE can be added without overflow: the call
  -- changes nothing and returns NULL exactly where the length is 0 or passes MAX_DATA_CHUNK_SIZE with
  -- the header, and else it returns an item that was not handed out, with at least so many bytes. The
  -- allocator is well-formed then, the item is handed out besides those that were, and no other item
  -- has changed. No array is overrun.
  pub alloc_item-Served :
      (h : SlabAllocator) (g : Ghost) (data_len : ℕ)
      → IsAllocator m h g
      → data_len + item_size ≤ size_max
      → ((slab_allocator_alloc_item m h data_len ≡ some (h, none))
          × ((data_len ≡ 0) ⊎ (max_data_chunk_size < data_len + item_size)))
        ⊎ ((h' : SlabAllocator) × (a : ℕ) × (g' : Ghost) × (n : ℕ) × (slab_allocator_alloc_item m h
                data_len
              ≡ some (h', some a))
            × (0 < data_len)
            × (data_len ≤ n)
            × IsAllocator m h' g'
            × Served h g h' g' a n)
  alloc_item-Served h g data_len alloc word = elim (alloc_class-IsSmallestClass data_len word) [
    | inl (e, why) ↦
        inl (alloc_item_none h data_len (ap (λ r. alloc_class r data_len) alloc.sizes ∙ e), why)
    | inr (c, e, positive, smallest) ↦
        let low : c < length h.classes =
          omega (arith, smallest.within, ap length alloc.sizes, length-class_sizes h.classes) in
        let (h', a, g', run, pool', served, sizes) =
          class_alloc_by_stack h g c (class_at h c).free_stack alloc.pool low refl in
        let size : (class_at h c).data_chunk_size ≡ get_or slab_allocator_init c 0 =
          sym (get_or-class_sizes h.classes c) ∙ ap (λ r. get_or r c 0) alloc.sizes in
        let bounds = (alloc.pool.classes c low).size in
        let (_, _, whole) = chunk_bounds (class_at h c).data_chunk_size bounds.0 bounds.1 in
        inr (
          h',
          a,
          g',
          align_up (class_at h c).data_chunk_size item_align - item_size,
          alloc_item_some h data_len c (ap (λ r. alloc_class r data_len) alloc.sizes ∙ e) ∙ run,
          positive,
          omega (arith, smallest.fits, size, whole),
          record { pool = pool'; sizes = sizes ∙ alloc.sizes },
          served,
        )
  ]
