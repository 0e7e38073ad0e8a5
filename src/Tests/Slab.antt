-- ===== src/Tests/Slab.antt =====
-- The size classes at concrete sizes.
use kvx.Common.{ℕ, ◌<◌, ◌≡◌, ◌⊎◌, refl, none, some, arith}
use kvx.Slab.{
  max_data_chunk_size, next_chunk_size, count_loop, count_slab_classes, init_classes,
  slab_allocator_init, find_class_loop, slab_allocator_find_class, alloc_class,
  slab_allocator_usable_size,
}
use kvx.Slab.Search.{IsFirst, find_class-IsFirst}
use kvx.Slab.Sizes.{IsSmallestClass, slab_allocator_init-IsSorted, alloc_class-IsSmallestClass}

abbrev hundred : ℕ
hundred = 100

find_class-IsFirst_example :
    IsFirst slab_allocator_init 65 (slab_allocator_find_class slab_allocator_init 65)
find_class-IsFirst_example = find_class-IsFirst slab_allocator_init 65 slab_allocator_init-IsSorted

alloc_class-IsSmallestClass_example :
    ((alloc_class slab_allocator_init 100 ≡ none) × ((hundred ≡ 0) ⊎ (max_data_chunk_size < 124)))
    ⊎ ((i : ℕ) × (alloc_class slab_allocator_init 100 ≡ some i) × (0 < 100) × IsSmallestClass 124 i)
alloc_class-IsSmallestClass_example = alloc_class-IsSmallestClass 100 (omega arith)

usable_size_run : slab_allocator_usable_size slab_allocator_init 100 ≡ 104
unfolding slab_allocator_usable_size slab_allocator_find_class find_class_loop slab_allocator_init
    count_slab_classes count_loop init_classes next_chunk_size
usable_size_run = refl
