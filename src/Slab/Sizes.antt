-- ===== src/Slab/Sizes.antt =====
-- The sizes of the classes, and the class that a request gets.
use kvx.Common.{
  false, ℕ, zero, suc, ◌+◌, ◌%◌, ◌^◌, ◌≤◌, ◌<◌, ◌≡◌, ◌⊎◌, refl, none, some, length, get_or, arith,
  ltb, ◌==◌, Bool-cases, inl, inr, size_max,
}
use kvx.Slab.{
  min_data_chunk_size, max_data_chunk_size, item_size, next_chunk_size, count_loop,
  count_slab_classes, init_classes, slab_allocator_init, slab_allocator_find_class, alloc_class,
  slab_allocator_usable_size,
}
use kvx.Slab.Search.{IsSorted, find_class-IsFirst}

next_chunk_size_bounds :
    (size : ℕ)
    → size ≤ max_data_chunk_size
    → (size ≤ next_chunk_size size) × (next_chunk_size size ≤ max_data_chunk_size)
unfolding next_chunk_size
next_chunk_size_bounds size h = ground arith

init_classes_bounds :
    (n chunk_size i : ℕ)
    → chunk_size ≤ max_data_chunk_size
    → i < length (init_classes n chunk_size)
    → (chunk_size ≤ get_or (init_classes n chunk_size) i 0)
      × (get_or (init_classes n chunk_size) i 0 ≤ max_data_chunk_size)
unfolding init_classes
init_classes_bounds zero chunk_size i small within = absurd (omega arith)
init_classes_bounds (suc n) chunk_size zero small within = (omega arith, small)
init_classes_bounds (suc n) chunk_size (suc i) small within =
    let next = next_chunk_size_bounds chunk_size small in
    let rest = init_classes_bounds n (next_chunk_size chunk_size) i next.1 (omega arith) in
    (omega (arith, next.0, rest.0), rest.1)

init_classes-ascends :
    (n chunk_size i j : ℕ)
    → chunk_size ≤ max_data_chunk_size
    → i ≤ j
    → j < length (init_classes n chunk_size)
    → get_or (init_classes n chunk_size) i 0 ≤ get_or (init_classes n chunk_size) j 0
unfolding init_classes
init_classes-ascends zero chunk_size i j small order within = absurd (omega arith)
init_classes-ascends (suc n) chunk_size zero j small order within =
    (init_classes_bounds (suc n) chunk_size j small within).0
init_classes-ascends (suc n) chunk_size (suc i) zero small order within = absurd (omega arith)
init_classes-ascends (suc n) chunk_size (suc i) (suc j) small order within =
    init_classes-ascends n (next_chunk_size chunk_size) i j
      (next_chunk_size_bounds chunk_size small).1 (omega arith) (omega arith)

pub slab_allocator_init-IsSorted : IsSorted slab_allocator_init
unfolding slab_allocator_init
slab_allocator_init-IsSorted = record {
  ascends = λ i j. init_classes-ascends count_slab_classes min_data_chunk_size i j (omega arith);
}

-- The loop of count_slab_classes stops at the class of the largest size.
pub classes_count : length slab_allocator_init ≡ 42
unfolding slab_allocator_init count_slab_classes count_loop init_classes next_chunk_size
classes_count = refl

last_class : get_or slab_allocator_init 41 0 ≡ max_data_chunk_size
unfolding slab_allocator_init count_slab_classes count_loop init_classes next_chunk_size
last_class = refl

-- A size that the largest class takes has a first class.
find_class-within :
    (size : ℕ)
    → size ≤ max_data_chunk_size
    → slab_allocator_find_class slab_allocator_init size < length slab_allocator_init
find_class-within size small =
    let i = slab_allocator_find_class slab_allocator_init size in
    let first = find_class-IsFirst slab_allocator_init size slab_allocator_init-IsSorted in
    elim (Bool-cases (ltb i 42)) [
      | inl e ↦ rw classes_count (ground arith)
      | inr e ↦
          let late : 41 < i = ground arith in
          absurd (omega (arith, first.smaller 41 late, last_class))
    ]

-- The smallest class of the allocator that is at least so large.
pub record IsSmallestClass (size i : ℕ) : Type 0 where
  pub within : i < length slab_allocator_init
  pub fits : size ≤ get_or slab_allocator_init i 0
  pub smaller : (j : ℕ) → j < i → get_or slab_allocator_init j 0 < size

find_class-IsSmallestClass :
    (size : ℕ)
    → size ≤ max_data_chunk_size
    → IsSmallestClass size (slab_allocator_find_class slab_allocator_init size)
find_class-IsSmallestClass size small =
    let first = find_class-IsFirst slab_allocator_init size slab_allocator_init-IsSorted in
    let inside = find_class-within size small in
    record { within = inside; fits = first.large _ (omega arith) inside; smaller = first.smaller }

-- For a length to which ITEM_SIZE can be added without overflow, on the classes of
-- slab_allocator_init: slab_allocator_alloc_item refuses exactly a length of 0 or one that passes
-- MAX_DATA_CHUNK_SIZE with the item's header, and else takes from the smallest class whose chunks
-- hold the header and the data.
pub alloc_class-IsSmallestClass :
    (data_len : ℕ)
    → data_len + item_size ≤ size_max
    → ((alloc_class slab_allocator_init data_len ≡ none)
        × ((data_len ≡ 0) ⊎ (max_data_chunk_size < data_len + item_size)))
      ⊎ ((i : ℕ) × (alloc_class slab_allocator_init data_len ≡ some i)
          × (0 < data_len)
          × IsSmallestClass (data_len + item_size) i)
unfolding alloc_class
alloc_class-IsSmallestClass data_len word =
    let no_wrap : (data_len + item_size) % 2 ^ 64 ≡ data_len + item_size = omega arith in
    elim (Bool-cases (data_len == 0)) [
      | inl e ↦ rw e (inl (refl, inl (ground arith)))
      | inr e ↦ elim (Bool-cases (ltb max_data_chunk_size (data_len + item_size))) [
        | inl f ↦ rw (no_wrap, e, f) (inl (refl, inr (ground arith)))
        | inr f ↦
            let chosen = find_class-IsSmallestClass (data_len + item_size) (ground arith) in
            let inside : (slab_allocator_find_class slab_allocator_init (data_len + item_size)
                  == length slab_allocator_init)
                ≡ false =
              ground (arith, chosen.within) in
            rw (no_wrap, e, f, inside) (inr (_, refl, ground arith, chosen))
      ]
    ]

-- On the classes of slab_allocator_init, slab_allocator_usable_size is 0 for a size of 0 or above
-- MAX_DATA_CHUNK_SIZE, and else the smallest chunk size that is at least the size.
pub usable_size-IsSmallestClass :
    (size : ℕ)
    → ((slab_allocator_usable_size slab_allocator_init size ≡ 0)
        × ((size ≡ 0) ⊎ (max_data_chunk_size < size)))
      ⊎ ((i : ℕ) × (slab_allocator_usable_size slab_allocator_init size
            ≡ get_or slab_allocator_init i 0)
          × (0 < size)
          × IsSmallestClass size i)
unfolding slab_allocator_usable_size
usable_size-IsSmallestClass size = elim (Bool-cases (size == 0)) [
  | inl e ↦ rw e (inl (refl, inl (ground arith)))
  | inr e ↦ elim (Bool-cases (ltb max_data_chunk_size size)) [
    | inl f ↦ rw (e, f) (inl (refl, inr (ground arith)))
    | inr f ↦
        rw (e, f) (inr (_, refl, ground arith, find_class-IsSmallestClass size (ground arith)))
  ]
]
