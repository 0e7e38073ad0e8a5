-- ===== src/Slab.antt =====
-- src/slab_alloc.c: the size classes of the allocator, and the choice of a class.
pub mod Search
pub mod Sizes
pub mod Pool
use kvx.Common.{
  ℕ, zero, suc, ◌+◌, ◌-◌, ◌*◌, ◌/◌, ◌%◌, ◌^◌, Option, none, some, List, [], ◌∷◌, length, get_or,
  ltb, leb, ◌==◌, if◌then◌else◌,
}

-- MIN_DATA_CHUNK_SIZE, MAX_DATA_CHUNK_SIZE, alignof(item_t) and ITEM_SIZE.
abbrev pub min_data_chunk_size : ℕ
min_data_chunk_size = 48

abbrev pub max_data_chunk_size : ℕ
max_data_chunk_size = 2 ^ 19

abbrev pub item_align : ℕ
item_align = 8

abbrev pub item_size : ℕ
item_size = 24

-- The alignment is a power of two, so the mask rounds down to its multiples.
abbrev pub align_up : ℕ → ℕ → ℕ
align_up value alignment = (value + alignment - 1) % 2 ^ 64 / alignment * alignment

-- CHUNK_GROWTH_FACTOR is 1.25: in the range of the sizes the product is exact in a double.
unfoldable pub next_chunk_size : ℕ → ℕ
next_chunk_size size =
    let grown = align_up (size * 5 / 4) item_align in
    let next = if leb grown size then size + item_align else grown in
    if ltb max_data_chunk_size next then max_data_chunk_size else next

-- The first argument is the fuel.
unfoldable pub count_loop : ℕ → ℕ → ℕ → ℕ
count_loop zero size count = count
count_loop (suc fuel) size count =
    let rest = count_loop fuel (next_chunk_size size) (count + 1) in
    if ltb size max_data_chunk_size then rest else count

-- Each round adds at least 8 to the size.
unfoldable pub count_slab_classes : ℕ
count_slab_classes = count_loop 64 min_data_chunk_size 1

-- The `data_chunk_size` of each class, in the order of the loop of slab_allocator_init.
unfoldable pub init_classes : ℕ → ℕ → List ℕ
init_classes zero chunk_size = []
init_classes (suc n) chunk_size = chunk_size ∷ init_classes n (next_chunk_size chunk_size)

unfoldable pub slab_allocator_init : List ℕ
slab_allocator_init = init_classes count_slab_classes min_data_chunk_size

-- The first argument is the fuel.
unfoldable pub find_class_loop : ℕ → List ℕ → ℕ → ℕ → ℕ → ℕ
find_class_loop zero classes size left right = left
find_class_loop (suc fuel) classes size left right =
    let mid = left + (right - left) / 2 in
    let above = find_class_loop fuel classes size (mid + 1) right in
    let below = find_class_loop fuel classes size left mid in
    if ltb left right then (if ltb (get_or classes mid 0) size then above else below) else left

unfoldable pub slab_allocator_find_class : List ℕ → ℕ → ℕ
slab_allocator_find_class classes size =
    find_class_loop (suc (length classes)) classes size 0 (length classes)

-- The class from which slab_allocator_alloc_item allocates, or none where it returns NULL.
unfoldable pub alloc_class : List ℕ → ℕ → Option ℕ
alloc_class classes data_len =
    let size = (data_len + item_size) % 2 ^ 64 in
    let slab_class_idx = slab_allocator_find_class classes size in
    if data_len == 0
    then none
    else if ltb max_data_chunk_size size
    then none
    else if slab_class_idx == length classes
    then none
    else some slab_class_idx

unfoldable pub slab_allocator_usable_size : List ℕ → ℕ → ℕ
slab_allocator_usable_size classes size =
    if size == 0
    then 0
    else if ltb max_data_chunk_size size
    then 0
    else get_or classes (slab_allocator_find_class classes size) 0
