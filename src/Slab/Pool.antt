-- ===== src/Slab/Pool.antt =====
-- src/slab_alloc.c: the slabs of the classes, with their free lists and the stacks of slabs that have room.
pub mod Invariant
pub mod Chunk
pub mod Update
pub mod Take
pub mod Release
pub mod Stacks
pub mod Serve
pub mod Grow
pub mod Allocate
pub mod Setup
pub mod Items
use kvx.Common.{
  ℕ, zero, suc, ◌+◌, ◌-◌, ◌*◌, ◌/◌, ◌%◌, ◌^◌, Option, none, some, List, [], ◌∷◌, ◌++◌, length,
  get_or, set, Bytes, ltb, leb, ◌==◌, if◌then◌else◌,
}
use kvx.Common.Faults.{◌>>=◌}
use mathlib.Core.List.{map}
use kvx.Item.{Item}
use kvx.Slab.{align_up, item_align, item_size, alloc_class, slab_allocator_init}

-- malloc: the address of the block of SLAB_SIZE bytes that the n-th call returns, and the bytes that are
-- in fresh memory at an address.
pub record Malloc : Type 0 where
  pub block : ℕ → ℕ
  pub junk : ℕ → ℕ → Bytes

abbrev pub slab_size : ℕ
slab_size = 2 ^ 21

-- sizeof(slab_t), which is where the chunks begin.
abbrev pub slab_header : ℕ
slab_header = 40

abbrev pub slab_class_initial_cap : ℕ
slab_class_initial_cap = 8

-- A slab is named by its number among all slabs, a class by its index, an item by its address.
pub record Slab : Type 0 where
  pub chunk_size : ℕ
  pub free_list : Option ℕ
  pub bump : ℕ
  pub free_count : ℕ
  pub parent_slab_class : ℕ

-- `free_stack` has the entries below `free_top`, the top first, and `slabs` those below `slabs_num`,
-- the last first. Both arrays have `slabs_cap` entries.
pub record SlabClass : Type 0 where
  pub data_chunk_size : ℕ
  pub free_stack : List ℕ
  pub slabs_cap : ℕ
  pub slabs : List ℕ

-- The memory of the items, all slabs in the order of their malloc, and the classes.
pub record SlabAllocator : Type 0 where
  pub mem : ℕ → Item
  pub slabs : List Slab
  pub classes : List SlabClass

abbrev pub no_slab : Slab
no_slab = record {
  chunk_size = 0;
  free_list = none;
  bump = 0;
  free_count = 0;
  parent_slab_class = 0;
}

abbrev pub no_class : SlabClass
no_class = record { data_chunk_size = 0; free_stack = []; slabs_cap = 0; slabs = [] }

abbrev pub slab_at : SlabAllocator → ℕ → Slab
slab_at h s = get_or h.slabs s no_slab

abbrev pub class_at : SlabAllocator → ℕ → SlabClass
class_at h c = get_or h.classes c no_class

abbrev pub write : (ℕ → Item) → ℕ → Item → ℕ → Item
write mem a item b = if b == a then item else mem b

-- A pointer in the first eight bytes of a free chunk, where `slab_ptr` is in an item. NULL is 0.
abbrev pub word_of : Option ℕ → ℕ
word_of none = 0
word_of (some a) = a

abbrev pub link : ℕ → Option ℕ
link zero = none
link (suc a) = some (suc a)

unfoldable pub slab_init : Malloc → ℕ → ℕ → ℕ → Slab
slab_init m number data_chunk_size parent =
    let chunk_size = align_up data_chunk_size item_align in
    record {
      chunk_size = chunk_size;
      free_list = none;
      bump = m.block number + slab_header;
      free_count = (slab_size - slab_header) / chunk_size;
      parent_slab_class = parent;
    }

-- The end of slab_alloc_item, where the chunk of `item` is taken from the slab.
unfoldable pub hand_out : SlabAllocator → ℕ → Slab → ℕ → Item → SlabAllocator
hand_out h s slab a item = record h {
  slabs = set h.slabs s (record slab { free_count = slab.free_count - 1 });
  mem =
      write h.mem a
        (record item { slab_ptr = s; data_size = (slab.chunk_size - item_size) % 2 ^ 32 });
}

-- From the free list, or else from the memory behind `bump`, which has no contents yet.
unfoldable pub take_chunk : Malloc → SlabAllocator → ℕ → Slab → Option ℕ → SlabAllocator × ℕ
take_chunk m h s slab (some a) =
    (hand_out h s (record slab { free_list = link (h.mem a).slab_ptr }) a (h.mem a), a)
take_chunk m h s slab none =
    let fresh = record (h.mem slab.bump) {
      payload = m.junk slab.bump (slab.chunk_size - item_size);
    } in
    (hand_out h s (record slab { bump = slab.bump + slab.chunk_size }) slab.bump fresh, slab.bump)

unfoldable pub slab_alloc_item : Malloc → SlabAllocator → ℕ → SlabAllocator × Option ℕ
slab_alloc_item m h s =
    let slab = slab_at h s in
    if slab.free_count == 0
    then (h, none)
    else (let r = take_chunk m h s slab slab.free_list in (r.0, some r.1))

unfoldable pub slab_class_init : ℕ → SlabClass
slab_class_init chunk_size = record {
  data_chunk_size = chunk_size;
  free_stack = [];
  slabs_cap = slab_class_initial_cap;
  slabs = [];
}

abbrev pub set_class : SlabAllocator → ℕ → SlabClass → SlabAllocator
set_class h c sc = record h { classes = set h.classes c sc }

-- sc->free_stack[sc->free_top++] = slab. none is a write behind the array.
unfoldable pub push_free : SlabClass → ℕ → Option SlabClass
push_free sc s =
    if ltb (length sc.free_stack) sc.slabs_cap
    then some (record sc { free_stack = s ∷ sc.free_stack })
    else none

unfoldable pub slab_class_grow_slabs : SlabClass → SlabClass
slab_class_grow_slabs sc = record sc { slabs_cap = sc.slabs_cap + sc.slabs_cap / 2 }

-- sc->slabs[sc->slabs_num++] = new_slab. none is a write behind the array.
unfoldable pub add_slab : SlabClass → ℕ → Option SlabClass
add_slab sc s =
    if ltb (length sc.slabs) sc.slabs_cap then some (record sc { slabs = s ∷ sc.slabs }) else none

abbrev pub with_room : SlabClass → SlabClass
with_room sc = if length sc.slabs == sc.slabs_cap then slab_class_grow_slabs sc else sc

unfoldable pub slab_class_grow : Malloc → SlabAllocator → ℕ → Option SlabAllocator
slab_class_grow m h c =
    let sc = with_room (class_at h c) in
    let number = length h.slabs in
    let new_slab = slab_init m number sc.data_chunk_size c in
    add_slab sc number >>= λ sc1. push_free sc1 number >>= λ sc2.
    some (set_class (record h { slabs = h.slabs ++ (new_slab ∷ []) }) c sc2)

-- The allocation from the slab on top of the stack, which is popped when it is full. none is a read
-- before the array.
unfoldable pub alloc_from_top :
    Malloc → SlabAllocator → ℕ → List ℕ → Option (SlabAllocator × Option ℕ)
alloc_from_top m h c [] = none
alloc_from_top m h c (s ∷ rest) =
    let r = slab_alloc_item m h s in
    some (
      if (slab_at r.0 s).free_count == 0
          then set_class r.0 c (record (class_at h c) { free_stack = rest })
          else r.0,
      r.1,
    )

unfoldable pub slab_class_alloc_item :
    Malloc → SlabAllocator → ℕ → Option (SlabAllocator × Option ℕ)
slab_class_alloc_item m h c =
    (if length (class_at h c).free_stack == 0 then slab_class_grow m h c else some h) >>= λ h1.
    alloc_from_top m h1 c (class_at h1 c).free_stack

unfoldable pub slab_class_free_item : SlabAllocator → ℕ → ℕ → Option SlabAllocator
slab_class_free_item h c s =
    if (slab_at h s).free_count == 1
    then (push_free (class_at h c) s >>= λ sc. some (set_class h c sc))
    else some h

-- The chunk becomes the head of its slab's free list.
unfoldable pub put_back : SlabAllocator → ℕ → SlabAllocator
put_back h a =
    let item = h.mem a in
    let slab = slab_at h item.slab_ptr in
    record h {
      mem = write h.mem a (record item { slab_ptr = word_of slab.free_list });
      slabs =
          set h.slabs item.slab_ptr
            (record slab { free_list = some a; free_count = (slab.free_count + 1) % 2 ^ 64 });
    }

unfoldable pub slab_allocator_free_item : SlabAllocator → ℕ → Option SlabAllocator
slab_allocator_free_item h a =
    let s = (h.mem a).slab_ptr in
    slab_class_free_item (put_back h a) (slab_at h s).parent_slab_class s

abbrev pub class_sizes : List SlabClass → List ℕ
class_sizes classes = map (λ sc. sc.data_chunk_size) classes

-- none for the item is NULL, none for the whole a fault.
unfoldable pub slab_allocator_alloc_item :
    Malloc → SlabAllocator → ℕ → Option (SlabAllocator × Option ℕ)
slab_allocator_alloc_item m h data_len = elim (alloc_class (class_sizes h.classes) data_len) [
  | none ↦ some (h, none)
  | some c ↦ slab_class_alloc_item m h c
]

-- slab_allocator_init with its slab_class_init calls. The memory is what it was.
unfoldable pub init_allocator : (ℕ → Item) → SlabAllocator
init_allocator mem = record {
  mem = mem;
  slabs = [];
  classes = map slab_class_init slab_allocator_init;
}
