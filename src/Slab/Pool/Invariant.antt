-- ===== src/Slab/Pool/Invariant.antt =====
-- The well-formed states of the allocator in src/slab_alloc.c, over the chunks that were cut off and the free ones.
use kvx.Common.{
  ℕ, ◌+◌, ◌-◌, ◌*◌, ◌^◌, ◌≤◌, ◌<◌, ◌≡◌, ◌≢◌, ◌⊎◌, ◌↔◌, true, false, Option, none, some, List, [],
  ◌∷◌, length,
}
use kvx.Common.Members.{has, Distinct}
use kvx.Item.{Item}
use kvx.Slab.{align_up, item_align, item_size}
use kvx.Slab.Pool.{
  Malloc, Slab, SlabClass, SlabAllocator, slab_size, slab_header, slab_at, class_at, link,
}

-- The blocks of different calls are apart, none is at NULL, and fresh memory has as many bytes as it is long.
pub record IsMalloc (m : Malloc) : Type 0 where
  pub apart :
      (i j : ℕ) → i ≢ j → (m.block i + slab_size ≤ m.block j) ⊎ (m.block j + slab_size ≤ m.block i)
  pub nonnull : (i : ℕ) → 0 < m.block i
  pub junk : (a n : ℕ) → length (m.junk a n) ≡ n

-- From `head` the links lead through the chunks of the list to NULL.
abbrev pub Chain : (ℕ → Item) → Option ℕ → List ℕ → Type 0
Chain mem head [] = head ≡ none
Chain mem head (a ∷ rest) = (head ≡ some a) × (0 < a) × Chain mem (link (mem a).slab_ptr) rest

-- One slab, with the chunks that were cut off and the free ones of these.
pub record IsSlab (mem : ℕ → Item) (start s : ℕ) (slab : Slab) (carved freed : List ℕ)
    : Type 0 where
  pub chunk_size : (24 < slab.chunk_size) × (slab.chunk_size ≤ 2 ^ 19)
  pub span :
      (a : ℕ) → has a carved ≡ true → (start + slab_header ≤ a) × (a + slab.chunk_size ≤ slab.bump)
  pub spaced :
      (a b : ℕ)
      → has a carved ≡ true
      → has b carved ≡ true
      → a ≢ b
      → (a + slab.chunk_size ≤ b) ⊎ (b + slab.chunk_size ≤ a)
  pub bump : start + slab_header ≤ slab.bump
  pub rest : ℕ
  pub room : slab.bump + rest * slab.chunk_size ≤ start + slab_size
  pub few : length carved + rest ≤ slab_size
  pub free_count : slab.free_count ≡ length freed + rest
  pub chain : Chain mem slab.free_list freed
  pub distinct : Distinct freed
  pub inside : (a : ℕ) → has a freed ≡ true → has a carved ≡ true
  pub sized : (a : ℕ) → has a carved ≡ true → length (mem a).payload ≡ slab.chunk_size - item_size
  pub owned :
      (a : ℕ)
      → has a carved ≡ true
      → has a freed ≡ false
      → ((mem a).slab_ptr ≡ s) × ((mem a).data_size ≡ slab.chunk_size - item_size)

-- One class: the slabs of it, and those of them that have room.
pub record IsClass (slabs : ℕ → Slab) (count c : ℕ) (sc : SlabClass) : Type 0 where
  pub size : (24 < sc.data_chunk_size) × (sc.data_chunk_size ≤ 2 ^ 19)
  pub cap : (2 ≤ sc.slabs_cap) × (length sc.slabs ≤ sc.slabs_cap)
  pub member :
      (s : ℕ)
      → has s sc.slabs ≡ true
      → (s < count)
        × ((slabs s).parent_slab_class ≡ c)
        × ((slabs s).chunk_size ≡ align_up sc.data_chunk_size item_align)
  pub all : (s : ℕ) → s < count → (slabs s).parent_slab_class ≡ c → has s sc.slabs ≡ true
  pub stack :
      (s : ℕ)
      → (has s sc.free_stack ≡ true) ↔ ((has s sc.slabs ≡ true) × (0 < (slabs s).free_count))
  pub distinct : Distinct sc.free_stack

-- Which chunks of each slab were cut off, and which are free again.
pub record Ghost : Type 0 where
  pub carved : ℕ → List ℕ
  pub freed : ℕ → List ℕ

pub record IsPool (m : Malloc) (h : SlabAllocator) (g : Ghost) : Type 0 where
  pub slabs :
      (s : ℕ)
      → s < length h.slabs
      → IsSlab h.mem (m.block s) s (slab_at h s) (g.carved s) (g.freed s)
  pub parents : (s : ℕ) → s < length h.slabs → (slab_at h s).parent_slab_class < length h.classes
  pub classes :
      (c : ℕ) → c < length h.classes → IsClass (slab_at h) (length h.slabs) c (class_at h c)

-- The items that are handed out.
pub record Live (h : SlabAllocator) (g : Ghost) (a : ℕ) : Type 0 where
  pub slab : ℕ
  pub low : slab < length h.slabs
  pub carved : has a (g.carved slab) ≡ true
  pub taken : has a (g.freed slab) ≡ false
