-- ===== src/Slab/Pool/Setup.antt =====
-- The state that slab_allocator_init of src/slab_alloc.c leaves.
use mathlib.Core.List.{map}
use kvx.Common.{
  ℕ, zero, suc, ◌≤◌, ◌<◌, ◌≡◌, ◌^◌, refl, ap, Bool, true, false, List, [], ◌∷◌, arith, length,
  get_or, leb, ltb, ◌&&◌, and_parts,
}
use kvx.Common.Words.{holds_below, holds_below_at}
use kvx.Item.{Item}
use kvx.Slab.{slab_allocator_init, count_slab_classes, count_loop, init_classes, next_chunk_size}
use kvx.Slab.Sizes.{classes_count}
use kvx.Slab.Pool.{Malloc, Slab, no_class, class_sizes, slab_class_init, init_allocator}
use kvx.Slab.Pool.Invariant.{IsClass, Ghost, Live}
use kvx.Slab.Pool.Allocate.{IsAllocator, length-class_sizes}

abbrev size_ok : ℕ → Bool
size_ok v = ltb 24 v && leb v (2 ^ 19)

sizes_ok : holds_below 42 (λ c. size_ok (get_or slab_allocator_init c 0)) ≡ true
unfolding holds_below slab_allocator_init count_slab_classes count_loop init_classes next_chunk_size
sizes_ok = refl

get_or-fresh :
    (sizes : List ℕ) (c : ℕ)
    → c < length sizes
    → get_or (map slab_class_init sizes) c no_class ≡ slab_class_init (get_or sizes c 0)
get_or-fresh [] c h = absurd (omega arith)
get_or-fresh (v ∷ sizes) zero h = refl
get_or-fresh (v ∷ sizes) (suc c) h = get_or-fresh sizes c (omega arith)

class_sizes-fresh : (sizes : List ℕ) → class_sizes (map slab_class_init sizes) ≡ sizes
unfolding slab_class_init
class_sizes-fresh [] = refl
class_sizes-fresh (v ∷ sizes) = ap (λ r. v ∷ r) (class_sizes-fresh sizes)

fresh-IsClass :
    (slabs : ℕ → Slab) (c v : ℕ) → 24 < v → v ≤ 2 ^ 19 → IsClass slabs 0 c (slab_class_init v)
unfolding slab_class_init
fresh-IsClass slabs c v low high = record {
  size = (low, high);
  cap = (omega arith, omega arith);
  member = λ s h. cc h;
  all = λ s h. absurd (omega (arith, h));
  stack = λ s. (λ h. cc h, λ (h, _). cc h);
  distinct = tt;
}

abbrev pub no_chunks : Ghost
no_chunks = record { carved = λ s. []; freed = λ s. [] }

-- slab_allocator_init makes a well-formed allocator from which nothing is handed out.
pub init_allocator-IsAllocator :
    (m : Malloc) (mem : ℕ → Item)
    → IsAllocator m (init_allocator mem) no_chunks
      × ((a : ℕ) → Live (init_allocator mem) no_chunks a → true ≡ false)
unfolding init_allocator
init_allocator-IsAllocator m mem = (
  record {
    pool = record {
      slabs = λ s h. absurd (omega (arith, h));
      parents = λ s h. absurd (omega (arith, h));
      classes = λ c h.
          let low : c < length slab_allocator_init = omega (
            arith,
            h,
            length-class_sizes (map slab_class_init slab_allocator_init),
            ap length (class_sizes-fresh slab_allocator_init),
          ) in
          let small : c < 42 = omega (arith, low, classes_count) in
          let (p, q) =
            and_parts (ltb 24 (get_or slab_allocator_init c 0))
              (leb (get_or slab_allocator_init c 0) (2 ^ 19))
              (holds_below_at 42 (λ c. size_ok (get_or slab_allocator_init c 0)) c sizes_ok
                small) in
          rw (get_or-fresh slab_allocator_init c low) (
            fresh-IsClass _ c (get_or slab_allocator_init c 0) (ground (arith, p))
              (ground (arith, q)));
    };
    sizes = class_sizes-fresh slab_allocator_init;
  },
  λ a live. cc live.carved,
)
