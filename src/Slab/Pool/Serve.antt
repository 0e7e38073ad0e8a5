-- ===== src/Slab/Pool/Serve.antt =====
-- slab_class_alloc_item from a stack with a slab, and slab_allocator_free_item, of src/slab_alloc.c.
use kvx.Common.{
  ℕ, zero, suc, get_or, ◌-◌, ◌<◌, ◌≡◌, ◌≢◌, ◌⊎◌, ◌↔◌, refl, sym, subst, ap, ◌∙◌, true, false, some,
  List, [], ◌∷◌, arith, length, set, ltb, ◌==◌, inl, inr, Bool-cases, length-set, get_or-set_self,
  get_or-set_ne,
}
use kvx.Common.Members.{has, Distinct, has-head}
use kvx.Slab.{align_up, item_align, item_size}
use kvx.Slab.Pool.{
  Malloc, SlabClass, SlabAllocator, no_class, slab_at, class_at, set_class, class_sizes, push_free,
  alloc_from_top, put_back, slab_class_free_item, slab_allocator_free_item,
}
use kvx.Slab.Pool.Invariant.{IsMalloc, IsPool, Ghost, Live}
use kvx.Slab.Pool.Take.{slab_alloc_item-Taken}
use kvx.Slab.Pool.Release.{put_back-Released, slab_ptr_live}
use kvx.Slab.Pool.Stacks.{Restacked-same, stack_room, IsPool-Restacked}

-- An item of `n` bytes was handed out at `a`.
pub record Served (h : SlabAllocator) (g : Ghost) (h' : SlabAllocator) (g' : Ghost) (a n : ℕ)
    : Type 0 where
  pub live : (b : ℕ) → Live h' g' b ↔ (Live h g b ⊎ (b ≡ a))
  pub fresh : Live h g a → true ≡ false
  pub data_size : (h'.mem a).data_size ≡ n
  pub size : length (h'.mem a).payload ≡ n
  pub mem : (b : ℕ) → b ≢ a → h'.mem b ≡ h.mem b

pub Live-same :
    (h h' : SlabAllocator) (g : Ghost) (b : ℕ)
    → length h'.slabs ≡ length h.slabs
    → Live h g b
    → Live h' g b
Live-same h h' g b e live = record {
  slab = live.slab;
  low = omega (arith, live.low, e);
  carved = live.carved;
  taken = live.taken;
}

-- The classes do not matter for what was handed out.
Served-classes :
    (h : SlabAllocator) (g : Ghost) (h1 h2 : SlabAllocator) (g' : Ghost) (a n : ℕ)
    → Served h g h1 g' a n
    → length h2.slabs ≡ length h1.slabs
    → ((b : ℕ) → h2.mem b ≡ h1.mem b)
    → Served h g h2 g' a n
Served-classes h g h1 h2 g' a n served e same = record {
  live = λ b. (
    λ l. (served.live b).0 (Live-same h2 h1 g' b (sym e) l),
    λ r. Live-same h1 h2 g' b e ((served.live b).1 r),
  );
  fresh = served.fresh;
  data_size = ap (λ r. r.data_size) (same a) ∙ served.data_size;
  size = ap (λ r. length r.payload) (same a) ∙ served.size;
  mem = λ b ne. same b ∙ served.mem b ne;
}

pub class_sizes-set :
    (classes : List SlabClass) (c : ℕ) (sc : SlabClass)
    → sc.data_chunk_size ≡ (get_or classes c no_class).data_chunk_size
    → class_sizes (set classes c sc) ≡ class_sizes classes
class_sizes-set [] c sc e = refl
class_sizes-set (x ∷ xs) zero sc e = ap (λ r. r ∷ class_sizes xs) e
class_sizes-set (x ∷ xs) (suc c) sc e = ap (λ r. x.data_chunk_size ∷ r) (class_sizes-set xs c sc e)

module _ (m : Malloc) (ok : IsMalloc m) (h : SlabAllocator) (g : Ghost) (pool : IsPool m h g)
    (c : ℕ) (low : c < length h.classes) where
  pub alloc_from_top-Served :
      (s : ℕ) (rest : List ℕ)
      → (class_at h c).free_stack ≡ s ∷ rest
      → (h' : SlabAllocator) × (a : ℕ) × (g' : Ghost) × (alloc_from_top m h c (s ∷ rest)
          ≡ some (h', some a))
        × IsPool m h' g'
        × Served h g h' g' a ((slab_at h s).chunk_size - item_size)
        × (class_sizes h'.classes ≡ class_sizes h.classes)
        × ((slab_at h s).chunk_size ≡ align_up (class_at h c).data_chunk_size item_align)
  unfolding alloc_from_top
  alloc_from_top-Served s rest stack =
      let class = pool.classes c low in
      let on_stack : has s (class_at h c).free_stack ≡ true = rw stack (has-head s rest) in
      let distinct : Distinct (s ∷ rest) = subst Distinct stack class.distinct in
      let (member, room) = (class.stack s).0 on_stack in
      let (low_s, parent, chunk) = class.member s member in
      let (a, g', h1, run, taken) =
        slab_alloc_item-Taken m ok h g pool.slabs s low_s (omega (arith, room)) in
      let served : Served h g h1 g' a ((slab_at h s).chunk_size - item_size) = record {
        live = taken.live;
        fresh = taken.fresh;
        data_size = taken.data_size;
        size = taken.size;
        mem = taken.mem;
      } in
      let low1 : c < length h1.classes = rw taken.classes low in
      elim (Bool-cases ((slab_at h1 s).free_count == 0)) [
        | inl e ↦
            let h2 = set_class h1 c (record (class_at h c) { free_stack = rest }) in
            (
              h2,
              a,
              g',
              rw (run, e) refl,
              IsPool-Restacked m h h2 g g' s c rest pool low_s parent taken.slabs taken.count
                  taken.parent taken.chunk_size taken.others
                  (length-set h1.classes c _ ∙ ap length taken.classes)
                  (get_or-set_self h1.classes c _ no_class low1)
                  (λ i ne.
                    get_or-set_ne h1.classes c i _ no_class (λ f. ne (sym f))
                    ∙ ap (λ r. get_or r i no_class) taken.classes)
                  (record {
                    here = (λ f. cc (f, distinct.0), λ (_, f). absurd (ground (arith, e, f)));
                    there = λ i ne. rw stack (ground (arith, ne));
                    distinct = distinct.1;
                  }),
              Served-classes h g h1 h2 g' a ((slab_at h s).chunk_size - item_size) served refl
                  (λ b. refl),
              class_sizes-set h1.classes c _
                    (sym (ap (λ r. (get_or r c no_class).data_chunk_size) taken.classes))
                  ∙ ap class_sizes taken.classes,
              chunk,
            )
        | inr e ↦ (
          h1,
          a,
          g',
          rw (run, e) refl,
          IsPool-Restacked m h h1 g g' s c (class_at h c).free_stack pool low_s parent taken.slabs
              taken.count taken.parent taken.chunk_size taken.others (ap length taken.classes)
              (ap (λ r. get_or r c no_class) taken.classes)
              (λ i ne. ap (λ r. get_or r i no_class) taken.classes)
              (Restacked-same (slab_at h) (slab_at h1) (length h.slabs) c s (class_at h c) class
                (inl (λ f. room, λ f. ground (arith, e)))),
          served,
          ap class_sizes taken.classes,
          chunk,
        )
      ]

-- The item at `a` is not handed out any more; of its bytes only the slab pointer has changed.
pub record Returned (h : SlabAllocator) (g : Ghost) (h' : SlabAllocator) (g' : Ghost) (a : ℕ)
    : Type 0 where
  pub live : (b : ℕ) → Live h' g' b ↔ (Live h g b × (b ≢ a))
  pub mem : (b : ℕ) → b ≢ a → h'.mem b ≡ h.mem b
  pub overwritten : (p : ℕ) × (h'.mem a ≡ record (h.mem a) { slab_ptr = p })

module _ (m : Malloc) (ok : IsMalloc m) (h : SlabAllocator) (g : Ghost) (pool : IsPool m h g) where
  pub free_item-Returned :
      (a : ℕ)
      → Live h g a
      → (h' : SlabAllocator) × (g' : Ghost) × (slab_allocator_free_item h a ≡ some h')
        × IsPool m h' g'
        × (class_sizes h'.classes ≡ class_sizes h.classes)
        × Returned h g h' g' a
  unfolding slab_allocator_free_item slab_class_free_item push_free
  free_item-Returned a live =
      let s = live.slab in
      let c = (slab_at h s).parent_slab_class in
      let low = pool.parents s live.low in
      let class = pool.classes c low in
      let member = class.all s live.low refl in
      let (g', released) = put_back-Released m ok h g pool.slabs a live in
      let h1 = put_back h a in
      let at_slab : (h.mem a).slab_ptr ≡ s = slab_ptr_live m ok h g pool.slabs a live in
      let same_class : (i : ℕ) → class_at h1 i ≡ class_at h i =
        λ i. ap (λ r. get_or r i no_class) released.classes in
      let low1 : c < length h1.classes = rw released.classes low in
      elim (Bool-cases ((slab_at h1 s).free_count == 1)) [
        | inr e ↦ (
          h1,
          g',
          rw (at_slab, e) refl,
          IsPool-Restacked m h h1 g g' s c (class_at h c).free_stack pool live.low refl
              released.slabs released.count released.parent released.chunk_size released.others
              (ap length released.classes) (same_class c) (λ i ne. same_class i)
              (Restacked-same (slab_at h) (slab_at h1) (length h.slabs) c s (class_at h c) class (
                inl (
                  λ f. ground (arith, e, released.free_count),
                  λ f. omega (arith, f, released.free_count),
                ))),
          ap class_sizes released.classes,
          record { live = released.live; mem = released.mem; overwritten = released.overwritten },
        )
        | inl e ↦
            let full : (slab_at h s).free_count ≡ 0 = ground (arith, e, released.free_count) in
            let out : has s (class_at h c).free_stack ≡ false =
              elim (Bool-cases (has s (class_at h c).free_stack)) [
                | inl f ↦ let (_, room) = (class.stack s).0 f in absurd (omega (arith, room, full))
                | inr f ↦ f
              ] in
            let fits =
              stack_room (slab_at h) (length h.slabs) c s (class_at h c) class member out in
            let stack' = s ∷ (class_at h c).free_stack in
            let sc : SlabClass = record (class_at h c) { free_stack = stack' } in
            let h2 = set_class h1 c sc in
            let pushed : ltb (length (class_at h c).free_stack) (class_at h c).slabs_cap ≡ true =
              ground (arith, fits) in
            (
              h2,
              g',
              rw (at_slab, e, same_class c, pushed) refl,
              IsPool-Restacked m h h2 g g' s c stack' pool live.low refl released.slabs
                  released.count released.parent released.chunk_size released.others
                  (length-set h1.classes c sc ∙ ap length released.classes)
                  (get_or-set_self h1.classes c sc no_class low1)
                  (λ i ne.
                    get_or-set_ne h1.classes c i sc no_class (λ f. ne (sym f)) ∙ same_class i)
                  (record {
                    here = (
                      λ f. (member, ground (arith, e)),
                      λ f. has-head s (class_at h c).free_stack,
                    );
                    there = λ i ne. ground (arith, ne);
                    distinct = (out, class.distinct);
                  }),
              class_sizes-set h1.classes c sc (sym (ap (λ r. r.data_chunk_size) (same_class c)))
                  ∙ ap class_sizes released.classes,
              record {
                live = λ b. (
                  λ l. (released.live b).0 (Live-same h2 h1 g' b refl l),
                  λ r. Live-same h1 h2 g' b refl ((released.live b).1 r),
                );
                mem = released.mem;
                overwritten = released.overwritten;
              },
            )
      ]
