-- ===== src/Slab/Pool/Grow.antt =====
-- slab_class_grow of src/slab_alloc.c, for a class without a slab that has room.
use kvx.Common.{
  ℕ, suc, ◌-◌, ◌*◌, ◌/◌, ◌^◌, ◌≤◌, ◌<◌, ◌≡◌, ◌≢◌, ◌⊎◌, ◌↔◌, refl, sym, ap, ◌∙◌, true, false, some,
  [], ◌∷◌, ◌++◌, arith, length, get_or, ltb, ◌==◌, inl, inr, Bool-cases, length-set, length-append,
  get_or-append, get_or-append_right, get_or-set_self, get_or-set_ne,
}
use native.Mathlib.Nat.{le-div_iff_mul-le, div-mul-le_self, div-le_self}
use kvx.Common.Members.{has, has-tail, has-cases}
use kvx.Item.{Item}
use kvx.Slab.{align_up, item_align}
use kvx.Slab.Pool.{
  Malloc, Slab, SlabClass, SlabAllocator, no_slab, no_class, slab_size, slab_header, slab_at,
  class_at, set_class, class_sizes, push_free, add_slab, with_room, slab_init, slab_class_grow,
  slab_class_grow_slabs,
}
use kvx.Slab.Pool.Invariant.{IsMalloc, IsSlab, IsClass, IsPool, Ghost, Live}
use kvx.Slab.Pool.Update.{changed}
use kvx.Slab.Pool.Serve.{class_sizes-set}

-- The size of the chunks of a class.
pub chunk_bounds :
    (v : ℕ)
    → 24 < v
    → v ≤ 2 ^ 19
    → (24 < align_up v item_align) × (align_up v item_align ≤ 2 ^ 19) × (v ≤ align_up v item_align)
chunk_bounds v low high = (omega arith, omega arith, omega arith)

-- A new slab has room for at least one chunk.
chunks_of :
    (size : ℕ)
    → 24 < size
    → size ≤ 2 ^ 19
    → (0 < (slab_size - slab_header) / size)
      × ((slab_size - slab_header) / size * size ≤ slab_size - slab_header)
      × ((slab_size - slab_header) / size ≤ slab_size - slab_header)
chunks_of size low high =
    let positive : 0 < size = omega arith in
    let fits : 1 * size ≤ slab_size - slab_header = omega arith in
    (
      (le-div_iff_mul-le positive).1 fits,
      div-mul-le_self (slab_size - slab_header) size,
      div-le_self (slab_size - slab_header) size,
    )

slab_init-IsSlab :
    (m : Malloc) (ok : IsMalloc m) (mem : ℕ → Item) (number v c : ℕ)
    → 24 < v
    → v ≤ 2 ^ 19
    → IsSlab mem (m.block number) number (slab_init m number v c) [] []
unfolding slab_init
slab_init-IsSlab m ok mem number v c low high =
    let (low', high', _) = chunk_bounds v low high in
    let (some_chunk, room, few) = chunks_of (align_up v item_align) low' high' in
    record {
      chunk_size = (low', high');
      span = λ a h. cc h;
      spaced = λ a b h. cc h;
      bump = omega arith;
      rest = (slab_size - slab_header) / align_up v item_align;
      room = omega (arith, room);
      few = omega (arith, few);
      free_count = omega arith;
      chain = refl;
      distinct = tt;
      inside = λ a h. h;
      sized = λ a h. cc h;
      owned = λ a h. cc h;
    }

with_room-room :
    (sc : SlabClass)
    → 2 ≤ sc.slabs_cap
    → length sc.slabs ≤ sc.slabs_cap
    → length sc.slabs < (with_room sc).slabs_cap
unfolding slab_class_grow_slabs
with_room-room sc cap fits = elim (Bool-cases (length sc.slabs == sc.slabs_cap)) [
  | inl e ↦ rw e (omega (arith, cap, fits))
  | inr e ↦ rw e (ground (arith, e, fits))
]

-- Growing the arrays changes only their capacity.
with_room_fields :
    (sc : SlabClass)
    → ((with_room sc).data_chunk_size ≡ sc.data_chunk_size)
      × ((with_room sc).free_stack ≡ sc.free_stack)
      × ((with_room sc).slabs ≡ sc.slabs)
      × (sc.slabs_cap ≤ (with_room sc).slabs_cap)
unfolding slab_class_grow_slabs
with_room_fields sc = elim (Bool-cases (length sc.slabs == sc.slabs_cap)) [
  | inl e ↦ rw e (refl, refl, refl, omega arith)
  | inr e ↦ rw e (refl, refl, refl, omega arith)
]

module _ (m : Malloc) (ok : IsMalloc m) (h : SlabAllocator) (g : Ghost) (pool : IsPool m h g)
    (c : ℕ) (low : c < length h.classes) (full : (class_at h c).free_stack ≡ []) where
  abbrev number : ℕ
  number = length h.slabs

  abbrev sc : SlabClass
  sc = class_at h c

  abbrev fresh : Slab
  fresh = slab_init m number sc.data_chunk_size c

  abbrev sc' : SlabClass
  sc' = record {
    data_chunk_size = sc.data_chunk_size;
    free_stack = number ∷ [];
    slabs_cap = (with_room sc).slabs_cap;
    slabs = number ∷ sc.slabs;
  }

  abbrev grown : SlabAllocator
  grown = set_class (record h { slabs = h.slabs ++ (fresh ∷ []) }) c sc'

  abbrev g' : Ghost
  g' = changed g number [] []

  slab_class_grow-grown : slab_class_grow m h c ≡ some grown
  unfolding slab_class_grow add_slab push_free
  slab_class_grow-grown =
      let class = pool.classes c low in
      let (e1, e2, e3, more) = with_room_fields sc in
      let room = with_room-room sc class.cap.0 class.cap.1 in
      let f : ltb (length sc.slabs) (with_room sc).slabs_cap ≡ true = ground (arith, room) in
      let g : ltb 0 (with_room sc).slabs_cap ≡ true = ground (arith, room) in
      rw (e1, e2, e3, full, f, g) refl

  grown_length : length grown.slabs ≡ suc number
  grown_length = length-append h.slabs (fresh ∷ []) ∙ omega arith

  slab_at_old : (i : ℕ) → i < number → slab_at grown i ≡ slab_at h i
  slab_at_old i hi = get_or-append h.slabs (fresh ∷ []) i no_slab hi

  slab_at_new : slab_at grown number ≡ fresh
  slab_at_new =
      ap (λ i. get_or (h.slabs ++ (fresh ∷ [])) i no_slab) (omega arith)
      ∙ get_or-append_right h.slabs (fresh ∷ []) 0 no_slab

  -- A slab is one of the old ones or the new one.
  slab_cases : (i : ℕ) → i < length grown.slabs → (i < number) ⊎ (i ≡ number)
  slab_cases i hi = elim (Bool-cases (ltb i number)) [
    | inl e ↦ inl (ground (arith, e))
    | inr e ↦ inr (ground (arith, e, hi, grown_length))
  ]

  grown-Slabs :
      (i : ℕ)
      → i < length grown.slabs
      → IsSlab grown.mem (m.block i) i (slab_at grown i) (g'.carved i) (g'.freed i)
  grown-Slabs i hi = elim (slab_cases i hi) [
    | inl old ↦
        let e : (i == number) ≡ false = ground (arith, old) in
        rw (e, slab_at_old i old) (pool.slabs i old)
    | inr same ↦
        let e : (number == number) ≡ true = ground arith in
        let (low', high') = (pool.classes c low).size in
        rw (same, e, slab_at_new)
          (slab_init-IsSlab m ok h.mem number sc.data_chunk_size c low' high')
  ]

  grown-IsClass_other :
      (i : ℕ)
      → i ≢ c
      → i < length h.classes
      → IsClass (slab_at grown) (length grown.slabs) i (class_at h i)
  unfolding slab_init
  grown-IsClass_other i ne hi =
      let class = pool.classes i hi in
      record {
        size = class.size;
        cap = class.cap;
        member = λ s h.
            let (l, p, q) = class.member s h in
            (omega (arith, l, grown_length), rw (slab_at_old s l) p, rw (slab_at_old s l) q);
        all = λ s hs p. elim (slab_cases s hs) [
          | inl old ↦ class.all s old (sym (ap (λ r. r.parent_slab_class) (slab_at_old s old)) ∙ p)
          | inr same ↦
              let parent : c ≡ i =
                sym (ap (λ r. r.parent_slab_class) (ap (slab_at grown) same ∙ slab_at_new)) ∙ p in
              absurd (ne (sym parent))
        ];
        stack = λ s. (
          λ f.
              let (mem, room) = (class.stack s).0 f in
              (mem, rw (slab_at_old s (class.member s mem).0) room),
          λ (mem, room). (class.stack s).1 (mem, rw (← slab_at_old s (class.member s mem).0) room),
        );
        distinct = class.distinct;
      }

  grown-IsClass : IsClass (slab_at grown) (length grown.slabs) c sc'
  unfolding slab_init
  grown-IsClass =
      let class = pool.classes c low in
      let room = with_room-room sc class.cap.0 class.cap.1 in
      let (_, _, _, more) = with_room_fields sc in
      let (low', high', _) = chunk_bounds sc.data_chunk_size class.size.0 class.size.1 in
      let (some_chunk, _, _) = chunks_of (align_up sc.data_chunk_size item_align) low' high' in
      record {
        size = class.size;
        cap = (omega (arith, class.cap.0, more), room);
        member = λ s f. elim (has-cases s number sc.slabs f) [
          | inl same ↦ rw (same, slab_at_new) (omega (arith, grown_length), refl, refl)
          | inr old ↦
              let (l, p, q) = class.member s old in
              (omega (arith, l, grown_length), rw (slab_at_old s l) p, rw (slab_at_old s l) q)
        ];
        all = λ s hs p. elim (slab_cases s hs) [
          | inl old ↦
              has-tail s number sc.slabs
                (class.all s old (sym (ap (λ r. r.parent_slab_class) (slab_at_old s old)) ∙ p))
          | inr same ↦ ground (arith, same)
        ];
        stack = λ s. (
          λ f. elim (has-cases s number [] f) [
            | inl same ↦ (ground (arith, same), rw (same, slab_at_new) some_chunk)
            | inr none_left ↦ cc none_left
          ],
          λ (mem, room). elim (has-cases s number sc.slabs mem) [
            | inl same ↦ ground (arith, same)
            | inr old ↦
                let l = (class.member s old).0 in
                let on : has s sc.free_stack ≡ true =
                  (class.stack s).1 (old, rw (← slab_at_old s l) room) in
                cc (sym (ap (has s) full) ∙ on)
          ],
        );
        distinct = (refl, tt);
      }

  grown_classes : length grown.classes ≡ length h.classes
  grown_classes = length-set h.classes c sc'

  grown-IsPool : IsPool m grown g'
  unfolding slab_init
  grown-IsPool = record {
    slabs = grown-Slabs;
    parents = λ i hi. elim (slab_cases i hi) [
      | inl old ↦ rw (slab_at_old i old, grown_classes) (pool.parents i old)
      | inr same ↦ rw (same, slab_at_new, grown_classes) low
    ];
    classes = λ i hi. elim (Bool-cases (i == c)) [
      | inl e ↦
          let same : i ≡ c = ground (arith, e) in
          rw (same, get_or-set_self h.classes c sc' no_class low) grown-IsClass
      | inr e ↦
          let ne : i ≢ c = ground (arith, e) in
          rw (get_or-set_ne h.classes c i sc' no_class (λ q. ne (sym q)))
            (grown-IsClass_other i ne (omega (arith, hi, grown_classes)))
    ];
  }

  grown-Live : (b : ℕ) → Live grown g' b ↔ Live h g b
  grown-Live b = (
    λ l. elim (slab_cases l.slab l.low) [
      | inl old ↦
          let e : (l.slab == number) ≡ false = ground (arith, old) in
          record { slab = l.slab; low = old; carved = rw e at l.carved; taken = rw e at l.taken }
      | inr same ↦ let e : (l.slab == number) ≡ true = ground (arith, same) in cc (rw e at l.carved)
    ],
    λ l.
        let e : (l.slab == number) ≡ false = ground (arith, l.low) in
        record {
          slab = l.slab;
          low = omega (arith, l.low, grown_length);
          carved = rw e l.carved;
          taken = rw e l.taken;
        },
  )

  -- A class grows by a slab that is all free.
  pub slab_class_grow-IsPool :
      (h' : SlabAllocator) × (s : ℕ) × (g1 : Ghost) × (slab_class_grow m h c ≡ some h')
      × IsPool m h' g1
      × ((class_at h' c).free_stack ≡ s ∷ [])
      × ((class_at h' c).data_chunk_size ≡ sc.data_chunk_size)
      × (class_sizes h'.classes ≡ class_sizes h.classes)
      × ((b : ℕ) → Live h' g1 b ↔ Live h g b)
      × ((b : ℕ) → h'.mem b ≡ h.mem b)
  slab_class_grow-IsPool =
      let at_c = get_or-set_self h.classes c sc' no_class low in
      (
        grown,
        number,
        g',
        slab_class_grow-grown,
        grown-IsPool,
        ap (λ r. r.free_stack) at_c,
        ap (λ r. r.data_chunk_size) at_c,
        class_sizes-set h.classes c sc' refl,
        grown-Live,
        λ b. refl,
      )
