-- ===== src/Slab/Pool/Take.antt =====
-- slab_alloc_item of src/slab_alloc.c on a slab that has room.
use kvx.Common.{
  ℕ, ◌+◌, ◌-◌, ◌<◌, ◌≡◌, ◌≢◌, ◌⊎◌, ◌↔◌, refl, sym, subst, ap, ◌∙◌, true, false, none, some, List,
  [], ◌∷◌, arith, length, ◌==◌, inl, inr, Bool-cases, length-set,
}
use kvx.Common.Members.{has, has-head, has-tail, has-cases}
use kvx.Slab.{item_size}
use kvx.Slab.Pool.{
  Malloc, Slab, SlabAllocator, slab_at, write, link, hand_out, take_chunk, slab_alloc_item,
}
use kvx.Slab.Pool.Invariant.{IsMalloc, Chain, IsSlab, Ghost, Live}
use kvx.Slab.Pool.Chunk.{stamped, write_self, write_ne, take_free-IsSlab, take_bump-IsSlab}
use kvx.Slab.Pool.Update.{
  InBlock, IsSlab-InBlock, apart_addresses, changed, updated-IsSlab, updated-Live, slab_at_self,
  slab_at_ne, Live-parts,
}

abbrev pub Slabs : Malloc → SlabAllocator → Ghost → Type 0
Slabs m h g =
    (i : ℕ) → i < length h.slabs → IsSlab h.mem (m.block i) i (slab_at h i) (g.carved i) (g.freed i)

-- A chunk of slab `s` was handed out at `a`.
pub record Taken (m : Malloc) (h : SlabAllocator) (g : Ghost) (s : ℕ) (h' : SlabAllocator) (a : ℕ)
    (g' : Ghost) : Type 0 where
  pub slabs : Slabs m h' g'
  pub count : length h'.slabs ≡ length h.slabs
  pub classes : h'.classes ≡ h.classes
  pub parent : (slab_at h' s).parent_slab_class ≡ (slab_at h s).parent_slab_class
  pub chunk_size : (slab_at h' s).chunk_size ≡ (slab_at h s).chunk_size
  pub free_count : (slab_at h' s).free_count ≡ (slab_at h s).free_count - 1
  pub others : (i : ℕ) → i ≢ s → slab_at h' i ≡ slab_at h i
  pub live : (b : ℕ) → Live h' g' b ↔ (Live h g b ⊎ (b ≡ a))
  pub fresh : Live h g a → true ≡ false
  pub data_size : (h'.mem a).data_size ≡ (slab_at h s).chunk_size - item_size
  pub size : length (h'.mem a).payload ≡ (slab_at h s).chunk_size - item_size
  pub mem : (b : ℕ) → b ≢ a → h'.mem b ≡ h.mem b

-- The parts of a live item before and after, where one address was added in slab `s`.
added-Live :
    (h h' : SlabAllocator) (g : Ghost) (s a : ℕ) (carved' freed' : List ℕ)
    → s < length h.slabs
    → ((b : ℕ)
        → Live h' (changed g s carved' freed') b ↔ (
            ((i : ℕ) × (i ≢ s)
              × (i < length h.slabs)
              × (has b (g.carved i) ≡ true)
              × (has b (g.freed i) ≡ false))
            ⊎ ((has b carved' ≡ true) × (has b freed' ≡ false))))
    → ((b : ℕ)
        → ((has b carved' ≡ true) × (has b freed' ≡ false))
          ↔ (((has b (g.carved s) ≡ true) × (has b (g.freed s) ≡ false)) ⊎ (b ≡ a)))
    → (b : ℕ) → Live h' (changed g s carved' freed') b ↔ (Live h g b ⊎ (b ≡ a))
added-Live h h' g s a carved' freed' low law here b = (
  λ live. elim ((law b).0 live) [
    | inl others ↦ inl ((Live-parts h g s low b).1 (inl others))
    | inr own ↦ elim ((here b).0 own) [
      | inl before ↦ inl ((Live-parts h g s low b).1 (inr before))
      | inr e ↦ inr e
    ]
  ],
  λ r. elim r [
    | inr e ↦ (law b).1 (inr ((here b).1 (inr e)))
    | inl live ↦ elim ((Live-parts h g s low b).0 live) [
      | inl others ↦ (law b).1 (inl others)
      | inr before ↦ (law b).1 (inr ((here b).1 (inl before)))
    ]
  ],
)

module _ (m : Malloc) (ok : IsMalloc m) (h : SlabAllocator) (g : Ghost) (slabs : Slabs m h g)
    (s : ℕ) (low : s < length h.slabs) where
  abbrev slab : Slab
  slab = slab_at h s

  -- An address in the block of slab `s` that is not handed out there is not handed out.
  not-Live :
      (a : ℕ)
      → InBlock (m.block s) a
      → ((has a (g.carved s) ≡ true) × (has a (g.freed s) ≡ false) → true ≡ false)
      → Live h g a
      → true ≡ false
  not-Live a inside out live = elim ((Live-parts h g s low a).0 live) [
    | inr own ↦ out own
    | inl (i, ne, hi, c, f) ↦ absurd (
        apart_addresses m i s a a ok ne
          (IsSlab-InBlock h.mem (m.block i) i (slab_at h i) (g.carved i) (g.freed i) a (slabs i hi)
            c)
          inside refl)
  ]

  free_list-Taken :
      (a : ℕ) (rest : List ℕ)
      → g.freed s ≡ a ∷ rest
      → slab.free_list ≡ some a
      → Taken m h g s (take_chunk m h s slab (some a)).0 a (changed g s (g.carved s) rest)
  unfolding take_chunk hand_out
  free_list-Taken a rest e head =
      let own : IsSlab h.mem (m.block s) s slab (g.carved s) (a ∷ rest) =
        subst (λ f. IsSlab h.mem (m.block s) s slab (g.carved s) f) e (slabs s low) in
      let new = take_free-IsSlab h.mem (m.block s) s slab (g.carved s) a rest own in
      let here = own.inside a (has-head a rest) in
      let inside = IsSlab-InBlock h.mem (m.block s) s slab (g.carved s) (a ∷ rest) a own here in
      let slab' : Slab = record slab {
        free_list = link (h.mem a).slab_ptr;
        free_count = slab.free_count - 1;
      } in
      let mem' = write h.mem a (stamped h.mem (m.block s) s slab (h.mem a)) in
      let same = λ (b : ℕ) (ne : b ≢ a).
        write_ne h.mem a b (stamped h.mem (m.block s) s slab (h.mem a)) ne in
      let at_s = slab_at_self m ok h g slabs s low slab' (g.carved s) rest mem' a inside same new in
      record {
        slabs = updated-IsSlab m ok h g slabs s low slab' (g.carved s) rest mem' a inside same new;
        count = length-set h.slabs s slab';
        classes = refl;
        parent = ap (λ r. r.parent_slab_class) at_s;
        chunk_size = ap (λ r. r.chunk_size) at_s;
        free_count = ap (λ r. r.free_count) at_s;
        others = slab_at_ne m ok h g slabs s low slab' (g.carved s) rest mem' a inside same new;
        live =
            added-Live h _ g s a (g.carved s) rest low
              (updated-Live m ok h g slabs s low slab' (g.carved s) rest mem' a inside same new)
              (λ b. (
                λ (c, f). elim (Bool-cases (b == a)) [
                  | inl q ↦ inr (ground (arith, q))
                  | inr q ↦ inl (c, rw e (ground (arith, q, f)))
                ],
                λ r. elim r [
                  | inl (c, f) ↦
                      let f' : has b (a ∷ rest) ≡ false = ap (has b) (sym e) ∙ f in
                      (c, ground (arith, f'))
                  | inr q ↦ rw q (here, own.distinct.0)
                ],
              ));
        fresh = not-Live a inside (λ (c, f). cc (ap (has a) (sym e) ∙ f, has-head a rest));
        data_size = ap (λ r. r.data_size) (write_self h.mem a _) ∙ omega (arith, own.chunk_size.1);
        size = ap (λ r. length r.payload) (write_self h.mem a _) ∙ own.sized a here;
        mem = same;
      }

  bump-Taken :
      g.freed s ≡ []
      → slab.free_count ≢ 0
      → Taken m h g s
          (take_chunk m h s slab none).0
          slab.bump
          (changed g s (slab.bump ∷ g.carved s) [])
  unfolding take_chunk hand_out
  bump-Taken e room =
      let own : IsSlab h.mem (m.block s) s slab (g.carved s) [] =
        subst (λ f. IsSlab h.mem (m.block s) s slab (g.carved s) f) e (slabs s low) in
      let a = slab.bump in
      let junk = m.junk a (slab.chunk_size - item_size) in
      let long = ok.junk a (slab.chunk_size - item_size) in
      let new = take_bump-IsSlab h.mem (m.block s) s slab (g.carved s) junk own room long in
      let item = stamped h.mem (m.block s) s slab (record (h.mem a) { payload = junk }) in
      let slab' : Slab = record slab {
        bump = a + slab.chunk_size;
        free_count = slab.free_count - 1;
      } in
      let mem' = write h.mem a item in
      let inside =
        IsSlab-InBlock mem' (m.block s) s slab' (a ∷ g.carved s) [] a new
          (has-head a (g.carved s)) in
      let same = λ (b : ℕ) (ne : b ≢ a). write_ne h.mem a b item ne in
      let at_s =
        slab_at_self m ok h g slabs s low slab' (a ∷ g.carved s) [] mem' a inside same new in
      let uncut : has a (g.carved s) ≡ true → true ≡ false =
        λ c. let (_, high) = own.span a c in absurd (omega (arith, high, own.chunk_size.0)) in
      record {
        slabs =
            updated-IsSlab m ok h g slabs s low slab' (a ∷ g.carved s) [] mem' a inside same new;
        count = length-set h.slabs s slab';
        classes = refl;
        parent = ap (λ r. r.parent_slab_class) at_s;
        chunk_size = ap (λ r. r.chunk_size) at_s;
        free_count = ap (λ r. r.free_count) at_s;
        others = slab_at_ne m ok h g slabs s low slab' (a ∷ g.carved s) [] mem' a inside same new;
        live =
            added-Live h _ g s a (a ∷ g.carved s) [] low
              (updated-Live m ok h g slabs s low slab' (a ∷ g.carved s) [] mem' a inside same new)
              (λ b. (
                λ (c, f). elim (has-cases b a (g.carved s) c) [
                  | inl q ↦ inr q
                  | inr old ↦ inl (old, rw e refl)
                ],
                λ r. elim r [
                  | inl (c, f) ↦ (has-tail b a (g.carved s) c, refl)
                  | inr q ↦ (ground (arith, q), refl)
                ],
              ));
        fresh = not-Live a inside (λ (c, f). uncut c);
        data_size =
            ap (λ r. r.data_size) (write_self h.mem a item) ∙ omega (arith, own.chunk_size.1);
        size = ap (λ r. length r.payload) (write_self h.mem a item) ∙ long;
        mem = same;
      }

  take_by_list :
      (freed : List ℕ)
      → g.freed s ≡ freed
      → slab.free_count ≢ 0
      → Chain h.mem slab.free_list freed
      → (a : ℕ) × (g' : Ghost) × ((take_chunk m h s slab slab.free_list).1 ≡ a)
        × Taken m h g s (take_chunk m h s slab slab.free_list).0 a g'
  unfolding take_chunk
  take_by_list [] e room chain = (
    slab.bump,
    changed g s (slab.bump ∷ g.carved s) [],
    ap (λ o. (take_chunk m h s slab o).1) chain,
    subst
        (λ o.
          Taken m h g s (take_chunk m h s slab o).0 slab.bump
            (changed g s (slab.bump ∷ g.carved s) []))
        (sym chain) (bump-Taken e room),
  )
  take_by_list (a ∷ rest) e room chain = (
    a,
    changed g s (g.carved s) rest,
    ap (λ o. (take_chunk m h s slab o).1) chain.0,
    subst (λ o. Taken m h g s (take_chunk m h s slab o).0 a (changed g s (g.carved s) rest))
        (sym chain.0) (free_list-Taken a rest e chain.0),
  )

  -- A slab with room hands out a chunk.
  pub slab_alloc_item-Taken :
      slab.free_count ≢ 0
      → (a : ℕ) × (g' : Ghost) × (h' : SlabAllocator) × (slab_alloc_item m h s ≡ (h', some a))
        × Taken m h g s h' a g'
  unfolding slab_alloc_item
  slab_alloc_item-Taken room =
      let (a, g', e, taken) = take_by_list (g.freed s) refl room (slabs s low).chain in
      let full : (slab.free_count == 0) ≡ false = ground (arith, room) in
      (
        a,
        g',
        (take_chunk m h s slab slab.free_list).0,
        rw full (ap (λ r. ((take_chunk m h s slab slab.free_list).0, some r)) e),
        taken,
      )
