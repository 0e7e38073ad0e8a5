-- ===== src/Slab/Pool/Stacks.antt =====
-- One slab and its class' stack of slabs with room change together.
use kvx.Common.{
  ℕ, ◌<◌, ◌≡◌, ◌≢◌, ◌⊎◌, ◌↔◌, refl, sym, ap, ◌∙◌, true, false, List, ◌∷◌, arith, length, ◌==◌, inl,
  inr, Bool-cases,
}
use kvx.Common.Members.{has, Distinct, Distinct-length}
use kvx.Slab.Pool.{Malloc, Slab, SlabClass, SlabAllocator, slab_at, class_at}
use kvx.Slab.Pool.Invariant.{IsClass, IsPool, Ghost}
use kvx.Slab.Pool.Take.{Slabs}

-- The new stack of a class, where slab `s` has changed.
pub record Restacked (slabs' : ℕ → Slab) (sc : SlabClass) (s : ℕ) (stack' : List ℕ) : Type 0 where
  pub here : (has s stack' ≡ true) ↔ ((has s sc.slabs ≡ true) × (0 < (slabs' s).free_count))
  pub there : (i : ℕ) → i ≢ s → has i stack' ≡ has i sc.free_stack
  pub distinct : Distinct stack'

IsClass-Restacked :
    (slabs slabs' : ℕ → Slab) (count c s : ℕ) (sc : SlabClass) (stack' : List ℕ)
    → IsClass slabs count c sc
    → (slabs' s).parent_slab_class ≡ (slabs s).parent_slab_class
    → (slabs' s).chunk_size ≡ (slabs s).chunk_size
    → ((i : ℕ) → i ≢ s → slabs' i ≡ slabs i)
    → Restacked slabs' sc s stack'
    → IsClass slabs' count c (record sc { free_stack = stack' })
IsClass-Restacked slabs slabs' count c s sc stack' ok parent chunk others new =
    let parents : (i : ℕ) → (slabs' i).parent_slab_class ≡ (slabs i).parent_slab_class = λ i.
      elim (Bool-cases (i == s)) [
        | inl e ↦ let f : i ≡ s = ground (arith, e) in rw f parent
        | inr e ↦ ap (λ r. r.parent_slab_class) (others i (ground (arith, e)))
      ] in
    let chunks : (i : ℕ) → (slabs' i).chunk_size ≡ (slabs i).chunk_size = λ i.
      elim (Bool-cases (i == s)) [
        | inl e ↦ let f : i ≡ s = ground (arith, e) in rw f chunk
        | inr e ↦ ap (λ r. r.chunk_size) (others i (ground (arith, e)))
      ] in
    record {
      size = ok.size;
      cap = ok.cap;
      member = λ i h. let (low, p, q) = ok.member i h in (low, parents i ∙ p, chunks i ∙ q);
      all = λ i low p. ok.all i low (sym (parents i) ∙ p);
      stack = λ i. elim (Bool-cases (i == s)) [
        | inl e ↦ let f : i ≡ s = ground (arith, e) in rw f new.here
        | inr e ↦
            let ne : i ≢ s = ground (arith, e) in rw (new.there i ne, others i ne) (ok.stack i)
      ];
      distinct = new.distinct;
    }

-- Where the slab has room before and after, the stack stays.
pub Restacked-same :
    (slabs slabs' : ℕ → Slab) (count c s : ℕ) (sc : SlabClass)
    → IsClass slabs count c sc
    → ((0 < (slabs' s).free_count) ↔ (0 < (slabs s).free_count)) ⊎ (has s sc.slabs ≡ false)
    → Restacked slabs' sc s sc.free_stack
Restacked-same slabs slabs' count c s sc ok same = record {
  here = (
    λ h.
        let (m, f) = (ok.stack s).0 h in
        elim same [ inl law ↦ (m, law.1 f) | inr out ↦ cc (m, out) ],
    λ (m, f). elim same [ inl law ↦ (ok.stack s).1 (m, law.0 f) | inr out ↦ cc (m, out) ],
  );
  there = λ i ne. refl;
  distinct = ok.distinct;
}

-- The stack has room for one more slab, where one of the class is not in it.
pub stack_room :
    (slabs : ℕ → Slab) (count c s : ℕ) (sc : SlabClass)
    → IsClass slabs count c sc
    → has s sc.slabs ≡ true
    → has s sc.free_stack ≡ false
    → length sc.free_stack < sc.slabs_cap
stack_room slabs count c s sc ok member out =
    let fits =
      Distinct-length (s ∷ sc.free_stack) sc.slabs (out, ok.distinct)
        (λ i h. elim (Bool-cases (i == s)) [
          | inl e ↦ let f : i ≡ s = ground (arith, e) in rw f member
          | inr e ↦ ((ok.stack i).0 (ground (arith, e, h))).0
        ]) in
    omega (arith, fits, ok.cap.1)

-- A new pool after a change of slab `s`, of class `c`, and of the class' stack.
pub IsPool-Restacked :
    (m : Malloc) (h h' : SlabAllocator) (g g' : Ghost) (s c : ℕ) (stack' : List ℕ)
    → IsPool m h g
    → s < length h.slabs
    → (slab_at h s).parent_slab_class ≡ c
    → Slabs m h' g'
    → length h'.slabs ≡ length h.slabs
    → (slab_at h' s).parent_slab_class ≡ (slab_at h s).parent_slab_class
    → (slab_at h' s).chunk_size ≡ (slab_at h s).chunk_size
    → ((i : ℕ) → i ≢ s → slab_at h' i ≡ slab_at h i)
    → length h'.classes ≡ length h.classes
    → class_at h' c ≡ record (class_at h c) { free_stack = stack' }
    → ((i : ℕ) → i ≢ c → class_at h' i ≡ class_at h i)
    → Restacked (slab_at h') (class_at h c) s stack'
    → IsPool m h' g'
IsPool-Restacked m h h' g g' s c stack' ok low in_class slabs count parent chunk others classes at_c
      elsewhere new =
    record {
      slabs = slabs;
      parents = λ i hi.
          let before = ok.parents i (omega (arith, hi, count)) in
          elim (Bool-cases (i == s)) [
            | inl e ↦
                let f : i ≡ s = ground (arith, e) in
                let p = ok.parents s low in rw (f, parent, classes) p
            | inr e ↦ rw (others i (ground (arith, e)), classes) before
          ];
      classes = λ i hi.
          let there : i < length h.classes = omega (arith, hi, classes) in
          elim (Bool-cases (i == c)) [
            | inl e ↦
                let f : i ≡ c = ground (arith, e) in
                rw (f, count, at_c)
                  (IsClass-Restacked (slab_at h) (slab_at h') (length h.slabs) c s (class_at h c)
                    stack' (ok.classes c (omega (arith, there, f))) parent chunk others new)
            | inr e ↦
                let ne : i ≢ c = ground (arith, e) in
                let before = ok.classes i there in
                let out : has s (class_at h i).slabs ≡ false =
                  elim (Bool-cases (has s (class_at h i).slabs)) [
                    | inl member ↦ absurd (ne (sym (before.member s member).1 ∙ in_class))
                    | inr out ↦ out
                  ] in
                rw (count, elsewhere i ne)
                  (IsClass-Restacked (slab_at h) (slab_at h') (length h.slabs) i s (class_at h i)
                    (class_at h i).free_stack before parent chunk others
                    (Restacked-same (slab_at h) (slab_at h') (length h.slabs) i s (class_at h i)
                      before (inr out)))
          ];
    }
