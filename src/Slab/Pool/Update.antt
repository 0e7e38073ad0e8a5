-- ===== src/Slab/Pool/Update.antt =====
-- One slab of the allocator and the memory of one chunk in it change: the other slabs do not.
use kvx.Common.{
  ℕ, ◌+◌, ◌<◌, ◌≡◌, ◌≢◌, ◌⊎◌, ◌↔◌, sym, ap, ◌∙◌, true, false, List, arith, length, set, ◌==◌,
  if◌then◌else◌, inl, inr, Bool-cases, length-set, get_or-set_self, get_or-set_ne,
}
use kvx.Common.Members.{has}
use kvx.Item.{Item}
use kvx.Slab.Pool.{Malloc, Slab, SlabAllocator, no_slab, slab_size, slab_at}
use kvx.Slab.Pool.Invariant.{IsMalloc, IsSlab, Ghost, Live}
use kvx.Slab.Pool.Chunk.{Alike-refl, IsSlab-frame}

abbrev pub InBlock : ℕ → ℕ → Type 0
InBlock start a = (start < a) × (a < start + slab_size)

pub IsSlab-InBlock :
    (mem : ℕ → Item) (start s : ℕ) (slab : Slab) (carved freed : List ℕ) (a : ℕ)
    → IsSlab mem start s slab carved freed
    → has a carved ≡ true
    → InBlock start a
IsSlab-InBlock mem start s slab carved freed a ok h =
    let (low, high) = ok.span a h in
    let big = ok.chunk_size.0 in (omega (arith, low), omega (arith, high, big, ok.room))

-- The blocks of two slabs have no address in common.
pub apart_addresses :
    (m : Malloc) (i j a b : ℕ)
    → IsMalloc m
    → i ≢ j
    → InBlock (m.block i) a
    → InBlock (m.block j) b
    → a ≢ b
apart_addresses m i j a b ok ne (la, ha) (lb, hb) = λ e. elim (ok.apart i j ne) [
  | inl before ↦ omega (arith, before, la, ha, lb, hb, e)
  | inr after ↦ omega (arith, after, la, ha, lb, hb, e)
]

abbrev pub update {ℓ} : {A : Type ℓ} → (ℕ → A) → ℕ → A → ℕ → A
update f s v i = if i == s then v else f i

abbrev pub changed : Ghost → ℕ → List ℕ → List ℕ → Ghost
changed g s carved freed = record {
  carved = update g.carved s carved;
  freed = update g.freed s freed;
}

module _ (m : Malloc) (ok : IsMalloc m) (h : SlabAllocator) (g : Ghost)
    (slabs : (i : ℕ)
      → i < length h.slabs
      → IsSlab h.mem (m.block i) i (slab_at h i) (g.carved i) (g.freed i))
    (s : ℕ) (low : s < length h.slabs) (slab' : Slab) (carved' freed' : List ℕ) (mem' : ℕ → Item)
    (a : ℕ) (inside : InBlock (m.block s) a) (same : (b : ℕ) → b ≢ a → mem' b ≡ h.mem b)
    (new : IsSlab mem' (m.block s) s slab' carved' freed') where
  abbrev pub updated : SlabAllocator
  updated = record h { mem = mem'; slabs = set h.slabs s slab' }

  abbrev g' : Ghost
  g' = changed g s carved' freed'

  pub slab_at_self : slab_at updated s ≡ slab'
  slab_at_self = get_or-set_self h.slabs s slab' no_slab low

  pub slab_at_ne : (i : ℕ) → i ≢ s → slab_at updated i ≡ slab_at h i
  slab_at_ne i ne = get_or-set_ne h.slabs s i slab' no_slab (λ e. ne (sym e))

  pub updated-IsSlab :
      (i : ℕ)
      → i < length updated.slabs
      → IsSlab updated.mem (m.block i) i (slab_at updated i) (g'.carved i) (g'.freed i)
  updated-IsSlab i hi = elim (Bool-cases (i == s)) [
    | inl e ↦ let same_slab : i ≡ s = ground (arith, e) in rw (e, same_slab, slab_at_self) new
    | inr e ↦
        let ne : i ≢ s = ground (arith, e) in
        let there : i < length h.slabs = omega (arith, hi, length-set h.slabs s slab') in
        let before = slabs i there in
        rw (e, slab_at_ne i ne)
          (IsSlab-frame h.mem mem' (m.block i) i (slab_at h i) (g.carved i) (g.freed i)
            (λ b hb.
              let far : b ≢ a =
                apart_addresses m i s b a ok ne
                  (IsSlab-InBlock h.mem (m.block i) i (slab_at h i) (g.carved i) (g.freed i) b
                    before hb)
                  inside in
              rw (same b far) (Alike-refl (h.mem b)))
            before)
  ]

  -- What is handed out in the other slabs, and what in this one.
  pub updated-Live :
      (b : ℕ)
      → Live updated g' b ↔ (
          ((i : ℕ) × (i ≢ s)
            × (i < length h.slabs)
            × (has b (g.carved i) ≡ true)
            × (has b (g.freed i) ≡ false))
          ⊎ ((has b carved' ≡ true) × (has b freed' ≡ false)))
  updated-Live b = (
    λ live. elim (Bool-cases (live.slab == s)) [
      | inl e ↦ inr (rw e at live.carved, rw e at live.taken)
      | inr e ↦ inl (
        live.slab,
        ground (arith, e),
        omega (arith, live.low, length-set h.slabs s slab'),
        rw e at live.carved,
        rw e at live.taken,
      )
    ],
    λ r. elim r [
      | inl (i, ne, hi, c, f) ↦
          let e : (i == s) ≡ false = ground (arith, ne) in
          record {
            slab = i;
            low = omega (arith, hi, length-set h.slabs s slab');
            carved = rw e c;
            taken = rw e f;
          }
      | inr (c, f) ↦
          let e : (s == s) ≡ true = ground arith in
          record {
            slab = s;
            low = omega (arith, low, length-set h.slabs s slab');
            carved = rw e c;
            taken = rw e f;
          }
    ],
  )

-- What is handed out, by whether it is in slab `s`.
pub Live-parts :
    (h : SlabAllocator) (g : Ghost) (s : ℕ)
    → s < length h.slabs
    → (b : ℕ)
    → Live h g b ↔ (
        ((i : ℕ) × (i ≢ s)
          × (i < length h.slabs)
          × (has b (g.carved i) ≡ true)
          × (has b (g.freed i) ≡ false))
        ⊎ ((has b (g.carved s) ≡ true) × (has b (g.freed s) ≡ false)))
Live-parts h g s low b = (
  λ live. elim (Bool-cases (live.slab == s)) [
    | inl e ↦
        let same : live.slab ≡ s = ground (arith, e) in
        inr (
          ap (λ i. has b (g.carved i)) (sym same) ∙ live.carved,
          ap (λ i. has b (g.freed i)) (sym same) ∙ live.taken,
        )
    | inr e ↦ inl (live.slab, ground (arith, e), live.low, live.carved, live.taken)
  ],
  λ r. elim r [
    | inl (i, ne, hi, c, f) ↦ record { slab = i; low = hi; carved = c; taken = f }
    | inr (c, f) ↦ record { slab = s; low = low; carved = c; taken = f }
  ],
)
