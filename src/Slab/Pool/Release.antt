-- ===== src/Slab/Pool/Release.antt =====
-- slab_allocator_free_item of src/slab_alloc.c on the slab of the item.
use kvx.Common.{
  ℕ, ◌+◌, ◌^◌, ◌%◌, ◌≡◌, ◌≢◌, ◌↔◌, refl, sym, subst, ap, ◌∙◌, true, some, ◌∷◌, arith, length, set,
  inl, inr, length-set,
}
use kvx.Common.Members.{has, Distinct-length}
use kvx.Slab.Pool.{Malloc, Slab, SlabAllocator, slab_at, write, word_of, put_back}
use kvx.Slab.Pool.Invariant.{IsMalloc, IsSlab, Ghost, Live}
use kvx.Slab.Pool.Chunk.{write_self, write_ne, put_back-IsSlab}
use kvx.Slab.Pool.Update.{
  IsSlab-InBlock, apart_addresses, changed, updated-IsSlab, updated-Live, slab_at_self, slab_at_ne,
  Live-parts,
}
use kvx.Slab.Pool.Take.{Slabs}

-- The item at `a` was given back to slab `s`.
pub record Released (m : Malloc) (h : SlabAllocator) (g : Ghost) (s : ℕ) (h' : SlabAllocator)
    (a : ℕ) (g' : Ghost) : Type 0 where
  pub slabs : Slabs m h' g'
  pub count : length h'.slabs ≡ length h.slabs
  pub classes : h'.classes ≡ h.classes
  pub parent : (slab_at h' s).parent_slab_class ≡ (slab_at h s).parent_slab_class
  pub chunk_size : (slab_at h' s).chunk_size ≡ (slab_at h s).chunk_size
  pub free_count : (slab_at h' s).free_count ≡ (slab_at h s).free_count + 1
  pub others : (i : ℕ) → i ≢ s → slab_at h' i ≡ slab_at h i
  pub live : (b : ℕ) → Live h' g' b ↔ (Live h g b × (b ≢ a))
  pub mem : (b : ℕ) → b ≢ a → h'.mem b ≡ h.mem b
  pub overwritten : (p : ℕ) × (h'.mem a ≡ record (h.mem a) { slab_ptr = p })

module _ (m : Malloc) (ok : IsMalloc m) (h : SlabAllocator) (g : Ghost) (slabs : Slabs m h g)
    (a : ℕ) (live : Live h g a) where
  abbrev s : ℕ
  s = live.slab

  abbrev slab : Slab
  slab = slab_at h s

  abbrev own : IsSlab h.mem (m.block s) s slab (g.carved s) (g.freed s)
  own = slabs s live.low

  pub slab_ptr_live : (h.mem a).slab_ptr ≡ s
  slab_ptr_live = (own.owned a live.carved live.taken).0

  abbrev released : SlabAllocator
  released = record h {
    mem = write h.mem a (record (h.mem a) { slab_ptr = word_of slab.free_list });
    slabs =
        set h.slabs s
          (record slab { free_list = some a; free_count = (slab.free_count + 1) % 2 ^ 64 });
  }

  put_back-released : put_back h a ≡ released
  unfolding put_back
  put_back-released = rw slab_ptr_live refl

  released-Released : Released m h g s released a (changed g s (g.carved s) (a ∷ g.freed s))
  released-Released =
      let inside =
        IsSlab-InBlock h.mem (m.block s) s slab (g.carved s) (g.freed s) a own live.carved in
      let new =
        put_back-IsSlab h.mem (m.block s) s slab (g.carved s) (g.freed s) a own live.carved
          live.taken (omega (arith, inside.0)) in
      let slab' : Slab = record slab {
        free_list = some a;
        free_count = (slab.free_count + 1) % 2 ^ 64;
      } in
      let item = record (h.mem a) { slab_ptr = word_of slab.free_list } in
      let mem' = write h.mem a item in
      let same = λ (b : ℕ) (ne : b ≢ a). write_ne h.mem a b item ne in
      let low = live.low in
      let carved' = g.carved s in
      let freed' = a ∷ g.freed s in
      let at_s = slab_at_self m ok h g slabs s low slab' carved' freed' mem' a inside same new in
      let law = updated-Live m ok h g slabs s low slab' carved' freed' mem' a inside same new in
      let fits = Distinct-length freed' carved' new.distinct new.inside in
      record {
        slabs = updated-IsSlab m ok h g slabs s low slab' carved' freed' mem' a inside same new;
        count = length-set h.slabs s slab';
        classes = refl;
        parent = ap (λ r. r.parent_slab_class) at_s;
        chunk_size = ap (λ r. r.chunk_size) at_s;
        free_count = ap (λ r. r.free_count) at_s ∙ omega (arith, own.free_count, own.few, fits);
        others = slab_at_ne m ok h g slabs s low slab' carved' freed' mem' a inside same new;
        live = λ b. (
          λ l. elim ((law b).0 l) [
            | inl (i, ne, hi, c, f) ↦ (
              (Live-parts h g s low b).1 (inl (i, ne, hi, c, f)),
              apart_addresses m i s b a ok ne
                  (IsSlab-InBlock h.mem (m.block i) i (slab_at h i) (g.carved i) (g.freed i) b
                    (slabs i hi) c)
                  inside,
            )
            | inr (c, f) ↦ (
              (Live-parts h g s low b).1 (inr (c, ground (arith, f))),
              λ e. cc (ap (λ r. has r freed') (sym e) ∙ f, freed_head),
            )
          ],
          λ (l, ne). elim ((Live-parts h g s low b).0 l) [
            | inl others ↦ (law b).1 (inl others)
            | inr (c, f) ↦ (law b).1 (inr (c, ground (arith, f, ne)))
          ],
        );
        mem = same;
        overwritten = (_, write_self h.mem a item);
      }
    where
      freed_head : has a (a ∷ g.freed s) ≡ true
      freed_head = ground arith

  pub put_back-Released : (g' : Ghost) × Released m h g s (put_back h a) a g'
  put_back-Released = (
    changed g s (g.carved s) (a ∷ g.freed s),
    subst (λ r. Released m h g s r a (changed g s (g.carved s) (a ∷ g.freed s)))
        (sym put_back-released) released-Released,
  )
