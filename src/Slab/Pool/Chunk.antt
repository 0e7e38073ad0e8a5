-- ===== src/Slab/Pool/Chunk.antt =====
-- One slab of src/slab_alloc.c when a chunk is taken from it or comes back.
use kvx.Common.{
  ℕ, zero, suc, ◌+◌, ◌-◌, ◌*◌, ◌%◌, ◌^◌, ◌<◌, ◌≡◌, ◌≢◌, refl, sym, subst, ap, ◌∙◌, true, false,
  Option, some, List, [], ◌∷◌, arith, length, Bytes, ◌==◌, inl, inr, Bool-cases,
}
use kvx.Common.Members.{has, Distinct, Distinct-length, has-head, has-tail, has-cases, has-ne}
use native.Mathlib.Nat.{suc-mul}
use kvx.Item.{Item}
use kvx.Slab.{item_size}
use kvx.Slab.Pool.{Slab, link, word_of, write}
use kvx.Slab.Pool.Invariant.{Chain, IsSlab}

-- What the allocator relies on in an item: its bytes may change, not their number.
pub record Alike (x y : Item) : Type 0 where
  pub slab_ptr : x.slab_ptr ≡ y.slab_ptr
  pub data_size : x.data_size ≡ y.data_size
  pub size : length x.payload ≡ length y.payload

pub Alike-refl : (x : Item) → Alike x x
Alike-refl x = record { slab_ptr = refl; data_size = refl; size = refl }

Alike-eq : (x y : Item) → x ≡ y → Alike x y
Alike-eq x y e = subst (λ r. Alike x r) e (Alike-refl x)

pub write_self : (mem : ℕ → Item) (a : ℕ) (item : Item) → write mem a item a ≡ item
write_self mem a item = elim (Bool-cases (a == a)) [
  | inl e ↦ rw e
  | inr e ↦ absurd (ground (arith, e))
]

pub write_ne : (mem : ℕ → Item) (a b : ℕ) (item : Item) → b ≢ a → write mem a item b ≡ mem b
write_ne mem a b item ne = elim (Bool-cases (b == a)) [
  | inl e ↦ absurd (ne (ground (arith, e)))
  | inr e ↦ rw e
]

Chain-frame :
    (mem mem' : ℕ → Item) (head : Option ℕ) (cells : List ℕ)
    → ((b : ℕ) → has b cells ≡ true → (mem' b).slab_ptr ≡ (mem b).slab_ptr)
    → Chain mem head cells
    → Chain mem' head cells
Chain-frame mem mem' head [] same h = h
Chain-frame mem mem' head (a ∷ rest) same (e, positive, tail) = (
  e,
  positive,
  Chain-frame mem mem' (link (mem' a).slab_ptr) rest (λ b h. same b (has-tail b a rest h))
      (rw (same a (has-head a rest)) tail),
)

-- A slab is as it was where the chunks that were cut off from it are alike.
pub IsSlab-frame :
    (mem mem' : ℕ → Item) (start s : ℕ) (slab : Slab) (carved freed : List ℕ)
    → ((b : ℕ) → has b carved ≡ true → Alike (mem' b) (mem b))
    → IsSlab mem start s slab carved freed
    → IsSlab mem' start s slab carved freed
IsSlab-frame mem mem' start s slab carved freed same ok = record {
  chunk_size = ok.chunk_size;
  span = ok.span;
  spaced = ok.spaced;
  bump = ok.bump;
  rest = ok.rest;
  room = ok.room;
  few = ok.few;
  free_count = ok.free_count;
  chain =
      Chain-frame mem mem' slab.free_list freed (λ b h. (same b (ok.inside b h)).slab_ptr) ok.chain;
  distinct = ok.distinct;
  inside = ok.inside;
  sized = λ a h. (same a h).size ∙ ok.sized a h;
  owned =
      λ a h f. let (p, d) = ok.owned a h f in ((same a h).slab_ptr ∙ p, (same a h).data_size ∙ d);
}

link_positive : (a : ℕ) → 0 < a → link a ≡ some a
link_positive zero h = absurd (omega arith)
link_positive (suc a) h = refl

link-word_of :
    (mem : ℕ → Item) (head : Option ℕ) (cells : List ℕ)
    → Chain mem head cells
    → link (word_of head) ≡ head
link-word_of mem head [] h = rw h refl
link-word_of mem head (a ∷ rest) (e, positive, tail) = rw e (link_positive a positive)

module _ (mem : ℕ → Item) (start s : ℕ) (slab : Slab) where
  -- The item of a chunk that is handed out, made from `old`.
  abbrev pub stamped : Item → Item
  stamped old = record old { slab_ptr = s; data_size = (slab.chunk_size - item_size) % 2 ^ 32 }

  -- The head of the free list is taken.
  pub take_free-IsSlab :
      (carved : List ℕ) (a : ℕ) (freed : List ℕ)
      → IsSlab mem start s slab carved (a ∷ freed)
      → IsSlab
          (write mem a (stamped (mem a)))
          start
          s
          (record slab { free_list = link (mem a).slab_ptr; free_count = slab.free_count - 1 })
          carved
          freed
  take_free-IsSlab carved a freed ok =
      let mem' = write mem a (stamped (mem a)) in
      let fresh : has a freed ≡ false = ok.distinct.0 in
      let here : has a carved ≡ true = ok.inside a (has-head a freed) in
      let size : (slab.chunk_size - item_size) % 2 ^ 32 ≡ slab.chunk_size - item_size =
        omega (arith, ok.chunk_size.1) in
      record {
        chunk_size = ok.chunk_size;
        span = ok.span;
        spaced = ok.spaced;
        bump = ok.bump;
        rest = ok.rest;
        room = ok.room;
        few = ok.few;
        free_count = omega (arith, ok.free_count);
        chain =
            Chain-frame mem mem' (link (mem a).slab_ptr) freed
              (λ b h.
                ap (λ r. r.slab_ptr)
                  (write_ne mem a b (stamped (mem a)) (has-ne b a freed h fresh)))
              ok.chain.2;
        distinct = ok.distinct.1;
        inside = λ b h. ok.inside b (has-tail b a freed h);
        sized = λ b h. elim (Bool-cases (b == a)) [
          | inl e ↦ rw e (ok.sized a here)
          | inr e ↦ rw e (ok.sized b h)
        ];
        owned = λ b h f. elim (Bool-cases (b == a)) [
          | inl e ↦ rw e (refl, size)
          | inr e ↦ rw e (ok.owned b h (ground (arith, e, f)))
        ];
      }

  -- A chunk is cut off at `bump`, where the free list is empty.
  pub take_bump-IsSlab :
      (carved : List ℕ) (junk : Bytes)
      → IsSlab mem start s slab carved []
      → slab.free_count ≢ 0
      → length junk ≡ slab.chunk_size - item_size
      → IsSlab
          (write mem slab.bump (stamped (record (mem slab.bump) { payload = junk })))
          start
          s
          (record slab { bump = slab.bump + slab.chunk_size; free_count = slab.free_count - 1 })
          (slab.bump ∷ carved)
          []
  take_bump-IsSlab carved junk ok some_free long =
      let a = slab.bump in
      let item = stamped (record (mem a) { payload = junk }) in
      let size : (slab.chunk_size - item_size) % 2 ^ 32 ≡ slab.chunk_size - item_size =
        omega (arith, ok.chunk_size.1) in
      let one_more : ok.rest ≡ suc (ok.rest - 1) = omega (arith, ok.free_count, some_free) in
      let product : ok.rest * slab.chunk_size ≡ (ok.rest - 1) * slab.chunk_size + slab.chunk_size =
        ap (λ r. r * slab.chunk_size) one_more ∙ suc-mul (ok.rest - 1) slab.chunk_size in
      record {
        chunk_size = ok.chunk_size;
        span = λ b h. elim (has-cases b a carved h) [
          | inl e ↦ (omega (arith, e, ok.bump), omega (arith, e))
          | inr old ↦ let (low, high) = ok.span b old in (low, omega (arith, high))
        ];
        spaced = λ b c h k ne. elim (has-cases b a carved h) [
          | inl e ↦ elim (has-cases c a carved k) [
            | inl f ↦ absurd (ne (e ∙ sym f))
            | inr old ↦ inr (omega (arith, e, (ok.span c old).1))
          ]
          | inr old ↦ elim (has-cases c a carved k) [
            | inl f ↦ inl (omega (arith, f, (ok.span b old).1))
            | inr old' ↦ ok.spaced b c old old' ne
          ]
        ];
        bump = omega (arith, ok.bump);
        rest = ok.rest - 1;
        room = omega (arith, ok.room, product);
        few = omega (arith, ok.few, one_more);
        free_count = omega (arith, ok.free_count, one_more);
        chain = ok.chain;
        distinct = tt;
        inside = λ b h. cc h;
        sized = λ b h. elim (Bool-cases (b == a)) [
          | inl e ↦ rw e long
          | inr e ↦ rw e (ok.sized b (ground (arith, e, h)))
        ];
        owned = λ b h f. elim (Bool-cases (b == a)) [
          | inl e ↦ rw e (refl, size)
          | inr e ↦ rw e (ok.owned b (ground (arith, e, h)) refl)
        ];
      }

  -- A chunk that was handed out comes back.
  pub put_back-IsSlab :
      (carved freed : List ℕ) (a : ℕ)
      → IsSlab mem start s slab carved freed
      → has a carved ≡ true
      → has a freed ≡ false
      → 0 < a
      → IsSlab
          (write mem a (record (mem a) { slab_ptr = word_of slab.free_list }))
          start
          s
          (record slab { free_list = some a; free_count = (slab.free_count + 1) % 2 ^ 64 })
          carved
          (a ∷ freed)
  put_back-IsSlab carved freed a ok here out positive =
      let item = record (mem a) { slab_ptr = word_of slab.free_list } in
      let distinct : Distinct (a ∷ freed) = (out, ok.distinct) in
      let sub : (b : ℕ) → has b (a ∷ freed) ≡ true → has b carved ≡ true =
        λ b h. elim (has-cases b a freed h) [ inl e ↦ rw e here | inr old ↦ ok.inside b old ] in
      let fits = Distinct-length (a ∷ freed) carved distinct sub in
      let relink : link (word_of slab.free_list) ≡ slab.free_list =
        link-word_of mem slab.free_list freed ok.chain in
      record {
        chunk_size = ok.chunk_size;
        span = ok.span;
        spaced = ok.spaced;
        bump = ok.bump;
        rest = ok.rest;
        room = ok.room;
        few = ok.few;
        free_count = omega (arith, ok.free_count, fits, ok.few);
        chain = (
          refl,
          positive,
          Chain-frame mem (write mem a item) (link (write mem a item a).slab_ptr) freed
              (λ b h. ap (λ r. r.slab_ptr) (write_ne mem a b item (has-ne b a freed h out)))
              (rw (write_self mem a item, relink) ok.chain),
        );
        distinct = distinct;
        inside = sub;
        sized = λ b h. elim (Bool-cases (b == a)) [
          | inl e ↦ rw e (ok.sized a here)
          | inr e ↦ rw e (ok.sized b h)
        ];
        owned = λ b h f. elim (Bool-cases (b == a)) [
          | inl e ↦ absurd (ground (arith, e, f))
          | inr e ↦ rw e (ok.owned b h (ground (arith, e, f)))
        ];
      }
