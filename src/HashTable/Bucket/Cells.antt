-- ===== src/HashTable/Bucket/Cells.antt =====
-- A bucket as eight cells: what each of its functions does to them.
use kvx.Common.{
  ℕ, ◌^◌, ◌<◌, ◌≡◌, refl, ap, ◌∙◌, Bool, Option, none, arith, ◌==◌, if◌then◌else◌, length, get_or,
  length-set, get_or-set, Bool-cases, inl, inr,
}
use kvx.HashTable.Bucket.{
  Bucket, set_slot_state, get_slot_state, set_slot_hash_tag, set_slot_item, get_slot_item, with_tag,
}
use kvx.HashTable.Bucket.Tags.{tags_of, with_tag-tags_of}
use kvx.HashTable.Bucket.Match.{byte_at}
use kvx.HashTable.Bucket.States.{with_state-is_busy}

pub record Cell : Type 0 where
  pub busy : Bool
  pub tag : ℕ
  pub item : Option ℕ

unfoldable pub cell : Bucket → ℕ → Cell
cell b i = record {
  busy = get_slot_state b i;
  tag = byte_at b.hash_tags i;
  item = get_slot_item b i;
}

-- The ranges of the fields.
pub record IsBucket (b : Bucket) : Type 0 where
  pub states : b.slot_states < 256
  pub tags : b.hash_tags < 2 ^ 64
  pub slots : length b.items ≡ 8

abbrev pub put_cell : (ℕ → Cell) → ℕ → Cell → ℕ → Cell
put_cell f i c j = if i == j then c else f j

pub set_slot_state-cell :
    (b : Bucket) (i : ℕ) (v : Bool)
    → IsBucket b
    → i < 8
    → IsBucket (set_slot_state b i v)
      × ((j : ℕ)
          → j < 8
          → cell (set_slot_state b i v) j ≡ put_cell (cell b) i (record (cell b i) { busy = v }) j)
unfolding set_slot_state cell get_slot_state get_slot_item
set_slot_state-cell b i v ok hi = (
  record {
    states = (with_state-is_busy b.slot_states i i v ok.states hi hi).1;
    tags = ok.tags;
    slots = ok.slots;
  },
  λ j hj. ground (arith, with_state-is_busy b.slot_states i j v ok.states hi hj),
)

-- A change of the tag at one index.
put_tag :
    (i j v : ℕ) (s : ℕ → Bool) (t : ℕ → ℕ) (m : ℕ → Option ℕ) (after : ℕ)
    → after ≡ (if i == j then v else t j)
    → let before : ℕ → Cell = λ k. record { busy = s k; tag = t k; item = m k } in
      let c : Cell = record { busy = s j; tag = after; item = m j } in
      c ≡ put_cell before i (record { busy = s i; tag = v; item = m i }) j
put_tag i j v s t m after h = elim (Bool-cases (i == j)) [
  | inl e ↦ let same : i ≡ j = ground arith in rw (h, e, same) refl
  | inr e ↦ rw (h, e) refl
]

byte_after :
    (b : Bucket) (i v j : ℕ)
    → IsBucket b
    → i < 8
    → j < 8
    → v < 256
    → byte_at (with_tag b.hash_tags i v) j ≡ (if i == j then v else byte_at b.hash_tags j)
byte_after b i v j ok hi hj hv =
    ap (λ l. get_or l j 0) (with_tag-tags_of b.hash_tags i v ok.tags hi hv).0
    ∙ get_or-set (tags_of b.hash_tags) i j v 0 hi

pub set_slot_hash_tag-cell :
    (b : Bucket) (i v : ℕ)
    → IsBucket b
    → i < 8
    → v < 256
    → IsBucket (set_slot_hash_tag b i v)
      × ((j : ℕ)
          → j < 8
          → cell (set_slot_hash_tag b i v) j
            ≡ put_cell (cell b) i (record (cell b i) { tag = v }) j)
unfolding set_slot_hash_tag cell get_slot_state get_slot_item
set_slot_hash_tag-cell b i v ok hi hv = (
  record {
    states = ok.states;
    tags = (with_tag-tags_of b.hash_tags i v ok.tags hi hv).1;
    slots = ok.slots;
  },
  λ j hj.
      put_tag i j v (get_slot_state b) (byte_at b.hash_tags) (get_slot_item b)
        (byte_at (with_tag b.hash_tags i v) j) (byte_after b i v j ok hi hj hv),
)

pub set_slot_item-cell :
    (b : Bucket) (i : ℕ) (v : Option ℕ)
    → IsBucket b
    → i < 8
    → IsBucket (set_slot_item b i v)
      × ((j : ℕ)
          → j < 8
          → cell (set_slot_item b i v) j ≡ put_cell (cell b) i (record (cell b i) { item = v }) j)
unfolding set_slot_item cell get_slot_state get_slot_item
set_slot_item-cell b i v ok hi = (
  record { states = ok.states; tags = ok.tags; slots = length-set b.items i v ∙ ok.slots },
  λ j hj. ground (arith, get_or-set b.items i j v none (omega (arith, ok.slots))),
)
