-- ===== src/HashTable/Table/View.antt =====
-- One half of the table as the cells of its chains, and the keys that it stores.
use kvx.Common.{
  ℕ, ◌<◌, ◌≤◌, ◌≡◌, ◌≢◌, ◌⊎◌, true, false, none, some, arith, ◌==◌, Bytes, length, Bool-cases, inl,
  inr,
}
use kvx.Item.{Item, item_key}
use kvx.Item.Laws.{IsItem}
use kvx.HashTable.Bucket.Cells.{Cell, cell, IsBucket}
use kvx.HashTable.Probe.Chain.{nth}
use kvx.HashTable.Table.{Half, bucket_idx, tag_of, chain_at}

abbrev pub cell_at : Half → ℕ → ℕ → ℕ → Cell
cell_at h i d s = cell (nth (chain_at h i) d) s

-- The position is another one.
abbrev pub Apart : ℕ → ℕ → ℕ → ℕ → ℕ → ℕ → Type 0
Apart i d s i' d' s' = (i' ≢ i) ⊎ ((d' ≢ d) ⊎ (s' ≢ s))

pub Apart-cases : (i d s i' d' s' : ℕ) → ((i' ≡ i) × (d' ≡ d) × (s' ≡ s)) ⊎ Apart i d s i' d' s'
Apart-cases i d s i' d' s' = elim (Bool-cases (i' == i)) [
  | inr e ↦ inr (inl (ground arith))
  | inl e ↦ elim (Bool-cases (d' == d)) [
    | inr f ↦ inr (inr (inl (ground arith)))
    | inl f ↦ elim (Bool-cases (s' == s)) [
      | inr g ↦ inr (inr (inr (ground arith)))
      | inl g ↦ inl (ground arith, ground arith, ground arith)
    ]
  ]
]

-- The parts of a half that do not depend on the items: array, chains and buckets are in their ranges.
pub record IsShaped (h : Half) : Type 0 where
  pub width : length h.buckets ≡ h.bucket_count
  pub nonempty : 0 < h.bucket_count
  pub chains : (i : ℕ) → i < h.bucket_count → 0 < length (chain_at h i)
  pub buckets : (i d : ℕ) → IsBucket (nth (chain_at h i) d)

-- `h'` is `h` but for the cell at one position.
pub record Writes (h h' : Half) (i d s : ℕ) (c : Cell) : Type 0 where
  pub shaped : IsShaped h'
  pub count : h'.bucket_count ≡ h.bucket_count
  pub here : cell_at h' i d s ≡ c
  pub there :
      (i' d' s' : ℕ) → s' < 8 → Apart i d s i' d' s' → cell_at h' i' d' s' ≡ cell_at h i' d' s'

module _ (hash_of : Bytes → ℕ) (mem : ℕ → Item) where
  abbrev pub key_of : ℕ → Bytes
  key_of x = item_key (mem x)

  abbrev pub home : ℕ → Bytes → ℕ
  home count k = bucket_idx (hash_of k) count

  -- A busy cell of chain `i` has an item at home there, with its tag; a free one has none.
  pub record Entry (count i : ℕ) (c : Cell) : Type 0 where
    pub stored : ℕ
    pub item : c.item ≡ some stored
    pub intact : IsItem (mem stored)
    pub tag : c.tag ≡ tag_of (hash_of (key_of stored))
    pub at_home : i ≡ home count (key_of stored)

  -- The cell has this item, under this key.
  pub record Keeps (k : Bytes) (x : ℕ) (c : Cell) : Type 0 where
    pub busy : c.busy ≡ true
    pub item : c.item ≡ some x
    pub key : key_of x ≡ k

  -- The chains before `from` may hold what was moved elsewhere; no slot behind them holds an item that is not busy.
  pub record IsHalf (from : ℕ) (h : Half) : Type 0 where
    pub shaped : IsShaped h
    pub entries :
        (i d s : ℕ)
        → s < 8
        → (cell_at h i d s).busy ≡ true
        → Entry h.bucket_count i (cell_at h i d s)
    pub vacant :
        (i d s : ℕ)
        → from ≤ i
        → s < 8
        → (cell_at h i d s).busy ≡ false
        → (cell_at h i d s).item ≡ none
    pub unique :
        (k : Bytes) (x y i d s d' s' : ℕ)
        → s < 8
        → s' < 8
        → Keeps k x (cell_at h i d s)
        → Keeps k y (cell_at h i d' s')
        → (d' ≡ d) × (s' ≡ s)

  -- The item that is stored under a key.
  abbrev pub Stores : Half → Bytes → ℕ → Type 0
  Stores h k x = (d : ℕ) × (s : ℕ) × (s < 8) × Keeps k x (cell_at h (home h.bucket_count k) d s)

  abbrev pub LacksKey : Half → ℕ → Bytes → Type 0
  LacksKey h i k = (y d s : ℕ) → s < 8 → Keeps k y (cell_at h i d s) → true ≡ false

  -- What a position was before the key was put there or removed from there.
  abbrev pub Was : Half → ℕ → ℕ → ℕ → Bytes → Type 0
  Was h i d s k =
      (((cell_at h i d s).busy ≡ false) × LacksKey h i k) ⊎ ((y : ℕ) × Keeps k y (cell_at h i d s))
