-- ===== src/Item/Laws.antt =====
-- Keys and values that are stored are read back, and keys are compared as byte strings.
use kvx.Common.{
  ℕ, ◌+◌, ◌%◌, ◌^◌, ◌≤◌, ◌<◌, ◌≡◌, ◌↔◌, subst, ap, ◌∙◌, true, arith, Bytes, take, drop, slice,
  memcpy, same_bytes_iff, length, ◌++◌, ◌==◌, Bool-cases, inl, inr, length-take, length-append,
  take_all, take-length, drop-length,
}
use kvx.Item.{Item, item_key, item_value, item_set_key, item_set_value, item_key_matches}

-- The key lies inside the item's bytes.
pub record IsItem (item : Item) : Type 0 where
  pub inside : item.key_len ≤ length item.payload

pub length-item_key : (item : Item) → IsItem item → length (item_key item) ≡ item.key_len
length-item_key item ok = omega (arith, length-take item.key_len item.payload, ok.inside)

-- For an item whose key lies inside its bytes, item_key_matches with the whole of a key holds exactly
-- where the item's key is that key.
pub item_key_matches_iff :
    (item : Item) (key : Bytes)
    → IsItem item
    → (item_key_matches item key (length key) ≡ true) ↔ (item_key item ≡ key)
unfolding item_key_matches
item_key_matches_iff item key ok = elim (Bool-cases (length key == item.key_len)) [
  | inr e ↦ (
    λ h. cc (rw e at h),
    λ h. let size = ap length h in absurd (ground (arith, length-item_key item ok, size)),
  )
  | inl e ↦
      let size : length key ≡ item.key_len = ground arith in
      let all : take (length key) key ≡ key = take_all (length key) key (omega arith) in
      let parts = same_bytes_iff (take item.key_len item.payload) key in rw (e, all, size) parts
]

-- memcpy into bytes with room: what is before it, and the bytes written.
memcpy_parts :
    (p src : Bytes) (at : ℕ)
    → at ≤ length p
    → (take at (memcpy p at src) ≡ take at p) × (slice (memcpy p at src) at (length src) ≡ src)
memcpy_parts p src at h =
    let size : length (take at p) ≡ at = omega (arith, length-take at p) in
    let rest = src ++ drop (at + length src) p in
    let before = take-length (take at p) rest in
    let behind = drop-length (take at p) rest in
    (
      subst (λ n. take n (take at p ++ rest) ≡ take at p) size before,
      ap (take (length src)) (subst (λ n. drop n (take at p ++ rest) ≡ rest) size behind)
          ∙ take-length src (drop (at + length src) p),
    )

-- For a key of less than 2^16 bytes and a value of less than 2^32 that have room in an item, the item
-- has that key and that value after item_set_key and then item_set_value.
pub item_set_value-item_set_key :
    (item : Item) (key value : Bytes)
    → length key < 2 ^ 16
    → length value < 2 ^ 32
    → length key + length value ≤ length item.payload
    → let item' = item_set_value (item_set_key item key (length key)) value (length value) in
      (item_key item' ≡ key) × (item_value item' ≡ value)
unfolding item_set_key item_set_value
item_set_value-item_set_key item key value hk hv room =
    let p1 = memcpy item.payload 0 key in
    let ek : length key % 2 ^ 16 ≡ length key = omega arith in
    let ev : length value % 2 ^ 32 ≡ length value = omega arith in
    let first = memcpy_parts item.payload key 0 (omega arith) in
    let sum : length p1 ≡ length key + length (drop (0 + length key) item.payload) =
      length-append key (drop (0 + length key) item.payload) in
    let size : length key ≤ length p1 = omega (arith, sum) in
    let second = memcpy_parts p1 value (length key) size in
    rw
      (take_all (length key) key (omega arith), take_all (length value) value (omega arith), ek, ev)
      (second.0 ∙ first.1, second.1)
