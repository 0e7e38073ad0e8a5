-- ===== src/HashTable/Probe.antt =====
-- The searches of src/hashtable.c in one chain of buckets. `mem` gives the items' contents; a read through
-- a NULL item is a fault. A bucket of the chain is named by its depth, 0 for the one in the array.
pub mod Candidates
pub mod Chain
use Prim.Native.Nat.{bit_and}
use kvx.Common.{
  ℕ, zero, suc, ◌-◌, Option, none, some, List, [], ◌∷◌, ◌++◌, Bytes, ◌==◌, if◌then◌else◌,
}
use kvx.Item.{Item, item_key_matches}
use kvx.HashTable.Bucket.{Bucket, match_tag, ctz, first_free_slot, get_slot_item}

pub data Match : Type 0 where
  null_read no_match : Match
  match_at : ℕ → Match

-- A slot index with `bucket_out`; `missing` is -1.
pub data Found : Type 0 where
  found_null missing : Found
  found : ℕ → ℕ → Found

-- Where an item is or may be put. `chain_end` is slot 0 of a bucket that hashtable_bucket_init_chain adds.
pub data Place : Type 0 where
  place_null : Place
  place : ℕ → ℕ → Place
  chain_end : ℕ → Place

abbrev pub or_free : Option (ℕ × ℕ) → ℕ → Option ℕ → Option (ℕ × ℕ)
or_free (some p) depth slot = some p
or_free none depth none = none
or_free none depth (some slot) = some (depth, slot)

module _ (mem : ℕ → Item) (key : Bytes) (key_len : ℕ) where
  -- The loop over the candidates. The first argument is the fuel.
  unfoldable pub match_loop : ℕ → ℕ → Bucket → Match
  match_loop zero candidates b = no_match
  match_loop (suc fuel) candidates b =
      let slot_idx = ctz 8 candidates in
      let rest = match_loop fuel (bit_and candidates (candidates - 1)) b in
      if candidates == 0 then no_match else elim (get_slot_item b slot_idx) [
        | none ↦ null_read
        | some item ↦ if item_key_matches (mem item) key key_len then match_at slot_idx else rest
      ]

  -- A byte has at most 8 candidates.
  unfoldable pub match_candidates : ℕ → Bucket → Match
  match_candidates tag b = match_loop 9 (match_tag b tag) b

  unfoldable pub find_item_slot_in_bucket_chained : ℕ → List Bucket → ℕ → Found
  find_item_slot_in_bucket_chained tag [] depth = missing
  find_item_slot_in_bucket_chained tag (current ∷ next) depth =
      elim (match_candidates tag current) [
        | null_read ↦ found_null
        | match_at slot_idx ↦ found depth slot_idx
        | no_match ↦ find_item_slot_in_bucket_chained tag next (suc depth)
      ]

  unfoldable pub find_item_slot_in_bucket : ℕ → List Bucket → Found
  find_item_slot_in_bucket tag [] = missing
  find_item_slot_in_bucket tag (bucket ∷ next) = elim (match_candidates tag bucket) [
    | null_read ↦ found_null
    | match_at slot ↦ found 0 slot
    | no_match ↦ find_item_slot_in_bucket_chained tag next 1
  ]

  -- `free` is `free_slot` with `bucket_out`, none where it is -1.
  unfoldable pub find_item_slot_or_next_free_slot_chained :
      ℕ → List Bucket → ℕ → Option (ℕ × ℕ) → Place
  find_item_slot_or_next_free_slot_chained tag [] depth none = chain_end depth
  find_item_slot_or_next_free_slot_chained tag [] depth (some (free_depth, free_slot)) =
      place free_depth free_slot
  find_item_slot_or_next_free_slot_chained tag (current ∷ next) depth free =
      elim (match_candidates tag current) [
        | null_read ↦ place_null
        | match_at slot ↦ place depth slot
        | no_match ↦
            find_item_slot_or_next_free_slot_chained tag next (suc depth)
              (or_free free depth (first_free_slot current))
      ]

  unfoldable pub find_item_slot_or_next_free_slot_in_bucket : ℕ → List Bucket → Place
  find_item_slot_or_next_free_slot_in_bucket tag [] = chain_end 0
  find_item_slot_or_next_free_slot_in_bucket tag (bucket ∷ next) =
      elim (match_candidates tag bucket) [
        | null_read ↦ place_null
        | match_at slot ↦ place 0 slot
        | no_match ↦
            find_item_slot_or_next_free_slot_chained tag next 1
              (or_free none 0 (first_free_slot bucket))
      ]
