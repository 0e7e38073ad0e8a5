-- ===== src/HashTable/Bucket.antt =====
-- The functions hashtable_bucket_* of src/hashtable.c. An `item_t *` is the number of an item, and
-- NULL is none; the `next` pointers of a chain are the order of a list of buckets.
pub mod States
pub mod Tags
pub mod Match
pub mod Cells
use Prim.Native.Nat.{bit_and, bit_or, bit_xor}
use kvx.Common.{
  ℕ, zero, suc, ◌+◌, ◌-◌, ◌*◌, ◌/◌, ◌%◌, ◌^◌, Bool, true, false, not, Option, none, some, List, [],
  ◌∷◌, get_or, set, replicate, ◌==◌, if◌then◌else◌,
}

pub record Bucket : Type 0 where
  pub slot_states : ℕ
  pub hash_tags : ℕ
  pub items : List (Option ℕ)

-- HASHTABLE_BUCKET_SLOTS.
abbrev pub bucket_slots : ℕ
bucket_slots = 8

-- The bucket of zero bytes, from calloc or from a fresh mapping.
abbrev pub zero_bucket : Bucket
zero_bucket = record { slot_states = 0; hash_tags = 0; items = replicate bucket_slots none }

abbrev pub tag_lsbs : ℕ
tag_lsbs = 0x0101010101010101

abbrev pub tag_msbs : ℕ
tag_msbs = 0x8080808080808080

abbrev pub tag_gather : ℕ
tag_gather = 0x0002040810204081

-- The complements in `uint64_t` and `uint8_t`.
abbrev pub not64 : ℕ → ℕ
not64 x = 2 ^ 64 - 1 - x

abbrev pub not8 : ℕ → ℕ
not8 x = 255 - x

-- hashtable_bucket_match_tag from the exclusive or on, up to the candidates.
abbrev pub zero_bytes : ℕ → ℕ
zero_bytes x = bit_and (bit_and ((x + 2 ^ 64 - tag_lsbs) % 2 ^ 64) (not64 x)) tag_msbs

abbrev pub gather : ℕ → ℕ
gather z = z * tag_gather % 2 ^ 64 / 2 ^ 56 % 256

unfoldable pub match_tag : Bucket → ℕ → ℕ
match_tag b tag =
    let x = bit_xor b.hash_tags (tag_lsbs * tag % 2 ^ 64) in
    bit_and (gather (zero_bytes x)) b.slot_states

-- __builtin_ctz of a number that is not 0. The first argument is the fuel.
unfoldable pub ctz : ℕ → ℕ → ℕ
ctz zero n = 0
ctz (suc fuel) n = let rest = suc (ctz fuel (n / 2)) in if n % 2 == 1 then 0 else rest

-- none is -1.
unfoldable pub first_free_slot : Bucket → Option ℕ
first_free_slot b =
    let free_bits = not8 b.slot_states in if free_bits == 0 then none else some (ctz 8 free_bits)

abbrev pub slot_bit : ℕ → ℕ
slot_bit slot_idx = 2 ^ slot_idx % 256

-- The state is true for SLOT_BUSY.
abbrev pub with_state : ℕ → ℕ → Bool → ℕ
with_state states slot_idx true = bit_or states (slot_bit slot_idx)
with_state states slot_idx false = bit_and states (not8 (slot_bit slot_idx))

abbrev pub is_busy : ℕ → ℕ → Bool
is_busy states slot_idx = not (bit_and states (slot_bit slot_idx) == 0)

abbrev pub with_tag : ℕ → ℕ → ℕ → ℕ
with_tag tags slot tag =
    let shift = slot * 8 in
    let mask = 255 * 2 ^ shift % 2 ^ 64 in
    bit_or (bit_and tags (not64 mask)) (tag * 2 ^ shift % 2 ^ 64)

unfoldable pub set_slot_state : Bucket → ℕ → Bool → Bucket
set_slot_state b slot_idx state = record b { slot_states = with_state b.slot_states slot_idx state }

unfoldable pub get_slot_state : Bucket → ℕ → Bool
get_slot_state b slot_idx = is_busy b.slot_states slot_idx

unfoldable pub set_slot_hash_tag : Bucket → ℕ → ℕ → Bucket
set_slot_hash_tag b slot tag = record b { hash_tags = with_tag b.hash_tags slot tag }

unfoldable pub set_slot_item : Bucket → ℕ → Option ℕ → Bucket
set_slot_item b slot_idx item = record b { items = set b.items slot_idx item }

unfoldable pub get_slot_item : Bucket → ℕ → Option ℕ
get_slot_item b slot_idx = get_or b.items slot_idx none
