-- ===== src/Tests/HashTable.antt =====
-- The hash table at a half of four chains.
use kvx.Common.{
  not, ◌==◌, ◌≢◌, ◌⊎◌, ℕ, ◌+◌, ◌*◌, ◌^◌, ◌%◌, ◌≡◌, ◌↔◌, refl, sym, subst, true, false, Option, none,
  some, [], ◌∷◌, arith, Bytes, get_or, length, set,
}
use kvx.Item.{Item, item_key_matches}
use kvx.Item.Laws.{IsItem}
use kvx.Pages.{Os, pages_map}
use kvx.HashTable.Migrate.{maintenance}
use kvx.HashTable.Migrate.Whole.{TableStores, IsTable}
use kvx.HashTable.Migrate.Maintain.{Advances, Preserved, maintenance-Preserved}
use kvx.HashTable.Api.{
  hashtable_len, hashtable_migrating, hashtable_bucket_count, SlotPtr, hashtable_get,
  hashtable_delete, hashtable_set, read_ptr, write_ptr,
}
use kvx.HashTable.Api.Setup.{hashtable_init-IsTable}
use kvx.HashTable.Api.Lookup.{hashtable_get-TableStores}
use kvx.HashTable.Api.Changes.{hashtable_delete-TableStores}
use kvx.HashTable.Api.Puts.{hashtable_set-TableStores}
use kvx.HashTable.Bucket.{
  match_tag, ctz, first_free_slot, set_slot_state, get_slot_state, set_slot_hash_tag, set_slot_item,
  get_slot_item, Bucket, zero_bucket,
}
use kvx.HashTable.Bucket.Match.{Candidates, match_tag-Candidates}
use kvx.HashTable.Probe.{
  match_loop, match_candidates, find_item_slot_in_bucket_chained, find_item_slot_in_bucket,
  find_item_slot_or_next_free_slot_chained, find_item_slot_or_next_free_slot_in_bucket,
}
use kvx.HashTable.Table.{
  Half, Table, Slot, tag_of, claim, set_in, get_in, delete_in, write_slot, fresh_half,
  hashtable_init,
}
use kvx.HashTable.Table.View.{IsHalf}
use kvx.HashTable.Table.Change.{Answers, fewer, Removed, get_in-Answers, delete_in-Removed}
use kvx.HashTable.Table.Store.{set_in-Stored}
use kvx.HashTable.Table.Fresh.{fresh_half-IsHalf, fresh_half-Stores}

-- An item is its handle as a key of one byte, and the hash is made of that byte.
abbrev mem : ℕ → Item
mem x = record {
  slab_ptr = 0;
  key_len = 1;
  flags = 0;
  data_size = 2;
  value_len = 1;
  expire_at = 0;
  payload = x % 256 ∷ 7 ∷ [];
}

abbrev hash_of : Bytes → ℕ
hash_of k = get_or k 0 0 * 2 ^ 56 + get_or k 0 0 * 256

mem-IsItem : (x : ℕ) → IsItem (mem x)
mem-IsItem x = record { inside = omega arith }

abbrev five : Bytes
five = 5 ∷ []

abbrev half0 : Half
half0 = fresh_half 4 4096

half0-IsHalf : IsHalf hash_of mem 0 half0
half0-IsHalf = fresh_half-IsHalf hash_of mem 4 4096 (omega arith)

abbrev slot1 : Slot
slot1 = record { chain = 1; depth = 0; index = 0 }

abbrev claimed1 : Half
claimed1 = record half0 {
  size = 1;
  buckets = set half0.buckets 1 (record zero_bucket { slot_states = 1; hash_tags = 5 } ∷ []);
}

abbrev half1 : Half
half1 = write_slot claimed1 slot1 (some 5)

set_in_run :
    set_in mem half0 (hash_of five) (tag_of (hash_of five)) five (length five)
    ≡ some (claimed1, slot1)
unfolding set_in claim item_key_matches match_tag ctz first_free_slot set_slot_state get_slot_state
    set_slot_hash_tag set_slot_item get_slot_item match_loop match_candidates
    find_item_slot_in_bucket_chained find_item_slot_in_bucket
    find_item_slot_or_next_free_slot_chained find_item_slot_or_next_free_slot_in_bucket
set_in_run = refl

abbrev written : Option (Half × Slot) → Half
written none = half0
written (some (h, sl)) = write_slot h sl (some 5)

-- What the theorem of the set states of the first half.
half1-IsHalf : IsHalf hash_of mem 0 half1
half1-IsHalf =
    let (h1, sl, e, _, _, stored) =
      set_in-Stored hash_of mem half0 half0-IsHalf five 5 (omega arith) (mem-IsItem 5) refl in
    let result = set_in mem half0 (hash_of five) (tag_of (hash_of five)) five (length five) in
    subst (λ r. IsHalf hash_of mem 0 (written r)) set_in_run
      (subst (λ r. IsHalf hash_of mem 0 (written r)) (sym e) stored.0)

get_in-Answers_example :
    (r : Option ℕ) × (get_in mem half1 (hash_of five) (tag_of (hash_of five)) five (length five)
      ≡ some r)
    × Answers hash_of mem half1 half1-IsHalf five r
get_in-Answers_example = get_in-Answers hash_of mem half1 half1-IsHalf five

delete_in-Removed_example :
    (h' : Half) × (r : Option ℕ) × (delete_in mem half1
        (hash_of five)
        (tag_of (hash_of five))
        five
        (length five)
      ≡ some (h', r))
    × Answers hash_of mem half1 half1-IsHalf five r
    × (h'.size ≡ fewer hash_of mem half1 half1-IsHalf five r)
    × Removed hash_of mem half1 half1-IsHalf five h'
delete_in-Removed_example = delete_in-Removed hash_of mem half1 half1-IsHalf five

abbrev os : Os
os = record { page_size = 4096; mmap = λ n. true }

hashtable_init-IsTable_example :
    (t : Table) × (hashtable_init os 4 ≡ some t)
    × IsTable hash_of mem t
    × ((k : Bytes) (x : ℕ) → TableStores hash_of mem t k x → true ≡ false)
    × (hashtable_len t ≡ 0)
    × (hashtable_migrating t ≡ false)
    × (hashtable_bucket_count t ≡ 4)
unfolding pages_map
hashtable_init-IsTable_example = hashtable_init-IsTable hash_of mem os 4 4096 refl refl

abbrev two_slots : Bucket
two_slots = record zero_bucket { slot_states = 3; hash_tags = 0x0504 }

match_tag-Candidates_example : Candidates two_slots 5 (match_tag two_slots 5)
match_tag-Candidates_example =
    match_tag-Candidates two_slots 5 (omega arith) (omega arith) (omega arith)

match_tag_run : match_tag two_slots 5 ≡ 2
unfolding match_tag
match_tag_run = refl

-- A table at the start of a migration: the first array has the key, the second is empty.
abbrev growing : Table
growing = record {
  scale_at_size = 1;
  migration_pos = 0;
  old = half1;
  new = some (fresh_half 8 8192);
}

growing-IsTable : IsTable hash_of mem growing
growing-IsTable = record {
  old = half1-IsHalf;
  far = λ k x stored. omega arith;
  new = (
    omega arith,
    fresh_half-IsHalf hash_of mem 8 8192 (omega arith),
    λ k x stored. cc (fresh_half-Stores hash_of mem 8 8192 (omega arith) k x stored),
  );
}

maintenance-Preserved_example :
    (t' : Table) × (maintenance hash_of mem growing ≡ some t')
    × Preserved hash_of mem growing t'
    × Advances hash_of mem growing growing.new t'
maintenance-Preserved_example = maintenance-Preserved hash_of mem growing growing-IsTable

hashtable_get-TableStores_example :
    (r : Option ℕ) × (hashtable_get mem growing (hash_of five) five (length five) ≡ some r)
    × ((y : ℕ) → TableStores hash_of mem growing five y ↔ (r ≡ some y))
hashtable_get-TableStores_example =
    hashtable_get-TableStores hash_of mem five growing growing-IsTable

hashtable_delete-TableStores_example :
    (t' : Table) × (r : Option ℕ) × (hashtable_delete hash_of mem growing
        (hash_of five)
        five
        (length five)
      ≡ some (t', r))
    × ((y : ℕ) → TableStores hash_of mem growing five y ↔ (r ≡ some y))
    × IsTable hash_of mem t'
    × ((q : Bytes) (y : ℕ)
        → TableStores hash_of mem t' q y ↔ ((q ≢ five) × TableStores hash_of mem growing q y))
hashtable_delete-TableStores_example =
    hashtable_delete-TableStores hash_of mem five growing growing-IsTable

-- A system that maps all but nothing.
abbrev os1 : Os
os1 = record { page_size = 4096; mmap = λ n. not (n == 0) }

hashtable_set-TableStores_example :
    (t1 : Table) × (ptr : SlotPtr) × (hashtable_set hash_of mem os1 growing
        (hash_of five)
        five
        (length five)
      ≡ some (t1, ptr))
    × ((y : ℕ) → TableStores hash_of mem growing five y ↔ (read_ptr t1 ptr ≡ some y))
    × IsTable hash_of mem (write_ptr t1 ptr (some 5))
    × ((q : Bytes) (y : ℕ)
        → TableStores hash_of mem (write_ptr t1 ptr (some 5)) q y
          ↔ (((q ≡ five) × (y ≡ 5)) ⊎ ((q ≢ five) × TableStores hash_of mem growing q y)))
unfolding pages_map
hashtable_set-TableStores_example =
    hashtable_set-TableStores hash_of mem five 5 (mem-IsItem 5) refl os1 growing refl
      growing-IsTable
