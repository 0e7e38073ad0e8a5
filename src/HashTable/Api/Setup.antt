-- ===== src/HashTable/Api/Setup.antt =====
-- hashtable_init of src/hashtable.c makes a well-formed table.
use Prim.Native.Nat.{bit_and}
use kvx.Common.{
  ℕ, ◌-◌, ◌*◌, ◌%◌, ◌^◌, ◌<◌, ◌≡◌, refl, true, false, some, none, arith, ◌==◌, Bytes, Bool-cases,
  inl, inr, if◌then◌else◌,
}
use kvx.Item.{Item}
use kvx.Pages.{Os, pages_map}
use kvx.HashTable.Table.{Table, fresh_half, hashtable_init, init_cap, bucket_size, scale_at}
use kvx.HashTable.Table.Fresh.{fresh_half-IsHalf, fresh_half-Stores}
use kvx.HashTable.Migrate.Whole.{TableStores, IsTable}
use kvx.HashTable.Api.{hashtable_len, hashtable_migrating, hashtable_bucket_count}

-- The capacity that hashtable_init takes for its argument.
abbrev pub cap_of : ℕ → ℕ
cap_of cap_arg = if cap_arg == 0 then init_cap else cap_arg

cap_of_positive : (cap_arg : ℕ) → 0 < cap_of cap_arg
cap_of_positive cap_arg = elim (Bool-cases (cap_arg == 0)) [
  | inl e ↦ rw e (omega arith)
  | inr e ↦ rw e (ground (arith, e))
]

-- With pages from the system and a power of two as the capacity (128 where none is given), the table
-- is made: it is well-formed, no key has an item, its size is 0, no migration runs, and it has that
-- many buckets.
pub hashtable_init-IsTable :
    (hash_of : Bytes → ℕ) (mem : ℕ → Item) (os : Os) (cap_arg bytes : ℕ)
    → bit_and (cap_of cap_arg) (cap_of cap_arg - 1) ≡ 0
    → pages_map os (cap_of cap_arg * bucket_size % 2 ^ 64) ≡ some bytes
    → (t : Table) × (hashtable_init os cap_arg ≡ some t)
      × IsTable hash_of mem t
      × ((k : Bytes) (x : ℕ) → TableStores hash_of mem t k x → true ≡ false)
      × (hashtable_len t ≡ 0)
      × (hashtable_migrating t ≡ false)
      × (hashtable_bucket_count t ≡ cap_of cap_arg)
unfolding hashtable_init hashtable_len hashtable_migrating hashtable_bucket_count
hashtable_init-IsTable hash_of mem os cap_arg bytes power pages =
    let t : Table = record {
      scale_at_size = scale_at (cap_of cap_arg);
      migration_pos = 0;
      old = fresh_half (cap_of cap_arg) bytes;
      new = none;
    } in
    (
      t,
      rw (power, pages) refl,
      record {
        old = fresh_half-IsHalf hash_of mem (cap_of cap_arg) bytes (cap_of_positive cap_arg);
        far = λ k x stored. omega arith;
        new = refl;
      },
      fresh_half-Stores hash_of mem (cap_of cap_arg) bytes (cap_of_positive cap_arg),
      refl,
      refl,
      refl,
    )
