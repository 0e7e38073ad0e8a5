-- ===== src/Tests/Kv.antt =====
-- The store at concrete states: a store that is made, and one with an entry.
use kvx.Common.{
  length-replicate, replicate, inl, ℕ, ◌+◌, ◌*◌, ◌%◌, ◌^◌, ◌≡◌, ◌≢◌, ◌⊎◌, ◌↔◌, refl, true, false,
  not, none, some, [], ◌∷◌, arith, Bytes, length, get_or, ◌==◌,
}
use kvx.Pages.{Os, pages_map}
use kvx.Slab.Pool.{Malloc}
use kvx.HashTable.Table.{bucket_size}
use kvx.Kv.{
  kv_err_no_mem, KvError, kv_ok, kv_err_not_found, Out, Kv, kv_init, kv_get, kv_set, kv_delete,
}
use kvx.Kv.Shards.{read_entry}
use kvx.Kv.Upsert.{Fits}
use kvx.Kv.Whole.{KvEntry, IsKv}
use kvx.Kv.Api.{kv_init-IsKv, kv_get-KvEntry, kv_set-KvEntry, kv_delete-KvEntry}
use kvx.Kv.Refuse.{TooLarge, kv_set-TooLarge}
use kvx.Kv.RoundTrip.{kv_get-kv_set, kv_get-kv_delete}
use kvx.Tests.Pool.{zero_malloc, zero_malloc-IsMalloc, zero_items}

abbrev hash_of : Bytes → ℕ
hash_of k = (get_or k 0 0 + length k * 2 ^ 8) % 2 ^ 64

abbrev linux : Os
linux = record { page_size = 4096; mmap = λ n. not (n == 0) }

abbrev mallocs : ℕ → Malloc
mallocs i = zero_malloc

abbrev made : Kv
made = kv_init linux (λ i. zero_items)

no_pages : pages_map linux 0 ≡ none
unfolding pages_map
no_pages = refl

table_pages : pages_map linux (128 * bucket_size % 2 ^ 64) ≡ some 12288
unfolding pages_map
table_pages = refl

abbrev apple : Bytes
apple = 97 ∷ 112 ∷ 112 ∷ 108 ∷ 101 ∷ []

abbrev red : Bytes
red = 114 ∷ 101 ∷ 100 ∷ []

apple-Fits : Fits apple red
apple-Fits = record {
  key_fits = omega arith;
  value_fits = omega arith;
  positive = omega arith;
  size_fits = omega arith;
}

abbrev nothing_read : Out
nothing_read = record { value_len_out = 0; flags_out = 0; exp_out = 0; dst = 0 ∷ 0 ∷ 0 ∷ 0 ∷ [] }

made-IsKv : IsKv hash_of mallocs made
made-IsKv = (kv_init-IsKv hash_of mallocs linux (λ i. zero_items) 12288 table_pages).0

kv_init-IsKv_example :
    IsKv hash_of mallocs made
    × ((k v : Bytes) (f e : ℕ) → KvEntry hash_of made k v f e → true ≡ false)
kv_init-IsKv_example = kv_init-IsKv hash_of mallocs linux (λ i. zero_items) 12288 table_pages

kv_set-KvEntry_example :
    (kv' : Kv) × (kv_set hash_of mallocs linux made apple red 7 90 ≡ some (kv', kv_ok))
    × IsKv hash_of mallocs kv'
    × ((q v : Bytes) (f e : ℕ)
        → KvEntry hash_of kv' q v f e ↔ (
            ((q ≡ apple) × ((v ≡ red) × (f ≡ 7) × (e ≡ 90)))
            ⊎ ((q ≢ apple) × KvEntry hash_of made q v f e)))
kv_set-KvEntry_example =
    kv_set-KvEntry hash_of mallocs linux made apple red 7 90 (λ i. zero_malloc-IsMalloc) no_pages
      apple-Fits made-IsKv

-- The store with the entry of `apple`.
record WithApple : Type 0 where
  store : Kv
  ok : IsKv hash_of mallocs store
  entry : KvEntry hash_of store apple red 7 90

abbrev with_apple : WithApple
with_apple =
    let (kv', run, ok, law) =
      kv_set-KvEntry hash_of mallocs linux made apple red 7 90 (λ i. zero_malloc-IsMalloc) no_pages
        apple-Fits made-IsKv in
    record { store = kv'; ok = ok; entry = (law apple red 7 90).1 (inl (refl, (refl, refl, refl))) }

kv_get-KvEntry_example :
    ((kv_get hash_of with_apple.store apple 4 nothing_read ≡ some (kv_err_not_found, nothing_read))
      × ((v : Bytes) (f e : ℕ) → KvEntry hash_of with_apple.store apple v f e → true ≡ false))
    ⊎ ((v : Bytes) × (f : ℕ) × (e : ℕ) × (kv_get hash_of with_apple.store apple 4 nothing_read
          ≡ some (read_entry 4 nothing_read v f e))
        × KvEntry hash_of with_apple.store apple v f e
        × ((v' : Bytes) (f' e' : ℕ)
            → KvEntry hash_of with_apple.store apple v' f' e'
            → (v' ≡ v) × (f' ≡ f) × (e' ≡ e)))
kv_get-KvEntry_example =
    kv_get-KvEntry hash_of mallocs with_apple.store apple 4 nothing_read with_apple.ok

kv_delete-KvEntry_example :
    (kv' : Kv) × (error : KvError) × (kv_delete hash_of with_apple.store apple ≡ some (kv', error))
    × IsKv hash_of mallocs kv'
    × ((q v : Bytes) (f e : ℕ)
        → KvEntry hash_of kv' q v f e ↔ ((q ≢ apple) × KvEntry hash_of with_apple.store q v f e))
    × (((error ≡ kv_err_not_found)
          × ((v : Bytes) (f e : ℕ) → KvEntry hash_of with_apple.store apple v f e → true ≡ false))
        ⊎ ((error ≡ kv_ok)
            × ((v : Bytes) × (f : ℕ) × (e : ℕ) × KvEntry hash_of with_apple.store apple v f e)))
kv_delete-KvEntry_example =
    kv_delete-KvEntry hash_of mallocs with_apple.store apple (λ i. zero_malloc-IsMalloc)
      with_apple.ok

kv_get-kv_set_example :
    (kv' : Kv) × (kv_set hash_of mallocs linux with_apple.store apple (101 ∷ []) 8 91
      ≡ some (kv', kv_ok))
    × (kv_get hash_of kv' apple 4 nothing_read ≡ some (read_entry 4 nothing_read (101 ∷ []) 8 91))
    × ((q : Bytes)
        → q ≢ apple
        → kv_get hash_of kv' q 4 nothing_read ≡ kv_get hash_of with_apple.store q 4 nothing_read)
kv_get-kv_set_example =
    kv_get-kv_set hash_of mallocs linux with_apple.store apple (101 ∷ []) 8 91 4 nothing_read
      (λ i. zero_malloc-IsMalloc) no_pages
      (record {
        key_fits = omega arith;
        value_fits = omega arith;
        positive = omega arith;
        size_fits = omega arith;
      })
      with_apple.ok

kv_get-kv_delete_example :
    (kv' : Kv) × (error : KvError) × (kv_delete hash_of with_apple.store apple ≡ some (kv', error))
    × (kv_get hash_of kv' apple 4 nothing_read ≡ some (kv_err_not_found, nothing_read))
    × ((q : Bytes)
        → q ≢ apple
        → kv_get hash_of kv' q 4 nothing_read ≡ kv_get hash_of with_apple.store q 4 nothing_read)
kv_get-kv_delete_example =
    kv_get-kv_delete hash_of mallocs with_apple.store apple 4 nothing_read
      (λ i. zero_malloc-IsMalloc) with_apple.ok

of_length : (n : ℕ) → (v : Bytes) × (length v ≡ n)
of_length n = (replicate n 0, length-replicate n 0)

-- A value without a size class.
abbrev huge : Bytes
huge = (of_length (2 ^ 20)).0

huge-TooLarge : TooLarge apple huge
huge-TooLarge =
    let size : length huge ≡ 2 ^ 20 = (of_length (2 ^ 20)).1 in
    record { key_fits = omega arith; value_fits = omega (arith, size); large = omega (arith, size) }

kv_set-TooLarge_example :
    (kv' : Kv) × (kv_set hash_of mallocs linux with_apple.store apple huge 7 90
      ≡ some (kv', kv_err_no_mem))
    × IsKv hash_of mallocs kv'
    × ((q w : Bytes) (c d : ℕ)
        → KvEntry hash_of kv' q w c d ↔ KvEntry hash_of with_apple.store q w c d)
kv_set-TooLarge_example =
    kv_set-TooLarge hash_of mallocs linux with_apple.store apple huge 7 90 red 7 90
      (λ i. zero_malloc-IsMalloc) no_pages huge-TooLarge with_apple.ok with_apple.entry
