-- ===== src/Kv/RoundTrip.antt =====
-- kv_get of src/kv.c behind kv_set and kv_delete.
use kvx.Common.{ℕ, ◌≡◌, ◌≢◌, ◌↔◌, refl, sym, ap, ◌∙◌, true, false, none, some, Bytes, inl, inr}
use kvx.Pages.{Os, pages_map}
use kvx.Slab.Pool.{Malloc}
use kvx.Slab.Pool.Invariant.{IsMalloc}
use kvx.Kv.{KvError, kv_ok, kv_err_not_found, Out, Kv, kv_get, kv_set, kv_delete}
use kvx.Kv.Shards.{read_entry}
use kvx.Kv.Upsert.{Fits}
use kvx.Kv.Whole.{KvEntry, IsKv}
use kvx.Kv.Api.{kv_get-KvEntry, kv_set-KvEntry, kv_delete-KvEntry}

module _ (hash_of : Bytes → ℕ) (mallocs : ℕ → Malloc) where
  kv_get_entry :
      (kv : Kv) (key : Bytes) (dst_len : ℕ) (out : Out) (v : Bytes) (f e : ℕ)
      → IsKv hash_of mallocs kv
      → KvEntry hash_of kv key v f e
      → kv_get hash_of kv key dst_len out ≡ some (read_entry dst_len out v f e)
  kv_get_entry kv key dst_len out v f e ok entry =
      elim (kv_get-KvEntry hash_of mallocs kv key dst_len out ok) [
        | inl (_, absent) ↦ cc (absent v f e entry)
        | inr (v', f', e', run, _, one) ↦
            let (ev, ef, ee) = one v f e entry in
            run
            ∙ (ap (λ r. some (read_entry dst_len out r f' e')) (sym ev)
                ∙ (ap (λ r. some (read_entry dst_len out v r e')) (sym ef)
                    ∙ ap (λ r. some (read_entry dst_len out v f r)) (sym ee)))
      ]

  kv_get_no_entry :
      (kv : Kv) (key : Bytes) (dst_len : ℕ) (out : Out)
      → IsKv hash_of mallocs kv
      → ((v : Bytes) (f e : ℕ) → KvEntry hash_of kv key v f e → true ≡ false)
      → kv_get hash_of kv key dst_len out ≡ some (kv_err_not_found, out)
  kv_get_no_entry kv key dst_len out ok absent =
      elim (kv_get-KvEntry hash_of mallocs kv key dst_len out ok) [
        | inl (run, _) ↦ run
        | inr (v, f, e, _, entry, _) ↦ cc (absent v f e entry)
      ]

  -- Stores in which a key has the same entries give the same answer for it.
  same_answer :
      (kv kv' : Kv) (q : Bytes) (dst_len : ℕ) (out : Out)
      → IsKv hash_of mallocs kv
      → IsKv hash_of mallocs kv'
      → ((v : Bytes) (f e : ℕ) → KvEntry hash_of kv' q v f e ↔ KvEntry hash_of kv q v f e)
      → kv_get hash_of kv' q dst_len out ≡ kv_get hash_of kv q dst_len out
  same_answer kv kv' q dst_len out ok ok' same =
      elim (kv_get-KvEntry hash_of mallocs kv q dst_len out ok) [
        | inl (run, absent) ↦
            kv_get_no_entry kv' q dst_len out ok' (λ v f e r. absent v f e ((same v f e).0 r))
            ∙ sym run
        | inr (v, f, e, run, entry, _) ↦
            kv_get_entry kv' q dst_len out v f e ok' ((same v f e).1 entry) ∙ sym run
      ]

  -- In a well-formed store, over mallocs with disjoint blocks and an mmap that refuses an empty mapping,
  -- for a key of less than 2^16 bytes and a value whose lengths have a size class together: kv_set
  -- succeeds, and behind it kv_get of the key
  -- gives the value, the flags and the expiry time that were set, or the error for a small buffer, and
  -- kv_get of each other key gives what it gave before.
  pub kv_get-kv_set :
      (os : Os) (kv : Kv) (key value : Bytes) (flags exp dst_len : ℕ) (out : Out)
      → ((i : ℕ) → IsMalloc (mallocs i))
      → pages_map os 0 ≡ none
      → Fits key value
      → IsKv hash_of mallocs kv
      → (kv' : Kv) × (kv_set hash_of mallocs os kv key value flags exp ≡ some (kv', kv_ok))
        × (kv_get hash_of kv' key dst_len out ≡ some (read_entry dst_len out value flags exp))
        × ((q : Bytes)
            → q ≢ key
            → kv_get hash_of kv' q dst_len out ≡ kv_get hash_of kv q dst_len out)
  kv_get-kv_set os kv key value flags exp dst_len out malloc empty fits ok =
      let (kv', run, ok', law) =
        kv_set-KvEntry hash_of mallocs os kv key value flags exp malloc empty fits ok in
      (
        kv',
        run,
        kv_get_entry kv' key dst_len out value flags exp ok'
            ((law key value flags exp).1 (inl (refl, (refl, refl, refl)))),
        λ q ne. same_answer kv kv' q dst_len out ok ok' (λ v f e. (
          λ r. elim ((law q v f e).0 r) [ inl (same, _) ↦ absurd (ne same) | inr (_, p) ↦ p ],
          λ p. (law q v f e).1 (inr (ne, p)),
        )),
      )

  -- In a well-formed store, over mallocs with disjoint blocks, behind kv_delete, kv_get of the key returns KV_ERR_NOT_FOUND and writes
  -- nothing, and kv_get of each other key gives what it gave before.
  pub kv_get-kv_delete :
      (kv : Kv) (key : Bytes) (dst_len : ℕ) (out : Out)
      → ((i : ℕ) → IsMalloc (mallocs i))
      → IsKv hash_of mallocs kv
      → (kv' : Kv) × (error : KvError) × (kv_delete hash_of kv key ≡ some (kv', error))
        × (kv_get hash_of kv' key dst_len out ≡ some (kv_err_not_found, out))
        × ((q : Bytes)
            → q ≢ key
            → kv_get hash_of kv' q dst_len out ≡ kv_get hash_of kv q dst_len out)
  kv_get-kv_delete kv key dst_len out malloc ok =
      let (kv', error, run, ok', law, _) = kv_delete-KvEntry hash_of mallocs kv key malloc ok in
      (
        kv',
        error,
        run,
        kv_get_no_entry kv' key dst_len out ok' (λ v f e r. absurd (((law key v f e).0 r).0 refl)),
        λ q ne.
            same_answer kv kv' q dst_len out ok ok'
              (λ v f e. (λ r. ((law q v f e).0 r).1, λ p. (law q v f e).1 (ne, p))),
      )
