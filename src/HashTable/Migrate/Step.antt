-- ===== src/HashTable/Migrate/Step.antt =====
-- One step of the migration in src/hashtable.c keeps what is stored.
use kvx.Common.{
  ℕ, zero, suc, ◌+◌, ◌<◌, ◌≡◌, ◌≢◌, ◌⊎◌, ◌↔◌, refl, sym, subst, ap, ◌∙◌, false, some, List, [], ◌∷◌,
  arith, ◌==◌, Bytes, Bool-cases, inl, inr, length, set,
}
use kvx.Item.{Item}
use kvx.HashTable.Bucket.{Bucket, zero_bucket}
use kvx.HashTable.Bucket.Cells.{cell, IsBucket}
use kvx.HashTable.Probe.Chain.{nth}
use kvx.HashTable.Table.{Half, chain_at}
use kvx.HashTable.Table.View.{IsHalf, Stores, home, Keeps, cell_at}
use kvx.HashTable.Table.Replace.{chain_at_here, chain_at_there, swap-IsShaped}
use kvx.HashTable.Table.Fresh.{zero_bucket-IsBucket}
use kvx.HashTable.Migrate.Chain.{zero_cell, ChainMovable}
use kvx.HashTable.Migrate.Whole.{NewLaw, entry-Stores}

pub cons_of :
    (c : List Bucket) → 0 < length c → (b : Bucket) × (next : List Bucket) × (c ≡ b ∷ next)
cons_of [] h = absurd (omega arith)
cons_of (b ∷ next) h = (b, next, refl)

nth_single : (b : Bucket) (d : ℕ) → (nth (b ∷ []) d ≡ b) ⊎ (nth (b ∷ []) d ≡ zero_bucket)
nth_single b zero = inl refl
nth_single b (suc d) = inr refl

module _ (hash_of : Bytes → ℕ) (mem : ℕ → Item) where
  -- The chain that is moved next can be moved.
  pub next-ChainMovable :
      (old new : Half) (pos : ℕ)
      → IsHalf hash_of mem pos old
      → NewLaw hash_of mem old.bucket_count pos (some new)
      → ChainMovable hash_of mem (chain_at old pos) new
  next-ChainMovable old new pos half (inside, new_half, near) = record {
    half = new_half;
    ok = half.shaped.buckets pos;
    items = λ d s hs busy. let e = half.entries pos d s hs busy in (e.stored, e.item, e.intact);
    fresh = λ k y z d s hs keeps stored.
        let (e, _) = entry-Stores hash_of mem old half pos d s k y hs keeps in
        absurd (omega (arith, e, near k z stored));
    once = λ k y z d s d' s' hs hs' p q. half.unique k y z pos d s d' s' hs hs' p q;
  }

  -- The old half after chain `pos` was replaced by a free bucket.
  module _ (old old' : Half) (pos : ℕ) (half : IsHalf hash_of mem pos old)
      (inside : pos < old.bucket_count) (b : Bucket) (ok : IsBucket b)
      (free : (j : ℕ) → j < 8 → (cell b j).busy ≡ false)
      (swapped : old'.buckets ≡ set old.buckets pos (b ∷ []))
      (count : old'.bucket_count ≡ old.bucket_count) where
    single-IsBucket : (d : ℕ) → IsBucket (nth (b ∷ []) d)
    single-IsBucket d = elim (nth_single b d) [
      | inl e ↦ rw e ok
      | inr e ↦ rw e zero_bucket-IsBucket
    ]

    single_free : (d s : ℕ) → s < 8 → (cell (nth (b ∷ []) d) s).busy ≡ false
    single_free d s hs = elim (nth_single b d) [
      | inl e ↦ rw e (free s hs)
      | inr e ↦ rw e (zero_cell s hs)
    ]

    -- A cell of the old half is free in the moved chain, and else as it was.
    left_cases :
        (i d s : ℕ)
        → s < 8
        → ((i ≡ pos) × ((cell_at old' i d s).busy ≡ false))
          ⊎ ((i ≢ pos) × (cell_at old' i d s ≡ cell_at old i d s))
    left_cases i d s hs = elim (Bool-cases (i == pos)) [
      | inl f ↦
          let e : i ≡ pos = ground (arith, f) in
          let here : chain_at old' pos ≡ b ∷ [] =
            chain_at_here old old' pos (b ∷ []) half.shaped inside swapped count (omega arith)
              single-IsBucket in
          inl (
            e,
            ap (λ r. (cell_at old' r d s).busy) e
                ∙ (ap (λ c. (cell (nth c d) s).busy) here ∙ single_free d s hs),
          )
      | inr f ↦
          let ne : i ≢ pos = ground (arith, f) in
          inr (
            ne,
            ap (λ c. cell (nth c d) s)
                (chain_at_there old old' pos (b ∷ []) half.shaped inside swapped count (omega arith)
                  single-IsBucket i (λ e. ne (sym e))),
          )
    ]

    pub left-Stores :
        (k : Bytes) (x : ℕ)
        → Stores hash_of mem old' k x
          ↔ ((home hash_of mem old.bucket_count k ≢ pos) × Stores hash_of mem old k x)
    left-Stores k x =
        let i = home hash_of mem old.bucket_count k in
        (
          λ (d, s, hs, keeps).
              let at : Keeps hash_of mem k x (cell_at old' i d s) =
                subst (λ n. Keeps hash_of mem k x (cell_at old' (home hash_of mem n k) d s)) count
                  keeps in
              elim (left_cases i d s hs) [
                | inl (_, f) ↦ cc (f, at.busy)
                | inr (ne, e) ↦ (ne, (d, s, hs, rw (← e) at))
              ],
          λ (ne, (d, s, hs, keeps)). elim (left_cases i d s hs) [
            | inl (e, _) ↦ absurd (ne e)
            | inr (_, e) ↦ (d, s, hs, rw (count, e) keeps)
          ],
        )

    pub left-IsHalf : IsHalf hash_of mem (pos + 1) old'
    left-IsHalf = record {
      shaped =
          swap-IsShaped old old' pos (b ∷ []) half.shaped inside swapped count (omega arith)
            single-IsBucket;
      entries = λ i d s hs busy. elim (left_cases i d s hs) [
        | inl (_, f) ↦ cc (f, busy)
        | inr (_, e) ↦ rw (count, e) (half.entries i d s hs (rw (← e) busy))
      ];
      vacant = λ i d s behind hs f. elim (left_cases i d s hs) [
        | inl (e, _) ↦ absurd (omega (arith, e, behind))
        | inr (_, e) ↦ rw e (half.vacant i d s (omega (arith, behind)) hs (rw (← e) f))
      ];
      unique = λ k x y i d s d' s' hs hs' p q. elim (left_cases i d s hs) [
        | inl (_, f) ↦ cc (f, p.busy)
        | inr (_, e) ↦ elim (left_cases i d' s' hs') [
          | inl (_, f) ↦ cc (f, q.busy)
          | inr (_, e') ↦ half.unique k x y i d s d' s' hs hs' (rw (← e) p) (rw (← e') q)
        ]
      ];
    }
