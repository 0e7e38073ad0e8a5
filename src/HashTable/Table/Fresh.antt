-- ===== src/HashTable/Table/Fresh.antt =====
-- An array of zero buckets, as hashtable_init of src/hashtable.c makes it.
use kvx.Common.{
  ℕ, zero, suc, ◌<◌, ◌≡◌, refl, true, false, none, [], ◌∷◌, arith, Bytes, length, replicate,
  length-replicate, get_or,
}
use kvx.Item.{Item}
use kvx.HashTable.Bucket.{get_slot_item, get_slot_state, zero_bucket}
use kvx.HashTable.Bucket.States.{is_busy_zero}
use kvx.HashTable.Bucket.Cells.{cell, IsBucket}
use kvx.HashTable.Probe.Chain.{nth}
use kvx.HashTable.Table.{fresh_half}
use kvx.HashTable.Table.View.{cell_at, home, IsHalf, Stores}

pub zero_bucket-IsBucket : IsBucket zero_bucket
zero_bucket-IsBucket = record { states = omega arith; tags = omega arith; slots = refl }

get_or-replicate {ℓ} : {A : Type ℓ} (n : ℕ) (a : A) (i : ℕ) → get_or (replicate n a) i a ≡ a
get_or-replicate zero a i = refl
get_or-replicate (suc n) a zero = refl
get_or-replicate (suc n) a (suc i) = get_or-replicate n a i

-- Each chain of an array of zero buckets reads as zero buckets.
nth-fresh : (cap i d : ℕ) → nth (get_or (replicate cap (zero_bucket ∷ [])) i []) d ≡ zero_bucket
nth-fresh zero i zero = refl
nth-fresh zero i (suc d) = refl
nth-fresh (suc cap) zero zero = refl
nth-fresh (suc cap) zero (suc d) = refl
nth-fresh (suc cap) (suc i) d = nth-fresh cap i d

length-fresh : (cap i : ℕ) → i < cap → 0 < length (get_or (replicate cap (zero_bucket ∷ [])) i [])
length-fresh zero i hi = absurd (omega arith)
length-fresh (suc cap) zero hi = omega arith
length-fresh (suc cap) (suc i) hi = length-fresh cap i (omega arith)

fresh_half-free :
    (cap bytes i d s : ℕ) → s < 8 → (cell_at (fresh_half cap bytes) i d s).busy ≡ false
unfolding cell get_slot_state
fresh_half-free cap bytes i d s hs = rw (nth-fresh cap i d) (is_busy_zero s hs)

fresh_half-none : (cap bytes i d s : ℕ) → s < 8 → (cell_at (fresh_half cap bytes) i d s).item ≡ none
unfolding cell get_slot_item
fresh_half-none cap bytes i d s hs = rw (nth-fresh cap i d) (get_or-replicate 8 none s)

module _ (hash_of : Bytes → ℕ) (mem : ℕ → Item) (cap bytes : ℕ) (nonempty : 0 < cap) where
  pub fresh_half-IsHalf : IsHalf hash_of mem 0 (fresh_half cap bytes)
  fresh_half-IsHalf = record {
    shaped = record {
      width = length-replicate cap (zero_bucket ∷ []);
      nonempty = nonempty;
      chains = λ i hi. length-fresh cap i hi;
      buckets = λ i d. rw (nth-fresh cap i d) zero_bucket-IsBucket;
    };
    entries = λ i d s hs busy. cc (fresh_half-free cap bytes i d s hs, busy);
    vacant = λ i d s behind hs free. fresh_half-none cap bytes i d s hs;
    unique = λ k x y i d s d' s' hs hs' a b. cc (fresh_half-free cap bytes i d s hs, a.busy);
  }

  pub fresh_half-Stores :
      (k : Bytes) (x : ℕ) → Stores hash_of mem (fresh_half cap bytes) k x → true ≡ false
  fresh_half-Stores k x (d, s, hs, keeps) =
      cc (fresh_half-free cap bytes (home hash_of mem cap k) d s hs, keeps.busy)
