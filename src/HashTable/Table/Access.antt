-- ===== src/HashTable/Table/Access.antt =====
-- The searches of one half: what they find in the chain of a key.
use kvx.Common.{
  ℕ, zero, suc, ◌-◌, ◌/◌, ◌^◌, ◌<◌, ◌≡◌, refl, ap, ◌∙◌, List, [], ◌∷◌, ◌++◌, arith, Bytes, length,
  All,
}
use kvx.Common.Bits.{bit_and-le}
use kvx.Item.{Item}
use kvx.HashTable.Bucket.{Bucket, zero_bucket, get_slot_state}
use kvx.HashTable.Bucket.Cells.{cell}
use kvx.HashTable.Probe.{Place, place_null, place, chain_end}
use kvx.HashTable.Probe.Candidates.{Holding}
use kvx.HashTable.Probe.Chain.{nth, Holds, Lacks}
use kvx.HashTable.Table.{Half, chain_at, extended, tag_of}
use kvx.HashTable.Table.View.{key_of, cell_at, home, Keeps, IsHalf, Stores, LacksKey}

All-nth :
    (P : Bucket → Type 0) (chain : List Bucket)
    → ((d : ℕ) → d < length chain → P (nth chain d))
    → All P chain
All-nth P [] h = tt
All-nth P (b ∷ chain) h = (h 0 (omega arith), All-nth P chain (λ d hd. h (suc d) (omega arith)))

pub nth-append_zero :
    (chain : List Bucket) (d : ℕ) → nth (chain ++ (zero_bucket ∷ [])) d ≡ nth chain d
nth-append_zero [] zero = refl
nth-append_zero [] (suc d) = refl
nth-append_zero (b ∷ chain) zero = refl
nth-append_zero (b ∷ chain) (suc d) = nth-append_zero chain d

pub nth-extended :
    (chain : List Bucket) (p : Place) (d : ℕ) → nth (extended chain p) d ≡ nth chain d
nth-extended chain place_null d = refl
nth-extended chain (place d' s) d = refl
nth-extended chain (chain_end d') d = nth-append_zero chain d

pub tag_of_small : (hash : ℕ) → tag_of hash < 256
tag_of_small hash = omega arith

module _ (hash_of : Bytes → ℕ) (mem : ℕ → Item) {from : ℕ} (h : Half)
    (half : IsHalf hash_of mem from h) (key : Bytes) where
  abbrev pub own_chain : List Bucket
  own_chain = chain_at h (home hash_of mem h.bucket_count key)

  pub home_low : home hash_of mem h.bucket_count key < h.bucket_count
  home_low =
      omega (arith, bit_and-le (hash_of key / 2 ^ 8) (h.bucket_count - 1), half.shaped.nonempty)

  Holding-at : (i d : ℕ) → Holding mem key (tag_of (hash_of key)) (nth (chain_at h i) d)
  unfolding cell get_slot_state
  Holding-at i d = record {
    ranges = half.shaped.buckets i d;
    items = λ s hs busy. let e = half.entries i d s hs busy in (e.stored, e.item, e.intact);
    tagged = λ s hs busy (x, item, k).
        let e = half.entries i d s hs busy in
        let one : e.stored ≡ x = cc (e.item, item) in
        e.tag ∙ ap (λ r. tag_of (hash_of r)) (ap (λ r. key_of hash_of mem r) one ∙ k);
  }

  pub chain_Holding : (i : ℕ) → All (Holding mem key (tag_of (hash_of key))) (chain_at h i)
  chain_Holding i =
      All-nth (Holding mem key (tag_of (hash_of key))) (chain_at h i) (λ d hd. Holding-at i d)

  pub Holds-Keeps :
      (i d s : ℕ)
      → Holds mem key (chain_at h i) d s
      → (x : ℕ) × Keeps hash_of mem key x (cell_at h i d s)
  unfolding cell get_slot_state
  Holds-Keeps i d s at =
      let (x, item, k) = at.3 in (x, record { busy = at.2; item = item; key = k })

  pub Lacks-LacksKey : (i : ℕ) → Lacks mem key (chain_at h i) → LacksKey hash_of mem h i key
  unfolding cell get_slot_state
  Lacks-LacksKey i lacks y d s hs keeps = lacks d s hs keeps.busy (y, keeps.item, keeps.key)

  -- A key has one item at most.
  pub Stores-one :
      (x y d s : ℕ)
      → s < 8
      → Keeps hash_of mem key x (cell_at h (home hash_of mem h.bucket_count key) d s)
      → Stores hash_of mem h key y
      → x ≡ y
  Stores-one x y d s hs at (d', s', hs', at') =
      let (ed, es) =
        half.unique key x y (home hash_of mem h.bucket_count key) d s d' s' hs hs' at at' in
      cc (at.item, at'.item, ed, es)
