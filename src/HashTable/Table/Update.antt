-- ===== src/HashTable/Table/Update.antt =====
-- A cell is written: what is stored then.
use kvx.Common.{
  ℕ, ◌<◌, ◌≡◌, ◌≢◌, ◌⊎◌, ◌↔◌, refl, sym, subst, ap, ◌∙◌, true, false, none, Bytes, inl, inr,
}
use kvx.Item.{Item}
use kvx.HashTable.Bucket.Cells.{Cell}
use kvx.HashTable.Table.{Half}
use kvx.HashTable.Table.View.{
  cell_at, Apart, Apart-cases, Writes, home, Entry, Keeps, IsHalf, Stores, Was,
}

module _ (hash_of : Bytes → ℕ) (mem : ℕ → Item) where
  pub Keeps-same :
      (k : Bytes) (x : ℕ) (c c' : Cell)
      → c ≡ c'
      → Keeps hash_of mem k x c
      → Keeps hash_of mem k x c'
  Keeps-same k x c c' e h = subst (λ r. Keeps hash_of mem k x r) e h

  pub Keeps-one :
      (k q : Bytes) (x y : ℕ) (c : Cell)
      → Keeps hash_of mem k x c
      → Keeps hash_of mem q y c
      → (x ≡ y) × (k ≡ q)
  Keeps-one k q x y c g h = let e : x ≡ y = cc (g.item, h.item) in (e, cc (e, g.key, h.key))

module _ (hash_of : Bytes → ℕ) (mem : ℕ → Item) {from : ℕ} (h h' : Half) (i d s : ℕ) (c : Cell)
    (k : Bytes) (half : IsHalf hash_of mem from h) (low : s < 8) (w : Writes h h' i d s c)
    (was : Was hash_of mem h i d s k) where
  -- A cell of `h'` is the one written or the same cell of `h`.
  cell-cases :
      (i' d' s' : ℕ)
      → s' < 8
      → ((i' ≡ i) × (d' ≡ d) × (s' ≡ s) × (cell_at h' i' d' s' ≡ c))
        ⊎ ((Apart i d s i' d' s') × (cell_at h' i' d' s' ≡ cell_at h i' d' s'))
  cell-cases i' d' s' hs = elim (Apart-cases i d s i' d' s') [
    | inr apart ↦ inr (apart, w.there i' d' s' hs apart)
    | inl (ei, ed, es) ↦ inl (ei, ed, es, rw (ei, ed, es) w.here)
  ]

  -- No other position of the chain has the key.
  alone :
      (y d' s' : ℕ)
      → s' < 8
      → (d' ≢ d) ⊎ (s' ≢ s)
      → Keeps hash_of mem k y (cell_at h i d' s')
      → true ≡ false
  alone y d' s' hs apart keeps = elim was [
    | inl (free, lacks) ↦ lacks y d' s' hs keeps
    | inr (x, here) ↦
        let (ed, es) = half.unique k x y i d s d' s' low hs here keeps in
        elim apart [ inl f ↦ absurd (f ed) | inr f ↦ absurd (f es) ]
  ]

  module _ (entry : c.busy ≡ true → Entry hash_of mem h.bucket_count i c)
      (empty : c.busy ≡ false → c.item ≡ none)
      (mine : (q : Bytes) (y : ℕ) → Keeps hash_of mem q y c → q ≡ k) where
    -- A second cell with a key, where the first is the written one.
    once :
        (q : Bytes) (x y d' s' : ℕ)
        → s' < 8
        → Keeps hash_of mem q x c
        → Keeps hash_of mem q y (cell_at h' i d' s')
        → (d' ≡ d) × (s' ≡ s)
    once q x y d' s' hs at keeps = elim (cell-cases i d' s' hs) [
      | inl (_, ed, es, _) ↦ (ed, es)
      | inr (inl f, _) ↦ absurd (f refl)
      | inr (inr f, e) ↦ cc (
          alone y d' s' hs f (
            subst (λ r. Keeps hash_of mem r y (cell_at h i d' s')) (mine q x at)
              (Keeps-same hash_of mem q y (cell_at h' i d' s') (cell_at h i d' s') e keeps)))
    ]

    pub written-IsHalf : IsHalf hash_of mem from h'
    written-IsHalf = record {
      shaped = w.shaped;
      entries = λ i' d' s' hs busy. elim (cell-cases i' d' s' hs) [
        | inl (ei, ed, es, e) ↦ rw (w.count, e, ei) (entry (sym (ap (λ r. r.busy) e) ∙ busy))
        | inr (_, e) ↦ rw (w.count, e) (half.entries i' d' s' hs (sym (ap (λ r. r.busy) e) ∙ busy))
      ];
      vacant = λ i' d' s' behind hs busy. elim (cell-cases i' d' s' hs) [
        | inl (ei, ed, es, e) ↦ ap (λ r. r.item) e ∙ empty (sym (ap (λ r. r.busy) e) ∙ busy)
        | inr (_, e) ↦
            ap (λ r. r.item) e ∙ half.vacant i' d' s' behind hs (sym (ap (λ r. r.busy) e) ∙ busy)
      ];
      unique = λ q x y i' d1 s1 d2 s2 hs1 hs2 k1 k2. elim (cell-cases i' d1 s1 hs1) [
        | inl (ei, ed, es, e) ↦
            let (fd, fs) =
              once q x y d2 s2 hs2 (Keeps-same hash_of mem q x _ c e k1)
                (subst (λ r. Keeps hash_of mem q y (cell_at h' r d2 s2)) ei k2) in
            (fd ∙ sym ed, fs ∙ sym es)
        | inr (_, e) ↦ elim (cell-cases i' d2 s2 hs2) [
          | inl (fi, fd, fs, f) ↦
              let (ed, es) =
                once q y x d1 s1 hs1 (Keeps-same hash_of mem q y _ c f k2)
                  (subst (λ r. Keeps hash_of mem q x (cell_at h' r d1 s1)) fi k1) in
              (fd ∙ sym ed, fs ∙ sym es)
          | inr (_, f) ↦
              half.unique q x y i' d1 s1 d2 s2 hs1 hs2
                (Keeps-same hash_of mem q x _ (cell_at h i' d1 s1) e k1)
                (Keeps-same hash_of mem q y _ (cell_at h i' d2 s2) f k2)
        ]
      ];
    }

    module _ (at_home : i ≡ home hash_of mem h.bucket_count k) where
      Stores-now :
          (q : Bytes) (y : ℕ)
          → Stores hash_of mem h' q y
          → ((q ≡ k) × Keeps hash_of mem k y c) ⊎ ((q ≢ k) × Stores hash_of mem h q y)
      Stores-now q y (d', s', hs, keeps) =
          let j = home hash_of mem h.bucket_count q in
          let here : Keeps hash_of mem q y (cell_at h' j d' s') =
            subst (λ r. Keeps hash_of mem q y (cell_at h' (home hash_of mem r q) d' s')) w.count
              keeps in
          elim (cell-cases j d' s' hs) [
            | inl (ei, ed, es, e) ↦
                let at = Keeps-same hash_of mem q y (cell_at h' j d' s') c e here in
                let same = mine q y at in inl (same, subst (λ r. Keeps hash_of mem r y c) same at)
            | inr (apart, e) ↦
                let before =
                  Keeps-same hash_of mem q y (cell_at h' j d' s') (cell_at h j d' s') e here in
                inr (
                  λ same.
                      let ei : j ≡ i =
                        ap (λ r. home hash_of mem h.bucket_count r) same ∙ sym at_home in
                      elim apart [
                        | inl f ↦ f ei
                        | inr f ↦ cc (
                            alone y d' s' hs f (
                              subst (λ r. Keeps hash_of mem k y (cell_at h r d' s')) ei
                                (subst (λ r. Keeps hash_of mem r y (cell_at h j d' s')) same
                                  before)))
                      ],
                  (d', s', hs, before),
                )
          ]

      Stores-then :
          (q : Bytes) (y : ℕ)
          → ((q ≡ k) × Keeps hash_of mem k y c) ⊎ ((q ≢ k) × Stores hash_of mem h q y)
          → Stores hash_of mem h' q y
      Stores-then q y (inl (same, at)) = (d, s, low, rw (same, w.count, ← at_home, w.here) at)
      Stores-then q y (inr (other, (d', s', hs, keeps))) =
          let j = home hash_of mem h.bucket_count q in
          elim (cell-cases j d' s' hs) [
            | inl (ei, ed, es, e) ↦
                let was_here : Keeps hash_of mem q y (cell_at h i d s) =
                  rw (← ei, ← ed, ← es) keeps in
                absurd (elim was [
                  | inl (free, lacks) ↦ cc (free, was_here.busy)
                  | inr (x, at) ↦
                      other ((Keeps-one hash_of mem q k y x (cell_at h i d s) was_here at).1)
                ])
            | inr (apart, e) ↦ (d', s', hs, rw (w.count, e) keeps)
          ]

      -- The written position has what it has now; all else is stored as before.
      pub written-Stores :
          (q : Bytes) (y : ℕ)
          → Stores hash_of mem h' q y
            ↔ (((q ≡ k) × Keeps hash_of mem k y c) ⊎ ((q ≢ k) × Stores hash_of mem h q y))
      written-Stores q y = (Stores-now q y, Stores-then q y)
