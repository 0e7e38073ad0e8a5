-- ===== src/HashTable/Migrate/Whole.antt =====
-- The table of src/hashtable.c with both halves: where a key belongs, and what is stored under it.
use kvx.Common.{ℕ, ◌≤◌, ◌<◌, ◌≡◌, ◌⊎◌, subst, ap, ◌∙◌, Bool, false, Option, none, some, Bytes, ltb}
use kvx.Item.{Item}
use kvx.HashTable.Table.{Half, Table}
use kvx.HashTable.Table.View.{IsHalf, Stores, home, Keeps, cell_at, key_of}

module _ (hash_of : Bytes → ℕ) (mem : ℕ → Item) where
  -- A key belongs to the new half where its chain in the old one has been moved.
  abbrev pub belongs : Table → Bytes → Bool
  belongs t k = elim (t.new) [
    | none ↦ false
    | some new ↦ ltb (home hash_of mem t.old.bucket_count k) t.migration_pos
  ]

  abbrev pub BothStore : ℕ → ℕ → Half → Option Half → Bytes → ℕ → Type 0
  BothStore count pos old none k x = Stores hash_of mem old k x
  BothStore count pos old (some new) k x =
      ((home hash_of mem count k < pos) × Stores hash_of mem new k x)
      ⊎ ((pos ≤ home hash_of mem count k) × Stores hash_of mem old k x)

  -- The item that is stored under a key: in the half that the key belongs to.
  abbrev pub TableStores : Table → Bytes → ℕ → Type 0
  TableStores t k x = BothStore t.old.bucket_count t.migration_pos t.old t.new k x

  -- The new half, where there is one, holds keys of moved chains only.
  abbrev pub NewLaw : ℕ → ℕ → Option Half → Type 0
  NewLaw count pos none = pos ≡ 0
  NewLaw count pos (some new) =
      (pos < count)
      × IsHalf hash_of mem 0 new
      × ((k : Bytes) (x : ℕ) → Stores hash_of mem new k x → home hash_of mem count k < pos)

  pub record IsTable (t : Table) : Type 0 where
    pub old : IsHalf hash_of mem t.migration_pos t.old
    pub far :
        (k : Bytes) (x : ℕ)
        → Stores hash_of mem t.old k x
        → t.migration_pos ≤ home hash_of mem t.old.bucket_count k
    pub new : NewLaw t.old.bucket_count t.migration_pos t.new

  -- A busy slot stores its item under the item's key.
  pub entry-Stores :
      {from : ℕ} (h : Half) (half : IsHalf hash_of mem from h) (i d s : ℕ) (k : Bytes) (x : ℕ)
      → s < 8
      → Keeps hash_of mem k x (cell_at h i d s)
      → (i ≡ home hash_of mem h.bucket_count k) × Stores hash_of mem h k x
  entry-Stores h half i d s k x hs keeps =
      let e = half.entries i d s hs keeps.busy in
      let one : e.stored ≡ x = cc (e.item, keeps.item) in
      let same : i ≡ home hash_of mem h.bucket_count k =
        e.at_home
        ∙ ap (home hash_of mem h.bucket_count) (ap (λ r. key_of hash_of mem r) one ∙ keeps.key) in
      (same, (d, s, hs, subst (λ r. Keeps hash_of mem k x (cell_at h r d s)) same keeps))
