-- ===== src/HashTable/Migrate/Later.antt =====
-- The table of src/hashtable.c over two memories in which the stored items have the same keys.
use kvx.Common.{
  ℕ, ◌≤◌, ◌<◌, ◌≡◌, ◌↔◌, refl, sym, subst, ap, ◌∙◌, true, Option, none, some, inl, inr, Bytes,
}
use kvx.Item.{Item, item_key}
use kvx.Item.Laws.{IsItem}
use kvx.HashTable.Table.{Half, Table, tag_of}
use kvx.HashTable.Table.View.{IsHalf, Stores, Entry, Keeps, Was, cell_at, home, key_of}
use kvx.HashTable.Migrate.Whole.{BothStore, TableStores, IsTable, entry-Stores}

module _ (hash_of : Bytes → ℕ) (mem mem' : ℕ → Item) where
  -- In the later memory the item is intact and has the key that it had.
  pub record SameKey (x : ℕ) : Type 0 where
    pub key : item_key (mem' x) ≡ item_key (mem x)
    pub intact : IsItem (mem' x)

  module _ {from : ℕ} (h : Half) (half : IsHalf hash_of mem from h)
      (agree : (k : Bytes) (y : ℕ) → Stores hash_of mem h k y → SameKey y) where
    busy-SameKey :
        (i d s x : ℕ)
        → s < 8
        → (cell_at h i d s).busy ≡ true
        → (cell_at h i d s).item ≡ some x
        → SameKey x
    busy-SameKey i d s x hs busy item =
        let keeps : Keeps hash_of mem (key_of hash_of mem x) x (cell_at h i d s) = record {
          busy = busy;
          item = item;
          key = refl;
        } in
        agree (key_of hash_of mem x) x
          (entry-Stores hash_of mem h half i d s (key_of hash_of mem x) x hs keeps).1

    later-Entry :
        (i d s : ℕ)
        → s < 8
        → (cell_at h i d s).busy ≡ true
        → Entry hash_of mem' h.bucket_count i (cell_at h i d s)
    later-Entry i d s hs busy =
        let e = half.entries i d s hs busy in
        let same = busy-SameKey i d s e.stored hs busy e.item in
        record {
          stored = e.stored;
          item = e.item;
          intact = same.intact;
          tag = e.tag ∙ ap (λ r. tag_of (hash_of r)) (sym same.key);
          at_home = e.at_home ∙ ap (home hash_of mem h.bucket_count) (sym same.key);
        }

    pub later-Keeps :
        (k : Bytes) (x i d s : ℕ)
        → s < 8
        → Keeps hash_of mem' k x (cell_at h i d s) ↔ Keeps hash_of mem k x (cell_at h i d s)
    later-Keeps k x i d s hs = (
      λ r. record {
        busy = r.busy;
        item = r.item;
        key = sym (busy-SameKey i d s x hs r.busy r.item).key ∙ r.key;
      },
      λ r. record {
        busy = r.busy;
        item = r.item;
        key = (busy-SameKey i d s x hs r.busy r.item).key ∙ r.key;
      },
    )

    pub later-IsHalf : IsHalf hash_of mem' from h
    later-IsHalf = record {
      shaped = half.shaped;
      entries = later-Entry;
      vacant = half.vacant;
      unique = λ k x y i d s d' s' hs hs' kx ky.
          half.unique k x y i d s d' s' hs hs' ((later-Keeps k x i d s hs).0 kx)
            ((later-Keeps k y i d' s' hs').0 ky);
    }

    pub later-Stores : (k : Bytes) (x : ℕ) → Stores hash_of mem' h k x ↔ Stores hash_of mem h k x
    later-Stores k x = (
      λ (d, s, hs, r). (d, s, hs, (later-Keeps k x (home hash_of mem h.bucket_count k) d s hs).0 r),
      λ (d, s, hs, r). (d, s, hs, (later-Keeps k x (home hash_of mem h.bucket_count k) d s hs).1 r),
    )

    pub later-Was :
        (i d s : ℕ) (k : Bytes) → s < 8 → Was hash_of mem h i d s k → Was hash_of mem' h i d s k
    later-Was i d s k hs was = elim was [
      | inl (free, lacks) ↦
          inl (free, λ y d' s' hs' r. lacks y d' s' hs' ((later-Keeps k y i d' s' hs').0 r))
      | inr (y, r) ↦ inr (y, (later-Keeps k y i d s hs).1 r)
    ]

  old-BothStore :
      (count pos : ℕ) (old : Half) (o : Option Half) (k : Bytes) (x : ℕ)
      → pos ≤ home hash_of mem count k
      → Stores hash_of mem old k x
      → BothStore hash_of mem count pos old o k x
  old-BothStore count pos old none k x far stored = stored
  old-BothStore count pos old (some new) k x far stored = inr (far, stored)

  module _ (t : Table) (table : IsTable hash_of mem t)
      (agree : (k : Bytes) (y : ℕ) → TableStores hash_of mem t k y → SameKey y) where
    pub agree_old : (k : Bytes) (y : ℕ) → Stores hash_of mem t.old k y → SameKey y
    agree_old k y stored = agree k y (
        old-BothStore t.old.bucket_count t.migration_pos t.old t.new k y (table.far k y stored)
          stored)

  later_by_half :
      (t : Table) (o : Option Half) (table : IsTable hash_of mem (record t { new = o }))
      → ((k : Bytes) (y : ℕ) → TableStores hash_of mem (record t { new = o }) k y → SameKey y)
      → IsTable hash_of mem' (record t { new = o })
        × ((k : Bytes) (y : ℕ)
            → TableStores hash_of mem' (record t { new = o }) k y
              ↔ TableStores hash_of mem (record t { new = o }) k y)
  later_by_half t none table agree =
      let old = agree_old (record t { new = none }) table agree in
      let same = later-Stores t.old table.old old in
      (
        record {
          old = later-IsHalf t.old table.old old;
          far = λ k x stored. table.far k x ((same k x).0 stored);
          new = table.new;
        },
        same,
      )
  later_by_half t (some new) table agree =
      let old = agree_old (record t { new = some new }) table agree in
      let same = later-Stores t.old table.old old in
      let (pos, half, low) = table.new in
      let agree_new : (k : Bytes) (y : ℕ) → Stores hash_of mem new k y → SameKey y =
        λ k y stored. agree k y (inl (low k y stored, stored)) in
      let same_new = later-Stores new half agree_new in
      (
        record {
          old = later-IsHalf t.old table.old old;
          far = λ k x stored. table.far k x ((same k x).0 stored);
          new = (
            pos,
            later-IsHalf new half agree_new,
            λ k x stored. low k x ((same_new k x).0 stored),
          );
        },
        λ k x. (
          λ both. elim both [
            | inl (e, stored) ↦ inl (e, (same_new k x).0 stored)
            | inr (e, stored) ↦ inr (e, (same k x).0 stored)
          ],
          λ both. elim both [
            | inl (e, stored) ↦ inl (e, (same_new k x).1 stored)
            | inr (e, stored) ↦ inr (e, (same k x).1 stored)
          ],
        ),
      )

  -- The table is well-formed over the later memory, and has the same items under the same keys.
  pub later-IsTable :
      (t : Table)
      → IsTable hash_of mem t
      → ((k : Bytes) (y : ℕ) → TableStores hash_of mem t k y → SameKey y)
      → IsTable hash_of mem' t
        × ((k : Bytes) (y : ℕ) → TableStores hash_of mem' t k y ↔ TableStores hash_of mem t k y)
  later-IsTable t table agree = later_by_half t t.new table agree

module _ (hash_of : Bytes → ℕ) (mem : ℕ → Item) where
  half-IsItem :
      {from : ℕ} (h : Half) (half : IsHalf hash_of mem from h) (k : Bytes) (x : ℕ)
      → Stores hash_of mem h k x
      → (item_key (mem x) ≡ k) × IsItem (mem x)
  half-IsItem h half k x (d, s, hs, r) =
      let e = half.entries (home hash_of mem h.bucket_count k) d s hs r.busy in
      let one : e.stored ≡ x = cc (e.item, r.item) in
      (r.key, subst (λ y. IsItem (mem y)) one e.intact)

  by_half-IsItem :
      (t : Table) (o : Option Half) (k : Bytes) (x : ℕ)
      → IsTable hash_of mem (record t { new = o })
      → TableStores hash_of mem (record t { new = o }) k x
      → (item_key (mem x) ≡ k) × IsItem (mem x)
  by_half-IsItem t none k x table stored = half-IsItem t.old table.old k x stored
  by_half-IsItem t (some new) k x table both = elim both [
    | inl (_, stored) ↦ half-IsItem new (table.new.1) k x stored
    | inr (_, stored) ↦ half-IsItem t.old table.old k x stored
  ]

  -- What is stored under a key is an intact item of that key.
  pub stored-IsItem :
      (t : Table) (k : Bytes) (x : ℕ)
      → IsTable hash_of mem t
      → TableStores hash_of mem t k x
      → (item_key (mem x) ≡ k) × IsItem (mem x)
  stored-IsItem t k x table stored = by_half-IsItem t t.new k x table stored
