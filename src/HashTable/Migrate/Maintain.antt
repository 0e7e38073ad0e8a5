-- ===== src/HashTable/Migrate/Maintain.antt =====
-- hashtable_maintenance of src/hashtable.c: a step of the migration loses and invents nothing.
use kvx.Common.{
  ℕ, ◌+◌, ◌<◌, ◌≡◌, ◌≢◌, ◌⊎◌, ◌↔◌, refl, sym, subst, ap, ◌∙◌, false, Option, none, some, [], ◌∷◌,
  arith, ◌==◌, Bytes, Bool-cases, inl, inr, if◌then◌else◌,
}
use kvx.Item.{Item}
use kvx.HashTable.Bucket.{Bucket}
use kvx.HashTable.Bucket.Cells.{cell, IsBucket}
use kvx.HashTable.Table.{Half, Table, chain_at, set_chain}
use kvx.HashTable.Table.View.{IsHalf, Stores, home, Keeps, cell_at}
use kvx.HashTable.Table.Access.{home_low}
use kvx.HashTable.Migrate.{process_migration_step, finish_migration, maintenance, migrate_bucket}
use kvx.HashTable.Migrate.Pending.{le_cases}
use kvx.HashTable.Migrate.Chain.{ChainMovable, Carried, migrate_bucket-Carried}
use kvx.HashTable.Migrate.Whole.{BothStore, TableStores, NewLaw, IsTable, entry-Stores}
use kvx.HashTable.Migrate.Step.{cons_of, next-ChainMovable, left-Stores, left-IsHalf}

module _ (hash_of : Bytes → ℕ) (mem : ℕ → Item) where
  IsHalf-bytes :
      (from bytes : ℕ) (h : Half)
      → IsHalf hash_of mem from h
      → IsHalf hash_of mem from (record h { bytes = bytes })
  IsHalf-bytes from bytes h half = record {
    shaped = record {
      width = half.shaped.width;
      nonempty = half.shaped.nonempty;
      chains = half.shaped.chains;
      buckets = half.shaped.buckets;
    };
    entries = half.entries;
    vacant = half.vacant;
    unique = half.unique;
  }

  module _ (t : Table) (new : Half) (table : IsTable hash_of mem t)
      (law : NewLaw hash_of mem t.old.bucket_count t.migration_pos (some new)) (r : ℕ × Half)
      (carried : Carried hash_of mem (chain_at t.old t.migration_pos) t.old.size new r) where
    -- The new half after the step has the keys up to the chain that was moved.
    carried-BothStore :
        (k : Bytes) (x : ℕ)
        → Stores hash_of mem r.1 k x ↔ (
            (home hash_of mem t.old.bucket_count k < t.migration_pos + 1)
            × BothStore hash_of mem t.old.bucket_count t.migration_pos t.old (some new) k x)
    carried-BothStore k x = (
      λ stored. elim ((carried.stores k x).0 stored) [
        | inl before ↦ let low = law.2 k x before in (omega (arith, low), inl (low, before))
        | inr (d, s, hs, keeps) ↦
            let (e, there) =
              entry-Stores hash_of mem t.old table.old t.migration_pos d s k x hs keeps in
            (omega (arith, e), inr (omega (arith, e), there))
      ],
      λ (low, both). elim both [
        | inl (_, before) ↦ (carried.stores k x).1 (inl before)
        | inr (high, (d, s, hs, keeps)) ↦
            let e : home hash_of mem t.old.bucket_count k ≡ t.migration_pos =
              omega (arith, low, high) in
            (carried.stores k x).1
              (inr (d, s, hs, subst (λ i. Keeps hash_of mem k x (cell_at t.old i d s)) e keeps))
      ],
    )

    module _ (b : Bucket) (ok : IsBucket b) (free : (j : ℕ) → j < 8 → (cell b j).busy ≡ false) where
      abbrev old' : Half
      old' = record (set_chain t.old t.migration_pos (b ∷ [])) { size = r.0 }

      abbrev stepped : Table
      stepped = record t { migration_pos = t.migration_pos + 1; old = old'; new = some r.1 }

      -- What a table keeps: it is well-formed and stores the same items.
      abbrev Same : Table → Type 0
      Same t' =
          IsTable hash_of mem t'
          × ((k : Bytes) (x : ℕ)
              → TableStores hash_of mem t' k x
                ↔ BothStore hash_of mem t.old.bucket_count t.migration_pos t.old (some new) k x)

      left :
          (k : Bytes) (x : ℕ)
          → Stores hash_of mem old' k x ↔ (
              (home hash_of mem t.old.bucket_count k ≢ t.migration_pos)
              × Stores hash_of mem t.old k x)
      left k x =
          left-Stores hash_of mem t.old old' t.migration_pos table.old law.0 b ok free refl refl k x

      stepped-Same : (t.migration_pos + 1 ≢ t.old.bucket_count) → Same stepped
      stepped-Same more = (
        record {
          old =
              left-IsHalf hash_of mem t.old old' t.migration_pos table.old law.0 b ok free refl
                refl;
          far = λ k x stored.
              let (ne, before) = (left k x).0 stored in
              let low = table.far k x before in omega (arith, ne, low);
          new = (
            omega (arith, more, law.0),
            carried.half,
            λ k x stored. ((carried-BothStore k x).0 stored).0,
          );
        },
        λ k x. (
          λ both. elim both [
            | inl (low, stored) ↦ ((carried-BothStore k x).0 stored).1
            | inr (high, stored) ↦ inr (omega (arith, high), ((left k x).0 stored).1)
          ],
          λ both. elim both [
            | inl (low, before) ↦
                let lower : home hash_of mem t.old.bucket_count k < t.migration_pos + 1 =
                  omega (arith, low) in
                inl (lower, (carried-BothStore k x).1 (lower, inl (low, before)))
            | inr (high, before) ↦
                elim (le_cases t.migration_pos (home hash_of mem t.old.bucket_count k) high) [
                  | inl same ↦
                      let lower : home hash_of mem t.old.bucket_count k < t.migration_pos + 1 =
                        omega (arith, same) in
                      inl (lower, (carried-BothStore k x).1 (lower, inr (high, before)))
                  | inr above ↦ inr (
                    omega (arith, above),
                    (left k x).1 (λ e. absurd (omega (arith, e, above)), before),
                  )
                ]
          ],
        ),
      )

      finished-Same : t.migration_pos + 1 ≡ t.old.bucket_count → Same (finish_migration stepped r.1)
      unfolding finish_migration
      finished-Same last = (
        record {
          old = IsHalf-bytes 0 t.old.bytes r.1 carried.half;
          far = λ k x stored. omega arith;
          new = refl;
        },
        λ k x. (
          λ stored. ((carried-BothStore k x).0 stored).1,
          λ both.
              (carried-BothStore k x).1
                (omega (arith, last, home_low hash_of mem t.old table.old k), both),
        ),
      )

  -- The same items are stored, in a well-formed table.
  abbrev pub Preserved : Table → Table → Type 0
  Preserved t t' =
      IsTable hash_of mem t'
      × ((k : Bytes) (x : ℕ) → TableStores hash_of mem t' k x ↔ TableStores hash_of mem t k x)

  -- Without a migration nothing happens. Else one more chain is moved, or that was the last one and the
  -- new half is the old one then.
  abbrev pub Advances : Table → Option Half → Table → Type 0
  Advances t none t' = t' ≡ t
  Advances t (some new) t' =
      ((t.migration_pos + 1 < t.old.bucket_count)
        × (t'.migration_pos ≡ t.migration_pos + 1)
        × (t'.old.bucket_count ≡ t.old.bucket_count)
        × (new' : Half) × (t'.new ≡ some new')
        × (new'.bucket_count ≡ new.bucket_count))
      ⊎ ((t.migration_pos + 1 ≡ t.old.bucket_count)
          × (t'.migration_pos ≡ 0)
          × (t'.new ≡ none)
          × (t'.old.bucket_count ≡ new.bucket_count))

  step_run :
      (t : Table) (new : Half) (b : Bucket) (r : ℕ × Half)
      → migrate_bucket hash_of mem (chain_at t.old t.migration_pos) t.old.size new
        ≡ some (b ∷ [], r.0, r.1)
      → let old' : Half = record (set_chain t.old t.migration_pos (b ∷ [])) { size = r.0 } in
        let t' : Table = record t {
          migration_pos = t.migration_pos + 1;
          old = old';
          new = some r.1;
        } in
        process_migration_step hash_of mem t new ≡ (
          if t.migration_pos + 1 == t.old.bucket_count
          then some (finish_migration t' r.1)
          else some t')
  unfolding process_migration_step
  step_run t new b r e = rw e refl

  step-Same :
      (t : Table) (new : Half) (table : IsTable hash_of mem t)
      → NewLaw hash_of mem t.old.bucket_count t.migration_pos (some new)
      → (t' : Table) × (process_migration_step hash_of mem t new ≡ some t')
        × IsTable hash_of mem t'
        × ((k : Bytes) (x : ℕ)
            → TableStores hash_of mem t' k x
              ↔ BothStore hash_of mem t.old.bucket_count t.migration_pos t.old (some new) k x)
        × Advances t (some new) t'
  unfolding finish_migration
  step-Same t new table law =
      let pos = t.migration_pos in
      let (b, next, e) = cons_of (chain_at t.old pos) (table.old.shaped.chains pos law.0) in
      let movable = next-ChainMovable hash_of mem t.old new pos table.old law in
      let (b', r, f, carried, ok, free) =
        migrate_bucket-Carried hash_of mem b next t.old.size new
          (subst (λ c. ChainMovable hash_of mem c new) e movable) in
      let carried' : Carried hash_of mem (chain_at t.old pos) t.old.size new r =
        subst (λ c. Carried hash_of mem c t.old.size new r) (sym e) carried in
      let run = step_run t new b' r (ap (λ c. migrate_bucket hash_of mem c t.old.size new) e ∙ f) in
      elim (Bool-cases (pos + 1 == t.old.bucket_count)) [
        | inl g ↦
            let same = finished-Same t new table law r carried' b' ok free (ground (arith, g)) in
            (
              finish_migration (stepped t new table law r carried' b' ok free) r.1,
              run ∙ rw g refl,
              same.0,
              same.1,
              inr (ground (arith, g), refl, refl, carried'.count),
            )
        | inr g ↦
            let same = stepped-Same t new table law r carried' b' ok free (ground (arith, g)) in
            (
              stepped t new table law r carried' b' ok free,
              run ∙ rw g refl,
              same.0,
              same.1,
              inl (ground (arith, g, law.0), refl, refl, r.1, refl, carried'.count),
            )
      ]

  abbrev by_half : Table → Option Half → Option Table
  by_half t none = some t
  by_half t (some new) = process_migration_step hash_of mem t new

  -- In a well-formed table, the maintenance before a set or a deletion ends, leaves a well-formed table,
  -- and each key has the item that it had: a step of the migration loses, invents and moves away nothing.
  -- The table is the same where no migration runs; else the position is one chain on, in halves with as
  -- many buckets, or behind the last chain the migration is over, at position 0, with the bucket count
  -- of the new half.
  pub maintenance-Preserved :
      (t : Table)
      → IsTable hash_of mem t
      → (t' : Table) × (maintenance hash_of mem t ≡ some t') × Preserved t t' × Advances t t.new t'
  unfolding maintenance
  maintenance-Preserved t table = go (t.new) refl table.new
    where
      go :
          (o : Option Half)
          → t.new ≡ o
          → NewLaw hash_of mem t.old.bucket_count t.migration_pos o
          → (t' : Table) × (maintenance hash_of mem t ≡ some t') × Preserved t t' × Advances t o t'
      go none e law = (t, rw e refl, (table, λ k x. (λ r. r, λ r. r)), refl)
      go (some new) e law =
          let (t', run, table', stores, advances) = step-Same t new table law in
          (
            t',
            subst (λ o. by_half t o ≡ some t') (sym e) run,
            (
              table',
              λ k x.
                  subst
                    (λ o.
                      TableStores hash_of mem t' k x
                      ↔ BothStore hash_of mem t.old.bucket_count t.migration_pos t.old o k x)
                    (sym e) (stores k x),
            ),
            advances,
          )
