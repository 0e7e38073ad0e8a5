-- ===== src/HashTable/Table/Rewrite.antt =====
-- Writing what is there changes nothing: slots of the table in src/hashtable.c.
use kvx.Common.{ℕ, zero, suc, ◌≡◌, refl, ap, ◌∙◌, List, [], ◌∷◌, none, set, get_or}
use kvx.HashTable.Bucket.{Bucket, zero_bucket, set_slot_item, get_slot_item}
use kvx.HashTable.Table.{Half, Slot, chain_at, bucket_at, set_chain, read_slot, write_slot}

set-get_or {ℓ} : {A : Type ℓ} (xs : List A) (i : ℕ) (d : A) → set xs i (get_or xs i d) ≡ xs
set-get_or [] i d = refl
set-get_or (x ∷ xs) zero d = refl
set-get_or (x ∷ xs) (suc i) d = ap (λ r. x ∷ r) (set-get_or xs i d)

-- The write of what a slot holds.
pub write_slot-read_slot : (h : Half) (s : Slot) → write_slot h s (read_slot h s) ≡ h
unfolding set_slot_item get_slot_item
write_slot-read_slot h s =
    let chain = chain_at h s.chain in
    let b : Bucket = bucket_at chain s.depth in
    let same_bucket : record b { items = set b.items s.index (get_or b.items s.index none) } ≡ b =
      ap (λ r. record b { items = r }) (set-get_or b.items s.index none) in
    ap (λ r. set_chain h s.chain (set chain s.depth r)) same_bucket
    ∙ (ap (set_chain h s.chain) (set-get_or chain s.depth zero_bucket)
        ∙ ap (λ r. record h { buckets = r }) (set-get_or h.buckets s.chain []))
