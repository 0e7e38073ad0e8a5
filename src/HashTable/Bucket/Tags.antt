-- ===== src/HashTable/Bucket/Tags.antt =====
-- The tag word of a bucket: its bytes, the writes to them, and the search for a tag in all of them at once.
use Prim.Native.Nat.{bit_and, bit_or, bit_xor}
use kvx.Common.{
  and_parts, ℕ, zero, suc, ◌*◌, ◌%◌, ◌^◌, ◌<◌, ◌≡◌, refl, sym, subst, ap, ◌∙◌, Bool, true, List, [],
  ◌∷◌, arith, ◌==◌, ==_iff, ◌&&◌, length, set, replicate, All, length-set,
}
use kvx.Common.Bits.{bit_and-bytes, bit_or-bytes}
use kvx.Common.Words.{
  holds_below, holds_below_at, IsByte, value, bytes_of_word, zip_with, bytes_of_word-value,
  bytes_of_word-All, length-bytes_of_word, value-bytes_of_word, op-value,
}
use kvx.HashTable.Bucket.{with_tag, not64}

abbrev pub tags_of : ℕ → List ℕ
tags_of word = bytes_of_word 8 word

-- The laws of the operations on one byte.
abbrev check_byte : ℕ → Bool
check_byte a =
    bit_and a 255 == a
    && (bit_and a 0 == 0 && (bit_or a 0 == a && (bit_or 0 a == a && bit_xor a a == 0)))

byte_table : holds_below 256 check_byte ≡ true
unfolding holds_below
byte_table = refl

pub byte_laws :
    (a : ℕ)
    → a < 256
    → (bit_and a 255 ≡ a)
      × (bit_and a 0 ≡ 0)
      × (bit_or a 0 ≡ a)
      × (bit_or 0 a ≡ a)
      × (bit_xor a a ≡ 0)
byte_laws a h =
    let row = holds_below_at 256 check_byte a byte_table h in
    let (r0, s0) = and_parts (bit_and a 255 == a) _ row in
    let (r1, s1) = and_parts (bit_and a 0 == 0) _ s0 in
    let (r2, s2) = and_parts (bit_or a 0 == a) _ s1 in
    let (r3, r4) = and_parts (bit_or 0 a == a) _ s2 in
    ((==_iff _ _).0 r0, (==_iff _ _).0 r1, (==_iff _ _).0 r2, (==_iff _ _).0 r3, (==_iff _ _).0 r4)

keep-All : (bs : List ℕ) → All IsByte bs → zip_with bit_and bs (replicate (length bs) 255) ≡ bs
keep-All [] h = refl
keep-All (b ∷ bs) (h, hs) = rw ((byte_laws b h).0, keep-All bs hs) refl

-- Masking out a byte, and putting one in.
mask_out :
    (bs : List ℕ) (i : ℕ)
    → All IsByte bs
    → zip_with bit_and bs (set (replicate (length bs) 255) i 0) ≡ set bs i 0
mask_out [] i h = refl
mask_out (b ∷ bs) zero (h, hs) = rw ((byte_laws b h).1, keep-All bs hs) refl
mask_out (b ∷ bs) (suc i) (h, hs) = rw ((byte_laws b h).0, mask_out bs i hs) refl

add_none : (bs : List ℕ) → All IsByte bs → zip_with bit_or bs (replicate (length bs) 0) ≡ bs
add_none [] h = refl
add_none (b ∷ bs) (h, hs) = rw ((byte_laws b h).2, add_none bs hs) refl

put_in :
    (bs : List ℕ) (i v : ℕ)
    → All IsByte bs
    → v < 256
    → zip_with bit_or (set bs i 0) (set (replicate (length bs) 0) i v) ≡ set bs i v
put_in [] i v h hv = refl
put_in (b ∷ bs) zero v (h, hs) hv = rw ((byte_laws v hv).3, add_none bs hs) refl
put_in (b ∷ bs) (suc i) v (h, hs) hv = rw ((byte_laws b h).2, put_in bs i v hs hv) refl

All-set : (bs : List ℕ) (i v : ℕ) → All IsByte bs → v < 256 → All IsByte (set bs i v)
All-set [] i v h hv = tt
All-set (b ∷ bs) zero v (h, hs) hv = (hv, hs)
All-set (b ∷ bs) (suc i) v (h, hs) hv = (h, All-set bs i v hs hv)

pub All-replicate : (n v : ℕ) → v < 256 → All IsByte (replicate n v)
All-replicate zero v h = tt
All-replicate (suc n) v h = (h, All-replicate n v h)

mask_table :
    holds_below 8 (λ i. not64 (255 * 2 ^ (i * 8) % 2 ^ 64) == value (set (replicate 8 255) i 0))
    ≡ true
unfolding holds_below
mask_table = refl

shifted : (i v : ℕ) → i < 8 → v < 256 → v * 2 ^ (i * 8) % 2 ^ 64 ≡ value (set (replicate 8 0) i v)
shifted zero v h hv = omega arith
shifted (suc zero) v h hv = omega arith
shifted (suc (suc zero)) v h hv = omega arith
shifted (suc (suc (suc zero))) v h hv = omega arith
shifted (suc (suc (suc (suc zero)))) v h hv = omega arith
shifted (suc (suc (suc (suc (suc zero))))) v h hv = omega arith
shifted (suc (suc (suc (suc (suc (suc zero)))))) v h hv = omega arith
shifted (suc (suc (suc (suc (suc (suc (suc zero))))))) v h hv = omega arith
shifted (suc (suc (suc (suc (suc (suc (suc (suc i)))))))) v h hv = absurd (omega arith)

abbrev pow256 : ℕ → ℕ
pow256 zero = 1
pow256 (suc n) = pow256 n * 256

value_bound : (bs : List ℕ) → All IsByte bs → value bs < pow256 (length bs)
value_bound [] h = omega arith
value_bound (b ∷ bs) (h, hs) = omega (arith, value_bound bs hs)

byte_set-length : (x i v : ℕ) → length (set (replicate 8 x) i v) ≡ 8
byte_set-length x i v = length-set (replicate 8 x) i v

-- The word of eight bytes has them as its bytes.
pub tags_of-value :
    (bs : List ℕ) → All IsByte bs → length bs ≡ 8 → (tags_of (value bs) ≡ bs) × (value bs < 2 ^ 64)
tags_of-value bs h e =
    let small = value_bound bs h in
    (
      subst (λ n. bytes_of_word n (value bs) ≡ bs) e (bytes_of_word-value bs h),
      subst (λ n. value bs < pow256 n) e small,
    )

-- Setting a slot's tag sets that byte of the word and no other.
pub with_tag-tags_of :
    (t i v : ℕ)
    → t < 2 ^ 64
    → i < 8
    → v < 256
    → (tags_of (with_tag t i v) ≡ set (tags_of t) i v) × (with_tag t i v < 2 ^ 64)
with_tag-tags_of t i v ht hi hv =
    let bs = tags_of t in
    let all = bytes_of_word-All 8 t in
    let size = length-bytes_of_word 8 t in
    let mask : not64 (255 * 2 ^ (i * 8) % 2 ^ 64) ≡ value (set (replicate 8 255) i 0) =
      (==_iff _ _).0 (holds_below_at 8 _ i mask_table hi) in
    let masked : bit_and t (value (set (replicate 8 255) i 0)) ≡ value (set bs i 0) =
      ap (λ r. bit_and r (value (set (replicate 8 255) i 0))) (sym (value-bytes_of_word t ht))
      ∙ op-value bit_and bs (set (replicate 8 255) i 0) bit_and-bytes refl all
          (All-set (replicate 8 255) i 0 (All-replicate 8 255 (omega arith)) (omega arith))
          (size ∙ sym (byte_set-length 255 i 0))
      ∙ ap value (mask_out bs i all) in
    let final : with_tag t i v ≡ value (set bs i v) =
      rw (mask, masked, shifted i v hi hv)
        (op-value bit_or (set bs i 0) (set (replicate 8 0) i v) bit_or-bytes refl
            (All-set bs i 0 all (omega arith))
            (All-set (replicate 8 0) i v (All-replicate 8 0 (omega arith)) hv)
            (length-set bs i 0 ∙ size ∙ sym (byte_set-length 0 i v))
          ∙ ap value (put_in bs i v all hv)) in
    let word = tags_of-value (set bs i v) (All-set bs i v all hv) (length-set bs i v ∙ size) in
    (ap tags_of final ∙ word.0, subst (λ w. w < 2 ^ 64) (sym final) word.1)
