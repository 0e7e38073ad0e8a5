-- ===== src/HashTable/Bucket/Match.antt =====
-- The search for a tag in the eight bytes of the tag word at once.
use Prim.Native.Nat.{bit_and, bit_xor}
use kvx.Common.{
  and_parts, ℕ, zero, suc, ◌+◌, ◌-◌, ◌*◌, ◌/◌, ◌%◌, ◌^◌, ◌≤◌, ◌<◌, ◌≡◌, refl, sym, subst, ap, ◌∙◌,
  Bool, true, List, [], ◌∷◌, arith, ltb, ◌==◌, ==_iff, ltb→lt, ◌&&◌, length, get_or, replicate, All,
  inl, inr, Bool-cases,
}
use kvx.Common.Bits.{Splits, bit_and-bytes, bit_xor-bytes, bit_and-le, pow2, bit_xor_bound}
use kvx.Common.Words.{
  holds_below, holds_below_at, IsByte, value, zip_with, bytes_of_word-All, value-bytes_of_word,
  op-value,
}
use kvx.HashTable.Bucket.{not64, tag_lsbs, tag_msbs, zero_bytes, gather, is_busy, match_tag, Bucket}
use kvx.HashTable.Bucket.Tags.{tags_of, tags_of-value, byte_laws, All-replicate}
use kvx.HashTable.Bucket.States.{digit_zero, digit, is_busy-digit, is_busy-bit_and}

-- Bytes that are 0 or 128, and the number whose digits they are.
abbrev pub flags : ℕ → ℕ → List ℕ
flags zero c = []
flags (suc n) c = (c % 2 * 128) ∷ flags n (c / 2)

abbrev pub number : List ℕ → ℕ
number [] = 0
number (z ∷ zs) = z / 128 + number zs * 2

gather_table : holds_below 256 (λ c. gather (value (flags 8 c)) == c) ≡ true
unfolding holds_below
gather_table = refl

abbrev IsFlag : ℕ → Type 0
IsFlag z = (z < 256) × (z / 128 * 128 ≡ z)

flags-number : (zs : List ℕ) → All IsFlag zs → flags (length zs) (number zs) ≡ zs
flags-number [] h = refl
flags-number (z ∷ zs) ((small, whole), hs) =
    let low : (z / 128 + number zs * 2) % 2 * 128 ≡ z = omega arith in
    let high : (z / 128 + number zs * 2) / 2 ≡ number zs = omega arith in
    rw (low, high, flags-number zs hs) refl

number_bound : (zs : List ℕ) → All IsFlag zs → number zs < pow2 (length zs)
number_bound [] h = omega arith
number_bound (z ∷ zs) ((small, whole), hs) = omega (arith, number_bound zs hs)

digit-number : (zs : List ℕ) (i : ℕ) → All IsFlag zs → digit i (number zs) * 128 ≡ get_or zs i 0
digit-number [] i h = rw (digit_zero i) refl
digit-number (z ∷ zs) zero ((small, whole), hs) = omega arith
digit-number (z ∷ zs) (suc i) ((small, whole), hs) =
    let high : (z / 128 + number zs * 2) / 2 ≡ number zs = omega arith in
    rw high (digit-number zs i hs)

-- gather moves the eight flags together.
pub gather-number :
    (zs : List ℕ)
    → length zs ≡ 8
    → All IsFlag zs
    → (gather (value zs) ≡ number zs) × (number zs < 256)
gather-number zs e h =
    let small : number zs < 256 = subst (λ n. number zs < pow2 n) e (number_bound zs h) in
    let back : flags 8 (number zs) ≡ zs =
      subst (λ n. flags n (number zs) ≡ zs) e (flags-number zs h) in
    (
      ap (λ l. gather (value l)) (sym back)
          ∙ (==_iff _ _).0 (
              holds_below_at 256 (λ c. gather (value (flags 8 c)) == c) (number zs) gather_table
                small),
      small,
    )

-- The bytes of the three operands, and what the operation makes of them.
abbrev flag_of : ℕ → ℕ → ℕ
flag_of y n = bit_and (bit_and y n) 128

abbrev check_flag : ℕ → Bool
check_flag w = ltb (bit_and w 128) 256 && (bit_and w 128 / 128 * 128 == bit_and w 128)

flag_table : holds_below 256 check_flag ≡ true
unfolding holds_below
flag_table = refl

flag_of-IsFlag : (y n : ℕ) → n < 256 → IsFlag (flag_of y n)
flag_of-IsFlag y n hn =
    let row =
      holds_below_at 256 check_flag (bit_and y n) flag_table (omega (arith, bit_and-le y n)) in
    let (small, whole) = and_parts (ltb (bit_and (bit_and y n) 128) 256) _ row in
    (ltb→lt _ _ small, (==_iff _ _).0 whole)

-- A byte that is 0 loses one or two and borrows, so its highest bit is set after it and not before.
flag_of_zero : (y n : ℕ) → 254 ≤ y → y < 256 → n ≡ 255 → flag_of y n ≡ 128
flag_of_zero y n low high e = elim (Bool-cases (y == 254)) [
  | inl h ↦ let e' : y ≡ 254 = ground arith in rw (e, e') refl
  | inr h ↦ let e' : y ≡ 255 = ground arith in rw (e, e') refl
]

abbrev pub byte_at : ℕ → ℕ → ℕ
byte_at w i = get_or (tags_of w) i 0

abbrev lowered : ℕ → ℕ
lowered x = (x + 2 ^ 64 - tag_lsbs) % 2 ^ 64

lowered_byte :
    (x i : ℕ)
    → x < 2 ^ 64
    → i < 8
    → byte_at x i ≡ 0
    → (254 ≤ byte_at (lowered x) i) × (byte_at (not64 x) i ≡ 255)
lowered_byte x zero word hi z = (omega arith, omega arith)
lowered_byte x (suc zero) word hi z = (omega arith, omega arith)
lowered_byte x (suc (suc zero)) word hi z = (omega arith, omega arith)
lowered_byte x (suc (suc (suc zero))) word hi z = (omega arith, omega arith)
lowered_byte x (suc (suc (suc (suc zero)))) word hi z = (omega arith, omega arith)
lowered_byte x (suc (suc (suc (suc (suc zero))))) word hi z = (omega arith, omega arith)
lowered_byte x (suc (suc (suc (suc (suc (suc zero)))))) word hi z = (omega arith, omega arith)
lowered_byte x (suc (suc (suc (suc (suc (suc (suc zero))))))) word hi z = (omega arith, omega arith)
lowered_byte x (suc (suc (suc (suc (suc (suc (suc (suc i)))))))) word hi z = absurd (omega arith)

-- The operands' bytes, and the flags that the operations make of them.
abbrev flags_of : ℕ → List ℕ
flags_of x =
    zip_with bit_and (zip_with bit_and (tags_of (lowered x)) (tags_of (not64 x))) (replicate 8 128)

zip_and-All : (as' bs : List ℕ) → All IsByte bs → All IsByte (zip_with bit_and as' bs)
zip_and-All [] bs h = tt
zip_and-All (a ∷ as') [] h = tt
zip_and-All (a ∷ as') (b ∷ bs) (h, hs) = (omega (arith, bit_and-le a b), zip_and-All as' bs hs)

flags_of-All :
    (ys ns : List ℕ) (n : ℕ)
    → All IsByte ns
    → All IsFlag (zip_with bit_and (zip_with bit_and ys ns) (replicate n 128))
flags_of-All [] ns n h = tt
flags_of-All (y ∷ ys) [] n h = tt
flags_of-All (y ∷ ys) (m ∷ ns) zero h = tt
flags_of-All (y ∷ ys) (m ∷ ns) (suc n) (h, hs) = (flag_of-IsFlag y m h, flags_of-All ys ns n hs)

op_word :
    (op : ℕ → ℕ → ℕ) (a b : ℕ)
    → Splits op 256
    → op 0 0 ≡ 0
    → a < 2 ^ 64
    → b < 2 ^ 64
    → op a b ≡ value (zip_with op (tags_of a) (tags_of b))
op_word op a b split zeros ha hb =
    sym (ap (λ r. op r b) (value-bytes_of_word a ha) ∙ refl)
    ∙ sym (ap (λ r. op (value (tags_of a)) r) (value-bytes_of_word b hb))
    ∙ op-value op (tags_of a) (tags_of b) split zeros (bytes_of_word-All 8 a)
        (bytes_of_word-All 8 b) refl

zero_bytes-value : (x : ℕ) → x < 2 ^ 64 → zero_bytes x ≡ value (flags_of x)
zero_bytes-value x word =
    let ys = tags_of (lowered x) in
    let ns = tags_of (not64 x) in
    let inner : bit_and (lowered x) (not64 x) ≡ value (zip_with bit_and ys ns) =
      op_word bit_and (lowered x) (not64 x) bit_and-bytes refl (omega arith) (omega arith) in
    ap (λ r. bit_and r tag_msbs) inner
    ∙ op-value bit_and (zip_with bit_and ys ns) (replicate 8 128) bit_and-bytes refl
        (zip_and-All ys ns (bytes_of_word-All 8 (not64 x))) (All-replicate 8 128 (omega arith)) refl

-- The flag of a byte that is 0.
flags_of_zero : (x i : ℕ) → x < 2 ^ 64 → i < 8 → byte_at x i ≡ 0 → get_or (flags_of x) i 0 ≡ 128
flags_of_zero x zero word hi z =
    let (low, top) = lowered_byte x zero word hi z in flag_of_zero _ _ low (omega arith) top
flags_of_zero x (suc zero) word hi z =
    let (low, top) = lowered_byte x (suc zero) word hi z in flag_of_zero _ _ low (omega arith) top
flags_of_zero x (suc (suc zero)) word hi z =
    let (low, top) = lowered_byte x (suc (suc zero)) word hi z in
    flag_of_zero _ _ low (omega arith) top
flags_of_zero x (suc (suc (suc zero))) word hi z =
    let (low, top) = lowered_byte x (suc (suc (suc zero))) word hi z in
    flag_of_zero _ _ low (omega arith) top
flags_of_zero x (suc (suc (suc (suc zero)))) word hi z =
    let (low, top) = lowered_byte x (suc (suc (suc (suc zero)))) word hi z in
    flag_of_zero _ _ low (omega arith) top
flags_of_zero x (suc (suc (suc (suc (suc zero))))) word hi z =
    let (low, top) = lowered_byte x (suc (suc (suc (suc (suc zero))))) word hi z in
    flag_of_zero _ _ low (omega arith) top
flags_of_zero x (suc (suc (suc (suc (suc (suc zero)))))) word hi z =
    let (low, top) = lowered_byte x (suc (suc (suc (suc (suc (suc zero)))))) word hi z in
    flag_of_zero _ _ low (omega arith) top
flags_of_zero x (suc (suc (suc (suc (suc (suc (suc zero))))))) word hi z =
    let (low, top) = lowered_byte x (suc (suc (suc (suc (suc (suc (suc zero))))))) word hi z in
    flag_of_zero _ _ low (omega arith) top
flags_of_zero x (suc (suc (suc (suc (suc (suc (suc (suc i)))))))) word hi z = absurd (omega arith)

get_or-zip_with :
    (op : ℕ → ℕ → ℕ) (as' bs : List ℕ) (i : ℕ)
    → i < length as'
    → i < length bs
    → get_or (zip_with op as' bs) i 0 ≡ op (get_or as' i 0) (get_or bs i 0)
get_or-zip_with op [] bs i ha hb = absurd (omega arith)
get_or-zip_with op (a ∷ as') [] i ha hb = absurd (omega arith)
get_or-zip_with op (a ∷ as') (b ∷ bs) zero ha hb = refl
get_or-zip_with op (a ∷ as') (b ∷ bs) (suc i) ha hb =
    get_or-zip_with op as' bs i (omega arith) (omega arith)

get_or-replicate : (n v i : ℕ) → i < n → get_or (replicate n v) i 0 ≡ v
get_or-replicate zero v i h = absurd (omega arith)
get_or-replicate (suc n) v zero h = refl
get_or-replicate (suc n) v (suc i) h = get_or-replicate n v i (omega arith)

zip_xor-All :
    (as' bs : List ℕ) → All IsByte as' → All IsByte bs → All IsByte (zip_with bit_xor as' bs)
zip_xor-All [] bs ha hb = tt
zip_xor-All (a ∷ as') [] ha hb = tt
zip_xor-All (a ∷ as') (b ∷ bs) (ha, has) (hb, hbs) =
    (bit_xor_bound 8 a b ha hb, zip_xor-All as' bs has hbs)

-- The exclusive or with the tag in every byte is 0 where the tag stands.
xor_zero :
    (t tag i : ℕ)
    → t < 2 ^ 64
    → tag < 256
    → i < 8
    → byte_at t i ≡ tag
    → let x = bit_xor t (tag_lsbs * tag % 2 ^ 64) in (x < 2 ^ 64) × (byte_at x i ≡ 0)
xor_zero t tag i ht hv hi e =
    let w = tag_lsbs * tag % 2 ^ 64 in
    let eight = replicate 8 tag in
    let spread : w ≡ value eight = omega arith in
    let all = All-replicate 8 tag hv in
    let spread_bytes : tags_of w ≡ eight = ap tags_of spread ∙ (tags_of-value eight all refl).0 in
    let bytes = zip_with bit_xor (tags_of t) eight in
    let whole : bit_xor t w ≡ value bytes =
      op_word bit_xor t w bit_xor-bytes refl ht (omega arith)
      ∙ ap (λ l. value (zip_with bit_xor (tags_of t) l)) spread_bytes in
    let (parts, small) =
      tags_of-value bytes (zip_xor-All (tags_of t) eight (bytes_of_word-All 8 t) all) refl in
    let here : get_or bytes i 0 ≡ 0 =
      get_or-zip_with bit_xor (tags_of t) eight i hi hi
      ∙ rw (e, get_or-replicate 8 tag i hi) ((byte_laws tag hv).4) in
    (
      subst (λ r. r < 2 ^ 64) (sym whole) small,
      ap (λ r. byte_at r i) whole ∙ ap (λ l. get_or l i 0) parts ∙ here,
    )

bit_xor_word : (a b : ℕ) → a < 2 ^ 64 → b < 2 ^ 64 → bit_xor a b < 2 ^ 64
bit_xor_word a b ha hb = bit_xor_bound 64 a b ha hb

-- The candidates are busy slots, and every busy slot with the tag is one.
pub record Candidates (b : Bucket) (tag c : ℕ) : Type 0 where
  pub small : c < 256
  pub busy : (i : ℕ) → i < 8 → is_busy c i ≡ true → is_busy b.slot_states i ≡ true
  pub all :
      (i : ℕ)
      → i < 8
      → is_busy b.slot_states i ≡ true
      → byte_at b.hash_tags i ≡ tag
      → is_busy c i ≡ true

-- For a tag word of 64 bits, a state byte and a tag of one byte, hashtable_bucket_match_tag gives a
-- byte of candidates: each is a busy slot, and each busy slot whose tag is the one looked for is a
-- candidate.
pub match_tag-Candidates :
    (b : Bucket) (tag : ℕ)
    → b.hash_tags < 2 ^ 64
    → b.slot_states < 256
    → tag < 256
    → Candidates b tag (match_tag b tag)
unfolding match_tag
match_tag-Candidates b tag ht hs hv =
    let x = bit_xor b.hash_tags (tag_lsbs * tag % 2 ^ 64) in
    let word : x < 2 ^ 64 = bit_xor_word b.hash_tags (tag_lsbs * tag % 2 ^ 64) ht (omega arith) in
    let zs = flags_of x in
    let flagged =
      flags_of-All (tags_of (lowered x)) (tags_of (not64 x)) 8 (bytes_of_word-All 8 (not64 x)) in
    let (gathered, small) = gather-number zs refl flagged in
    let c = gather (zero_bytes x) in
    let numbered : c ≡ number zs = ap gather (zero_bytes-value x word) ∙ gathered in
    let both = λ (i : ℕ) (hi : i < 8). is_busy-bit_and c b.slot_states i (omega arith) hs hi in
    record {
      small = omega (arith, bit_and-le c b.slot_states);
      busy = λ i hi h. ground (arith, both i hi, h);
      all = λ i hi h e.
          let zero_here = (xor_zero b.hash_tags tag i ht hv hi e).1 in
          let digit_here : digit i (number zs) ≡ 1 =
            omega (arith, digit-number zs i flagged, flags_of_zero x i word hi zero_here) in
          let candidate : is_busy c i ≡ true =
            is_busy-digit c i (omega arith) hi ∙ rw (numbered, digit_here) refl in
          both i hi ∙ rw (candidate, h) refl;
    }
