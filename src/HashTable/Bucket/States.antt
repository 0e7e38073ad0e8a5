-- ===== src/HashTable/Bucket/States.antt =====
-- The bits of `slot_states` and of the candidates, checked for every byte.
use Prim.Native.Nat.{bit_and}
use kvx.Common.{
  and_parts, ℕ, zero, suc, ◌+◌, ◌-◌, ◌/◌, ◌%◌, min, ◌≤◌, ◌<◌, ◌≡◌, ◌≢◌, ◌⊎◌, ltb→lt, refl, ◌∙◌,
  Bool, true, false, not, ◌&&◌, ◌||◌, arith, ltb, ◌==◌, if◌then◌else◌, Bool-cases, inl, inr, ==_iff,
}
use kvx.Common.Words.{holds_below, holds_below_at}
use kvx.Common.Bits.{bit_and-half, bit_and-le}
use kvx.HashTable.Bucket.{with_state, is_busy, ctz, not8}

abbrev same : Bool → Bool → Bool
same true b = b
same false b = not b

same-eq : (a b : Bool) → same a b ≡ true → a ≡ b
same-eq true b h = ground arith
same-eq false b h = ground arith

abbrev check_states : ℕ → ℕ → ℕ → Bool
check_states s i j =
    same (is_busy (with_state s i true) j) (i == j || is_busy s j)
    && (same (is_busy (with_state s i false) j) (not (i == j) && is_busy s j)
        && (ltb (with_state s i true) 256 && ltb (with_state s i false) 256))

states_table : holds_below 256 (λ s. holds_below 8 (λ i. holds_below 8 (check_states s i))) ≡ true
unfolding holds_below
states_table = refl

unfoldable pub popcount : ℕ → ℕ → ℕ
popcount zero c = 0
popcount (suc n) c = c % 2 + popcount n (c / 2)

-- The lowest bit, and the byte without it.
abbrev check_lowest : ℕ → ℕ → Bool
check_lowest c j =
    let i = ctz 8 c in
    let r = bit_and c (c - 1) in
    c == 0
    || (ltb i 8
        && (is_busy c i
            && (ltb r 256
                && (popcount 8 r + 1 == popcount 8 c
                    && same (is_busy r j) (not (i == j) && is_busy c j)))))

lowest_table : holds_below 256 (λ c. holds_below 8 (check_lowest c)) ≡ true
unfolding holds_below ctz popcount
lowest_table = refl

abbrev check_free : ℕ → ℕ → Bool
check_free s j =
    let f = not8 s in if f == 0 then is_busy s j else ltb (ctz 8 f) 8 && not (is_busy s (ctz 8 f))

free_table : holds_below 256 (λ s. holds_below 8 (check_free s)) ≡ true
unfolding holds_below ctz
free_table = refl

-- The digit at a position.
abbrev pub digit : ℕ → ℕ → ℕ
digit zero x = x % 2
digit (suc n) x = digit n (x / 2)

digit-bit_and : (n a b : ℕ) → digit n (bit_and a b) ≡ min (digit n a) (digit n b)
digit-bit_and zero a b = omega (arith, bit_and-half a b)
digit-bit_and (suc n) a b =
    let e : bit_and a b / 2 ≡ bit_and (a / 2) (b / 2) = omega (arith, bit_and-half a b) in
    rw (e, digit-bit_and n (a / 2) (b / 2)) refl

digit-small : (n x : ℕ) → digit n x < 2
digit-small zero x = omega arith
digit-small (suc n) x = digit-small n (x / 2)

digit_table : holds_below 256 (λ s. holds_below 8 (λ j. same (is_busy s j) (digit j s == 1))) ≡ true
unfolding holds_below
digit_table = refl

pub is_busy-digit : (s j : ℕ) → s < 256 → j < 8 → is_busy s j ≡ (digit j s == 1)
is_busy-digit s j hs hj =
    same-eq (is_busy s j) (digit j s == 1)
      (holds_below_at 8 _ j (holds_below_at 256 _ s digit_table hs) hj)

-- A candidate is a slot with the bit in both bytes.
pub is_busy-bit_and :
    (c s j : ℕ) → c < 256 → s < 256 → j < 8 → is_busy (bit_and c s) j ≡ (is_busy c j && is_busy s j)
is_busy-bit_and c s j hc hs hj =
    is_busy-digit (bit_and c s) j (omega (arith, bit_and-le c s)) hj
    ∙ rw (is_busy-digit c j hc hj, is_busy-digit s j hs hj, digit-bit_and j c s)
        (ground (arith, digit-small j c, digit-small j s))

pub with_state-is_busy :
    (s i j : ℕ) (v : Bool)
    → s < 256
    → i < 8
    → j < 8
    → (is_busy (with_state s i v) j ≡ (if i == j then v else is_busy s j))
      × (with_state s i v < 256)
with_state-is_busy s i j true hs hi hj =
    let row =
      holds_below_at 8 _ j (holds_below_at 8 _ i (holds_below_at 256 _ s states_table hs) hi) hj in
    ground (arith, row, same-eq (is_busy (with_state s i true) j) (i == j || is_busy s j))
with_state-is_busy s i j false hs hi hj =
    let row =
      holds_below_at 8 _ j (holds_below_at 8 _ i (holds_below_at 256 _ s states_table hs) hi) hj in
    ground (arith, row, same-eq (is_busy (with_state s i false) j) (not (i == j) && is_busy s j))

-- The lowest bit of a byte that is not 0, and the byte without it.
pub record Lowest (c : ℕ) : Type 0 where
  pub low : ctz 8 c < 8
  pub here : is_busy c (ctz 8 c) ≡ true
  pub small : bit_and c (c - 1) < 256
  pub fewer : popcount 8 (bit_and c (c - 1)) + 1 ≡ popcount 8 c
  pub others : (j : ℕ) → j < 8 → is_busy (bit_and c (c - 1)) j ≡ (not (ctz 8 c == j) && is_busy c j)

lowest_at :
    (c j : ℕ)
    → c < 256
    → c ≢ 0
    → j < 8
    → (ctz 8 c < 8)
      × (is_busy c (ctz 8 c) ≡ true)
      × (bit_and c (c - 1) < 256)
      × (popcount 8 (bit_and c (c - 1)) + 1 ≡ popcount 8 c)
      × (is_busy (bit_and c (c - 1)) j ≡ (not (ctz 8 c == j) && is_busy c j))
lowest_at c j hc nonzero hj =
    let row = holds_below_at 8 _ j (holds_below_at 256 _ c lowest_table hc) hj in
    let zero_test : (c == 0) ≡ false = ground arith in
    let row' = rw zero_test at row in
    let (low, r1) = and_parts (ltb (ctz 8 c) 8) _ row' in
    let (here, r2) = and_parts (is_busy c (ctz 8 c)) _ r1 in
    let (small, r3) = and_parts (ltb (bit_and c (c - 1)) 256) _ r2 in
    let (fewer, other) = and_parts (popcount 8 (bit_and c (c - 1)) + 1 == popcount 8 c) _ r3 in
    (
      ltb→lt _ _ low,
      here,
      ltb→lt _ _ small,
      (==_iff _ _).0 fewer,
      same-eq (is_busy (bit_and c (c - 1)) j) (not (ctz 8 c == j) && is_busy c j) other,
    )

pub ctz-Lowest : (c : ℕ) → c < 256 → c ≢ 0 → Lowest c
ctz-Lowest c hc nonzero =
    let first = lowest_at c 0 hc nonzero (omega arith) in
    record {
      low = first.0;
      here = first.1;
      small = first.2;
      fewer = first.3;
      others = λ j hj. (lowest_at c j hc nonzero hj).4;
    }

pub digit_zero : (n : ℕ) → digit n 0 ≡ 0
digit_zero zero = refl
digit_zero (suc n) = digit_zero n

pub is_busy_zero : (j : ℕ) → j < 8 → is_busy 0 j ≡ false
is_busy_zero j hj = is_busy-digit 0 j (omega arith) hj ∙ rw (digit_zero j) refl

pub popcount_bound : (c : ℕ) → popcount 8 c ≤ 8
unfolding popcount
popcount_bound c = omega arith

-- The byte of free slots names one, unless all are busy.
pub free_slot_cases :
    (s : ℕ)
    → s < 256
    → ((not8 s ≡ 0) × ((j : ℕ) → j < 8 → is_busy s j ≡ true))
      ⊎ ((not8 s ≢ 0) × (ctz 8 (not8 s) < 8) × (is_busy s (ctz 8 (not8 s)) ≡ false))
free_slot_cases s hs =
    let row = λ (j : ℕ) (hj : j < 8).
      holds_below_at 8 (check_free s) j (holds_below_at 256 _ s free_table hs) hj in
    elim (Bool-cases (not8 s == 0)) [
      | inl e ↦ inl ((==_iff _ _).0 e, λ j hj. rw e at row j hj)
      | inr e ↦
          let (low, free) = and_parts (ltb (ctz 8 (not8 s)) 8) _ (rw e at row 0 (omega arith)) in
          inr (ground arith, ltb→lt _ _ low, ground (arith, free))
    ]
