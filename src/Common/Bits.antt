-- ===== src/Common/Bits.antt =====
-- Laws of `bit_and`, `bit_or` and `bit_xor` at variables: they act on each byte by itself.
use Prim.Native.Nat.{
  ℕ, zero, suc, ◌+◌, ◌*◌, ◌/◌, ◌%◌, ◌≤◌, ◌<◌, min, max, bit_and, bit_or, bit_xor, digits, differ,
  bit_and-bitwise, bit_or-bitwise, bit_xor-bitwise, bitwise,
}
use mathlib.Core.Path.{◌≡◌, refl, sym, ap, ◌∙◌}
use native.Mathlib.Omega.{arith}

module _ (z : ℕ → ℕ) (f : ℕ → ℕ → ℕ) where
  digits_none : (n b : ℕ) → digits z f n 0 b ≡ z b
  digits_none zero b = refl
  digits_none (suc n) b = refl

  -- All fuels that cover the first number give one result.
  digits-eq : (a n k b : ℕ) → a ≤ n → a ≤ k → digits z f n a b ≡ digits z f k a b
  digits-eq zero n k b hn hk = digits_none n b ∙ sym (digits_none k b)
  digits-eq (suc a) (suc n) (suc k) b hn hk =
      ap (λ r. r * 2 + f (suc a % 2) (b % 2))
        (digits-eq (suc a / 2) n k (b / 2) (omega arith) (omega arith))
  digits-eq (suc a) zero k b hn hk = absurd (omega arith)
  digits-eq (suc a) (suc n) zero b hn hk = absurd (omega arith)

  bitwise-half :
      ((b : ℕ) → z b ≡ z (b / 2) * 2 + f 0 (b % 2))
      → (a b : ℕ) → bitwise z f a b ≡ bitwise z f (a / 2) (b / 2) * 2 + f (a % 2) (b % 2)
  bitwise-half h zero b = h b
  bitwise-half h (suc a) b =
      ap (λ r. r * 2 + f (suc a % 2) (b % 2))
        (digits-eq (suc a / 2) a (suc a / 2) (b / 2) (omega arith) (omega arith))

-- An operation that acts on the two parts of its arguments by themselves.
abbrev pub Splits : (ℕ → ℕ → ℕ) → ℕ → Type 0
Splits op w = (a b : ℕ) → op a b ≡ op (a / w) (b / w) * w + op (a % w) (b % w)

module _ (z : ℕ → ℕ) (f : ℕ → ℕ → ℕ) where
  -- The operation that a bitwise one stands for splits into digits.
  halves :
      (op : ℕ → ℕ → ℕ)
      → ((a b : ℕ) → op a b ≡ bitwise z f a b)
      → ((b : ℕ) → z b ≡ z (b / 2) * 2 + f 0 (b % 2))
      → z 0 ≡ 0
      → Splits op 2
  halves op same h none a b =
      let e1 : a % 2 / 2 ≡ 0 = omega arith in
      let e2 : b % 2 / 2 ≡ 0 = omega arith in
      let e3 : a % 2 % 2 ≡ a % 2 = omega arith in
      let e4 : b % 2 % 2 ≡ b % 2 = omega arith in
      let low : bitwise z f (a % 2) (b % 2) ≡ f (a % 2) (b % 2) =
        bitwise-half z f h (a % 2) (b % 2) ∙ rw (e1, e2, e3, e4, none) (omega arith) in
      same a b
      ∙ bitwise-half z f h a b
      ∙ omega (arith, same (a / 2) (b / 2), same (a % 2) (b % 2), low)

module _ (op : ℕ → ℕ → ℕ) where
  four : Splits op 2 → Splits op 4
  four h a b =
      let e1 : a / 2 / 2 ≡ a / 4 = omega arith in
      let e2 : b / 2 / 2 ≡ b / 4 = omega arith in
      let e3 : a % 4 / 2 ≡ a / 2 % 2 = omega arith in
      let e4 : b % 4 / 2 ≡ b / 2 % 2 = omega arith in
      let e5 : a % 4 % 2 ≡ a % 2 = omega arith in
      let e6 : b % 4 % 2 ≡ b % 2 = omega arith in
      ground (arith, h a b, h (a / 2) (b / 2), h (a % 4) (b % 4), e1, e2, e3, e4, e5, e6)

  sixteen : Splits op 4 → Splits op 16
  sixteen h a b =
      let e1 : a / 4 / 4 ≡ a / 16 = omega arith in
      let e2 : b / 4 / 4 ≡ b / 16 = omega arith in
      let e3 : a % 16 / 4 ≡ a / 4 % 4 = omega arith in
      let e4 : b % 16 / 4 ≡ b / 4 % 4 = omega arith in
      let e5 : a % 16 % 4 ≡ a % 4 = omega arith in
      let e6 : b % 16 % 4 ≡ b % 4 = omega arith in
      ground (arith, h a b, h (a / 4) (b / 4), h (a % 16) (b % 16), e1, e2, e3, e4, e5, e6)

  byte : Splits op 16 → Splits op 256
  byte h a b =
      let e1 : a / 16 / 16 ≡ a / 256 = omega arith in
      let e2 : b / 16 / 16 ≡ b / 256 = omega arith in
      let e3 : a % 256 / 16 ≡ a / 16 % 16 = omega arith in
      let e4 : b % 256 / 16 ≡ b / 16 % 16 = omega arith in
      let e5 : a % 256 % 16 ≡ a % 16 = omega arith in
      let e6 : b % 256 % 16 ≡ b % 16 = omega arith in
      ground (arith, h a b, h (a / 16) (b / 16), h (a % 256) (b % 256), e1, e2, e3, e4, e5, e6)

pub bit_and-bytes : Splits bit_and 256
bit_and-bytes = byte bit_and (
    sixteen bit_and
      (four bit_and (halves (λ b. 0) min bit_and bit_and-bitwise (λ b. omega arith) refl)))

pub bit_or-bytes : Splits bit_or 256
bit_or-bytes = byte bit_or (
    sixteen bit_or
      (four bit_or (halves (λ b. b) max bit_or bit_or-bitwise (λ b. omega arith) refl)))

pub bit_xor-bytes : Splits bit_xor 256
bit_xor-bytes = byte bit_xor (
    sixteen bit_xor
      (four bit_xor (halves (λ b. b) differ bit_xor bit_xor-bitwise (λ b. omega arith) refl)))

bit_and_fuel : (n a b : ℕ) → a ≤ n → bit_and a b ≤ b
bit_and_fuel zero a b h = let e : a ≡ 0 = omega arith in rw (e, bit_and-bitwise 0 b) (omega arith)
bit_and_fuel (suc n) zero b h = rw (bit_and-bitwise 0 b) (omega arith)
bit_and_fuel (suc n) (suc a) b h = omega (
  arith,
  bit_and-bitwise (suc a) b,
  bitwise-half (λ b. 0) min (λ b. omega arith) (suc a) b,
  bit_and-bitwise (suc a / 2) (b / 2),
  bit_and_fuel n (suc a / 2) (b / 2) (omega arith),
)

pub bit_and-le : (a b : ℕ) → bit_and a b ≤ b
bit_and-le a b = bit_and_fuel a a b (omega arith)

pub bit_and-half : (a b : ℕ) → bit_and a b ≡ bit_and (a / 2) (b / 2) * 2 + min (a % 2) (b % 2)
bit_and-half a b =
    bit_and-bitwise a b
    ∙ bitwise-half (λ b. 0) min (λ b. omega arith) a b
    ∙ omega (arith, bit_and-bitwise (a / 2) (b / 2))

abbrev pub pow2 : ℕ → ℕ
pow2 zero = 1
pow2 (suc n) = pow2 n * 2

differ_bound : (a b : ℕ) → a < 2 → b < 2 → differ a b < 2
differ_bound zero b ha hb = hb
differ_bound (suc a) zero ha hb = ha
differ_bound (suc a) (suc b) ha hb = differ_bound a b (omega arith) (omega arith)

pub bit_xor_bound : (n a b : ℕ) → a < pow2 n → b < pow2 n → bit_xor a b < pow2 n
bit_xor_bound zero a b ha hb =
    let e1 : a ≡ 0 = omega arith in let e2 : b ≡ 0 = omega arith in rw (e1, e2) (omega arith)
bit_xor_bound (suc n) a b ha hb = omega (
  arith,
  bit_xor-bitwise a b,
  bitwise-half (λ b. b) differ (λ b. omega arith) a b,
  bit_xor-bitwise (a / 2) (b / 2),
  bit_xor_bound n (a / 2) (b / 2) (omega arith) (omega arith),
  differ_bound (a % 2) (b % 2) (omega arith) (omega arith),
)
