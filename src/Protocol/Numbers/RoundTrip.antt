-- ===== src/Protocol/Numbers/RoundTrip.antt =====
-- `proto_format_uint`: its output is read back, and fits the scratch buffers of its callers.
use native.Mathlib.Nat.{pow-suc}
use kvx.Common.{
  ℕ, zero, suc, ◌+◌, ◌/◌, ◌%◌, ◌^◌, ◌≤◌, ◌<◌, ◌≡◌, ◌≢◌, refl, some, [], ◌∷◌, arith, Bytes, All,
  size_max, uint32_max, length, some,
}
use kvx.Protocol.Numbers.{parse_digits, proto_parse_uint, format_digits, proto_format_uint}
use kvx.Protocol.Numbers.Parse.{IsDigit}

-- Reading the last digit of `n` behind the digits before it gives `n`.
parse_last_digit :
    (limit n : ℕ) (out : Bytes)
    → limit ≤ size_max
    → n ≤ limit
    → parse_digits limit ((b'0' + n % 10) ∷ out) (n / 10) ≡ parse_digits limit out n
unfolding parse_digits
parse_last_digit limit n out word fits = ground arith

parse_digits-format_digits :
    (limit fuel n : ℕ) (out : Bytes)
    → limit ≤ size_max
    → n ≤ limit
    → n < fuel
    → parse_digits limit (format_digits fuel n out) 0 ≡ parse_digits limit out n
unfolding format_digits
parse_digits-format_digits limit zero n out word fits h = absurd (omega arith)
parse_digits-format_digits limit (suc fuel) n out word fits h = ground (
  arith,
  parse_last_digit limit n out,
  parse_digits-format_digits limit fuel (n / 10) ((b'0' + n % 10) ∷ out),
)

format_digits-All :
    (fuel n : ℕ) (out : Bytes) → All IsDigit out → All IsDigit (format_digits fuel n out)
unfolding format_digits
format_digits-All zero n out h = h
format_digits-All (suc fuel) n out h =
    ground (arith, format_digits-All fuel (n / 10) ((b'0' + n % 10) ∷ out))

-- `k + 1` digits are enough for a number below 10 ^ (k + 1).
length-format_digits :
    (k fuel n : ℕ) (out : Bytes)
    → n < 10 ^ suc k
    → length (format_digits fuel n out) ≤ suc k + length out
unfolding format_digits
length-format_digits k zero n out h = omega arith
length-format_digits zero (suc fuel) n out h = ground (arith, pow-suc 10 0)
length-format_digits (suc k) (suc fuel) n out h =
    let written = (b'0' + n % 10) ∷ out in
    ground (arith, pow-suc 10 (suc k), length-format_digits k fuel (n / 10) written)

format_digits-ne-nil : (fuel n : ℕ) (out : Bytes) → out ≢ [] → format_digits fuel n out ≢ []
unfolding format_digits
format_digits-ne-nil zero n out h = h
format_digits-ne-nil (suc fuel) n out h =
    ground (arith, format_digits-ne-nil fuel (n / 10) ((b'0' + n % 10) ∷ out))

format_digits-pos :
    (fuel n : ℕ) (out : Bytes) → 0 < length out → 0 < length (format_digits fuel n out)
unfolding format_digits
format_digits-pos zero n out h = h
format_digits-pos (suc fuel) n out h =
    ground (arith, format_digits-pos fuel (n / 10) ((b'0' + n % 10) ∷ out))

pub proto_format_uint-All : (n : ℕ) → All IsDigit (proto_format_uint n)
unfolding proto_format_uint
proto_format_uint-All n = format_digits-All (suc n) n [] tt

pub proto_format_uint-pos : (n : ℕ) → 0 < length (proto_format_uint n)
unfolding proto_format_uint
proto_format_uint-pos n = ground (arith, format_digits-pos n (n / 10) ((b'0' + n % 10) ∷ []))

parse_uint-ne-nil :
    (s : Bytes) (limit : ℕ) → 0 < length s → proto_parse_uint s limit ≡ parse_digits limit s 0
unfolding proto_parse_uint
parse_uint-ne-nil [] limit h = absurd (omega arith)
parse_uint-ne-nil (c ∷ s) limit h = refl

-- For a limit that a 64-bit word holds, every number up to the limit is read back from its decimal
-- print.
pub parse_uint-format_uint :
    (n limit : ℕ)
    → limit ≤ size_max
    → n ≤ limit
    → proto_parse_uint (proto_format_uint n) limit ≡ some n
parse_uint-format_uint n limit word fits =
    rw (parse_uint-ne-nil _ limit (proto_format_uint-pos n)) (
      unfold proto_format_uint parse_digits in
      parse_digits-format_digits limit (suc n) n [] word fits (omega arith))

-- A print has at least one byte; that of a 32-bit number has at most 10 and that of a 64-bit number
-- at most 20, so that the scratch buffers of 10 and 24 bytes are never overrun.
pub length-format_uint :
    (n : ℕ)
    → (0 < length (proto_format_uint n))
      × (n ≤ uint32_max → length (proto_format_uint n) ≤ 10)
      × (n ≤ size_max → length (proto_format_uint n) ≤ 20)
unfolding proto_format_uint
length-format_uint n = (
  proto_format_uint-pos n,
  λ h. omega (arith, length-format_digits 9 (suc n) n [] (omega arith)),
  λ h. omega (arith, length-format_digits 19 (suc n) n [] (omega arith)),
)
