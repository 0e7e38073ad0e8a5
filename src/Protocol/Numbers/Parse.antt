-- ===== src/Protocol/Numbers/Parse.antt =====
-- What `proto_parse_uint` accepts, and what it returns.
use mathlib.Core.List.{foldl, cons-ne-nil}
use kvx.Common.{
  ℕ, ◌+◌, ◌-◌, ◌*◌, ◌≤◌, ◌≡◌, ◌≢◌, ◌↔◌, refl, some, [], ◌∷◌, arith, Bytes, All, size_max,
}
use kvx.Protocol.Numbers.{parse_digits, proto_parse_uint}

abbrev pub IsDigit : ℕ → Type 0
IsDigit c = (b'0' ≤ c) × (c ≤ b'9')

-- The number that the digits spell behind `n`, with no bound.
abbrev pub spelled : ℕ → Bytes → ℕ
spelled = foldl (λ n c. n * 10 + (c - b'0'))

parse_digits_sound :
    (limit : ℕ) (s : Bytes) (n r : ℕ)
    → limit ≤ size_max
    → n ≤ limit
    → parse_digits limit s n ≡ some r
    → All IsDigit s × (r ≡ spelled n s) × (r ≤ limit)
unfolding parse_digits
parse_digits_sound limit [] n r word fits h = ground arith
parse_digits_sound limit (c ∷ s) n r word fits h =
    ground (arith, parse_digits_sound limit s (n * 10 + (c - b'0')) r)

le-spelled : (s : Bytes) (n : ℕ) → n ≤ spelled n s
le-spelled [] n = omega arith
le-spelled (c ∷ s) n = omega (arith, le-spelled s (n * 10 + (c - b'0')))

parse_digits_complete :
    (limit : ℕ) (s : Bytes) (n : ℕ)
    → limit ≤ size_max
    → All IsDigit s
    → spelled n s ≤ limit
    → parse_digits limit s n ≡ some (spelled n s)
unfolding parse_digits
parse_digits_complete limit [] n word _ _ = refl
parse_digits_complete limit (c ∷ s) n word (hc, hs) fits =
    let m = n * 10 + (c - b'0') in
    ground (arith, parse_digits_complete limit s m word hs fits, le-spelled s m)

-- For a limit that a 64-bit word holds, `proto_parse_uint` succeeds with `r` exactly when the token
-- is one or more decimal digits that spell `r`, and `r` is at most the limit.
pub proto_parse_uint_iff :
    (s : Bytes) (limit r : ℕ)
    → limit ≤ size_max
    → (proto_parse_uint s limit ≡ some r)
      ↔ ((s ≢ []) × All IsDigit s × (spelled 0 s ≡ r) × (r ≤ limit))
unfolding proto_parse_uint
proto_parse_uint_iff [] limit r word = (λ h. absurd (cc), λ h. absurd (h.0 refl))
proto_parse_uint_iff (c ∷ s) limit r word = (
  λ h.
      let (digits, exact, fits) = parse_digits_sound limit (c ∷ s) 0 r word (omega arith) h in
      (cons-ne-nil c s, digits, omega arith, fits),
  λ h. let e = h.2 in rw (← e) (parse_digits_complete limit (c ∷ s) 0 word h.1 (omega arith)),
)
