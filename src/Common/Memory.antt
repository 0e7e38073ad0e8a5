-- ===== src/Common/Memory.antt =====
-- Byte strings: lists of the values of `uint8_t`, with the functions of <string.h> that the code calls.
use Prim.Native.Nat.{ℕ, suc, ◌+◌, ◌^◌, ◌≤◌, ◌-◌}
use Prim.Native.Char.{code}
use Prim.Native.String.{String}
use mathlib.Core.Path.{◌≡◌}
use mathlib.Core.Logic.{◌↔◌}
use mathlib.Core.Bool.{Bool, true, false, ◌&&◌}
use mathlib.Core.List.{List, [], ◌∷◌, ◌++◌}
use native.Mathlib.Omega.{arith}
use kvx.Common.Tests.{◌==◌}
use kvx.Common.Lists.{length, take, drop}

abbrev pub Bytes : Type 0
Bytes = List ℕ

-- The code points of a literal, which are its bytes where the text is ASCII.
abbrev pub codes : String → Bytes
codes String.[] = []
codes (String.◌∷◌ c s) = code c ∷ codes s

-- SIZE_MAX and UINT32_MAX, on a machine with 64-bit sizes.
abbrev pub size_max : ℕ
size_max = 2 ^ 64 - 1

abbrev pub uint32_max : ℕ
uint32_max = 2 ^ 32 - 1

-- memcmp(a, b, n) == 0, for two slices of one length.
abbrev pub same_bytes : Bytes → Bytes → Bool
same_bytes [] [] = true
same_bytes [] (d ∷ t) = false
same_bytes (c ∷ s) [] = false
same_bytes (c ∷ s) (d ∷ t) = c == d && same_bytes s t

abbrev pub All {ℓ κ} : {A : Type ℓ} → (A → Type κ) → List A → Type κ
All P [] = Unit
All P (x ∷ xs) = P x × All P xs

-- The number of leading elements that pass the test: `while (pos < len && test(line[pos])) pos++;`.
abbrev pub run_length {ℓ} : {A : Type ℓ} → (A → Bool) → List A → ℕ
run_length p [] = 0
run_length p (x ∷ xs) = elim (p x) [ true ↦ suc (run_length p xs) | false ↦ 0 ]

-- The bytes of the slice of `len` bytes at offset `start`.
abbrev pub slice : Bytes → ℕ → ℕ → Bytes
slice b start len = take len (drop start b)

-- memcpy(dst + at, src, n) for a destination that has room.
abbrev pub memcpy : Bytes → ℕ → Bytes → Bytes
memcpy dst at src = take at dst ++ (src ++ drop (at + length src) dst)

pub same_bytes_iff : (a b : Bytes) → (same_bytes a b ≡ true) ↔ (a ≡ b)
same_bytes_iff [] [] = ground arith
same_bytes_iff [] (d ∷ t) = ground arith
same_bytes_iff (c ∷ s) [] = ground arith
same_bytes_iff (c ∷ s) (d ∷ t) = ground (arith, same_bytes_iff s t)

pub run_length-le {ℓ} : {A : Type ℓ} (p : A → Bool) (xs : List A) → run_length p xs ≤ length xs
run_length-le p [] = omega arith
run_length-le p (x ∷ xs) = ground (arith, run_length-le p xs)

pub All-append {ℓ κ} :
    {A : Type ℓ} (P : A → Type κ) (xs ys : List A) → All P xs → All P ys → All P (xs ++ ys)
All-append P [] ys hx hy = hy
All-append P (x ∷ xs) ys hx hy = (hx.0, All-append P xs ys hx.1 hy)
