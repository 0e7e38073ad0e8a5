-- ===== src/Common/Words.antt =====
-- A machine word as the list of its bytes, the lowest first.
use Prim.Native.Nat.{ℕ, zero, suc, ◌+◌, ◌*◌, ◌/◌, ◌%◌, ◌^◌, ◌<◌}
use mathlib.Core.Path.{◌≡◌, refl, ap, ◌∙◌}
use mathlib.Core.Bool.{Bool, true, false}
use mathlib.Core.List.{List, [], ◌∷◌}
use native.Mathlib.Omega.{arith}
use kvx.Common.Lists.{length}
use kvx.Common.Memory.{All}
use kvx.Common.Bits.{Splits}

-- To check a property of all numbers below a bound by evaluation.
unfoldable pub holds_below : ℕ → (ℕ → Bool) → Bool
holds_below zero p = true
holds_below (suc n) p = elim (p n) [ true ↦ holds_below n p | false ↦ false ]

pub holds_below_at : (n : ℕ) (p : ℕ → Bool) (x : ℕ) → holds_below n p ≡ true → x < n → p x ≡ true
unfolding holds_below
holds_below_at zero p x h lt = absurd (omega arith)
holds_below_at (suc n) p x h lt = ground (arith, holds_below_at n p x)

abbrev pub IsByte : ℕ → Type 0
IsByte b = b < 256

abbrev pub value : List ℕ → ℕ
value [] = 0
value (b ∷ bs) = b + value bs * 256

abbrev pub bytes_of_word : ℕ → ℕ → List ℕ
bytes_of_word zero x = []
bytes_of_word (suc n) x = (x % 256) ∷ bytes_of_word n (x / 256)

abbrev pub zip_with : (ℕ → ℕ → ℕ) → List ℕ → List ℕ → List ℕ
zip_with op [] bs = []
zip_with op (a ∷ as') [] = []
zip_with op (a ∷ as') (b ∷ bs) = op a b ∷ zip_with op as' bs

pub bytes_of_word-value : (bs : List ℕ) → All IsByte bs → bytes_of_word (length bs) (value bs) ≡ bs
bytes_of_word-value [] h = refl
bytes_of_word-value (b ∷ bs) (h, hs) =
    let low : (b + value bs * 256) % 256 ≡ b = omega arith in
    let high : (b + value bs * 256) / 256 ≡ value bs = omega arith in
    rw (low, high, bytes_of_word-value bs hs) refl

pub bytes_of_word-All : (n x : ℕ) → All IsByte (bytes_of_word n x)
bytes_of_word-All zero x = tt
bytes_of_word-All (suc n) x = (omega arith, bytes_of_word-All n (x / 256))

pub length-bytes_of_word : (n x : ℕ) → length (bytes_of_word n x) ≡ n
length-bytes_of_word zero x = refl
length-bytes_of_word (suc n) x = ap suc (length-bytes_of_word n (x / 256))

-- Eight bytes make up a 64-bit word.
pub value-bytes_of_word : (x : ℕ) → x < 2 ^ 64 → value (bytes_of_word 8 x) ≡ x
value-bytes_of_word x h = omega arith

pub op-value :
    (op : ℕ → ℕ → ℕ) (as' bs : List ℕ)
    → Splits op 256
    → op 0 0 ≡ 0
    → All IsByte as'
    → All IsByte bs
    → length as' ≡ length bs
    → op (value as') (value bs) ≡ value (zip_with op as' bs)
op-value op [] [] split zeros ha hb e = zeros
op-value op [] (b ∷ bs) split zeros ha hb e = absurd (omega arith)
op-value op (a ∷ as') [] split zeros ha hb e = absurd (omega arith)
op-value op (a ∷ as') (b ∷ bs) split zeros (ha, has) (hb, hbs) e =
    let e1 : (a + value as' * 256) / 256 ≡ value as' = omega arith in
    let e2 : (b + value bs * 256) / 256 ≡ value bs = omega arith in
    let e3 : (a + value as' * 256) % 256 ≡ a = omega arith in
    let e4 : (b + value bs * 256) % 256 ≡ b = omega arith in
    let rest = op-value op as' bs split zeros has hbs (omega arith) in
    split (a + value as' * 256) (b + value bs * 256) ∙ rw (e1, e2, e3, e4, rest) (omega arith)
