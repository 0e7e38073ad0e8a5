-- ===== src/Common/Members.antt =====
-- Lists of numbers without repetitions, as finite sets.
use Prim.Native.Nat.{ℕ, suc, ◌≤◌}
use mathlib.Core.Path.{◌≡◌, refl, ap}
use mathlib.Core.Logic.{◌≢◌, ◌⊎◌, inl, inr}
use mathlib.Core.Bool.{Bool, true, false, ◌||◌}
use mathlib.Core.List.{List, [], ◌∷◌}
use native.Mathlib.Omega.{arith}
use kvx.Common.Tests.{◌==◌, if◌then◌else◌, Bool-cases}
use kvx.Common.Lists.{length}

abbrev pub has : ℕ → List ℕ → Bool
has a [] = false
has a (x ∷ xs) = (a == x) || has a xs

abbrev pub Distinct : List ℕ → Type 0
Distinct [] = Unit
Distinct (x ∷ xs) = (has x xs ≡ false) × Distinct xs

abbrev pub without : ℕ → List ℕ → List ℕ
without a [] = []
without a (x ∷ xs) = let rest = without a xs in if a == x then xs else x ∷ rest

pub has-head : (a : ℕ) (xs : List ℕ) → has a (a ∷ xs) ≡ true
has-head a xs = ground arith

pub has-tail : (a x : ℕ) (xs : List ℕ) → has a xs ≡ true → has a (x ∷ xs) ≡ true
has-tail a x xs h = ground (arith, h)

-- A member is the head or one of the tail.
pub has-cases : (a x : ℕ) (xs : List ℕ) → has a (x ∷ xs) ≡ true → (a ≡ x) ⊎ (has a xs ≡ true)
has-cases a x xs h = elim (Bool-cases (a == x)) [
  | inl e ↦ inl (ground (arith, e))
  | inr e ↦ inr (ground (arith, e, h))
]

pub has-ne : (a b : ℕ) (xs : List ℕ) → has a xs ≡ true → has b xs ≡ false → a ≢ b
has-ne a b xs h g = λ e. cc (ap (λ r. has r xs) e, h, g)

length-without : (a : ℕ) (xs : List ℕ) → has a xs ≡ true → suc (length (without a xs)) ≡ length xs
length-without a [] h = cc h
length-without a (x ∷ xs) h = elim (Bool-cases (a == x)) [
  | inl e ↦ rw e refl
  | inr e ↦
      let inside : has a xs ≡ true = ground (arith, e, h) in
      rw e (ap suc (length-without a xs inside))
]

has-without : (a b : ℕ) (xs : List ℕ) → b ≢ a → has b xs ≡ true → has b (without a xs) ≡ true
has-without a b [] ne h = h
has-without a b (x ∷ xs) ne h = elim (Bool-cases (a == x)) [
  | inl e ↦ rw e (ground (arith, e, h, ne))
  | inr e ↦ elim (has-cases b x xs h) [
    | inl same ↦ rw e (ground (arith, same))
    | inr inside ↦ rw e (has-tail b x (without a xs) (has-without a b xs ne inside))
  ]
]

-- Distinct members of another list are not more than that has.
pub Distinct-length :
    (xs ys : List ℕ)
    → Distinct xs
    → ((a : ℕ) → has a xs ≡ true → has a ys ≡ true)
    → length xs ≤ length ys
Distinct-length [] ys d sub = omega arith
Distinct-length (x ∷ xs) ys (fresh, d) sub =
    let less =
      Distinct-length xs (without x ys) d
        (λ a h. has-without x a ys (has-ne a x xs h fresh) (sub a (has-tail a x xs h))) in
    omega (arith, less, length-without x ys (sub x (has-head x xs)))
