-- ===== src/Slab/Search.antt =====
-- The binary search for a class.
use kvx.Common.{
  ℕ, zero, suc, ◌+◌, ◌-◌, ◌/◌, ◌≤◌, ◌<◌, List, length, get_or, arith, ltb, Bool-cases, inl, inr,
}
use kvx.Slab.{find_class_loop, slab_allocator_find_class}

pub record IsSorted (classes : List ℕ) : Type 0 where
  pub ascends : (i j : ℕ) → i ≤ j → j < length classes → get_or classes i 0 ≤ get_or classes j 0

-- The first class that is large enough, or the number of classes where there is none.
pub record IsFirst (classes : List ℕ) (size i : ℕ) : Type 0 where
  pub within : i ≤ length classes
  pub smaller : (j : ℕ) → j < i → get_or classes j 0 < size
  pub large : (j : ℕ) → i ≤ j → j < length classes → size ≤ get_or classes j 0

find_class_loop-IsFirst :
    (fuel : ℕ) (classes : List ℕ) (size left right : ℕ)
    → IsSorted classes
    → left ≤ right
    → right ≤ length classes
    → right - left < fuel
    → ((j : ℕ) → j < left → get_or classes j 0 < size)
    → ((j : ℕ) → right ≤ j → j < length classes → size ≤ get_or classes j 0)
    → IsFirst classes size (find_class_loop fuel classes size left right)
unfolding find_class_loop
find_class_loop-IsFirst zero classes size left right sorted order inside enough below above =
    absurd (omega arith)
find_class_loop-IsFirst (suc fuel) classes size left right sorted order inside enough below above =
    let mid = left + (right - left) / 2 in
    elim (Bool-cases (ltb left right)) [
      | inr e ↦ rw e (record {
        within = omega arith;
        smaller = below;
        large = λ j low. above j (ground arith);
      })
      | inl e ↦
          let lt : left < right = ground arith in
          elim (Bool-cases (ltb (get_or classes mid 0) size)) [
            | inl f ↦
                rw (e, f)
                  (find_class_loop-IsFirst fuel classes size (mid + 1) right sorted (omega arith)
                    inside (omega arith)
                    (λ j low.
                      let up = sorted.ascends j mid (omega arith) (omega arith) in
                      ground (arith, up))
                    above)
            | inr f ↦
                rw (e, f)
                  (find_class_loop-IsFirst fuel classes size left mid sorted (omega arith)
                    (omega arith) (omega arith) below
                    (λ j high end. let up = sorted.ascends mid j high end in ground (arith, up)))
          ]
    ]

-- On classes in ascending order, the binary search ends with the first class that is at least the
-- size: all classes before it are smaller, and it and all behind it are large enough. It is the number
-- of classes where none is.
pub find_class-IsFirst :
    (classes : List ℕ) (size : ℕ)
    → IsSorted classes
    → IsFirst classes size (slab_allocator_find_class classes size)
unfolding slab_allocator_find_class
find_class-IsFirst classes size sorted =
    find_class_loop-IsFirst (suc (length classes)) classes size 0 (length classes) sorted
      (omega arith) (omega arith) (omega arith) (λ j low. absurd (omega arith))
      (λ j high end. absurd (omega arith))
