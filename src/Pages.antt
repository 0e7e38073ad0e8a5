-- ===== src/Pages.antt =====
-- src/pages.c: the size of a mapping. `mmap` is a parameter, and `madvise` has no effect that is read.
use kvx.Common.{ℕ, ◌+◌, ◌-◌, ◌*◌, ◌/◌, ◌%◌, ◌^◌, Bool, Option, none, some, leb, if◌then◌else◌}

-- sysconf(_SC_PAGESIZE), and whether mmap maps so many bytes, which are then 0.
pub record Os : Type 0 where
  pub page_size : ℕ
  pub mmap : ℕ → Bool

abbrev pub pages_huge : ℕ
pages_huge = 2 * 2 ^ 20

-- The alignment is a power of two, so the mask rounds down to its multiples.
abbrev pub align_up : ℕ → ℕ → ℕ
align_up v align = (v + align - 1) % 2 ^ 64 / align * align

-- The size that `bytes_out` gets, or none where it returns NULL.
unfoldable pub pages_map : Os → ℕ → Option ℕ
pages_map os bytes =
    let huge = leb pages_huge bytes in
    let aligned = align_up bytes (if huge then pages_huge else os.page_size) in
    if os.mmap aligned then some aligned else none
