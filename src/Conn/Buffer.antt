-- ===== src/Conn/Buffer.antt =====
-- `buffer_grow` and `buffer_compact` of src/conn.c. The four fields of one direction of `conn_t` are
-- a record: the memory, NULL or its bytes, its capacity, and the span from `pos` to `len`.
pub mod Capacity
pub mod Laws
pub mod Store
use kvx.Common.{
  ℕ, zero, suc, ◌+◌, ◌-◌, ◌*◌, ◌/◌, ◌%◌, ◌^◌, ◌≤◌, ◌≡◌, Bool, true, false, Option, none, some, List,
  [], ◌∷◌, ◌++◌, Bytes, memcpy, slice, drop, length, ltb, ◌==◌, if◌then◌else◌,
}

pub data Errno : Type 0 where
  einval ealready enobufs enomem ebadf eio eintr eagain : Errno
  -- Any other code.
  other : ℕ → Errno

pub record Buffer : Type 0 where
  pub buf : Option Bytes
  pub cap : ℕ
  pub len : ℕ
  pub pos : ℕ

-- CONN_DEFAULT_BUF_CAP.
abbrev pub default_buf_cap : ℕ
default_buf_cap = 4096

-- The answer of `realloc` to a call that adds so many bytes: NULL, or what the new bytes hold.
abbrev pub Realloc : Type 0
Realloc = ℕ → Option Bytes

-- A successful `realloc` gives as many bytes as it is asked for.
abbrev pub IsRealloc : Realloc → Type 0
IsRealloc realloc = (extra : ℕ) (tail : Bytes) → realloc extra ≡ some tail → length tail ≡ extra

-- The loop that doubles the capacity. The first argument is the fuel.
unfoldable pub grow_cap : ℕ → ℕ → ℕ → ℕ → ℕ
grow_cap zero limit min_cap new_cap = new_cap
grow_cap (suc fuel) limit min_cap new_cap =
    let next = grow_cap fuel limit min_cap (new_cap * 2) in
    if ltb new_cap min_cap then (if ltb (limit / 2) new_cap then limit else next) else new_cap

abbrev pub bytes_of : Option Bytes → Bytes
bytes_of none = []
bytes_of (some mem) = mem

-- The start of the loop: the capacity, or the default where there is none.
abbrev pub start_cap : ℕ → ℕ
start_cap cap = if cap == 0 then default_buf_cap else cap

-- `limit` is `max_buffer_size`. The result is none, or the errno of a failed call. The difference is
-- computed in `size_t`.
unfoldable pub buffer_grow : ℕ → Realloc → Buffer → ℕ → Buffer × Option Errno
buffer_grow limit realloc b extra =
    let min_cap = b.cap + extra in
    let new_cap = grow_cap (suc min_cap) limit min_cap (start_cap b.cap) in
    if ltb ((limit + 2 ^ 64 - b.cap) % 2 ^ 64) extra
    then (b, some enobufs)
    else if extra == 0
    then (b, none)
    else elim (realloc (new_cap - b.cap)) [
      | none ↦ (b, some enomem)
      | some tail ↦ (record b { buf = some (bytes_of b.buf ++ tail); cap = new_cap }, none)
    ]

-- memmove(buf, buf + pos, n).
abbrev pub move_down : Option Bytes → ℕ → ℕ → Option Bytes
move_down none pos n = none
move_down (some mem) pos n = some (slice mem pos n ++ drop n mem)

unfoldable pub buffer_compact : Buffer → Buffer
buffer_compact b =
    let remaining = b.len - b.pos in
    if b.pos == 0 then b else record b {
      buf = if remaining == 0 then b.buf else move_down b.buf b.pos remaining;
      len = remaining;
      pos = 0;
    }

-- `recv` and `memcpy` store bytes at `buf + len`, and `len` grows.
unfoldable pub store : Buffer → Bytes → Buffer
store b bytes = record b {
  buf = some (memcpy (bytes_of b.buf) b.len bytes);
  len = b.len + length bytes;
}
