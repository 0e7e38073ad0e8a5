-- ===== src/Conn/Life.antt =====
-- The connection of src/conn.h, its life cycle and the functions without a socket loop: the limit,
-- `conn_init`, `conn_attach`, `conn_reset`, `conn_destroy`, `conn_consume` and `conn_wants_pollout`.
pub mod Laws
pub mod Setup
use kvx.Common.{
  ℕ, ◌+◌, ◌-◌, ◌%◌, ◌^◌, Bool, true, false, Option, none, some, List, [], ◌∷◌, inl, inr, ◌⊎◌, ltb,
  ◌==◌, if◌then◌else◌,
}
use kvx.Conn.Buffer.{Errno, einval, ealready, Buffer, default_buf_cap, Realloc, buffer_grow}

-- conn_io_result_t. CONN_IO_ERROR carries the errno that describes it.
pub data IoResult : Type 0 where
  error : Errno → IoResult
  ok again eof full : IoResult

-- The descriptor is none where `fd` is -1.
pub record Conn : Type 0 where
  pub fd : Option ℕ
  pub peer_closed : Bool
  pub r : Buffer
  pub w : Buffer

abbrev pub empty_buffer : Buffer
empty_buffer = record { buf = none; cap = 0; len = 0; pos = 0 }

abbrev pub empty_conn : Conn
empty_conn = record { fd = none; peer_closed = false; r = empty_buffer; w = empty_buffer }

-- A difference in `size_t`.
abbrev pub size_sub : ℕ → ℕ → ℕ
size_sub a b = (a + 2 ^ 64 - b) % 2 ^ 64

-- The static `max_buffer_size`, 0 before it is set, and the errno of a failure.
unfoldable pub conn_set_max_buffer_size : ℕ → ℕ → ℕ × Option Errno
conn_set_max_buffer_size limit size =
    if limit == 0
    then (if ltb size default_buf_cap then (limit, some einval) else (size, none))
    else (limit, some ealready)

abbrev pub reset_buffer : Buffer → Buffer
reset_buffer b = record b { len = 0; pos = 0 }

-- The connection, and the descriptors that it closes.
unfoldable pub conn_reset : Conn → Conn × List ℕ
conn_reset c = (
  record { fd = none; peer_closed = false; r = reset_buffer c.r; w = reset_buffer c.w },
  elim (c.fd) [ none ↦ [] | some fd ↦ fd ∷ [] ],
)

-- It frees both buffers.
unfoldable pub conn_destroy : Conn → Conn × List ℕ
conn_destroy c = (empty_conn, (conn_reset c).1)

-- The two allocators are `realloc` at the moments of its two calls.
unfoldable pub conn_init : ℕ → Realloc → Realloc → Conn × Option Errno
conn_init limit realloc_r realloc_w =
    if limit == 0
    then (empty_conn, some einval)
    else (let (r, r_error) = buffer_grow limit realloc_r empty_buffer default_buf_cap in
        let (w, w_error) = buffer_grow limit realloc_w empty_buffer default_buf_cap in
        elim r_error [
          | some e ↦ ((conn_destroy (record empty_conn { r = r })).0, some e)
          | none ↦ elim w_error [
            | some e ↦ ((conn_destroy (record empty_conn { r = r; w = w })).0, some e)
            | none ↦ (record empty_conn { r = r; w = w }, none)
          ]
        ])

abbrev pub is_null : Buffer → Bool
is_null b = elim (b.buf) [ none ↦ true | some mem ↦ false ]

-- fcntl(fd, F_GETFL, 0), then fcntl(fd, F_SETFL, flags | O_NONBLOCK), with the errno of a failure.
pub record Fcntl : Type 0 where
  pub getfl : ℕ → Errno ⊎ ℕ
  pub set_nonblocking : ℕ → ℕ → Option Errno

abbrev pub attached : Conn → ℕ → Conn
attached c fd = record {
  fd = some fd;
  peer_closed = false;
  r = reset_buffer c.r;
  w = reset_buffer c.w;
}

-- A negative descriptor is none. The platform has MSG_NOSIGNAL.
unfoldable pub conn_attach : Fcntl → Conn → Option ℕ → Conn × Option Errno
conn_attach os c none = (c, some einval)
conn_attach os c (some fd) = elim (c.fd) [
  | some old ↦ (c, some einval)
  | none ↦
      if is_null c.r
      then (c, some einval)
      else if is_null c.w
      then (c, some einval)
      else elim (os.getfl fd) [
        | inl e ↦ (c, some e)
        | inr flags ↦ elim (os.set_nonblocking fd flags) [
          | some e ↦ (c, some e)
          | none ↦ (attached c fd, none)
        ]
      ]
]

abbrev pub rewind_if_empty : Buffer → Buffer
rewind_if_empty b = if b.pos == b.len then reset_buffer b else b

unfoldable pub conn_consume : Conn → ℕ → Conn × Option Errno
conn_consume c count =
    if ltb (size_sub c.r.len c.r.pos) count
    then (c, some einval)
    else (record c { r = rewind_if_empty (record c.r { pos = (c.r.pos + count) % 2 ^ 64 }) }, none)

abbrev pub conn_wants_pollout : Conn → Bool
conn_wants_pollout c = ltb c.w.pos c.w.len
