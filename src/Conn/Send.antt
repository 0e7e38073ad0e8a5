-- ===== src/Conn/Send.antt =====
-- `conn_write` and `conn_flush` of src/conn.c.
pub mod Write
pub mod Flush
use kvx.Common.{
  ℕ, zero, suc, ◌+◌, ◌-◌, ◌≡◌, Bool, true, false, Option, none, some, Bytes, take, slice, length,
  memcpy, min, ltb, ◌==◌, if◌then◌else◌,
}
use kvx.Conn.Buffer.{
  Errno, einval, enobufs, ebadf, eio, eintr, eagain, Buffer, Realloc, bytes_of, store, buffer_grow,
  buffer_compact,
}
use kvx.Conn.Life.{IoResult, error, ok, again, Conn, size_sub, reset_buffer}
use kvx.Conn.World.{World, SendAnswer, accepted, refused, ssize_max}
use kvx.Conn.Receive.{failure_result}

-- Room for `len` more bytes: compact, then grow by what is missing.
unfoldable pub write_room : ℕ → Realloc → Buffer → ℕ → Buffer × Option Errno
write_room limit realloc b len =
    let c = buffer_compact b in
    let available = size_sub c.cap c.len in
    if ltb (size_sub b.cap b.len) len
    then (if ltb available len then buffer_grow limit realloc c (len - available) else (c, none))
    else (b, none)

-- The source is NULL or at least `len` bytes, outside the buffer.
unfoldable pub conn_write : ℕ → Realloc → Conn → Option Bytes → ℕ → Conn × Option Errno
conn_write limit realloc c source len = if len == 0 then (c, none) else elim source [
  | none ↦ (c, some einval)
  | some bytes ↦
      if ltb (size_sub limit (size_sub c.w.len c.w.pos)) len
      then (c, some enobufs)
      else (let (b, failure) = write_room limit realloc c.w len in
          elim failure [
            | some e ↦ (record c { w = b }, some e)
            | none ↦ (record c { w = store b (take len bytes) }, none)
          ])
]

module _ {W : Type 0} (os : World W) where
  abbrev pub send_answer : Buffer → SendAnswer × W → Buffer × W × Option IoResult
  send_answer b (accepted zero, w) = (b, w, some (error eio))
  send_answer b (accepted (suc n), w) = (record b { pos = b.pos + suc n }, w, none)
  send_answer b (refused e, w) = (b, w, failure_result e)

  -- One turn of the loop; none is `continue`.
  unfoldable pub send_turn : W → Buffer → Buffer × W × Option IoResult
  send_turn w b =
      send_answer b (os.send w (slice (bytes_of b.buf) b.pos (min (b.len - b.pos) ssize_max)))

  -- The first argument is the fuel; none is that it does not suffice. The test is `conn_wants_pollout`.
  unfoldable pub flush_loop : ℕ → W → Buffer → Buffer × W × Option IoResult
  flush_loop zero w b = (b, w, none)
  flush_loop (suc fuel) w b = elim (ltb b.pos b.len) [
    | false ↦ (reset_buffer b, w, some ok)
    | true ↦
        let (c, w', stopped) = send_turn w b in
        elim stopped [ some stop ↦ (c, w', some stop) | none ↦ flush_loop fuel w' c ]
  ]

  unfoldable pub conn_flush : ℕ → W → Conn → Conn × W × Option IoResult
  conn_flush fuel w c = elim (c.fd) [
    | none ↦ (c, w, some (error ebadf))
    | some fd ↦ let (b, w', result) = flush_loop fuel w c.w in (record c { w = b }, w', result)
  ]
