-- ===== src/Conn/Receive.antt =====
-- `conn_recv` of src/conn.c.
mod Room
pub mod Loop
pub mod Laws
use kvx.Common.{
  ℕ, zero, suc, ◌+◌, ◌-◌, ◌≡◌, Bool, true, false, Option, none, some, Bytes, length, memcpy, min,
  ◌==◌, if◌then◌else◌,
}
use kvx.Conn.Buffer.{
  Errno, ebadf, eintr, eagain, Buffer, Realloc, store, buffer_grow, buffer_compact,
}
use kvx.Conn.Life.{IoResult, error, eof, full, again, Conn}
use kvx.Conn.World.{World, RecvAnswer, received, closed, failed, ssize_max}

-- The head of the loop: room behind `len`, or the result that the function returns.
unfoldable pub recv_room : ℕ → Realloc → Buffer → Buffer × Option IoResult
recv_room limit realloc b =
    let c = buffer_compact b in
    if b.len == b.cap
    then (if c.len == c.cap
        then (if c.cap == limit
            then (c, some full)
            else (let (g, grow_error) = buffer_grow limit realloc c 1 in
                elim grow_error [ none ↦ (g, none) | some e ↦ (g, some (error e)) ]))
        else (c, none))
    else (b, none)

-- How a failed call ends the function, or none where the loop goes on. EWOULDBLOCK is EAGAIN.
abbrev pub failure_result : Errno → Option IoResult
failure_result eintr = none
failure_result eagain = some again
failure_result e = some (error e)

abbrev pub recv_answer : {W : Type 0} → Buffer → RecvAnswer × W → Buffer × W × Option IoResult
recv_answer b (received bytes, w) = (store b bytes, w, none)
recv_answer b (closed, w) = (b, w, some eof)
recv_answer b (failed e, w) = (b, w, failure_result e)

abbrev pub is_eof : Option IoResult → Bool
is_eof (some eof) = true
is_eof _ = false

module _ {W : Type 0} (os : World W) (limit : ℕ) where
  -- One turn of the loop; none is `continue`.
  unfoldable pub recv_turn : W → Buffer → Buffer × W × Option IoResult
  recv_turn w b =
      let (c, stopped) = recv_room limit (os.realloc w) b in
      elim stopped [
        | some stop ↦ (c, w, some stop)
        | none ↦ recv_answer c (os.recv w (min (c.cap - c.len) ssize_max))
      ]

  -- The first argument is the fuel; none is that it does not suffice.
  unfoldable pub recv_loop : ℕ → W → Buffer → Buffer × W × Option IoResult
  recv_loop zero w b = (b, w, none)
  recv_loop (suc fuel) w b =
      let (c, w', stopped) = recv_turn w b in
      elim stopped [ some stop ↦ (c, w', some stop) | none ↦ recv_loop fuel w' c ]

  unfoldable pub conn_recv : ℕ → W → Conn → Conn × W × Option IoResult
  conn_recv fuel w c = elim (c.fd) [
    | none ↦ (c, w, some (error ebadf))
    | some fd ↦
        if c.peer_closed
        then (c, w, some eof)
        else (let (b, w', result) = recv_loop fuel w c.r in
            (record c { peer_closed = is_eof result; r = b }, w', result))
  ]
