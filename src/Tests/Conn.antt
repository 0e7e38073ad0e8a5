-- ===== src/Tests/Conn.antt =====
-- Connections on a small world: a peer that sends bytes by threes, and a signal to come.
use kvx.Common.{
  ℕ, zero, suc, ◌+◌, ◌-◌, ◌≤◌, ◌<◌, ◌≡◌, ◌⊎◌, refl, sym, ap, ◌∙◌, none, some, [], ◌∷◌, ◌++◌, arith,
  Bytes, take, drop, replicate, min, length, length-take, length-replicate, take-append-drop, inr,
  false,
}
use kvx.Conn.Buffer.{
  eintr, eagain, einval, enobufs, enomem, Buffer, Realloc, IsRealloc, bytes_of, store, grow_cap,
  buffer_grow, buffer_compact,
}
use kvx.Conn.Buffer.Laws.{IsValid, Keeps, pending, buffer_grow-Keeps, buffer_compact-Keeps}
use kvx.Conn.Life.{
  IoResult, Conn, Fcntl, conn_set_max_buffer_size, conn_init, conn_consume, empty_conn,
}
use kvx.Conn.Life.Laws.{conn_consume-Drops}
use kvx.Conn.Life.Setup.{HasBuffers, conn_init-HasBuffers}
use kvx.Conn.World.{
  World, RecvAnswer, received, failed, SendAnswer, accepted, refused, IsStream, ReceivesInOrder,
  SendsInOrder,
}
use kvx.Conn.Receive.{conn_recv, is_eof, recv_loop, recv_turn, recv_room}
use kvx.Conn.Receive.Loop.{MeansForReceiver}
use kvx.Conn.Receive.Laws.{conn_recv-Receives}
use kvx.Conn.Send.{conn_write, conn_flush}
use kvx.Conn.Send.Write.{WriteEnds, conn_write-Appends}
use kvx.Conn.Send.Flush.{MeansForSender, conn_flush-Sends}

-- What the peer sends, what was accepted, and the signals to come.
data Net : Type 0 where
  net : Bytes → Bytes → ℕ → Net

abbrev unread : Net → Bytes
unread (net input sent signals) = input

abbrev log : Net → Bytes
log (net input sent signals) = sent

abbrev interrupts : Net → ℕ
interrupts (net input sent signals) = signals

abbrev net_recv : Net → ℕ → RecvAnswer × Net
net_recv (net input sent (suc k)) n = (failed eintr, net input sent k)
net_recv (net [] sent zero) n = (failed eagain, net [] sent zero)
net_recv (net (x ∷ input) sent zero) n =
    (received (take (min n 3) (x ∷ input)), net (drop (min n 3) (x ∷ input)) sent zero)

abbrev net_send : Net → Bytes → SendAnswer × Net
net_send (net input sent (suc k)) bytes = (refused eintr, net input sent k)
net_send (net input sent zero) bytes =
    (accepted (min (length bytes) 3), net input (sent ++ take (min (length bytes) 3) bytes) zero)

abbrev zeros : Realloc
zeros extra = some (replicate extra 0)

zeros-IsRealloc : IsRealloc zeros
zeros-IsRealloc extra tail e = sym (ap (λ o. length (bytes_of o)) e) ∙ length-replicate extra 0

abbrev os : World Net
os = record { recv = net_recv; send = net_send; realloc = λ w. zeros }

receives : (w : Net) (n : ℕ) → 0 < n → ReceivesInOrder unread interrupts (net_recv w n) n w
receives (net input sent (suc k)) n h = (refl, omega arith)
receives (net [] sent zero) n h = refl
receives (net (x ∷ input) sent zero) n h = (
  sym (take-append-drop (min n 3) (x ∷ input)),
  omega (arith, length-take (min n 3) (x ∷ input)),
  omega (arith, length-take (min n 3) (x ∷ input)),
  omega arith,
)

sends : (w : Net) (bytes : Bytes) → SendsInOrder log interrupts (net_send w bytes) bytes w
sends (net input sent (suc k)) bytes = (refl, omega arith)
sends (net input sent zero) bytes = (refl, omega arith, omega arith)

stream : IsStream os unread log interrupts
stream = record { receives = receives; sends = sends; allocates = λ w. zeros-IsRealloc }

-- A full buffer whose first byte is consumed.
abbrev memory : Bytes
memory = 1 ∷ 2 ∷ 3 ∷ 4 ∷ []

abbrev full_buffer : Buffer
full_buffer = record { buf = some memory; cap = 4; len = 4; pos = 1 }

full_buffer-IsValid : IsValid 8 full_buffer memory
full_buffer-IsValid = record {
  memory = refl;
  sized = omega arith;
  live = omega arith;
  capped = omega arith;
  ordered = omega arith;
  inside = omega arith;
}

abbrev conn : Conn
conn = record { fd = some 5; peer_closed = false; r = full_buffer; w = full_buffer }

abbrev world : Net
world = net (5 ∷ 6 ∷ 7 ∷ 8 ∷ 9 ∷ 10 ∷ []) [] 1

-- The run compacts, grows to the limit, is interrupted, and ends with a full buffer and one byte unread.
recv_run : (conn_recv os 8 9 world conn).2 ≡ some IoResult.full
unfolding conn_recv recv_loop recv_turn recv_room buffer_compact store buffer_grow grow_cap
recv_run = refl

conn_recv-Receives_example :
    let (d, w', result) = conn_recv os 8 9 world conn in
    ((new : Bytes) × IsValid 8 d.r new)
    × (pending d.r ++ unread w' ≡ pending conn.r ++ unread world)
    × ((r : IoResult) × (result ≡ some r) × MeansForReceiver os 8 unread (pending d.r) w' r)
    × (d.peer_closed ≡ is_eof result)
    × (d.fd ≡ some 5)
    × (d.w ≡ full_buffer)
conn_recv-Receives_example =
    conn_recv-Receives os 8 unread log interrupts 9 world conn 5 memory (omega arith) stream refl
      refl full_buffer-IsValid (omega arith)

conn_flush-Sends_example :
    let (d, w', result) = conn_flush os 9 world conn in
    ((new : Bytes) × IsValid 8 d.w new)
    × (log w' ++ pending d.w ≡ 2 ∷ 3 ∷ 4 ∷ [])
    × ((r : IoResult) × (result ≡ some r) × MeansForSender (pending d.w) r)
    × (d.fd ≡ some 5)
    × (d.r ≡ full_buffer)
conn_flush-Sends_example =
    conn_flush-Sends os 8 unread log interrupts stream 9 world conn 5 memory refl
      full_buffer-IsValid (omega arith)

conn_write-Appends_example :
    let (d, failure) = conn_write 8 zeros conn (some (7 ∷ 8 ∷ 9 ∷ [])) 2 in
    ((new : Bytes) × IsValid 8 d.w new)
    × WriteEnds 8 (2 ∷ 3 ∷ 4 ∷ []) (7 ∷ 8 ∷ []) (pending d.w) failure
    × (d.fd ≡ some 5)
    × (d.r ≡ full_buffer)
    × (d.peer_closed ≡ false)
conn_write-Appends_example =
    conn_write-Appends 8 zeros conn memory (7 ∷ 8 ∷ 9 ∷ []) 2 zeros-IsRealloc (omega arith)
      full_buffer-IsValid (omega arith)

buffer_grow-Keeps_example :
    let (b', failure) = buffer_grow 8 zeros full_buffer 3 in
    Keeps 8 full_buffer b'
    × (b'.pos ≡ 1)
    × (b'.len ≡ 4)
    × ((failure ≡ none) × (full_buffer.cap + 3 ≤ b'.cap)
        ⊎ (failure ≡ some enobufs) × (8 < full_buffer.cap + 3) × (b' ≡ full_buffer)
        ⊎ (failure ≡ some enomem) × (full_buffer.cap + 3 ≤ 8) × (b' ≡ full_buffer))
buffer_grow-Keeps_example =
    buffer_grow-Keeps 8 zeros full_buffer memory 3 zeros-IsRealloc (omega arith) full_buffer-IsValid

buffer_compact-Keeps_example :
    Keeps 8 full_buffer (buffer_compact full_buffer)
    × ((buffer_compact full_buffer).pos ≡ 0)
    × ((buffer_compact full_buffer).len ≡ full_buffer.len - full_buffer.pos)
    × ((buffer_compact full_buffer).cap ≡ 4)
buffer_compact-Keeps_example = buffer_compact-Keeps 8 full_buffer memory full_buffer-IsValid

conn_consume-Drops_example :
    let (d, failure) = conn_consume conn 2 in
    ((failure ≡ some einval) × (length (pending conn.r) < 2) × (d ≡ conn))
    ⊎ ((failure ≡ none)
        × (2 ≤ length (pending conn.r))
        × IsValid 8 d.r memory
        × (pending d.r ≡ 4 ∷ [])
        × (d.fd ≡ some 5)
        × (d.peer_closed ≡ false)
        × (d.w ≡ full_buffer))
conn_consume-Drops_example = conn_consume-Drops 8 conn memory 2 (omega arith) full_buffer-IsValid

conn_init-HasBuffers_example :
    let (c, failure) = conn_init 5000 zeros zeros in
    ((failure ≡ some enomem) × (c ≡ empty_conn))
    ⊎ ((failure ≡ none)
        × HasBuffers 5000 c
        × (c.fd ≡ none)
        × (c.peer_closed ≡ false)
        × (pending c.r ≡ [])
        × (pending c.w ≡ []))
unfolding conn_set_max_buffer_size
conn_init-HasBuffers_example =
    conn_init-HasBuffers 5000 5000 zeros zeros refl (omega arith) zeros-IsRealloc zeros-IsRealloc

abbrev fcntl : Fcntl
fcntl = record { getfl = λ fd. inr 2; set_nonblocking = λ fd flags. none }

conn-HasBuffers : HasBuffers 8 conn
conn-HasBuffers = record {
  r_mem = memory;
  w_mem = memory;
  r_valid = full_buffer-IsValid;
  w_valid = full_buffer-IsValid;
}
