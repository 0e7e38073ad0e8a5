-- ===== src/Conn/Receive/Room.antt =====
-- The head of the loop of `conn_recv`.
use kvx.Common.{
  ℕ, ◌≤◌, ◌<◌, ◌≡◌, refl, none, some, arith, Bytes, length, size_max, inl, inr, ◌⊎◌, Bool-cases,
  ◌==◌,
}
use kvx.Conn.Buffer.{enomem, Buffer, Realloc, IsRealloc, buffer_compact}
use kvx.Conn.Buffer.Laws.{
  Keeps-trans, length-pending, IsValid, pending, Keeps, buffer_compact-Keeps, buffer_grow-Keeps,
}
use kvx.Conn.Life.{error, full}
use kvx.Conn.Receive.{recv_room}

-- The head of the loop keeps the bytes; it leaves room unless it stops, and FULL means that the
-- bytes fill the limit.
pub recv_room-Keeps :
    (limit : ℕ) (realloc : Realloc) (b : Buffer) (mem : Bytes)
    → IsRealloc realloc
    → limit ≤ size_max
    → IsValid limit b mem
    → let (c, stopped) = recv_room limit realloc b in
      Keeps limit b c
      × ((stopped ≡ none) × (c.len < c.cap)
          ⊎ (stopped ≡ some full) × (length (pending c) ≡ limit)
          ⊎ (stopped ≡ some (error enomem)) × (length (pending c) < limit))
unfolding recv_room
recv_room-Keeps limit realloc b mem honest word v = elim (Bool-cases (b.len == b.cap)) [
  | inr e ↦
      rw e (record { mem = mem; valid = v; same = refl }, inl (refl, ground (arith, v.inside)))
  | inl e ↦
      let c = buffer_compact b in
      let (kept, at_start, moved, same_cap) = buffer_compact-Keeps limit b mem v in
      let unread = length-pending c kept.valid in
      elim (Bool-cases (c.len == c.cap)) [
        | inr f ↦ rw (e, f) (kept, inl (refl, ground (arith, kept.valid.inside)))
        | inl f ↦ elim (Bool-cases (c.cap == limit)) [
          | inl g ↦ rw (e, f, g) (kept, inr (inl (refl, ground (arith, unread))))
          | inr g ↦
              let (grown, same_pos, same_len, cases) =
                buffer_grow-Keeps limit realloc c kept.mem 1 honest word kept.valid in
              elim cases [
                | inl (none_left, room) ↦
                    rw (e, f, g, none_left) (Keeps-trans kept grown, inl (refl, ground arith))
                | inr (inl (_, over, _)) ↦ absurd (ground (arith, kept.valid.capped))
                | inr (inr (no_memory, _, same)) ↦
                    rw (e, f, g, no_memory, same)
                      (kept, inr (inr (refl, ground (arith, unread, kept.valid.capped))))
              ]
        ]
      ]
]
