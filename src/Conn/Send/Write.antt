-- ===== src/Conn/Send/Write.antt =====
-- What `conn_write` does to the queued bytes.
use kvx.Common.{
  append-nil, ℕ, ◌+◌, ◌-◌, ◌≤◌, ◌<◌, ◌≡◌, ◌⊎◌, refl, sym, ap, ◌∙◌, Option, none, some, ◌++◌, arith,
  Bytes, take, length, length-take, size_max, inl, inr, Bool-cases, ltb, ◌==◌,
}
use kvx.Conn.Buffer.{Errno, enobufs, enomem, Buffer, Realloc, IsRealloc, buffer_compact}
use kvx.Conn.Buffer.Laws.{
  IsValid, pending, length-pending, Keeps, Keeps-trans, buffer_compact-Keeps, buffer_grow-Keeps,
}
use kvx.Conn.Life.{Conn, size_sub}
use kvx.Conn.Buffer.Store.{store-Appends}
use kvx.Conn.Send.{write_room, conn_write}

size_sub_le : (a b : ℕ) → b ≤ a → a ≤ size_max → size_sub a b ≡ a - b
size_sub_le a b le word = omega arith

-- Where the queue and the new bytes fit the limit, room is made or the allocation fails.
write_room-Keeps :
    (limit : ℕ) (realloc : Realloc) (b : Buffer) (mem : Bytes) (len : ℕ)
    → IsRealloc realloc
    → limit ≤ size_max
    → IsValid limit b mem
    → length (pending b) + len ≤ limit
    → let (c, failure) = write_room limit realloc b len in
      Keeps limit b c × ((failure ≡ none) × (len ≤ c.cap - c.len) ⊎ (failure ≡ some enomem))
unfolding write_room
write_room-Keeps limit realloc b mem len honest word v fits =
    let room : size_sub b.cap b.len ≡ b.cap - b.len =
      size_sub_le b.cap b.len v.inside (omega (arith, v.capped)) in
    let c = buffer_compact b in
    let (kept, at_start, moved, same_cap) = buffer_compact-Keeps limit b mem v in
    let unread = length-pending b v in
    let room' : size_sub c.cap c.len ≡ c.cap - c.len =
      size_sub_le c.cap c.len kept.valid.inside (omega (arith, kept.valid.capped)) in
    elim (Bool-cases (ltb (b.cap - b.len) len)) [
      | inr e ↦
          rw (room, e) (record { mem = mem; valid = v; same = refl }, inl (refl, ground arith))
      | inl e ↦ elim (Bool-cases (ltb (c.cap - c.len) len)) [
        | inr f ↦ rw (room, e, room', f) (kept, inl (refl, ground arith))
        | inl f ↦
            let (grown, same_pos, same_len, cases) =
              buffer_grow-Keeps limit realloc c kept.mem (len - (c.cap - c.len)) honest word
                kept.valid in
            rw (room, e, room', f)
              (
                Keeps-trans kept grown,
                elim cases [
                  | inl (done, more) ↦ inl (done, ground (arith, kept.valid.inside))
                  | inr (inl (_, over, _)) ↦
                      absurd (ground (arith, kept.valid.inside, kept.valid.ordered, v.ordered))
                  | inr (inr (no_memory, _, _)) ↦ inr no_memory
                ],
              )
      ]
    ]

-- What a write of these bytes left in the queue, for each way that it ends.
abbrev pub WriteEnds : ℕ → Bytes → Bytes → Bytes → Option Errno → Type 0
WriteEnds limit held bytes new failure =
    ((failure ≡ none) × (length held + length bytes ≤ limit) × (new ≡ held ++ bytes))
    ⊎ ((failure ≡ some enobufs) × (limit < length held + length bytes) × (new ≡ held))
    ⊎ ((failure ≡ some enomem) × (length held + length bytes ≤ limit) × (new ≡ held))

-- With a valid queue under a limit that is a size, an honest allocator and a source of at least `len`
-- bytes that is not NULL: conn_write leaves the queue valid and the rest of the connection unchanged,
-- and either appends the first `len` bytes and succeeds, or fails and keeps the queued bytes as
-- they are, with ENOBUFS exactly when they and the new ones pass the limit and ENOMEM otherwise.
pub conn_write-Appends :
    (limit : ℕ) (realloc : Realloc) (c : Conn) (mem bytes : Bytes) (len : ℕ)
    → IsRealloc realloc
    → limit ≤ size_max
    → IsValid limit c.w mem
    → len ≤ length bytes
    → let (d, failure) = conn_write limit realloc c (some bytes) len in
      ((new : Bytes) × IsValid limit d.w new)
      × WriteEnds limit (pending c.w) (take len bytes) (pending d.w) failure
      × (d.fd ≡ c.fd)
      × (d.r ≡ c.r)
      × (d.peer_closed ≡ c.peer_closed)
unfolding conn_write
conn_write-Appends limit realloc c mem bytes len honest word v enough =
    let unread = length-pending c.w v in
    let pend : size_sub c.w.len c.w.pos ≡ c.w.len - c.w.pos =
      size_sub_le c.w.len c.w.pos v.ordered (omega (arith, v.inside, v.capped)) in
    let room : size_sub limit (c.w.len - c.w.pos) ≡ limit - (c.w.len - c.w.pos) =
      size_sub_le limit (c.w.len - c.w.pos) (omega (arith, v.inside, v.capped)) word in
    let size : length (take len bytes) ≡ len = omega (arith, length-take len bytes) in
    elim (Bool-cases (len == 0)) [
      | inl e ↦
          let nothing : len ≡ 0 = ground arith in
          rw (e, nothing)
            (
              (mem, v),
              inl (refl, omega (arith, unread, v.inside, v.capped), sym (append-nil (pending c.w))),
              refl,
              refl,
              refl,
            )
      | inr e ↦ elim (Bool-cases (ltb (limit - (c.w.len - c.w.pos)) len)) [
        | inl f ↦
            rw (e, pend, room, f)
              ((mem, v), inr (inl (refl, ground (arith, unread, size), refl)), refl, refl, refl)
        | inr f ↦
            let fits : length (pending c.w) + len ≤ limit =
              ground (arith, unread, v.inside, v.capped) in
            let (b, _) = write_room limit realloc c.w len in
            let (kept, cases) = write_room-Keeps limit realloc c.w mem len honest word v fits in
            elim cases [
              | inr no_memory ↦
                  rw (e, pend, room, f, no_memory)
                    (
                      (kept.mem, kept.valid),
                      inr (inr (refl, omega (arith, size), kept.same)),
                      refl,
                      refl,
                      refl,
                    )
              | inl (done, more) ↦
                  let (valid, appended) =
                    store-Appends limit b kept.mem (take len bytes) kept.valid
                      (omega (arith, size)) in
                  rw (e, pend, room, f, done)
                    (
                      valid,
                      inl (
                        refl,
                        omega (arith, size),
                        appended ∙ ap (λ p. p ++ take len bytes) kept.same,
                      ),
                      refl,
                      refl,
                      refl,
                    )
            ]
      ]
    ]
