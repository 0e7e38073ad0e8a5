-- ===== src/Conn/Life/Laws.antt =====
-- What the functions of the life cycle and `conn_consume` do to the buffers.
use kvx.Common.{
  take, ℕ, ◌+◌, ◌-◌, ◌%◌, ◌^◌, ◌≤◌, ◌<◌, ◌≡◌, ◌⊎◌, refl, sym, ap, ◌∙◌, none, some, arith, Bytes,
  drop, slice, length, size_max, inl, inr, Bool-cases, ltb, ◌==◌, drop-take, drop-drop,
}
use kvx.Conn.Buffer.{einval, Buffer, bytes_of}
use kvx.Conn.Buffer.Laws.{IsValid, pending, length-pending}
use kvx.Conn.Life.{Conn, size_sub, reset_buffer, rewind_if_empty, conn_consume}

pub reset_buffer-IsValid :
    {limit : ℕ} (b : Buffer) {mem : Bytes}
    → IsValid limit b mem
    → IsValid limit (reset_buffer b) mem
reset_buffer-IsValid b v = record {
  memory = v.memory;
  sized = v.sized;
  live = v.live;
  capped = v.capped;
  ordered = omega arith;
  inside = omega arith;
}

-- The two spans of a consume: what it took, and what stays.
consumed-Drops :
    (limit : ℕ) (b : Buffer) (mem : Bytes) (count : ℕ)
    → limit ≤ size_max
    → IsValid limit b mem
    → count ≤ b.len - b.pos
    → let c = rewind_if_empty (record b { pos = (b.pos + count) % 2 ^ 64 }) in
      IsValid limit c mem × (pending c ≡ drop count (pending b))
consumed-Drops limit b mem count word v within =
    let no_wrap : (b.pos + count) % 2 ^ 64 ≡ b.pos + count =
      omega (arith, v.inside, v.capped, v.ordered) in
    let valid : IsValid limit (record b { pos = b.pos + count }) mem = record {
      memory = v.memory;
      sized = v.sized;
      live = v.live;
      capped = v.capped;
      ordered = omega (arith, v.ordered);
      inside = v.inside;
    } in
    let span : b.len - (b.pos + count) ≡ b.len - b.pos - count = omega arith in
    let moved : pending (record b { pos = b.pos + count }) ≡ drop count (pending b) =
      ap (λ k. slice (bytes_of b.buf) (b.pos + count) k) span
      ∙ ap (λ r. take (b.len - b.pos - count) r) (sym (drop-drop count b.pos (bytes_of b.buf)))
      ∙ sym (drop-take count (b.len - b.pos) (drop b.pos (bytes_of b.buf))) in
    elim (Bool-cases ((b.pos + count) == b.len)) [
      | inr e ↦ rw (no_wrap, e) (valid, moved)
      | inl e ↦
          let none_left : b.len - (b.pos + count) ≡ 0 = ground arith in
          rw (no_wrap, e)
            (
              reset_buffer-IsValid b v,
              ap (λ k. slice (bytes_of b.buf) (b.pos + count) k) (sym none_left) ∙ moved,
            )
    ]

-- With a valid receive buffer under a limit that is a size: conn_consume fails with EINVAL exactly
-- when the count passes the unread span, and then changes nothing; else it succeeds, the buffer
-- stays valid, what is left unread is what followed the first `count` bytes, and the descriptor, the
-- flag and the output are unchanged.
pub conn_consume-Drops :
    (limit : ℕ) (c : Conn) (mem : Bytes) (count : ℕ)
    → limit ≤ size_max
    → IsValid limit c.r mem
    → let (d, failure) = conn_consume c count in
      ((failure ≡ some einval) × (length (pending c.r) < count) × (d ≡ c))
      ⊎ ((failure ≡ none)
          × (count ≤ length (pending c.r))
          × IsValid limit d.r mem
          × (pending d.r ≡ drop count (pending c.r))
          × (d.fd ≡ c.fd)
          × (d.peer_closed ≡ c.peer_closed)
          × (d.w ≡ c.w))
unfolding conn_consume
conn_consume-Drops limit c mem count word v =
    let unread = length-pending c.r v in
    let room : size_sub c.r.len c.r.pos ≡ c.r.len - c.r.pos =
      omega (arith, v.ordered, v.inside, v.capped) in
    elim (Bool-cases (ltb (c.r.len - c.r.pos) count)) [
      | inl e ↦ rw (room, e) (inl (refl, ground (arith, unread), refl))
      | inr e ↦
          let within : count ≤ c.r.len - c.r.pos = ground arith in
          let (valid, left) = consumed-Drops limit c.r mem count word v within in
          rw (room, e) (inr (refl, omega (arith, unread), valid, left, refl, refl, refl))
    ]
