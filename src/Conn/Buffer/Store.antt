-- ===== src/Conn/Buffer/Store.antt =====
-- Storing bytes behind the span of a buffer.
use kvx.Common.{
  drop-take, take-length, ℕ, ◌+◌, ◌-◌, ◌≤◌, ◌≡◌, sym, ap, ◌∙◌, some, ◌++◌, arith, Bytes, slice,
  take, drop, length, length-append, length-take, length-drop, drop-append, memcpy, append_assoc,
}
use kvx.Conn.Buffer.{Buffer, bytes_of, store}
use kvx.Conn.Buffer.Laws.{IsValid, pending}

slice_grow :
    (mem bytes : Bytes) (pos len : ℕ)
    → pos ≤ len
    → len + length bytes ≤ length mem
    → slice (memcpy mem len bytes) pos (len + length bytes - pos)
      ≡ slice mem pos (len - pos) ++ bytes
slice_grow mem bytes pos len order fits =
    let kept = drop pos (take len mem) in
    let rest = drop (len + length bytes) mem in
    let n = len + length bytes - pos in
    let l : length (take len mem) ≡ len = omega (arith, length-take len mem) in
    let size : n ≡ length (kept ++ bytes) =
      omega (arith, length-append kept bytes, length-drop pos (take len mem), l) in
    ap (take n) (drop-append pos (take len mem) (bytes ++ rest) (omega arith))
    ∙ ap (take n) (sym (append_assoc kept bytes rest))
    ∙ ap (λ k. take k ((kept ++ bytes) ++ rest)) size
    ∙ take-length (kept ++ bytes) rest
    ∙ ap (λ k. k ++ bytes) (drop-take pos len mem)

length-memcpy :
    (mem bytes : Bytes) (len : ℕ)
    → len + length bytes ≤ length mem
    → length (memcpy mem len bytes) ≡ length mem
length-memcpy mem bytes len fits =
    let rest = drop (len + length bytes) mem in
    omega (
      arith,
      length-append (take len mem) (bytes ++ rest),
      length-append bytes rest,
      length-take len mem,
      length-drop (len + length bytes) mem,
    )

-- Storing bytes that fit appends them to what is pending.
pub store-Appends :
    (limit : ℕ) (b : Buffer) (mem bytes : Bytes)
    → IsValid limit b mem
    → length bytes ≤ b.cap - b.len
    → ((new : Bytes) × IsValid limit (store b bytes) new)
      × (pending (store b bytes) ≡ pending b ++ bytes)
unfolding store
store-Appends limit b mem bytes v fits =
    let fits' : b.len + length bytes ≤ length mem = omega (arith, v.sized, v.inside) in
    (
      (
        memcpy mem b.len bytes,
        record {
          memory = ap (λ m. some (memcpy (bytes_of m) b.len bytes)) v.memory;
          sized = length-memcpy mem bytes b.len fits' ∙ v.sized;
          live = v.live;
          capped = v.capped;
          ordered = omega (arith, v.ordered);
          inside = omega (arith, v.sized);
        },
      ),
      rw v.memory (slice_grow mem bytes b.pos b.len v.ordered fits'),
    )
