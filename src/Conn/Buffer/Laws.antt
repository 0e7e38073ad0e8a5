-- ===== src/Conn/Buffer/Laws.antt =====
-- What growing and compacting a buffer do to the bytes that it holds.
use kvx.Common.{
  take_all, ℕ, suc, ◌+◌, ◌-◌, ◌%◌, ◌^◌, ◌≤◌, ◌<◌, ◌≡◌, refl, sym, ap, ◌∙◌, none, some, ◌++◌, arith,
  Bytes, slice, drop, length, length-append, length-take, length-drop, take-append, drop-append,
  size_max, Option-cases, inl, inr, ◌⊎◌, Bool-cases, ltb, ◌==◌,
}
use kvx.Conn.Buffer.{
  enobufs, enomem, Buffer, Realloc, IsRealloc, grow_cap, start_cap, bytes_of, buffer_grow,
  buffer_compact,
}
use kvx.Conn.Buffer.Capacity.{grow_cap_bounds}

-- A live buffer under the limit.
pub record IsValid (limit : ℕ) (b : Buffer) (mem : Bytes) : Type 0 where
  pub memory : b.buf ≡ some mem
  pub sized : length mem ≡ b.cap
  pub live : 0 < b.cap
  pub capped : b.cap ≤ limit
  pub ordered : b.pos ≤ b.len
  pub inside : b.len ≤ b.cap

-- The bytes between `pos` and `len`.
abbrev pub pending : Buffer → Bytes
pending b = slice (bytes_of b.buf) b.pos (b.len - b.pos)

slice-append :
    (mem tail : Bytes) (pos n : ℕ)
    → pos + n ≤ length mem
    → slice (mem ++ tail) pos n ≡ slice mem pos n
slice-append mem tail pos n fits =
    rw (drop-append pos mem tail (omega arith))
      (take-append n (drop pos mem) tail (omega (arith, length-drop pos mem)))

-- The result of a call that must keep the bytes of the buffer.
pub record Keeps (limit : ℕ) (b b' : Buffer) : Type 0 where
  pub mem : Bytes
  pub valid : IsValid limit b' mem
  pub same : pending b' ≡ pending b

slice-move :
    (mem : Bytes) (pos n : ℕ)
    → pos + n ≤ length mem
    → slice (slice mem pos n ++ drop n mem) 0 n ≡ slice mem pos n
slice-move mem pos n fits =
    let e : length (slice mem pos n) ≡ n =
      omega (arith, length-take n (drop pos mem), length-drop pos mem) in
    take-append n (slice mem pos n) (drop n mem) (omega arith)
    ∙ take_all n (slice mem pos n) (omega arith)

length-move :
    (mem : Bytes) (pos n : ℕ)
    → pos + n ≤ length mem
    → length (slice mem pos n ++ drop n mem) ≡ length mem
length-move mem pos n fits = omega (
  arith,
  length-append (slice mem pos n) (drop n mem),
  length-take n (drop pos mem),
  length-drop pos mem,
  length-drop n mem,
)

-- On a valid buffer, buffer_compact leaves a valid buffer that holds the same bytes from position 0
-- on, with the same capacity.
pub buffer_compact-Keeps :
    (limit : ℕ) (b : Buffer) (mem : Bytes)
    → IsValid limit b mem
    → Keeps limit b (buffer_compact b)
      × ((buffer_compact b).pos ≡ 0)
      × ((buffer_compact b).len ≡ b.len - b.pos)
      × ((buffer_compact b).cap ≡ b.cap)
unfolding buffer_compact
buffer_compact-Keeps limit b mem v = elim (Bool-cases (b.pos == 0)) [
  | inl e ↦
      let zero_pos : b.pos ≡ 0 = ground arith in
      rw e (record { mem = mem; valid = v; same = refl }, zero_pos, omega arith, refl)
  | inr e ↦ elim (Bool-cases ((b.len - b.pos) == 0)) [
    | inl f ↦
        let none_left : b.len - b.pos ≡ 0 = ground arith in
        rw (e, f)
          (
            record {
              mem = mem;
              valid = record {
                memory = v.memory;
                sized = v.sized;
                live = v.live;
                capped = v.capped;
                ordered = omega arith;
                inside = omega arith;
              };
              same = rw none_left refl;
            },
            refl,
            refl,
            refl,
          )
    | inr f ↦
        rw (e, f, v.memory)
          (
            record {
              mem = slice mem b.pos (b.len - b.pos) ++ drop (b.len - b.pos) mem;
              valid = record {
                memory = refl;
                sized = length-move mem b.pos (b.len - b.pos) (omega (arith, v.sized)) ∙ v.sized;
                live = v.live;
                capped = v.capped;
                ordered = omega arith;
                inside = omega arith;
              };
              same =
                  let whole : b.len - b.pos - 0 ≡ b.len - b.pos = omega arith in
                  rw whole (slice-move mem b.pos (b.len - b.pos) (omega (arith, v.sized)));
            },
            refl,
            refl,
            refl,
          )
  ]
]

grown-Keeps :
    (limit : ℕ) (b : Buffer) (mem tail : Bytes) (new_cap : ℕ)
    → IsValid limit b mem
    → b.cap ≤ new_cap
    → new_cap ≤ limit
    → length tail ≡ new_cap - b.cap
    → Keeps limit b (record b { buf = some (bytes_of b.buf ++ tail); cap = new_cap })
grown-Keeps limit b mem tail new_cap v up down fit = record {
  mem = mem ++ tail;
  valid = record {
    memory = ap (λ m. some (bytes_of m ++ tail)) v.memory;
    sized = omega (arith, length-append mem tail, v.sized, fit);
    live = omega (arith, v.live);
    capped = down;
    ordered = v.ordered;
    inside = omega (arith, v.inside);
  };
  same =
      ap (λ m. slice (bytes_of m ++ tail) b.pos (b.len - b.pos)) v.memory
      ∙ slice-append mem tail b.pos (b.len - b.pos) (omega (arith, v.sized, v.inside, v.ordered))
      ∙ sym (ap (λ m. slice (bytes_of m) b.pos (b.len - b.pos)) v.memory);
}

-- On a valid buffer, with a limit that is a size and an honest realloc, buffer_grow leaves a valid
-- buffer with the same bytes and span. It succeeds with a capacity that is at least `extra` more, or
-- fails and changes nothing: with ENOBUFS where the capacity and `extra` pass the limit, or with
-- ENOMEM where they do not.
pub buffer_grow-Keeps :
    (limit : ℕ) (realloc : Realloc) (b : Buffer) (mem : Bytes) (extra : ℕ)
    → IsRealloc realloc
    → limit ≤ size_max
    → IsValid limit b mem
    → let (b', error) = buffer_grow limit realloc b extra in
      Keeps limit b b'
      × (b'.pos ≡ b.pos)
      × (b'.len ≡ b.len)
      × ((error ≡ none) × (b.cap + extra ≤ b'.cap)
          ⊎ (error ≡ some enobufs) × (limit < b.cap + extra) × (b' ≡ b)
          ⊎ (error ≡ some enomem) × (b.cap + extra ≤ limit) × (b' ≡ b))
unfolding buffer_grow
buffer_grow-Keeps limit realloc b mem extra honest word v =
    let room : (limit + 2 ^ 64 - b.cap) % 2 ^ 64 ≡ limit - b.cap = omega arith in
    let whole : Keeps limit b b = record { mem = mem; valid = v; same = refl } in
    elim (Bool-cases (ltb (limit - b.cap) extra)) [
      | inl e ↦ rw (room, e) (whole, refl, refl, inr (inl (refl, ground arith, refl)))
      | inr e ↦ elim (Bool-cases (extra == 0)) [
        | inl f ↦ rw (room, e, f) (whole, refl, refl, inl (refl, ground arith))
        | inr f ↦
            let fits : b.cap + extra ≤ limit = ground arith in
            let start : start_cap b.cap ≡ b.cap = ground (arith, v.live) in
            let bounds =
              grow_cap_bounds (suc (b.cap + extra)) limit (b.cap + extra) (start_cap b.cap)
                (rw start v.live) (rw start v.capped) fits (omega arith) in
            elim (Option-cases (
              realloc
                (grow_cap (suc (b.cap + extra)) limit (b.cap + extra) (start_cap b.cap) - b.cap))) [
                  | inl g ↦
                      rw (room, e, f, g) (whole, refl, refl, inr (inr (refl, ground arith, refl)))
                  | inr (tail, g) ↦
                      rw (room, e, f, g)
                        (
                          grown-Keeps limit b mem tail
                              (grow_cap (suc (b.cap + extra)) limit (b.cap + extra)
                                (start_cap b.cap))
                              v (omega (arith, start, bounds.1)) bounds.2 (honest _ tail g),
                          refl,
                          refl,
                          inl (refl, bounds.0),
                        )
                ]
      ]
    ]

pub length-pending :
    {limit : ℕ} (b : Buffer) {mem : Bytes}
    → IsValid limit b mem
    → length (pending b) ≡ b.len - b.pos
length-pending b {mem} v = rw v.memory (
    omega (
      arith,
      length-take (b.len - b.pos) (drop b.pos mem),
      length-drop b.pos mem,
      v.sized,
      v.inside,
      v.ordered,
    ))

pub Keeps-trans : {limit : ℕ} {a b c : Buffer} → Keeps limit a b → Keeps limit b c → Keeps limit a c
Keeps-trans k l = record { mem = l.mem; valid = l.valid; same = l.same ∙ k.same }
