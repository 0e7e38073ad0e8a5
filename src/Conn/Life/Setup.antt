-- ===== src/Conn/Life/Setup.antt =====
-- From the limit to a connection that can be used, and used again.
use kvx.Common.{
  ℕ, ◌+◌, ◌-◌, ◌%◌, ◌^◌, ◌≤◌, ◌≡◌, ◌⊎◌, refl, ap, none, some, [], ◌∷◌, arith, Bytes, length,
  size_max, inl, inr, false, Option-cases, ltb, ◌==◌,
}
use kvx.Conn.Buffer.{enomem, Buffer, Realloc, IsRealloc, grow_cap, buffer_grow, default_buf_cap}
use kvx.Conn.Buffer.Laws.{IsValid, pending}
use kvx.Conn.Life.{
  Conn, empty_buffer, empty_conn, conn_set_max_buffer_size, conn_init, conn_reset, conn_destroy,
  conn_attach, Fcntl,
}
use kvx.Conn.Life.Laws.{reset_buffer-IsValid}

-- A connection with two live buffers.
pub record HasBuffers (limit : ℕ) (c : Conn) : Type 0 where
  pub r_mem : Bytes
  pub w_mem : Bytes
  pub r_valid : IsValid limit c.r r_mem
  pub w_valid : IsValid limit c.w w_mem

fresh : Bytes → Buffer
fresh mem = record { buf = some mem; cap = default_buf_cap; len = 0; pos = 0 }

fresh-IsValid :
    (limit : ℕ) (mem : Bytes)
    → default_buf_cap ≤ limit
    → length mem ≡ default_buf_cap
    → IsValid limit (fresh mem) mem
unfolding fresh
fresh-IsValid limit mem big size = record {
  memory = refl;
  sized = size;
  live = omega arith;
  capped = big;
  ordered = omega arith;
  inside = omega arith;
}

-- The first growth of an empty buffer.
buffer_grow-fresh :
    (limit : ℕ) (realloc : Realloc)
    → default_buf_cap ≤ limit
    → limit ≤ size_max
    → IsRealloc realloc
    → (buffer_grow limit realloc empty_buffer default_buf_cap ≡ (empty_buffer, some enomem))
      ⊎ ((mem : Bytes) × (length mem ≡ default_buf_cap)
          × (buffer_grow limit realloc empty_buffer default_buf_cap ≡ (fresh mem, none)))
unfolding buffer_grow fresh grow_cap
buffer_grow-fresh limit realloc big word honest =
    let room : (limit + 2 ^ 64 - 0) % 2 ^ 64 ≡ limit = omega arith in
    let fits : ltb limit 4096 ≡ false = ground arith in
    elim (Option-cases (realloc 4096)) [
      | inl e ↦ inl (rw (room, fits, e) refl)
      | inr (tail, e) ↦ inr (tail, honest 4096 tail e, rw (room, fits, e) refl)
    ]

-- With a limit that conn_set_max_buffer_size accepted as the first one, and honest allocators:
-- conn_init either fails with ENOMEM and leaves the empty connection, or succeeds with two live
-- buffers that hold nothing and no descriptor.
pub conn_init-HasBuffers :
    (size limit : ℕ) (realloc_r realloc_w : Realloc)
    → conn_set_max_buffer_size 0 size ≡ (limit, none)
    → size ≤ size_max
    → IsRealloc realloc_r
    → IsRealloc realloc_w
    → let (c, failure) = conn_init limit realloc_r realloc_w in
      ((failure ≡ some enomem) × (c ≡ empty_conn))
      ⊎ ((failure ≡ none)
          × HasBuffers limit c
          × (c.fd ≡ none)
          × (c.peer_closed ≡ false)
          × (pending c.r ≡ [])
          × (pending c.w ≡ []))
unfolding conn_init conn_destroy conn_set_max_buffer_size fresh
conn_init-HasBuffers size limit realloc_r realloc_w accepted word honest_r honest_w =
    let both : (default_buf_cap ≤ limit) × (limit ≡ size) = ground arith in
    let nonzero : (limit == 0) ≡ false = ground arith in
    let word' : limit ≤ size_max = omega arith in
    elim (buffer_grow-fresh limit realloc_r both.0 word' honest_r) [
      | inl e ↦ inl (rw (nonzero, e) (refl, refl))
      | inr (r_mem, r_size, e) ↦ elim (buffer_grow-fresh limit realloc_w both.0 word' honest_w) [
        | inl f ↦ inl (rw (nonzero, e, f) (refl, refl))
        | inr (w_mem, w_size, f) ↦
            let r_fresh = ap (λ p. p.0) e in
            let w_fresh = ap (λ p. p.0) f in
            inr (
              rw (nonzero, e, f, r_fresh, w_fresh)
                (
                  refl,
                  record {
                    r_mem = r_mem;
                    w_mem = w_mem;
                    r_valid = fresh-IsValid limit r_mem both.0 r_size;
                    w_valid = fresh-IsValid limit w_mem both.0 w_size;
                  },
                  refl,
                  refl,
                  refl,
                  refl,
                ))
      ]
    ]

-- For a connection with two live buffers, a descriptor and fcntl calls that succeed on it:
-- conn_reset closes exactly the descriptor that was attached, and conn_attach on the reset
-- connection then succeeds and gives the new descriptor, an open peer and two live buffers that
-- hold nothing, with the capacities that they had.
pub conn_attach-conn_reset :
    (limit : ℕ) (os : Fcntl) (c : Conn) (fd flags : ℕ)
    → HasBuffers limit c
    → os.getfl fd ≡ inr flags
    → os.set_nonblocking fd flags ≡ none
    → let (closed, gone) = conn_reset c in
      let (d, failure) = conn_attach os closed (some fd) in
      (gone ≡ elim (c.fd) [ none ↦ [] | some old ↦ old ∷ [] ])
      × (failure ≡ none)
      × HasBuffers limit d
      × (d.fd ≡ some fd)
      × (d.peer_closed ≡ false)
      × (pending d.r ≡ [])
      × (pending d.w ≡ [])
      × (d.r.cap ≡ c.r.cap)
      × (d.w.cap ≡ c.w.cap)
unfolding conn_reset conn_attach
conn_attach-conn_reset limit os c fd flags ready gets sets =
    rw (ready.r_valid.memory, ready.w_valid.memory, gets, sets)
      (
        refl,
        refl,
        record {
          r_mem = ready.r_mem;
          w_mem = ready.w_mem;
          r_valid = reset_buffer-IsValid c.r ready.r_valid;
          w_valid = reset_buffer-IsValid c.w ready.w_valid;
        },
        refl,
        refl,
        refl,
        refl,
        refl,
        refl,
      )
