-- ===== src/Conn/Send/Flush.antt =====
-- The loop of `conn_flush`: what it sends, in which order, and that it ends.
use kvx.Common.{
  ℕ, zero, suc, ◌+◌, ◌-◌, ◌≤◌, ◌<◌, ◌≡◌, ◌≢◌, refl, sym, ap, ◌∙◌, subst, Option, none, some, [],
  ◌++◌, arith, Bytes, take, drop, slice, length, length-take, inl, inr, min, true, false,
  append_assoc, append-nil, Bool-cases, Option-cases, ltb, take-append-drop, drop-take, drop-drop,
  take-take,
}
use kvx.Conn.Buffer.{eintr, eagain, Buffer, bytes_of}
use kvx.Conn.Buffer.Laws.{IsValid, pending, length-pending}
use kvx.Conn.Life.{IoResult, error, eof, full, again, ok, Conn}
use kvx.Conn.Life.Laws.{reset_buffer-IsValid}
use kvx.Conn.World.{World, SendAnswer, accepted, refused, ssize_max, IsStream, SendsInOrder}
use kvx.Conn.Send.{send_turn, send_answer, flush_loop, conn_flush}

-- What each result of `conn_flush` says of the bytes that are left.
abbrev pub MeansForSender : Bytes → IoResult → Type 0
MeansForSender left ok = left ≡ []
MeansForSender left again = Unit
MeansForSender left (error e) = (e ≢ eintr) × (e ≢ eagain)
MeansForSender left eof = true ≡ false
MeansForSender left full = true ≡ false

-- Taking n of the first m bytes, where the span has at least n.
slice_advance :
    (mem : Bytes) (pos span m n : ℕ)
    → n ≤ m
    → m ≤ span
    → take n (slice mem pos m) ++ slice mem (pos + n) (span - n) ≡ slice mem pos span
slice_advance mem pos span m n small within =
    let xs = drop pos mem in
    ap (λ r. r ++ slice mem (pos + n) (span - n))
      (take-take n m xs small ∙ sym (take-take n span xs (omega arith)))
    ∙ ap (λ r. take n (take span xs) ++ take (span - n) r) (sym (drop-drop n pos mem))
    ∙ ap (λ r. take n (take span xs) ++ r) (sym (drop-take n span xs))
    ∙ take-append-drop n (take span xs)

module _ {W : Type 0} (os : World W) (limit : ℕ) (unread log : W → Bytes) (interrupts : W → ℕ) where
  -- The bytes that are queued, and the signals to come.
  abbrev pub patience : W → Buffer → ℕ
  patience w b = length (pending b) + interrupts w

  abbrev pub GoesOn : W → Buffer → W → Buffer → Option IoResult → Type 0
  GoesOn w b w' c none = patience w' c < patience w b
  GoesOn w b w' c (some r) = MeansForSender (pending c) r

  pub record Sends (w : W) (b : Buffer) (w' : W) (c : Buffer) (result : Option IoResult)
      : Type 0 where
    pub mem : Bytes
    pub valid : IsValid limit c mem
    pub in_order : log w' ++ pending c ≡ log w ++ pending b
    pub progress : GoesOn w b w' c result

  send_answer-Sends :
      (w : W) (b : Buffer) (mem : Bytes) (answer : SendAnswer) (w' : W) (m : ℕ)
      → IsValid limit b mem
      → m ≤ b.len - b.pos
      → SendsInOrder log interrupts (answer, w') (slice (bytes_of b.buf) b.pos m) w
      → let (c, v, result) = send_answer os b (answer, w') in Sends w b v c result
  send_answer-Sends w b mem (accepted zero) w' m v fits (same, short, signals) = record {
    mem = mem;
    valid = v;
    in_order = ap (λ l. l ++ pending b) (same ∙ append-nil (log w));
    progress = ground arith;
  }
  send_answer-Sends w b mem (accepted (suc n)) w' m v fits (more, short, signals) =
      let short' : suc n ≤ m = omega (arith, length-take m (drop b.pos (bytes_of b.buf))) in
      let c : Buffer = record b { pos = b.pos + suc n } in
      let valid : IsValid limit c mem = record {
        memory = v.memory;
        sized = v.sized;
        live = v.live;
        capped = v.capped;
        ordered = omega arith;
        inside = v.inside;
      } in
      let span : b.len - (b.pos + suc n) ≡ b.len - b.pos - suc n = omega arith in
      record {
        mem = mem;
        valid = valid;
        in_order =
            ap (λ l. l ++ pending c) more
            ∙ append_assoc (log w) (take (suc n) (slice (bytes_of b.buf) b.pos m)) (pending c)
            ∙ ap
                (λ k.
                  log w
                  ++ (take (suc n) (slice (bytes_of b.buf) b.pos m)
                      ++ slice (bytes_of b.buf) (b.pos + suc n) k))
                span
            ∙ ap (λ r. log w ++ r)
                (slice_advance (bytes_of b.buf) b.pos (b.len - b.pos) m (suc n) short' fits);
        progress = omega (arith, length-pending b v, length-pending c valid);
      }
  send_answer-Sends w b mem (refused eintr) w' m v fits (same, signals) = record {
    mem = mem;
    valid = v;
    in_order = ap (λ l. l ++ pending b) same;
    progress = omega arith;
  }
  send_answer-Sends w b mem (refused eagain) w' m v fits same = record {
    mem = mem;
    valid = v;
    in_order = ap (λ l. l ++ pending b) same;
    progress = _;
  }
  send_answer-Sends w b mem (refused e) w' m v fits same = record {
    mem = mem;
    valid = v;
    in_order = ap (λ l. l ++ pending b) same;
    progress = ground arith;
  }

  GoesOn-weaken :
      (v : W) (a : Buffer) (w : W) (b : Buffer) (w' : W) (c : Buffer) (result : Option IoResult)
      → patience w b ≤ patience v a
      → GoesOn w b w' c result
      → GoesOn v a w' c result
  GoesOn-weaken v a w b w' c none less h = omega arith
  GoesOn-weaken v a w b w' c (some r) less h = h

  Sends-trans :
      {v : W} {a : Buffer} {w : W} {b : Buffer} {w' : W} {c : Buffer} {result : Option IoResult}
      → log w ++ pending b ≡ log v ++ pending a
      → patience w b ≤ patience v a
      → Sends w b w' c result
      → Sends v a w' c result
  Sends-trans {v} {a} {w} {b} {w'} {c} {result} start less h = record {
    mem = h.mem;
    valid = h.valid;
    in_order = h.in_order ∙ start;
    progress = GoesOn-weaken v a w b w' c result less h.progress;
  }

  module _ (stream : IsStream os unread log interrupts) where
    send_turn-Sends :
        (w : W) (b : Buffer) (mem : Bytes)
        → IsValid limit b mem
        → let (c, w', result) = send_turn os w b in Sends w b w' c result
    unfolding send_turn
    send_turn-Sends w b mem v =
        let m = min (b.len - b.pos) ssize_max in
        let bytes = slice (bytes_of b.buf) b.pos m in
        send_answer-Sends w b mem ((os.send w bytes).0) ((os.send w bytes).1) m v (omega arith)
          (stream.sends w bytes)

    -- From a valid buffer the loop ends once the fuel passes the patience, with the bytes in order.
    flush_loop-Sends :
        (fuel : ℕ) (w : W) (b : Buffer) (mem : Bytes)
        → IsValid limit b mem
        → patience w b < fuel
        → let (c, w', result) = flush_loop os fuel w b in
          Sends w b w' c result × ((r : IoResult) × (result ≡ some r))
    unfolding flush_loop
    flush_loop-Sends zero w b mem v enough = absurd (omega arith)
    flush_loop-Sends (suc fuel) w b mem v enough =
        let (c, w', stopped) = send_turn os w b in
        let turn = send_turn-Sends w b mem v in
        elim (Bool-cases (ltb b.pos b.len)) [
          | inl e ↦ elim (Option-cases stopped) [
            | inr (r, stops) ↦
                rw (flush_loop, e, stops) (subst (λ s. Sends w b w' c s) stops turn, (r, refl))
            | inl goes_on ↦
                let less : patience w' c < patience w b =
                  subst (λ s. GoesOn w b w' c s) goes_on turn.progress in
                let (rest, ends) = flush_loop-Sends fuel w' c turn.mem turn.valid (omega arith) in
                rw (flush_loop, e, goes_on) (Sends-trans turn.in_order (omega arith) rest, ends)
          ]
          | inr e ↦
              let drained : b.len - b.pos ≡ 0 = ground arith in
              rw (flush_loop, e)
                (
                  record {
                    mem = mem;
                    valid = reset_buffer-IsValid b v;
                    in_order = ap (λ k. log w ++ slice (bytes_of b.buf) b.pos k) (sym drained);
                    progress = refl;
                  },
                  (ok, refl),
                )
        ]

    -- On an attached connection with a valid output buffer, over a world that keeps its laws, and with
    -- more fuel than bytes queued plus signals to come: conn_flush returns a result; the buffer stays
    -- valid; what the kernel accepted and then what is queued are the same bytes in the same order
    -- as before; OK means that nothing is queued, an error is neither EINTR nor EAGAIN, and EOF and
    -- FULL are not returned; and the descriptor and the input are unchanged.
    pub conn_flush-Sends :
        (fuel : ℕ) (w : W) (c : Conn) (fd : ℕ) (mem : Bytes)
        → c.fd ≡ some fd
        → IsValid limit c.w mem
        → patience w c.w < fuel
        → let (d, w', result) = conn_flush os fuel w c in
          ((new : Bytes) × IsValid limit d.w new)
          × (log w' ++ pending d.w ≡ log w ++ pending c.w)
          × ((r : IoResult) × (result ≡ some r) × MeansForSender (pending d.w) r)
          × (d.fd ≡ c.fd)
          × (d.r ≡ c.r)
    unfolding conn_flush
    conn_flush-Sends fuel w c fd mem attached v enough =
        let (sent, (r, ends)) = flush_loop-Sends fuel w c.w mem v enough in
        let means =
          subst (λ s. GoesOn w c.w ((flush_loop os fuel w c.w).1) ((flush_loop os fuel w c.w).0) s)
            ends sent.progress in
        rw (conn_flush, attached)
          ((sent.mem, sent.valid), sent.in_order, (r, ends, means), attached, refl)
