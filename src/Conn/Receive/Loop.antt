-- ===== src/Conn/Receive/Loop.antt =====
-- The loop of `conn_recv`: what it receives, in which order, and that it ends.
use kvx.Common.{
  subst, Option-cases, ℕ, zero, suc, ◌+◌, ◌-◌, ◌≤◌, ◌<◌, ◌≡◌, ◌≢◌, ◌⊎◌, refl, sym, ap, ◌∙◌, Option,
  none, some, [], ◌++◌, arith, Bytes, length, length-append, size_max, inl, inr, min, true, false,
  append_assoc,
}
use kvx.Conn.Buffer.{eintr, eagain, enomem, Buffer, store}
use kvx.Conn.Buffer.Laws.{IsValid, pending, length-pending}
use kvx.Conn.Life.{IoResult, error, eof, full, again, ok}
use kvx.Conn.World.{
  World, RecvAnswer, received, closed, failed, ssize_max, IsStream, ReceivesInOrder,
}
use kvx.Conn.Receive.{recv_room, recv_turn, recv_loop, recv_answer}
use kvx.Conn.Buffer.Store.{store-Appends}
use kvx.Conn.Receive.Room.{recv_room-Keeps}

-- A call of recv for at least one byte gave this answer and left the world so.
abbrev pub Answered : {W : Type 0} → World W → W → RecvAnswer → Type 0
Answered {W} os w' answer = (v : W) × (n : ℕ) × (0 < n) × (os.recv v n ≡ (answer, w'))

-- What each result of `conn_recv` says of the bytes that are held and of the world that is left.
abbrev pub MeansForReceiver :
    {W : Type 0} → World W → ℕ → (W → Bytes) → Bytes → W → IoResult → Type 0
MeansForReceiver os limit unread held w' full = length held ≡ limit
MeansForReceiver os limit unread held w' eof = (unread w' ≡ []) × Answered os w' closed
MeansForReceiver os limit unread held w' again = Answered os w' (failed eagain)
MeansForReceiver os limit unread held w' ok = true ≡ false
MeansForReceiver os limit unread held w' (error e) =
    (e ≢ eintr) × (e ≢ eagain) × ((e ≡ enomem) ⊎ Answered os w' (failed e))

module _ {W : Type 0} (os : World W) (limit : ℕ) (unread log : W → Bytes) (interrupts : W → ℕ) where
  -- The bytes that the buffer may still take, and the signals to come.
  abbrev pub patience : W → Buffer → ℕ
  patience w b = limit - length (pending b) + interrupts w

  abbrev pub GoesOn : W → Buffer → W → Buffer → Option IoResult → Type 0
  GoesOn w b w' c none = patience w' c < patience w b
  GoesOn w b w' c (some r) = MeansForReceiver os limit unread (pending c) w' r

  pub record Receives (w : W) (b : Buffer) (w' : W) (c : Buffer) (result : Option IoResult)
      : Type 0 where
    pub mem : Bytes
    pub valid : IsValid limit c mem
    pub in_order : pending c ++ unread w' ≡ pending b ++ unread w
    pub progress : GoesOn w b w' c result

  recv_answer-Receives :
      (w : W) (b : Buffer) (mem : Bytes) (answer : RecvAnswer) (w' : W) (n : ℕ)
      → IsValid limit b mem
      → n ≤ b.cap - b.len
      → 0 < n
      → os.recv w n ≡ (answer, w')
      → ReceivesInOrder unread interrupts (answer, w') n w
      → let (c, v, result) = recv_answer b (answer, w') in Receives w b v c result
  recv_answer-Receives w b mem (received bytes) w' n v fits some_room run
        (front, some_bytes, short, signals) =
      let ((new, valid), appended) = store-Appends limit b mem bytes v (omega arith) in
      let before = length-pending b v in
      let after = length-pending (store b bytes) valid in
      record {
        mem = new;
        valid = valid;
        in_order =
            ap (λ p. p ++ unread w') appended
            ∙ append_assoc (pending b) bytes (unread w')
            ∙ ap (λ u. pending b ++ u) (sym front);
        progress =
            let more : length (pending (store b bytes)) ≡ length (pending b) + length bytes =
              ap length appended ∙ length-append (pending b) bytes in
            omega (arith, before, after, more, valid.inside, valid.capped);
      }
  recv_answer-Receives w b mem closed w' n v fits some_room run (same, rest) = record {
    mem = mem;
    valid = v;
    in_order = ap (λ u. pending b ++ u) (sym same);
    progress = (rest, (w, n, some_room, run));
  }
  recv_answer-Receives w b mem (failed eintr) w' n v fits some_room run (same, signals) = record {
    mem = mem;
    valid = v;
    in_order = ap (λ u. pending b ++ u) (sym same);
    progress = omega arith;
  }
  recv_answer-Receives w b mem (failed eagain) w' n v fits some_room run same = record {
    mem = mem;
    valid = v;
    in_order = ap (λ u. pending b ++ u) (sym same);
    progress = (w, n, some_room, run);
  }
  recv_answer-Receives w b mem (failed e) w' n v fits some_room run same = record {
    mem = mem;
    valid = v;
    in_order = ap (λ u. pending b ++ u) (sym same);
    progress = (ground arith, ground arith, inr (w, n, some_room, run));
  }

  GoesOn-weaken :
      (v : W) (a : Buffer) (w : W) (b : Buffer) (w' : W) (c : Buffer) (result : Option IoResult)
      → patience w b ≤ patience v a
      → GoesOn w b w' c result
      → GoesOn v a w' c result
  GoesOn-weaken v a w b w' c none less h = omega arith
  GoesOn-weaken v a w b w' c (some r) less h = h

  Receives-trans :
      {v : W} {a : Buffer} {w : W} {b : Buffer} {w' : W} {c : Buffer} {result : Option IoResult}
      → pending b ++ unread w ≡ pending a ++ unread v
      → patience w b ≤ patience v a
      → Receives w b w' c result
      → Receives v a w' c result
  Receives-trans {v} {a} {w} {b} {w'} {c} {result} start less h = record {
    mem = h.mem;
    valid = h.valid;
    in_order = h.in_order ∙ start;
    progress = GoesOn-weaken v a w b w' c result less h.progress;
  }

  module _ (word : limit ≤ size_max) (stream : IsStream os unread log interrupts) where
    recv_turn-Receives :
        (w : W) (b : Buffer) (mem : Bytes)
        → IsValid limit b mem
        → let (c, w', result) = recv_turn os limit w b in Receives w b w' c result
    unfolding recv_turn
    recv_turn-Receives w b mem v =
        let (c, stopped) = recv_room limit (os.realloc w) b in
        let (kept, cases) =
          recv_room-Keeps limit (os.realloc w) b mem (stream.allocates w) word v in
        let n = min (c.cap - c.len) ssize_max in
        elim cases [
          | inl (goes_on, room) ↦
              rw (recv_turn, goes_on)
                (Receives-trans (ap (λ p. p ++ unread w) kept.same)
                  (omega (arith, ap length kept.same))
                  (recv_answer-Receives w c kept.mem ((os.recv w n).0) ((os.recv w n).1) n
                    kept.valid (omega arith) (omega arith) refl
                    (stream.receives w n (omega arith))))
          | inr (inl (stops, filled)) ↦
              rw (recv_turn, stops)
                (record {
                  mem = kept.mem;
                  valid = kept.valid;
                  in_order = ap (λ p. p ++ unread w) kept.same;
                  progress = filled;
                })
          | inr (inr (stops, _)) ↦
              rw (recv_turn, stops)
                (record {
                  mem = kept.mem;
                  valid = kept.valid;
                  in_order = ap (λ p. p ++ unread w) kept.same;
                  progress = (ground arith, ground arith, inl refl);
                })
        ]

    -- From a valid buffer the loop ends once the fuel passes the patience, with the bytes in order.
    pub recv_loop-Receives :
        (fuel : ℕ) (w : W) (b : Buffer) (mem : Bytes)
        → IsValid limit b mem
        → patience w b < fuel
        → let (c, w', result) = recv_loop os limit fuel w b in
          Receives w b w' c result × ((r : IoResult) × (result ≡ some r))
    unfolding recv_loop
    recv_loop-Receives zero w b mem v enough = absurd (omega arith)
    recv_loop-Receives (suc fuel) w b mem v enough =
        let (c, w', stopped) = recv_turn os limit w b in
        let turn = recv_turn-Receives w b mem v in
        elim (Option-cases stopped) [
          | inr (r, stops) ↦
              rw (recv_loop, stops) (subst (λ s. Receives w b w' c s) stops turn, (r, refl))
          | inl goes_on ↦
              let less : patience w' c < patience w b =
                subst (λ s. GoesOn w b w' c s) goes_on turn.progress in
              let (rest, ends) = recv_loop-Receives fuel w' c turn.mem turn.valid (omega arith) in
              rw (recv_loop, goes_on) (Receives-trans turn.in_order (omega arith) rest, ends)
        ]
