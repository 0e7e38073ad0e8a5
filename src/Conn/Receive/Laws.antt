-- ===== src/Conn/Receive/Laws.antt =====
-- `conn_recv` as a whole.
use kvx.Common.{ℕ, ◌≤◌, ◌<◌, ◌≡◌, refl, some, ◌++◌, Bytes, false, size_max, subst}
use kvx.Conn.Buffer.Laws.{IsValid, pending}
use kvx.Conn.Life.{IoResult, Conn}
use kvx.Conn.World.{World, IsStream}
use kvx.Conn.Receive.{is_eof, recv_loop, conn_recv}
use kvx.Conn.Receive.Loop.{MeansForReceiver, patience, GoesOn, recv_loop-Receives}

module _ {W : Type 0} (os : World W) (limit : ℕ) (unread log : W → Bytes) (interrupts : W → ℕ) where
  -- On an attached connection whose peer has not closed, with a valid buffer under a limit that is a
  -- size, over a world that keeps its laws, and with more fuel than bytes that the buffer can still
  -- take plus signals to come: conn_recv returns a result; the buffer stays valid; what it holds and
  -- then what is unread are the same bytes in the same order as before. FULL means that the unread span
  -- fills the limit. EOF means that the world is what a recv call that returned 0 left, and that nothing
  -- is left to receive. AGAIN means that the world is what a recv call that failed with EAGAIN left. An
  -- error is neither EINTR nor EAGAIN, and is ENOMEM or that of a failed recv call that left the world
  -- so. These recv calls asked for a byte at least. OK is not returned; peer_closed is set exactly by
  -- EOF; and the descriptor and the output are unchanged.
  pub conn_recv-Receives :
      (fuel : ℕ) (w : W) (c : Conn) (fd : ℕ) (mem : Bytes)
      → limit ≤ size_max
      → IsStream os unread log interrupts
      → c.fd ≡ some fd
      → c.peer_closed ≡ false
      → IsValid limit c.r mem
      → patience os limit unread log interrupts w c.r < fuel
      → let (d, w', result) = conn_recv os limit fuel w c in
        ((new : Bytes) × IsValid limit d.r new)
        × (pending d.r ++ unread w' ≡ pending c.r ++ unread w)
        × ((r : IoResult) × (result ≡ some r) × MeansForReceiver os limit unread (pending d.r) w' r)
        × (d.peer_closed ≡ is_eof result)
        × (d.fd ≡ c.fd)
        × (d.w ≡ c.w)
  unfolding conn_recv
  conn_recv-Receives fuel w c fd mem word stream attached unclosed v enough =
      let (received, (r, ends)) =
        recv_loop-Receives os limit unread log interrupts word stream fuel w c.r mem v enough in
      rw (conn_recv, attached, unclosed)
        (
          (received.mem, received.valid),
          received.in_order,
          (
            r,
            ends,
            subst
                (λ s.
                  GoesOn os limit unread log interrupts w c.r ((recv_loop os limit fuel w c.r).1)
                    ((recv_loop os limit fuel w c.r).0) s)
                ends received.progress,
          ),
          refl,
          attached,
          refl,
        )
