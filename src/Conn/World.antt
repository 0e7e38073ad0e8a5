-- ===== src/Conn/World.antt =====
-- What src/conn.c calls outside the repository: `recv`, `send` and `realloc`. They are parameters over
-- a type of states of the world, with what their manual pages say as laws.
use kvx.Common.{ℕ, ◌-◌, ◌≤◌, ◌<◌, ◌^◌, ◌≡◌, Bytes, [], ◌++◌, length, take}
use kvx.Conn.Buffer.{Errno, eintr, Realloc, IsRealloc}

-- `received` is n > 0 with the bytes that the call stored, `closed` is n = 0, `failed` is n = -1.
pub data RecvAnswer : Type 0 where
  received : Bytes → RecvAnswer
  closed : RecvAnswer
  failed : Errno → RecvAnswer

-- `accepted` is n >= 0, the number of bytes that the kernel took.
pub data SendAnswer : Type 0 where
  accepted : ℕ → SendAnswer
  refused : Errno → SendAnswer

-- The calls: recv of so many bytes at most, send of some bytes, and the allocator at this moment.
pub record World (W : Type 0) : Type 0 where
  pub recv : W → ℕ → RecvAnswer × W
  pub send : W → Bytes → SendAnswer × W
  pub realloc : W → Realloc

-- (size_t)SSIZE_MAX.
abbrev pub ssize_max : ℕ
ssize_max = 2 ^ 63 - 1

-- `unread` is what the peer sends and no call has received yet, and `interrupts` how many signals are to
-- come. An answer with bytes takes them from the front; any other leaves them, and 0 says that there are
-- none. An interrupted call is a signal gone.
abbrev pub ReceivesInOrder : {W : Type 0} → (W → Bytes) → (W → ℕ) → RecvAnswer × W → ℕ → W → Type 0
ReceivesInOrder unread interrupts (received d, w') n w =
    (unread w ≡ d ++ unread w') × (0 < length d) × (length d ≤ n) × (interrupts w' ≤ interrupts w)
ReceivesInOrder unread interrupts (closed, w') n w = (unread w ≡ unread w') × (unread w' ≡ [])
ReceivesInOrder unread interrupts (failed eintr, w') n w =
    (unread w ≡ unread w') × (interrupts w' < interrupts w)
ReceivesInOrder unread interrupts (failed _, w') n w = unread w ≡ unread w'

-- `log` is what the kernel accepted so far. An answer n appends the first n bytes; a failure none.
abbrev pub SendsInOrder : {W : Type 0} → (W → Bytes) → (W → ℕ) → SendAnswer × W → Bytes → W → Type 0
SendsInOrder log interrupts (accepted n, w') bytes w =
    (log w' ≡ log w ++ take n bytes) × (n ≤ length bytes) × (interrupts w' ≤ interrupts w)
SendsInOrder log interrupts (refused eintr, w') bytes w =
    (log w' ≡ log w) × (interrupts w' < interrupts w)
SendsInOrder log interrupts (refused _, w') bytes w = log w' ≡ log w

-- What the code relies on.
pub record IsStream {W : Type 0} (os : World W) (unread log : W → Bytes) (interrupts : W → ℕ)
    : Type 0 where
  pub receives : (w : W) (n : ℕ) → 0 < n → ReceivesInOrder unread interrupts (os.recv w n) n w
  pub sends : (w : W) (bytes : Bytes) → SendsInOrder log interrupts (os.send w bytes) bytes w
  pub allocates : (w : W) → IsRealloc (os.realloc w)
