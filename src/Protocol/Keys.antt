-- ===== src/Protocol/Keys.antt =====
-- `protocol_next_key` of src/protocol.c: the next key of a `get`, over the bytes of the frame.
pub mod Iterate
pub mod GetFrame
use kvx.Common.{
  ℕ, ◌+◌, ◌-◌, Option, none, some, Bytes, ◌==◌, if◌then◌else◌, run_length, length, take, drop,
}
use kvx.Protocol.Types.{Command}
use kvx.Protocol.Tokens.{proto_is_separator, in_word}

-- From `p` on, in the bytes before `keys_end`; `none` is the result `false`.
unfoldable pub next_key_from : Bytes → Command → ℕ → ℕ → Option Command
next_key_from b cmd p keys_end =
    let rest = drop p (take keys_end b) in
    let start = p + run_length proto_is_separator rest in
    let len = run_length in_word (drop (run_length proto_is_separator rest) rest) in
    if start == keys_end then none else some (record cmd { key = some start; key_len = len })

unfoldable pub protocol_next_key : Bytes → Command → Option Command
unfolding next_key_from
protocol_next_key b cmd = elim (cmd.key) [
  | none ↦ none
  | some key ↦ elim (cmd.keys_end) [
    | none ↦ none
    | some keys_end ↦ next_key_from b cmd (key + cmd.key_len) keys_end
  ]
]
