-- ===== src/Protocol/Frame.antt =====
-- `proto_parse_body` and `protocol_parse_command` of src/protocol.c. The input buffer is the list of
-- its unread bytes, so `b_len` is the length of the list.
pub mod Stream
pub mod Requests
use kvx.Common.{
  ℕ, ◌+◌, ◌-◌, Bool, true, false, not, ◌||◌, some, Bytes, size_max, ltb, ◌==◌, if◌then◌else◌,
  length, take, get_or,
}
use kvx.Protocol.Types.{
  Command, CommandType, zero_command, ProtoError, Result, ok, err, ◌>>=◌, incomplete,
  invalid_value_length, invalid_data_block,
}
use kvx.Protocol.Line.{carriage_return, line_feed, proto_find_line}
use kvx.Protocol.Header.{proto_parse_header}

-- The command and the new value of `consumed`; `offset` is the old one.
unfoldable pub proto_parse_body : Bytes → Command → ℕ → Result (Command × ℕ)
proto_parse_body b cmd offset =
    let value_len = cmd.value_len in
    let remaining = length b - offset in
    let value_end = offset + value_len in
    let trailing = remaining - value_len in
    if ltb (size_max - offset) 2 || ltb (size_max - offset - 2) value_len
    then err invalid_value_length
    else if ltb remaining value_len
    then err incomplete
    else if trailing == 0
    then err incomplete
    else if not (get_or b value_end 0 == carriage_return)
    then err invalid_data_block
    else if trailing == 1
    then err incomplete
    else if not (get_or b (value_end + 1) 0 == line_feed)
    then err invalid_data_block
    else ok (record cmd { value = some offset }, value_end + 2)

abbrev has_body : CommandType → Bool
has_body CommandType.set = true
has_body _ = false

-- Behind the header: the data block of a `set`.
unfoldable pub read_body : Bytes → ℕ → Command → Result (Command × ℕ)
read_body b line_len parsed =
    if has_body parsed.type
    then proto_parse_body b parsed (line_len + 2)
    else ok (parsed, line_len + 2)

-- Behind `proto_find_line`: the header in the bytes before the line end, and the data block.
unfoldable pub parse_line : Bytes → ℕ → Result (Command × ℕ)
parse_line b line_len = proto_parse_header (take line_len b) zero_command >>= read_body b line_len

-- The command and the length of its frame.
unfoldable pub parse_frame : Bytes → Result (Command × ℕ)
parse_frame b = proto_find_line b >>= parse_line b

-- The value returned, `*cmd` and `*consumed_out` behind the call.
pub record Outcome : Type 0 where
  pub result : Result (Unit {0})
  pub cmd : Command
  pub consumed : ℕ

unfoldable pub protocol_parse_command : Bytes → Command → Outcome
protocol_parse_command b cmd = elim (parse_frame b) [
  | err e ↦ record { result = err e; cmd = cmd; consumed = 0 }
  | ok (parsed, consumed) ↦ record { result = ok tt; cmd = parsed; consumed = consumed }
]
