-- ===== src/Protocol/Frame/Requests.antt =====
-- The requests of the protocol but `get`, and the bytes that a client sends for them.
pub mod Header
pub mod Lines
pub mod RoundTrip
use kvx.Common.{
  ℕ, ◌+◌, ◌≤◌, ◌<◌, ◌≡◌, ◌≢◌, refl, ap, ◌∙◌, Bool, true, false, List, [], ◌∷◌, ◌++◌, arith, Bytes,
  codes, All, length, length-append, append_assoc, some, none, uint32_max, size_max, take-length,
  drop-length, All-append, get_or-append_right,
}
use kvx.Protocol.Types.{Command, CommandType, ◌>>=◌, ok, zero_command}
use kvx.Protocol.Numbers.Parse.{IsDigit}
use kvx.Protocol.Numbers.{proto_format_uint}
use kvx.Protocol.Numbers.RoundTrip.{proto_format_uint-All, parse_uint-format_uint}
use kvx.Protocol.Tokens.{proto_is_separator}
use kvx.Protocol.Line.{proto_find_line}
use kvx.Protocol.Line.Find.{IsLineByte, crlf, proto_find_line_iff}
use kvx.Protocol.Header.{
  proto_parse_header, parse_tokens, proto_find_command, proto_parse_noreply, proto_parse_set_fields,
  proto_parse_exptime, is_get,
}
use kvx.Protocol.Header.Words.{
  IsWord, IsKey, IsKey-IsWord, format_uint-IsWord, spaced, place, proto_parse_header-spaced,
  parse_key-IsKey,
}
use kvx.Protocol.Frame.{
  proto_parse_body, read_body, has_body, parse_line, parse_frame, protocol_parse_command,
}

pub data Request : Type 0 where
  store : (key : Bytes) (flags exptime : ℕ) (value : Bytes) (noreply : Bool) → Request
  touch : (key : Bytes) (exptime : ℕ) (noreply : Bool) → Request
  delete : (key : Bytes) (noreply : Bool) → Request
  version : Request
  quit : Request

-- The optional last word.
abbrev pub quiet : Bool → List Bytes
quiet true = codes "noreply" ∷ []
quiet false = []

abbrev pub name : Request → Bytes
name (store key flags exptime value noreply) = codes "set"
name (touch key exptime noreply) = codes "touch"
name (delete key noreply) = codes "delete"
name version = codes "version"
name quit = codes "quit"

abbrev pub arguments : Request → List Bytes
arguments (store key flags exptime value noreply) =
    key
    ∷ proto_format_uint flags
    ∷ proto_format_uint exptime
    ∷ proto_format_uint (length value)
    ∷ quiet noreply
arguments (touch key exptime noreply) = key ∷ proto_format_uint exptime ∷ quiet noreply
arguments (delete key noreply) = key ∷ quiet noreply
arguments version = []
arguments quit = []

abbrev pub line : Request → Bytes
line r = name r ++ spaced (arguments r)

-- The data block.
abbrev pub block : Request → Bytes
block (store key flags exptime value noreply) = value ++ crlf
block _ = []

abbrev pub frame : Request → Bytes
frame r = line r ++ (crlf ++ block r)

-- The command line in the terms of `command_t`.
abbrev pub header : Request → Command
header (store key flags exptime value noreply) = record {
  key = some 4;
  key_len = length key;
  keys_end = some (4 + length key);
  value = none;
  value_len = length value;
  flags = flags;
  exptime = exptime;
  cas = 0;
  noreply = noreply;
  type = CommandType.set;
}
header (touch key exptime noreply) = record {
  key = some 6;
  key_len = length key;
  keys_end = some (6 + length key);
  value = none;
  value_len = 0;
  flags = 0;
  exptime = exptime;
  cas = 0;
  noreply = noreply;
  type = CommandType.touch;
}
header (delete key noreply) = record {
  key = some 7;
  key_len = length key;
  keys_end = some (7 + length key);
  value = none;
  value_len = 0;
  flags = 0;
  exptime = 0;
  cas = 0;
  noreply = noreply;
  type = CommandType.delete;
}
header version = record zero_command { type = CommandType.version }
header quit = record zero_command { type = CommandType.quit }

-- With the position of the value, which stands behind the line and its end.
abbrev pub command : Request → Command
command (store key flags exptime value noreply) =
    let r = store key flags exptime value noreply in
    record (header r) { value = some (length (line r) + 2) }
command r = header r

-- The requests that the protocol can express.
abbrev pub IsRequest : Request → Type 0
IsRequest (store key flags exptime value noreply) =
    IsKey key × (flags ≤ uint32_max) × (exptime ≤ uint32_max) × (length value ≤ size_max)
IsRequest (touch key exptime noreply) = IsKey key × (exptime ≤ uint32_max)
IsRequest (delete key noreply) = IsKey key
IsRequest version = Unit
IsRequest quit = Unit
