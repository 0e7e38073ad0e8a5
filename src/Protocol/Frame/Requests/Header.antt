-- ===== src/Protocol/Frame/Requests/Header.antt =====
-- `proto_parse_header` reads the command line of a request back.
use kvx.Common.{
  ◌≤◌, ◌≡◌, refl, ◌∙◌, Bool, true, false, ◌∷◌, arith, All, length, uint32_max, size_max,
}
use kvx.Protocol.Types.{CommandType, ok, zero_command}
use kvx.Protocol.Numbers.RoundTrip.{parse_uint-format_uint}
use kvx.Protocol.Tokens.{proto_is_separator}
use kvx.Protocol.Header.{
  proto_parse_header, parse_tokens, proto_find_command, proto_parse_noreply, proto_parse_set_fields,
  proto_parse_exptime, is_get,
}
use kvx.Protocol.Header.Words.{
  IsWord, IsKey-IsWord, format_uint-IsWord, place, proto_parse_header-spaced, parse_key-IsKey,
}
use kvx.Protocol.Frame.Requests.{
  Request, store, touch, delete, version, quit, quiet, name, arguments, line, header, IsRequest,
}

-- The tokens of the command line are read back.
parse_tokens-request :
    (r : Request)
    → IsRequest r
    → parse_tokens
        (record { start = 0; text = name r } ∷ place (length (name r)) (arguments r))
        zero_command
      ≡ ok (header r)
unfolding parse_tokens proto_find_command proto_parse_noreply proto_parse_set_fields
    proto_parse_exptime
parse_tokens-request (store key flags exptime value true) h = ground (
  arith,
  parse_key-IsKey (record { start = 4; text = key })
      (record zero_command { type = CommandType.set; noreply = true }) h.0,
  parse_uint-format_uint flags uint32_max (omega arith) h.1,
  parse_uint-format_uint exptime uint32_max (omega arith) h.2,
  parse_uint-format_uint (length value) size_max (omega arith) h.3,
)
parse_tokens-request (store key flags exptime value false) h = ground (
  arith,
  parse_key-IsKey (record { start = 4; text = key })
      (record zero_command { type = CommandType.set; noreply = false }) h.0,
  parse_uint-format_uint flags uint32_max (omega arith) h.1,
  parse_uint-format_uint exptime uint32_max (omega arith) h.2,
  parse_uint-format_uint (length value) size_max (omega arith) h.3,
)
parse_tokens-request (touch key exptime true) h = ground (
  arith,
  parse_key-IsKey (record { start = 6; text = key })
      (record zero_command { type = CommandType.touch; noreply = true }) h.0,
  parse_uint-format_uint exptime uint32_max (omega arith) h.1,
)
parse_tokens-request (touch key exptime false) h = ground (
  arith,
  parse_key-IsKey (record { start = 6; text = key })
      (record zero_command { type = CommandType.touch; noreply = false }) h.0,
  parse_uint-format_uint exptime uint32_max (omega arith) h.1,
)
parse_tokens-request (delete key true) h = rw (parse_key-IsKey, h)
parse_tokens-request (delete key false) h = rw (parse_key-IsKey, h)
parse_tokens-request version h = refl
parse_tokens-request quit h = refl

name-IsWord : (r : Request) → IsWord (name r)
unfolding proto_is_separator
name-IsWord (store key flags exptime value noreply) = ground arith
name-IsWord (touch key exptime noreply) = ground arith
name-IsWord (delete key noreply) = ground arith
name-IsWord version = ground arith
name-IsWord quit = ground arith

quiet-IsWord : (noreply : Bool) → All IsWord (quiet noreply)
unfolding proto_is_separator
quiet-IsWord true = (record { filled = omega arith; bytes = ground arith }, tt)
quiet-IsWord false = tt

arguments-IsWord : (r : Request) → IsRequest r → All IsWord (arguments r)
arguments-IsWord (store key flags exptime value noreply) h = (
  IsKey-IsWord h.0,
  (
    format_uint-IsWord flags,
    (format_uint-IsWord exptime, (format_uint-IsWord (length value), quiet-IsWord noreply)),
  ),
)
arguments-IsWord (touch key exptime noreply) h =
    (IsKey-IsWord h.0, (format_uint-IsWord exptime, quiet-IsWord noreply))
arguments-IsWord (delete key noreply) h = (IsKey-IsWord h, quiet-IsWord noreply)
arguments-IsWord version h = tt
arguments-IsWord quit h = tt

length-arguments : (r : Request) → length (arguments r) ≤ 5
length-arguments (store key flags exptime value true) = omega arith
length-arguments (store key flags exptime value false) = omega arith
length-arguments (touch key exptime true) = omega arith
length-arguments (touch key exptime false) = omega arith
length-arguments (delete key true) = omega arith
length-arguments (delete key false) = omega arith
length-arguments version = omega arith
length-arguments quit = omega arith

not-is_get : (r : Request) → is_get (line r) ≡ false
unfolding is_get
not-is_get (store key flags exptime value noreply) = ground arith
not-is_get (touch key exptime noreply) = ground arith
not-is_get (delete key noreply) = ground arith
not-is_get version = ground arith
not-is_get quit = ground arith

-- The command line is read back.
pub proto_parse_header-line :
    (r : Request) → IsRequest r → proto_parse_header (line r) zero_command ≡ ok (header r)
proto_parse_header-line r h =
    proto_parse_header-spaced (name r) (arguments r) zero_command (name-IsWord r)
      (arguments-IsWord r h) (length-arguments r) (not-is_get r)
    ∙ parse_tokens-request r h
