-- ===== src/Tests/Protocol.antt =====
-- The protocol's theorems at the bytes of real commands and responses.
use kvx.Common.{
  ◌-◌, ◌≤◌, ◌≡◌, ◌≢◌, ◌⊎◌, ◌↔◌, refl, true, some, [], ◌∷◌, ◌++◌, arith, Bytes, All, codes, slice,
  length, drop, uint32_max, leb, if◌then◌else◌,
}
use kvx.Protocol.Types.{
  zero_command, ok, err, incomplete, stored, buffer_too_small, invalid_arguments, invalid_exptime,
  invalid_data_block,
}
use kvx.Protocol.Line.Find.{crlf}
use kvx.Protocol.Line.{proto_find_line}
use kvx.Protocol.Numbers.{proto_parse_uint, proto_format_uint}
use kvx.Protocol.Numbers.Parse.{IsDigit, spelled, proto_parse_uint_iff}
use kvx.Protocol.Numbers.RoundTrip.{parse_uint-format_uint}
use kvx.Protocol.Tokens.{proto_tokenize, tokenize_loop, proto_is_separator}
use kvx.Protocol.Tokens.Spec.{words_from, proto_tokenize-words_from, IsSlice}
use kvx.Protocol.Header.{
  proto_parse_key, proto_find_command, proto_parse_noreply, key_bytes_valid, proto_parse_exptime,
  proto_parse_set_fields, keep_first, get_keys_loop, proto_parse_get_keys, parse_tokens, is_get,
  proto_parse_header,
}
use kvx.Protocol.Header.Words.{IsKey, place}
use kvx.Protocol.Frame.{
  protocol_parse_command, proto_parse_body, read_body, parse_line, parse_frame,
}
use kvx.Protocol.Frame.Stream.{protocol_parse_command-append, protocol_parse_command_outcome}
use kvx.Protocol.Frame.Requests.{Request, store, frame, command}
use kvx.Protocol.Frame.Requests.RoundTrip.{protocol_parse_command-frame}
use kvx.Protocol.Keys.{protocol_next_key, next_key_from}
use kvx.Protocol.Keys.Iterate.{Visits, protocol_next_key-Visits}
use kvx.Protocol.Keys.GetFrame.{get_frame, get_command, get_frame-Visits}
use kvx.Protocol.Write.{
  protocol_write_get_result, refuse, protocol_write_response, protocol_write_get_end,
  protocol_write_version, protocol_write_error,
}
use kvx.Protocol.Write.Laws.{get_result_text, protocol_write_get_result-text}
use kvx.Protocol.Write.Lines.{WritesLine, writers-WritesLine}

-- What a run of the parser computes with.
program : Unit {0}
unfolding proto_is_separator proto_tokenize tokenize_loop proto_find_line proto_find_command
    proto_parse_noreply proto_parse_key key_bytes_valid proto_parse_exptime proto_parse_set_fields
    keep_first get_keys_loop proto_parse_get_keys parse_tokens is_get proto_parse_header
    proto_parse_body read_body parse_line parse_frame protocol_parse_command next_key_from
    protocol_next_key proto_parse_uint proto_format_uint
program = tt

-- A touch with a number that is too large, and a data block without its line end.
touch_overflow :
    (protocol_parse_command (codes "touch k 4294967296\r\n") zero_command).result
    ≡ err invalid_exptime
unfolding program
touch_overflow = refl

bad_block :
    (protocol_parse_command (codes "set k 0 0 2\r\nabc\r\n") zero_command).result
    ≡ err invalid_data_block
unfolding program
bad_block = refl

abbrev sample_key : Bytes
sample_key = codes "user:7"

sample_key-IsKey : IsKey sample_key
sample_key-IsKey = omega arith

abbrev sample_set : Request
sample_set = store sample_key 5 60 (codes "hello") true

set_frame : frame sample_set ≡ codes "set user:7 5 60 5 noreply\r\nhello\r\n"
unfolding proto_format_uint
set_frame = refl

protocol_parse_command-frame_example :
    protocol_parse_command (frame sample_set ++ codes "get") zero_command
    ≡ record { result = ok tt; cmd = command sample_set; consumed = length (frame sample_set) }
unfolding proto_format_uint
protocol_parse_command-frame_example =
    protocol_parse_command-frame sample_set (codes "get") zero_command
      (sample_key-IsKey, omega arith, omega arith, omega arith) (omega arith)

abbrev quit_bytes : Bytes
quit_bytes = codes "quit\r\n"

quit_result : (protocol_parse_command quit_bytes zero_command).result ≢ err incomplete
unfolding program
quit_result h = cc h

protocol_parse_command-append_example :
    protocol_parse_command (quit_bytes ++ codes "x") zero_command
    ≡ protocol_parse_command quit_bytes zero_command
protocol_parse_command-append_example =
    protocol_parse_command-append quit_bytes (codes "x") zero_command quit_result

protocol_parse_command_outcome_example :
    let o = protocol_parse_command quit_bytes zero_command in
    ((o.result ≡ ok tt)
      × (2 ≤ o.consumed)
      × (o.consumed ≤ length quit_bytes)
      × (slice quit_bytes (o.consumed - 2) 2 ≡ crlf))
    ⊎ ((o.result ≢ ok tt) × (o.cmd ≡ zero_command) × (o.consumed ≡ 0))
protocol_parse_command_outcome_example = protocol_parse_command_outcome quit_bytes zero_command

get_frame-Visits_example :
    let b = get_frame (codes "a" ∷ codes "bc" ∷ []) ++ [] in
    (protocol_parse_command b zero_command ≡ record {
      result = ok tt;
      cmd = get_command (codes "a") (codes "bc" ∷ []);
      consumed = length (get_frame (codes "a" ∷ codes "bc" ∷ []));
    })
    × Visits b (get_command (codes "a") (codes "bc" ∷ [])) (place 5 (codes "bc" ∷ []))
    × All (IsSlice b) (place 3 (codes "a" ∷ codes "bc" ∷ []))
get_frame-Visits_example =
    get_frame-Visits (codes "a") (codes "bc" ∷ []) [] zero_command (omega arith)

protocol_next_key-Visits_example :
    Visits
      (codes "get a\tbc")
      (record zero_command { key = some 4; key_len = 1; keys_end = some 8 })
      (record { start = 6; text = codes "bc" } ∷ [])
unfolding proto_is_separator
protocol_next_key-Visits_example =
    protocol_next_key-Visits (codes "get a\tbc") (record { start = 6; text = codes "bc" } ∷ [])
      (record zero_command { key = some 4; key_len = 1; keys_end = some 8 }) 4 8 refl refl
      (omega arith) (omega arith) refl

proto_tokenize-words_from_example : proto_tokenize (codes " a b") 2 ≡ (
    if leb (length (words_from 0 [] (codes " a b"))) 2
    then ok (words_from 0 [] (codes " a b"))
    else err invalid_arguments)
proto_tokenize-words_from_example = proto_tokenize-words_from (codes " a b") 2

proto_parse_uint_iff_example : (proto_parse_uint (codes "007") uint32_max ≡ some 7) ↔ (
    (codes "007" ≢ [])
    × All IsDigit (codes "007")
    × (spelled 0 (codes "007") ≡ 7)
    × (7 ≤ uint32_max))
proto_parse_uint_iff_example = proto_parse_uint_iff (codes "007") uint32_max 7 (omega arith)

parse_uint-format_uint_example :
    proto_parse_uint (proto_format_uint 4294967295) uint32_max ≡ some 4294967295
parse_uint-format_uint_example =
    parse_uint-format_uint 4294967295 uint32_max (omega arith) (omega arith)

protocol_write_get_result-text_example :
    protocol_write_get_result
      (some (codes "................................"))
      32
      (some (codes "k"))
      1
      7
      (some (codes "vv"))
      2
    ≡ (let text = get_result_text (codes "k") 7 (codes "vv") in
        if leb (length text) 32
        then record {
          result = ok tt;
          dst = some (text ++ drop (length text) (codes "................................"));
          count = length text;
        }
        else refuse (some (codes "................................")) buffer_too_small)
unfolding proto_format_uint
protocol_write_get_result-text_example =
    protocol_write_get_result-text (codes "k") (codes "vv")
      (codes "................................") 7 (omega arith) (omega arith) (omega arith)

writers-WritesLine_example :
    WritesLine (codes "..........") (protocol_write_response (some (codes "..........")) 10 stored)
    × WritesLine (codes "..........") (protocol_write_get_end (some (codes "..........")) 10)
    × WritesLine
        (codes "..........")
        (protocol_write_version (some (codes "..........")) 10 (some (codes "1")) 1)
    × WritesLine
        (codes "..........")
        (protocol_write_error (some (codes "..........")) 10 stored (some (codes "1")) 1)
writers-WritesLine_example = writers-WritesLine (codes "..........") (codes "1") stored
