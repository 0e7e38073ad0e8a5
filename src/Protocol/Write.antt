-- ===== src/Protocol/Write.antt =====
-- The response writers of src/protocol.c. The destination is NULL or the bytes of the slice, whose
-- capacity is passed beside it; a source slice is NULL or its bytes, with its length passed beside it.
pub mod Laws
pub mod Lines
use kvx.Common.{
  ℕ, zero, suc, ◌+◌, ◌-◌, Bool, true, false, ◌&&◌, ◌||◌, not, Option, none, some, [], ◌∷◌, ◌++◌,
  Bytes, codes, memcpy, size_max, ltb, ◌==◌, if◌then◌else◌, length, take,
}
use kvx.Protocol.Types.{
  ProtoError, Result, ok, err, ResponseType, stored, not_stored, deleted, not_found, touched, error,
  client_error, server_error, invalid_arguments, key_too_long, invalid_value_length,
  buffer_too_small, max_key_length,
}
use kvx.Protocol.Line.{carriage_return, line_feed}
use kvx.Protocol.Numbers.{proto_format_uint}

-- The value returned, the destination and `*written_out` behind the call.
pub record Written : Type 0 where
  pub result : Result (Unit {0})
  pub dst : Option Bytes
  pub count : ℕ

abbrev pub refuse : Option Bytes → ProtoError → Written
refuse b e = record { result = err e; dst = b; count = 0 }

abbrev pub is_null : Option Bytes → Bool
is_null none = true
is_null (some x) = false

-- The first `len` bytes at a source pointer.
abbrev pub source : Option Bytes → ℕ → Bytes
source none len = []
source (some s) len = take len s

-- The bytes written so far, and the pointer behind them.
abbrev pub Cursor : Type 0
Cursor = Bytes × ℕ

-- memcpy(p, src, n); p += n;
unfoldable pub emit : Bytes → Cursor → Cursor
emit src (dst, p) = (memcpy dst p src, p + length src)

abbrev pub line_end : Bytes
line_end = carriage_return ∷ line_feed ∷ []

unfoldable pub get_header_len : ℕ → ℕ → ℕ → ℕ
get_header_len key_len flags value_len =
    6
    + key_len
    + 1
    + length (proto_format_uint flags)
    + 1
    + length (proto_format_uint value_len)
    + 2

-- The copies at the end of `protocol_write_get_result`.
unfoldable pub emit_get_result : Bytes → ℕ → Bytes → Bytes → Cursor
emit_get_result key flags value dst =
    let header = emit line_end (
      emit (proto_format_uint (length value)) (
        emit (b' ' ∷ []) (
          emit (proto_format_uint flags)
            (emit (b' ' ∷ []) (emit key (emit (codes "VALUE ") (dst, 0))))))) in
    emit line_end (if length value == 0 then header else emit value header)

unfoldable pub protocol_write_get_result :
    Option Bytes → ℕ → Option Bytes → ℕ → ℕ → Option Bytes → ℕ → Written
unfolding emit_get_result emit get_header_len
protocol_write_get_result b b_cap key key_len flags value value_len =
    let header_len = get_header_len key_len flags value_len in
    let total = header_len + value_len + 2 in
    if is_null key || (key_len == 0 || (is_null value && not (value_len == 0)))
    then refuse b invalid_arguments
    else if ltb max_key_length key_len
    then refuse b key_too_long
    else if ltb (size_max - header_len - 2) value_len
    then refuse b invalid_value_length
    else if ltb b_cap total
    then refuse b buffer_too_small
    else elim b [
      | none ↦ refuse none invalid_arguments
      | some dst ↦ record {
        result = ok tt;
        dst = some (emit_get_result (source key key_len) flags (source value value_len) dst).0;
        count = total;
      }
    ]

unfoldable pub proto_write_bytes : Option Bytes → ℕ → Bytes → Written
proto_write_bytes b b_cap bytes =
    let len = length bytes in
    if ltb b_cap len then refuse b buffer_too_small else elim b [
      | none ↦ refuse none invalid_arguments
      | some dst ↦ record { result = ok tt; dst = some (memcpy dst 0 bytes); count = len }
    ]

unfoldable pub protocol_write_get_end : Option Bytes → ℕ → Written
protocol_write_get_end b b_cap = proto_write_bytes b b_cap (codes "END" ++ line_end)

-- The tables `responses` and `lengths`: a type past the last row has none.
abbrev pub response_text : ResponseType → Option Bytes
response_text stored = some (codes "STORED" ++ line_end)
response_text not_stored = some (codes "NOT_STORED" ++ line_end)
response_text deleted = some (codes "DELETED" ++ line_end)
response_text not_found = some (codes "NOT_FOUND" ++ line_end)
response_text touched = some (codes "TOUCHED" ++ line_end)
response_text error = some (codes "ERROR" ++ line_end)
response_text client_error = none
response_text server_error = none

unfoldable pub protocol_write_response : Option Bytes → ℕ → ResponseType → Written
protocol_write_response b b_cap type = elim (response_text type) [
  | none ↦ refuse b invalid_arguments
  | some text ↦ proto_write_bytes b b_cap text
]

-- The loop that refuses CR, LF and NUL.
unfoldable pub text_valid : Bytes → Bool
text_valid [] = true
text_valid (c ∷ rest) =
    if c == carriage_return || (c == line_feed || c == 0) then false else text_valid rest

unfoldable pub proto_write_text_line : Option Bytes → ℕ → Bytes → Option Bytes → ℕ → Written
unfolding emit text_valid
proto_write_text_line b b_cap prefix text text_len =
    let prefix_len = length prefix in
    let total = prefix_len + text_len + 2 in
    if is_null text || (text_len == 0 || ltb (size_max - prefix_len - 2) text_len)
    then refuse b invalid_arguments
    else if ltb b_cap total
    then refuse b buffer_too_small
    else elim b [
      | none ↦ refuse none invalid_arguments
      | some dst ↦
          if text_valid (source text text_len)
          then record {
            result = ok tt;
            dst = some (emit line_end (emit (source text text_len) (emit prefix (dst, 0)))).0;
            count = total;
          }
          else refuse (some dst) invalid_arguments
    ]

unfoldable pub protocol_write_version : Option Bytes → ℕ → Option Bytes → ℕ → Written
protocol_write_version b b_cap version version_len =
    proto_write_text_line b b_cap (codes "VERSION ") version version_len

unfoldable pub protocol_write_error : Option Bytes → ℕ → ResponseType → Option Bytes → ℕ → Written
protocol_write_error b b_cap client_error message message_len =
    proto_write_text_line b b_cap (codes "CLIENT_ERROR ") message message_len
protocol_write_error b b_cap server_error message message_len =
    proto_write_text_line b b_cap (codes "SERVER_ERROR ") message message_len
protocol_write_error b b_cap _ message message_len = refuse b invalid_arguments
