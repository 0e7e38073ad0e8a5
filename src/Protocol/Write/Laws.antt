-- ===== src/Protocol/Write/Laws.antt =====
-- What the response writers put into the destination, and when they refuse.
use kvx.Common.{
  ℕ, ◌+◌, ◌-◌, ◌≤◌, ◌<◌, ◌≡◌, refl, sym, ap, false, some, [], ◌∷◌, ◌++◌, append_assoc, arith, Bytes,
  codes, size_max, length, take, drop, length-append, take-length, drop-length, drop-drop,
  if◌then◌else◌, leb, ltb, ◌==◌,
}
use kvx.Protocol.Types.{ok, buffer_too_small, max_key_length}
use kvx.Protocol.Numbers.{proto_format_uint}
use kvx.Protocol.Write.{
  Written, refuse, Cursor, emit, line_end, get_header_len, emit_get_result,
  protocol_write_get_result,
}

-- A cursor behind the text `done`, written over the start of `dst`.
pub record IsBehind (dst done : Bytes) (c : Cursor) : Type 0 where
  pub written : c.0 ≡ done ++ drop (length done) dst
  pub pointer : c.1 ≡ length done

pub emit-IsBehind :
    {dst done : Bytes} {c : Cursor} (src : Bytes)
    → IsBehind dst done c
    → IsBehind dst (done ++ src) (emit src c)
unfolding emit
emit-IsBehind {dst} {done} {c} src h =
    let rest = drop (length done) dst in
    let size = length-append done src in
    record {
      written =
          rw
            (
              h.written,
              h.pointer,
              take-length done rest,
              ← drop-drop (length src) (length done) (done ++ rest),
            )
            (rw (drop-length done rest, drop-drop, size) (sym (append_assoc done src _)));
      pointer = omega (arith, size, h.pointer);
    }

pub start-IsBehind : (dst : Bytes) → IsBehind dst [] (dst, 0)
start-IsBehind dst = record { written = refl; pointer = refl }

pub written_as :
    {dst done text : Bytes} {c : Cursor}
    → IsBehind dst done c
    → done ≡ text
    → c.0 ≡ text ++ drop (length text) dst
written_as h e = rw (← e) (h.written)

-- The response to a `get` that found its key.
abbrev pub get_result_text : Bytes → ℕ → Bytes → Bytes
get_result_text key flags value =
    codes "VALUE "
    ++ (key
        ++ (b' '
            ∷ (proto_format_uint flags
                ++ (b' '
                    ∷ (proto_format_uint (length value) ++ (line_end ++ (value ++ line_end)))))))

emit_header-IsBehind :
    (key : Bytes) (flags len : ℕ) (dst : Bytes)
    → IsBehind dst
        ((((((codes "VALUE " ++ key) ++ b' ' ∷ []) ++ proto_format_uint flags) ++ b' ' ∷ [])
            ++ proto_format_uint len)
          ++ line_end)
        (emit line_end (
          emit (proto_format_uint len) (
            emit (b' ' ∷ []) (
              emit
                (proto_format_uint flags)
                (emit (b' ' ∷ []) (emit key (emit (codes "VALUE ") (dst, 0))))))))
emit_header-IsBehind key flags len dst = emit-IsBehind line_end (
    emit-IsBehind (proto_format_uint len) (
      emit-IsBehind (b' ' ∷ []) (
        emit-IsBehind (proto_format_uint flags) (
          emit-IsBehind (b' ' ∷ [])
            (emit-IsBehind key (emit-IsBehind (codes "VALUE ") (start-IsBehind dst)))))))

-- All the copies write the response over the start of the destination.
emit_get_result-text :
    (key : Bytes) (flags : ℕ) (value dst : Bytes)
    → (emit_get_result key flags value dst).0
      ≡ get_result_text key flags value ++ drop (length (get_result_text key flags value)) dst
unfolding emit_get_result
emit_get_result-text key flags [] dst =
    written_as {text = get_result_text key flags []}
      (emit-IsBehind line_end (emit_header-IsBehind key flags 0 dst)) (simp append_assoc)
emit_get_result-text key flags (v ∷ value) dst =
    let some_value : (length (v ∷ value) == 0) ≡ false = ground arith in
    rw some_value (
      written_as {text = get_result_text key flags (v ∷ value)}
        (emit-IsBehind line_end
          (emit-IsBehind (v ∷ value) (emit_header-IsBehind key flags (length (v ∷ value)) dst)))
        (simp append_assoc))

if-ltb-leb :
    (n room : ℕ) (x y : Written) → (if ltb room n then x else y) ≡ (if leb n room then y else x)
if-ltb-leb n room x y = ground arith

pub take_all : (s : Bytes) → take (length s) s ≡ s
take_all [] = refl
take_all (c ∷ s) = ap (λ r. c ∷ r) (take_all s)

length-get_result_text :
    (key : Bytes) (flags : ℕ) (value : Bytes)
    → length (get_result_text key flags value)
      ≡ get_header_len (length key) flags (length value) + length value + 2
unfolding get_header_len
length-get_result_text key flags value = simp length-append (omega arith)

-- With a key of 1 to 250 bytes, and sizes that a `size_t` holds, a slice that has room for the
-- response gets it at its start, keeps its bytes behind it, and its length is reported; a slice that
-- has no room stays as it was and the call returns PROTO_ERR_BUFFER_TOO_SMALL.
pub protocol_write_get_result-text :
    (key value dst : Bytes) (flags : ℕ)
    → 0 < length key
    → length key ≤ max_key_length
    → length (get_result_text key flags value) ≤ size_max
    → protocol_write_get_result
        (some dst)
        (length dst)
        (some key)
        (length key)
        flags
        (some value)
        (length value)
      ≡ (let text = get_result_text key flags value in
          if leb (length text) (length dst)
          then record {
            result = ok tt;
            dst = some (text ++ drop (length text) dst);
            count = length text;
          }
          else refuse (some dst) buffer_too_small)
unfolding protocol_write_get_result
protocol_write_get_result-text key value dst flags filled short fits =
    let size = length-get_result_text key flags value in
    let header_len = get_header_len (length key) flags (length value) in
    let some_key : (length key == 0) ≡ false = ground arith in
    let not_long : ltb max_key_length (length key) ≡ false = ground arith in
    let representable : ltb (size_max - header_len - 2) (length value) ≡ false =
      ground (arith, size) in
    let text = get_result_text key flags value in
    rw
      (
        some_key,
        not_long,
        representable,
        ← size,
        take_all key,
        take_all value,
        emit_get_result-text key flags value dst,
      )
      (if-ltb-leb (length text) (length dst) _ _)
