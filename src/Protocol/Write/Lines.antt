-- ===== src/Protocol/Write/Lines.antt =====
-- The responses of one line: what a client finds in the destination, and what an error leaves there.
use native.Mathlib.Nat.{zero-add}
use kvx.Common.{
  if◌then◌else◌, ◌||◌, ◌==◌, ltb, ℕ, ◌+◌, ◌-◌, ◌≤◌, ◌≡◌, ◌≢◌, refl, ◌∙◌, ap, Bool, true, false,
  some, [], ◌∷◌, ◌++◌, append_assoc, arith, Bytes, codes, All, All-append, size_max, length, drop,
  length-append, length-drop, drop-length, inl, inr, ◌⊎◌,
}
use kvx.Protocol.Types.{
  buffer_too_small, invalid_arguments, ProtoError, ok, ResponseType, stored, not_stored, deleted,
  not_found, touched, error, client_error, server_error,
}
use kvx.Protocol.Line.{proto_find_line}
use kvx.Protocol.Line.Find.{IsLineByte, crlf}
use kvx.Protocol.Frame.Requests.Lines.{find_line-line}
use kvx.Protocol.Write.{
  is_null, Written, refuse, emit, proto_write_bytes, protocol_write_get_end,
  protocol_write_response, text_valid, proto_write_text_line, protocol_write_version,
  protocol_write_error,
}
use kvx.Protocol.Write.Laws.{emit-IsBehind, start-IsBehind, written_as, take_all}

-- The destination `dst` became `d`: a line of `count` bytes, its CR LF included, at the start, and
-- the old bytes behind it.
pub record IsOneLine (dst d : Bytes) (count : ℕ) : Type 0 where
  pub line : proto_find_line d ≡ ok (count - 2)
  pub ends : 2 ≤ count
  pub size : length d ≡ length dst
  pub rest : drop count d ≡ drop count dst

-- The call succeeded and wrote one line, or it failed, left the destination as it was and reported
-- no bytes.
abbrev pub WritesLine : Bytes → Written → Type 0
WritesLine dst w =
    ((d : Bytes) × (w.result ≡ ok tt) × (w.dst ≡ some d) × IsOneLine dst d w.count)
    ⊎ ((w.result ≢ ok tt) × (w.dst ≡ some dst) × (w.count ≡ 0))

IsOneLine-line :
    (text dst : Bytes)
    → All IsLineByte text
    → length text + 2 ≤ length dst
    → IsOneLine dst ((text ++ crlf) ++ drop (length (text ++ crlf)) dst) (length (text ++ crlf))
IsOneLine-line text dst h room =
    let size : length (text ++ crlf) ≡ length text + 2 = length-append text crlf in
    let rest = drop (length (text ++ crlf)) dst in
    record {
      line =
          ap proto_find_line (append_assoc text crlf rest)
          ∙ find_line-line text rest h
          ∙ ap ok (omega (arith, size));
      ends = omega (arith, size);
      size =
          omega (
            arith,
            size,
            length-append (text ++ crlf) rest,
            length-drop (length (text ++ crlf)) dst,
          );
      rest = drop-length (text ++ crlf) rest;
    }

refuse-WritesLine : (dst : Bytes) (e : ProtoError) → WritesLine dst (refuse (some dst) e)
refuse-WritesLine dst e = inr ((λ h. absurd (cc)), refl, refl)

if-WritesLine :
    (dst : Bytes) (test : Bool) (x y : Written)
    → (test ≡ true → WritesLine dst x)
    → (test ≡ false → WritesLine dst y)
    → WritesLine dst (if test then x else y)
if-WritesLine dst true x y f g = f refl
if-WritesLine dst false x y f g = g refl

success-WritesLine :
    (text dst d : Bytes) (count : ℕ)
    → d ≡ (text ++ crlf) ++ drop (length (text ++ crlf)) dst
    → count ≡ length (text ++ crlf)
    → All IsLineByte text
    → length text + 2 ≤ length dst
    → WritesLine dst (record { result = ok tt; dst = some d; count = count })
success-WritesLine text dst d count e n h room =
    inl (d, refl, refl, rw (e, n) (IsOneLine-line text dst h room))

proto_write_bytes-WritesLine :
    (text dst : Bytes)
    → All IsLineByte text
    → WritesLine dst (proto_write_bytes (some dst) (length dst) (text ++ crlf))
unfolding proto_write_bytes
proto_write_bytes-WritesLine text dst h =
    if-WritesLine dst (ltb (length dst) (length (text ++ crlf))) _ _
      (λ _. refuse-WritesLine dst buffer_too_small)
      (λ room.
        success-WritesLine text dst _ _ (rw zero-add) refl h
          (ground (arith, length-append text crlf)))

text_valid-IsLineByte : (s : Bytes) → text_valid s ≡ true → All IsLineByte s
unfolding text_valid
text_valid-IsLineByte [] h = tt
text_valid-IsLineByte (c ∷ s) h = ground (arith, text_valid-IsLineByte s)

write_text_line-WritesLine :
    (prefix text dst : Bytes)
    → All IsLineByte prefix
    → WritesLine dst
        (proto_write_text_line (some dst) (length dst) prefix (some text) (length text))
unfolding proto_write_text_line
write_text_line-WritesLine prefix text dst h =
    let line = prefix ++ text in
    let size = length-append prefix text in
    let copied =
      written_as {text = line ++ crlf}
        (emit-IsBehind crlf (emit-IsBehind text (emit-IsBehind prefix (start-IsBehind dst))))
        refl in
    let total = length prefix + length text + 2 in
    let no_text =
      is_null (some text)
      || (length text == 0 || ltb (size_max - length prefix - 2) (length text)) in
    let bad = refuse (some dst) invalid_arguments in
    let done : Written = record {
      result = ok tt;
      dst = some (emit crlf (emit text (emit prefix (dst, 0)))).0;
      count = total;
    } in
    let last = if text_valid text then done else bad in
    let small = refuse (some dst) buffer_too_small in
    rw (take_all text) (
      if-WritesLine dst no_text bad (if ltb (length dst) total then small else last)
        (λ _. refuse-WritesLine dst invalid_arguments)
        (λ _.
          if-WritesLine dst (ltb (length dst) total) small last
            (λ _. refuse-WritesLine dst buffer_too_small)
            (λ room.
              if-WritesLine dst (text_valid text) done bad
                (λ valid.
                  success-WritesLine line dst _ total copied
                    (omega (arith, size, length-append line crlf))
                    (All-append IsLineByte prefix text h (text_valid-IsLineByte text valid))
                    (ground (arith, size)))
                (λ _. refuse-WritesLine dst invalid_arguments))))

response-WritesLine :
    (dst : Bytes) (type : ResponseType)
    → WritesLine dst (protocol_write_response (some dst) (length dst) type)
unfolding protocol_write_response
response-WritesLine dst stored = proto_write_bytes-WritesLine (codes "STORED") dst (omega arith)
response-WritesLine dst not_stored =
    proto_write_bytes-WritesLine (codes "NOT_STORED") dst (omega arith)
response-WritesLine dst deleted = proto_write_bytes-WritesLine (codes "DELETED") dst (omega arith)
response-WritesLine dst not_found =
    proto_write_bytes-WritesLine (codes "NOT_FOUND") dst (omega arith)
response-WritesLine dst touched = proto_write_bytes-WritesLine (codes "TOUCHED") dst (omega arith)
response-WritesLine dst error = proto_write_bytes-WritesLine (codes "ERROR") dst (omega arith)
response-WritesLine dst client_error = refuse-WritesLine dst invalid_arguments
response-WritesLine dst server_error = refuse-WritesLine dst invalid_arguments

error-WritesLine :
    (dst text : Bytes) (type : ResponseType)
    → WritesLine dst (protocol_write_error (some dst) (length dst) type (some text) (length text))
unfolding protocol_write_error
error-WritesLine dst text client_error =
    write_text_line-WritesLine (codes "CLIENT_ERROR ") text dst (omega arith)
error-WritesLine dst text server_error =
    write_text_line-WritesLine (codes "SERVER_ERROR ") text dst (omega arith)
error-WritesLine dst text _ = refuse-WritesLine dst invalid_arguments

-- `protocol_write_response` for every type, `protocol_write_get_end`, `protocol_write_version` and
-- `protocol_write_error` for every type, text and capacity: a call that succeeds has written one line
-- to the start of the destination, whose CR LF `proto_find_line` finds at its end, has kept the bytes
-- behind it and reports its length; a call that fails leaves the destination as it was and reports
-- no bytes.
pub writers-WritesLine :
    (dst text : Bytes) (type : ResponseType)
    → WritesLine dst (protocol_write_response (some dst) (length dst) type)
      × WritesLine dst (protocol_write_get_end (some dst) (length dst))
      × WritesLine dst (protocol_write_version (some dst) (length dst) (some text) (length text))
      × WritesLine dst (protocol_write_error (some dst) (length dst) type (some text) (length text))
unfolding protocol_write_get_end protocol_write_version
writers-WritesLine dst text type = (
  response-WritesLine dst type,
  proto_write_bytes-WritesLine (codes "END") dst (omega arith),
  write_text_line-WritesLine (codes "VERSION ") text dst (omega arith),
  error-WritesLine dst text type,
)
