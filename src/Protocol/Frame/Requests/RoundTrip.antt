-- ===== src/Protocol/Frame/Requests/RoundTrip.antt =====
-- `protocol_parse_command` reads the frame of a request back.
use kvx.Common.{
  ℕ, ◌+◌, ◌≤◌, ◌≡◌, refl, ap, ◌∙◌, true, [], ◌++◌, arith, Bytes, length, length-append,
  append_assoc, some, size_max, take-length, get_or-append_right,
}
use kvx.Protocol.Types.{Command, ◌>>=◌, ok}
use kvx.Protocol.Line.Find.{crlf}
use kvx.Protocol.Frame.{
  proto_parse_body, read_body, has_body, parse_line, parse_frame, protocol_parse_command,
}
use kvx.Protocol.Frame.Requests.Header.{proto_parse_header-line}
use kvx.Protocol.Frame.Requests.Lines.{line-IsLine, find_line-line}
use kvx.Protocol.Frame.Requests.{
  Request, store, touch, delete, version, quit, line, block, frame, header, command, IsRequest,
}

-- The data block behind `before`.
parse_body-block :
    (before value rest : Bytes) (cmd : Command)
    → cmd.value_len ≡ length value
    → length before + length value + 2 ≤ size_max
    → proto_parse_body (before ++ (value ++ (crlf ++ rest))) cmd (length before)
      ≡ ok (record cmd { value = some (length before) }, length before + length value + 2)
unfolding proto_parse_body
parse_body-block before value rest cmd e fits =
    let end = λ (i : ℕ).
      get_or-append_right before (value ++ (crlf ++ rest)) (length value + i) 0
      ∙ get_or-append_right value (crlf ++ rest) i 0 in
    ground (
      arith,
      end 0,
      end 1,
      length-append before (value ++ (crlf ++ rest)),
      length-append value (crlf ++ rest),
    )

-- A frame with a data block, and one without.
read_body-value :
    (text value more : Bytes) (cmd : Command)
    → has_body cmd.type ≡ true
    → cmd.value_len ≡ length value
    → length (text ++ (crlf ++ (value ++ crlf))) ≤ size_max
    → read_body (text ++ (crlf ++ ((value ++ crlf) ++ more))) (length text) cmd
      ≡ ok (
        record cmd { value = some (length text + 2) },
        length (text ++ (crlf ++ (value ++ crlf))),
      )
unfolding read_body
read_body-value text value more cmd type len fits =
    let before = length-append text crlf in
    let size : length (text ++ (crlf ++ (value ++ crlf))) ≡ length text + 2 + length value + 2 =
      omega (arith, length-append text (crlf ++ (value ++ crlf)), length-append value crlf) in
    let body = parse_body-block (text ++ crlf) value more cmd len (omega (arith, before, size)) in
    rw (type, size, append_assoc value crlf more, ← append_assoc text crlf) (rw before at body)

pub length-line_end : (text : Bytes) → length text + 2 ≡ length (text ++ (crlf ++ []))
length-line_end text = omega (arith, length-append text (crlf ++ []))

read_body-frame :
    (r : Request) (more : Bytes)
    → length (frame r) ≤ size_max
    → read_body (line r ++ (crlf ++ (block r ++ more))) (length (line r)) (header r)
      ≡ ok (command r, length (frame r))
unfolding read_body
read_body-frame (store key flags exptime value noreply) more fits =
    let r : Request = store key flags exptime value noreply in
    read_body-value (line r) value more (header r) refl refl fits
read_body-frame (touch key exptime noreply) more fits =
    let r : Request = touch key exptime noreply in
    ap (λ n. ok (header r, n)) (length-line_end (line r))
read_body-frame (delete key noreply) more fits =
    let r : Request = delete key noreply in ap (λ n. ok (header r, n)) (length-line_end (line r))
read_body-frame version more fits = refl
read_body-frame quit more fits = refl

parse_frame-frame :
    (r : Request) (more : Bytes)
    → IsRequest r
    → length (frame r) ≤ size_max
    → parse_frame (line r ++ (crlf ++ (block r ++ more))) ≡ ok (command r, length (frame r))
unfolding parse_frame parse_line
parse_frame-frame r more valid fits =
    let text = line r in
    rw (find_line-line text (block r ++ more) (line-IsLine r valid), ◌>>=◌)
      (rw (take-length text (crlf ++ (block r ++ more)), proto_parse_header-line r valid, ◌>>=◌)
        (read_body-frame r more fits))

-- What a client sends for a request is read as one frame, whatever bytes follow: the call succeeds,
-- stores the request's key, numbers and noreply in `*cmd` and reports the length of the frame.
pub protocol_parse_command-frame :
    (r : Request) (more : Bytes) (cmd : Command)
    → IsRequest r
    → length (frame r) ≤ size_max
    → protocol_parse_command (frame r ++ more) cmd
      ≡ record { result = ok tt; cmd = command r; consumed = length (frame r) }
unfolding protocol_parse_command
protocol_parse_command-frame r more cmd valid fits = rw (
  append_assoc (line r) (crlf ++ block r) more,
  parse_frame-frame r more valid fits,
  protocol_parse_command,
)
