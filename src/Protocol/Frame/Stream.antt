-- ===== src/Protocol/Frame/Stream.antt =====
-- `protocol_parse_command` on a stream: what its answers say of the bytes read so far, and that its
-- final answers stay when more bytes arrive.
use kvx.Common.{
  ℕ, ◌+◌, ◌-◌, ◌≤◌, ◌≡◌, ◌≢◌, ◌⊎◌, inl, inr, refl, ◌++◌, arith, Bytes, slice, length, take,
  length-append, get_or-append, take-append, slice_two,
}
use kvx.Protocol.Types.{Command, zero_command, Result-cases, >>=-eq-ok, ok, err, ◌>>=◌, incomplete}
use kvx.Protocol.Line.{proto_find_line}
use kvx.Protocol.Line.Find.{crlf, find_line_fits, proto_find_line-append, proto_find_line_iff}
use kvx.Protocol.Header.{proto_parse_header}
use kvx.Protocol.Frame.{
  proto_parse_body, read_body, parse_line, parse_frame, protocol_parse_command,
}

proto_parse_body-append :
    (b more : Bytes) (cmd : Command) (offset : ℕ)
    → offset ≤ length b
    → proto_parse_body b cmd offset ≢ err incomplete
    → proto_parse_body (b ++ more) cmd offset ≡ proto_parse_body b cmd offset
unfolding proto_parse_body
proto_parse_body-append b more cmd offset fits h = ground (
  arith,
  length-append b more,
  get_or-append b more (offset + cmd.value_len) 0,
  get_or-append b more (offset + cmd.value_len + 1) 0,
)

read_body-append :
    (b more : Bytes) (line_len : ℕ) (parsed : Command)
    → line_len + 2 ≤ length b
    → read_body b line_len parsed ≢ err incomplete
    → read_body (b ++ more) line_len parsed ≡ read_body b line_len parsed
unfolding read_body
read_body-append b more line_len parsed fits h =
    ground (arith, proto_parse_body-append b more parsed (line_len + 2))

parse_line-append :
    (b more : Bytes) (line_len : ℕ)
    → line_len + 2 ≤ length b
    → parse_line b line_len ≢ err incomplete
    → parse_line (b ++ more) line_len ≡ parse_line b line_len
unfolding parse_line
parse_line-append b more line_len fits h =
    rw (take-append line_len b more (omega arith))
      (elim (Result-cases (proto_parse_header (take line_len b) zero_command)) [
        | inl (parsed, e) ↦
            rw (e, ◌>>=◌) (read_body-append b more line_len parsed fits (rw (e, ◌>>=◌) at h))
        | inr (e', e) ↦ rw (e, ◌>>=◌)
      ])

parse_frame-append :
    (b more : Bytes) → parse_frame b ≢ err incomplete → parse_frame (b ++ more) ≡ parse_frame b
unfolding parse_frame
parse_frame-append b more h = elim (Result-cases (proto_find_line b)) [
  | inl (i, e) ↦
      rw (proto_find_line-append b more (λ e'. absurd (cc)), e, ◌>>=◌)
        (parse_line-append b more i (find_line_fits b i e) (rw (e, ◌>>=◌) at h))
  | inr (e', e) ↦ rw (proto_find_line-append b more (λ e''. h (rw (e'', ◌>>=◌))), e, ◌>>=◌)
]

proto_parse_body_bounds :
    (b : Bytes) (parsed : Command) (offset : ℕ) {cmd : Command} {consumed : ℕ}
    → offset ≤ length b
    → proto_parse_body b parsed offset ≡ ok (cmd, consumed)
    → (2 ≤ consumed) × (consumed ≤ length b) × (slice b (consumed - 2) 2 ≡ crlf)
unfolding proto_parse_body
proto_parse_body_bounds b parsed offset fits h =
    let value_end = offset + parsed.value_len in ground (arith, slice_two b value_end 0)

read_body_bounds :
    (b : Bytes) (line_len : ℕ) (parsed : Command) {cmd : Command} {consumed : ℕ}
    → line_len + 2 ≤ length b
    → slice b line_len 2 ≡ crlf
    → read_body b line_len parsed ≡ ok (cmd, consumed)
    → (2 ≤ consumed) × (consumed ≤ length b) × (slice b (consumed - 2) 2 ≡ crlf)
unfolding read_body
read_body_bounds b line_len parsed {cmd} {consumed} fits end h =
    ground
      (arith, proto_parse_body_bounds b parsed (line_len + 2) {cmd = cmd} {consumed = consumed})

-- A frame ends in CR LF, within the bytes read.
pub parse_frame_bounds :
    (b : Bytes) {cmd : Command} {consumed : ℕ}
    → parse_frame b ≡ ok (cmd, consumed)
    → (2 ≤ consumed) × (consumed ≤ length b) × (slice b (consumed - 2) 2 ≡ crlf)
unfolding parse_frame parse_line
parse_frame_bounds b h =
    let (i, found, rest) = >>=-eq-ok (proto_find_line b) (parse_line b) h in
    let (parsed, header, body) = >>=-eq-ok _ (read_body b i) rest in
    read_body_bounds b i parsed (find_line_fits b i found) ((proto_find_line_iff b i).0 found).1
      body

-- Every call returns a frame that ends in CR LF within the bytes read, or an error that leaves
-- `*cmd` as it was and reports no bytes.
pub protocol_parse_command_outcome :
    (b : Bytes) (cmd : Command)
    → let o = protocol_parse_command b cmd in
      ((o.result ≡ ok tt)
        × (2 ≤ o.consumed)
        × (o.consumed ≤ length b)
        × (slice b (o.consumed - 2) 2 ≡ crlf))
      ⊎ ((o.result ≢ ok tt) × (o.cmd ≡ cmd) × (o.consumed ≡ 0))
unfolding protocol_parse_command
protocol_parse_command_outcome b cmd = elim (Result-cases (parse_frame b)) [
  | inl ((parsed, consumed), e) ↦
      let (low, high, end) = parse_frame_bounds b e in
      inl (rw (e, protocol_parse_command) (refl, low, high, end))
  | inr (e', e) ↦ inr (rw (e, protocol_parse_command) ((λ h. absurd (cc)), refl, refl))
]

-- An answer other than PROTO_ERR_INCOMPLETE is final: whatever bytes follow, the result, the command
-- and the length of the frame stay the same.
pub protocol_parse_command-append :
    (b more : Bytes) (cmd : Command)
    → (protocol_parse_command b cmd).result ≢ err incomplete
    → protocol_parse_command (b ++ more) cmd ≡ protocol_parse_command b cmd
unfolding protocol_parse_command
protocol_parse_command-append b more cmd h =
    rw (parse_frame-append b more (λ e. h (rw (e, protocol_parse_command))), protocol_parse_command)
