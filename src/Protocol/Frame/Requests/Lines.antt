-- ===== src/Protocol/Frame/Requests/Lines.antt =====
-- The command line of a request is a line: `proto_find_line` finds its end.
use kvx.Common.{
  ℕ, ◌<◌, ◌≡◌, ◌≢◌, Bool, true, false, List, [], ◌∷◌, ◌++◌, arith, Bytes, All, length, take-length,
  drop-length, All-append,
}
use kvx.Protocol.Types.{ok}
use kvx.Protocol.Numbers.Parse.{IsDigit}
use kvx.Protocol.Numbers.{proto_format_uint}
use kvx.Protocol.Numbers.RoundTrip.{proto_format_uint-All}
use kvx.Protocol.Line.{proto_find_line}
use kvx.Protocol.Line.Find.{IsLineByte, crlf, proto_find_line_iff}
use kvx.Protocol.Header.Words.{spaced}
use kvx.Protocol.Frame.Requests.{
  Request, store, touch, delete, version, quit, quiet, name, arguments, line, IsRequest,
}

-- No part of the command line ends it.
digits-IsLine : (s : Bytes) → All IsDigit s → All IsLineByte s
digits-IsLine [] h = tt
digits-IsLine (c ∷ s) h = ((omega arith, omega arith), digits-IsLine s h.1)

format_uint-IsLine : (n : ℕ) → All IsLineByte (proto_format_uint n)
format_uint-IsLine n = digits-IsLine (proto_format_uint n) (proto_format_uint-All n)

pub key_bytes-IsLine : (k : Bytes) → All (λ c. (0x20 < c) × (c ≢ 0x7f)) k → All IsLineByte k
key_bytes-IsLine [] h = tt
key_bytes-IsLine (c ∷ k) h = ((omega arith, omega arith), key_bytes-IsLine k h.1)

quiet-IsLine : (noreply : Bool) → All (All IsLineByte) (quiet noreply)
quiet-IsLine true = omega arith
quiet-IsLine false = tt

arguments-IsLine : (r : Request) → IsRequest r → All (All IsLineByte) (arguments r)
arguments-IsLine (store key flags exptime value noreply) h = (
  key_bytes-IsLine key (h.0).bytes,
  (
    format_uint-IsLine flags,
    (format_uint-IsLine exptime, (format_uint-IsLine (length value), quiet-IsLine noreply)),
  ),
)
arguments-IsLine (touch key exptime noreply) h =
    (key_bytes-IsLine key (h.0).bytes, (format_uint-IsLine exptime, quiet-IsLine noreply))
arguments-IsLine (delete key noreply) h = (key_bytes-IsLine key h.bytes, quiet-IsLine noreply)
arguments-IsLine version h = tt
arguments-IsLine quit h = tt

pub spaced-IsLine : (ws : List Bytes) → All (All IsLineByte) ws → All IsLineByte (spaced ws)
spaced-IsLine [] h = tt
spaced-IsLine (w ∷ ws) h =
    ((omega arith, omega arith), All-append IsLineByte w (spaced ws) h.0 (spaced-IsLine ws h.1))

name-IsLine : (r : Request) → All IsLineByte (name r)
name-IsLine (store key flags exptime value noreply) = omega arith
name-IsLine (touch key exptime noreply) = omega arith
name-IsLine (delete key noreply) = omega arith
name-IsLine version = omega arith
name-IsLine quit = omega arith

pub line-IsLine : (r : Request) → IsRequest r → All IsLineByte (line r)
line-IsLine r h =
    All-append IsLineByte (name r) (spaced (arguments r)) (name-IsLine r)
      (spaced-IsLine (arguments r) (arguments-IsLine r h))

pub find_line-line :
    (text rest : Bytes)
    → All IsLineByte text
    → proto_find_line (text ++ (crlf ++ rest)) ≡ ok (length text)
find_line-line text rest h =
    (proto_find_line_iff (text ++ (crlf ++ rest)) (length text)).1
      (rw (take-length text (crlf ++ rest)) h, rw (drop-length text (crlf ++ rest)))
