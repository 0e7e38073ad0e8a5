-- ===== src/Protocol/Line.antt =====
-- `proto_find_line` of src/protocol.c; its laws are in the child.
pub mod Find
use kvx.Common.{ℕ, ◌+◌, [], ◌∷◌, Bytes, ◌==◌, if◌then◌else◌}
use kvx.Protocol.Types.{Result, ok, err, incomplete, expected_crlf}

abbrev pub carriage_return : ℕ
carriage_return = 13

abbrev pub line_feed : ℕ
line_feed = 10

-- The test of `b[i + 1]`, behind the carriage return at `i`.
after_return : Bytes → ℕ → Result ℕ
after_return [] i = err incomplete
after_return (d ∷ rest) i = if d == line_feed then ok i else err expected_crlf

-- The loop from index `i` on, over the bytes that stand there.
find_line_from : Bytes → ℕ → Result ℕ
unfolding after_return
find_line_from [] i = err incomplete
find_line_from (c ∷ rest) i =
    if c == line_feed
    then err expected_crlf
    else if c == carriage_return
    then after_return rest i
    else find_line_from rest (i + 1)

unfoldable pub proto_find_line : Bytes → Result ℕ
unfolding find_line_from
proto_find_line b = find_line_from b 0
