-- ===== src/Protocol/Numbers.antt =====
-- `proto_parse_uint` and `proto_format_uint` of src/protocol.c; the laws are in the two children.
pub mod Parse
pub mod RoundTrip
use kvx.Common.{
  ℕ, zero, suc, ◌+◌, ◌-◌, ◌*◌, ◌/◌, ◌%◌, ◌^◌, ◌&&◌, ◌||◌, Option, none, some, [], ◌∷◌, Bytes, ltb,
  ◌==◌, if◌then◌else◌,
}

-- The loop over the bytes of the token; the product and the sum are computed in uint64_t.
parse_digits : ℕ → Bytes → ℕ → Option ℕ
parse_digits limit [] value = some value
parse_digits limit (ch ∷ rest) value =
    let digit = ch - b'0' in
    if ltb ch b'0' || ltb b'9' ch
    then none
    else if ltb (limit / 10) value || (value == limit / 10 && ltb (limit % 10) digit)
    then none
    else parse_digits limit rest ((value * 10 + digit) % 2 ^ 64)

-- `none` is the result `false`.
unfoldable pub proto_parse_uint : Bytes → ℕ → Option ℕ
unfolding parse_digits
proto_parse_uint [] limit = none
proto_parse_uint (ch ∷ rest) limit = parse_digits limit (ch ∷ rest) 0

-- The do-while loop: `out` is what stands from `end` on. The first argument is the fuel.
format_digits : ℕ → ℕ → Bytes → Bytes
format_digits zero value out = out
format_digits (suc fuel) value out =
    let written = (b'0' + value % 10) ∷ out in
    let rest = format_digits fuel (value / 10) written in if value / 10 == 0 then written else rest

-- The bytes from the returned pointer to the end of the scratch space.
unfoldable pub proto_format_uint : ℕ → Bytes
unfolding format_digits
proto_format_uint value = format_digits (suc value) value []
