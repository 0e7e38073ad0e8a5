-- ===== src/Flag/Values.antt =====
-- The values of flags, `consume_flag` and `flag_parse` of src/flag.c.
pub mod Settings
use kvx.Common.{
  ℕ, zero, suc, ◌+◌, ◌-◌, ◌*◌, ◌^◌, ◌⊎◌, inl, inr, Bool, true, false, ◌&&◌, ◌||◌, not, Option, none,
  some, List, [], ◌∷◌, Bytes, codes, drop, length, run_length, ltb, leb, ◌==◌, if◌then◌else◌,
  same_bytes, get_or,
}
use kvx.Flag.{Flag, FlagType, t_i64, t_u64, t_bool, t_str, Arg, split_arg, lookup}

pub data FlagErr : Type 0 where
  flag_malformed unknown_flag missing_value invalid_value : FlagErr

-- An `int64_t` is its sign, true where it is negative, and its magnitude.
pub data Value : Type 0 where
  i64 : Bool → ℕ → Value
  u64 : ℕ → Value
  boolean : Bool → Value
  str : Bytes → Value

abbrev pub isdigit : ℕ → Bool
isdigit c = leb 48 c && leb c 57

abbrev pub isspace : ℕ → Bool
isspace c = c == 32 || (leb 9 c && leb c 13)

-- The number that digits spell up to the end of the string; none where another byte stops it.
abbrev pub read_digits : Bytes → ℕ → Option ℕ
read_digits [] acc = some acc
read_digits (c ∷ s) acc =
    let rest = read_digits s (acc * 10 + (c - 48)) in if isdigit c then rest else none

-- At least one digit.
abbrev pub read_number : Bytes → Option ℕ
read_number s = if isdigit (get_or s 0 0) then read_digits s 0 else none

abbrev pub signed : Bool → ℕ → Option ℕ → Option Value
signed negative limit none = none
signed negative limit (some x) = if ltb limit x then none else some (i64 negative x)

-- strtoimax skips white space and takes a sign; ERANGE is a value that `intmax_t` does not hold.
unfoldable pub parse_i64 : Bytes → Option Value
parse_i64 v =
    let text = drop (run_length isspace v) v in
    if get_or text 0 0 == 45
    then signed true (2 ^ 63) (read_number (drop 1 text))
    else if get_or text 0 0 == 43
    then signed false (2 ^ 63 - 1) (read_number (drop 1 text))
    else signed false (2 ^ 63 - 1) (read_number text)

abbrev pub unsigned : Option ℕ → Option Value
unsigned none = none
unsigned (some x) = if ltb (2 ^ 64 - 1) x then none else some (u64 x)

unfoldable pub parse_u64 : Bytes → Option Value
parse_u64 v = unsigned (read_number v)

unfoldable pub parse_bool : Bytes → Option Value
parse_bool v =
    if same_bytes v (codes "true")
    then some (boolean true)
    else if same_bytes v (codes "false")
    then some (boolean false)
    else none

-- none is FLAG_ERR_INVALID_VALUE.
unfoldable pub set_value : FlagType → Bytes → Option Value
set_value t_i64 v = parse_i64 v
set_value t_u64 v = parse_u64 v
set_value t_bool v = parse_bool v
set_value t_str v = some (str v)

-- A write of a value to the variable of a flag, and the arguments that are left.
abbrev pub Consumed : Type 0
Consumed = FlagErr ⊎ ((ℕ × Value) × List Bytes)

abbrev pub write_value : Flag → Bytes → List Bytes → Consumed
write_value f v rest = elim (set_value f.type v) [
  | none ↦ inl invalid_value
  | some value ↦ inr ((f.dst, value), rest)
]

abbrev pub is_bool : FlagType → Bool
is_bool t_bool = true
is_bool _ = false

-- The next argument as the value.
abbrev pub next_value : Flag → List Bytes → Consumed
next_value f [] = inl missing_value
next_value f (value ∷ rest) = write_value f value rest

abbrev pub take_value : Flag → Option Bytes → List Bytes → Consumed
take_value f (some value) rest = write_value f value rest
take_value f none rest =
    if is_bool f.type then write_value f (codes "true") rest else next_value f rest

-- The arguments are argv[*i], which is there, and those behind it.
unfoldable pub consume_flag : List Flag → Bytes → List Bytes → Consumed
consume_flag flags raw rest = elim (split_arg raw) [
  | none ↦ inl flag_malformed
  | some arg ↦ elim (lookup flags arg) [
    | none ↦ inl unknown_flag
    | some f ↦ take_value f arg.value rest
  ]
]

-- The writes in their order, and the error that stopped the loop. The first argument is the fuel.
unfoldable pub flag_loop : ℕ → List Flag → List Bytes → List (ℕ × Value) × Option FlagErr
flag_loop zero flags args = ([], none)
flag_loop (suc fuel) flags [] = ([], none)
flag_loop (suc fuel) flags (raw ∷ rest) = elim (consume_flag flags raw rest) [
  | inl err ↦ ([], some err)
  | inr (write, left) ↦ let (writes, err) = flag_loop fuel flags left in (write ∷ writes, err)
]

-- The arguments behind argv[0]. Each round takes one at least.
unfoldable pub flag_parse : List Flag → List Bytes → List (ℕ × Value) × Option FlagErr
flag_parse flags args = flag_loop (length args) flags args
