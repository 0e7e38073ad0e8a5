-- ===== src/Flag.antt =====
-- src/flag.h and src/flag.c: the table of flags, the parts of an argument, and the lookup. A C string
-- is the list of its bytes before the NUL.
pub mod Split
pub mod Lookup
pub mod Values
use kvx.Common.{
  ℕ, zero, suc, ◌+◌, ◌-◌, ◌≡◌, Bool, true, false, Option, none, some, List, [], ◌∷◌, ◌++◌, Bytes,
  take, drop, length, get_or, run_length, ltb, ◌==◌, ◌||◌, not, if◌then◌else◌, codes, same_bytes,
}

pub data FlagType : Type 0 where
  t_i64 t_u64 t_bool t_str : FlagType

-- `dst` is the index of the variable that the flag sets.
pub record Flag : Type 0 where
  pub type : FlagType
  pub short_name : Option Bytes
  pub long_name : Option Bytes
  pub usage : Bytes
  pub dst : ℕ

pub record Arg : Type 0 where
  pub is_long : Bool
  pub name : Bytes
  pub name_len : ℕ
  pub value : Option Bytes

abbrev pub flag_max : ℕ
flag_max = 64

-- The table is the list of its `nflags` entries; none is `abort`.
unfoldable pub bind : List Flag → Flag → Option (List Flag)
bind flags f = if length flags == flag_max then none else some (flags ++ (f ∷ []))

-- The flags of each type: the table, the two names, the index of the variable and the usage.
unfoldable pub flag_i64 : List Flag → Option Bytes → Option Bytes → ℕ → Bytes → Option (List Flag)
flag_i64 flags short_name long_name dst usage = bind flags (record {
  type = t_i64;
  short_name = short_name;
  long_name = long_name;
  usage = usage;
  dst = dst;
})

unfoldable pub flag_u64 : List Flag → Option Bytes → Option Bytes → ℕ → Bytes → Option (List Flag)
flag_u64 flags short_name long_name dst usage = bind flags (record {
  type = t_u64;
  short_name = short_name;
  long_name = long_name;
  usage = usage;
  dst = dst;
})

unfoldable pub flag_bool : List Flag → Option Bytes → Option Bytes → ℕ → Bytes → Option (List Flag)
flag_bool flags short_name long_name dst usage = bind flags (record {
  type = t_bool;
  short_name = short_name;
  long_name = long_name;
  usage = usage;
  dst = dst;
})

unfoldable pub flag_str : List Flag → Option Bytes → Option Bytes → ℕ → Bytes → Option (List Flag)
flag_str flags short_name long_name dst usage = bind flags (record {
  type = t_str;
  short_name = short_name;
  long_name = long_name;
  usage = usage;
  dst = dst;
})

-- strchr: the bytes before the character and those behind it, or none.
abbrev pub split_at : ℕ → Bytes → Option (Bytes × Bytes)
split_at ch [] = none
split_at ch (c ∷ s) =
    let rest = split_at ch s in
    if c == ch
    then some ([], s)
    else elim rest [ none ↦ none | some pair ↦ some (c ∷ pair.0, pair.1) ]

-- '-' and '='.
abbrev pub dash : ℕ
dash = 45

abbrev pub equals_sign : ℕ
equals_sign = 61

abbrev pub split_name : Bool → Bytes → Arg
split_name is_long name = elim (split_at equals_sign name) [
  | none ↦ record { is_long = is_long; name = name; name_len = length name; value = none }
  | some (key, value) ↦ record {
    is_long = is_long;
    name = name;
    name_len = length key;
    value = some value;
  }
]

-- none is FLAG_ERR_FLAG_MALFORMED. strspn(raw, "-") is the length of the run of dashes.
unfoldable pub split_arg : Bytes → Option Arg
split_arg raw =
    let dashes = run_length (λ c. c == dash) raw in
    let out = split_name (dashes == 2) (drop dashes raw) in
    if not (dashes == 1 || dashes == 2) then none else if out.name_len == 0 then none else some out

-- strncmp(a, b, n) == 0.
abbrev pub strncmp_equal : Bytes → Bytes → ℕ → Bool
strncmp_equal a b zero = true
strncmp_equal [] [] (suc n) = true
strncmp_equal [] (d ∷ t) (suc n) = false
strncmp_equal (c ∷ s) [] (suc n) = false
strncmp_equal (c ∷ s) (d ∷ t) (suc n) =
    let rest = strncmp_equal s t n in if c == d then rest else false

unfoldable pub name_matches : Option Bytes → Arg → Bool
name_matches none arg = false
name_matches (some declared) arg =
    if strncmp_equal declared arg.name arg.name_len
    then get_or declared arg.name_len 0 == 0
    else false

abbrev pub declared_name : Flag → Arg → Option Bytes
declared_name f arg = if arg.is_long then f.long_name else f.short_name

unfoldable pub lookup : List Flag → Arg → Option Flag
lookup [] arg = none
lookup (f ∷ flags) arg =
    let rest = lookup flags arg in if name_matches (declared_name f arg) arg then some f else rest
