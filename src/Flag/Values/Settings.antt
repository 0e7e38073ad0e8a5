-- ===== src/Flag/Values/Settings.antt =====
-- A command line that sets flags by their long names.
use kvx.Common.{
  ℕ, zero, suc, ◌≤◌, ◌<◌, Bool-cases, inl, inr, ◌≡◌, refl, Bool, true, false, Option, none, some,
  List, [], ◌∷◌, Bytes, All, arith, length, if◌then◌else◌,
}
use kvx.Flag.{Flag, Arg, lookup}
use kvx.Flag.Split.{IsFlagName, written, with_value, split_arg-written}
use kvx.Flag.Values.{Value, set_value, is_bool, consume_flag, flag_loop, flag_parse}

-- What a user sets: the flag, its long name, the text of the value, the value, and whether it is
-- written behind an equals sign or as the next argument.
pub record Setting : Type 0 where
  pub flag : Flag
  pub name : Bytes
  pub text : Bytes
  pub value : Value
  pub inline : Bool

abbrev pub arg_of : Setting → Option Bytes → Arg
arg_of s value = record {
  is_long = true;
  name = with_value s.name value;
  name_len = length s.name;
  value = value;
}

abbrev pub written_setting : Setting → List Bytes → List Bytes
written_setting s rest =
    if s.inline
    then written true (with_value s.name (some s.text)) ∷ rest
    else written true (with_value s.name none) ∷ s.text ∷ rest

abbrev pub command_line : List Setting → List Bytes
command_line [] = []
command_line (s ∷ settings) = written_setting s (command_line settings)

abbrev pub writes_of : List Setting → List (ℕ × Value)
writes_of [] = []
writes_of (s ∷ settings) = (s.flag.dst, s.value) ∷ writes_of settings

-- The name can be written and names the flag, the text is a value of its type, and a Boolean flag has its
-- value behind an equals sign.
pub record IsSetting (flags : List Flag) (s : Setting) : Type 0 where
  pub named : IsFlagName s.name
  pub found : (value : Option Bytes) → lookup flags (arg_of s value) ≡ some s.flag
  pub valued : set_value s.flag.type s.text ≡ some s.value
  pub apart : s.inline ≡ false → is_bool s.flag.type ≡ false

flag_loop-written_setting :
    (fuel : ℕ) (flags : List Flag) (s : Setting) (rest : List Bytes)
    → IsSetting flags s
    → flag_loop (suc fuel) flags (written_setting s rest)
      ≡ ((s.flag.dst, s.value) ∷ (flag_loop fuel flags rest).0, (flag_loop fuel flags rest).1)
unfolding flag_loop consume_flag
flag_loop-written_setting fuel flags s rest h = elim (Bool-cases s.inline) [
  | inl e ↦
      rw
        (
          e,
          flag_loop,
          consume_flag,
          split_arg-written true s.name (some s.text) h.named,
          h.found (some s.text),
          h.valued,
        )
        refl
  | inr e ↦
      rw
        (
          e,
          flag_loop,
          consume_flag,
          split_arg-written true s.name none h.named,
          h.found none,
          h.apart e,
          h.valued,
        )
        refl
]

length-written_setting :
    (s : Setting) (rest : List Bytes) → length rest < length (written_setting s rest)
length-written_setting s rest = ground arith

flag_loop-command_line :
    (fuel : ℕ) (flags : List Flag) (settings : List Setting)
    → All (IsSetting flags) settings
    → length (command_line settings) ≤ fuel
    → flag_loop fuel flags (command_line settings) ≡ (writes_of settings, none)
unfolding flag_loop
flag_loop-command_line zero flags [] h enough = refl
flag_loop-command_line (suc fuel) flags [] h enough = refl
flag_loop-command_line zero flags (s ∷ settings) h enough =
    absurd (omega (arith, length-written_setting s (command_line settings)))
flag_loop-command_line (suc fuel) flags (s ∷ settings) (h, hs) enough =
    let rest =
      flag_loop-command_line fuel flags settings hs
        (omega (arith, length-written_setting s (command_line settings))) in
    rw (flag_loop-written_setting fuel flags s (command_line settings) h, rest) refl

-- Settings whose names can be written and name their flags, whose texts are values of the flags' types,
-- and of which a Boolean one has its value behind an equals sign: flag_parse reads their command
-- line without an error and writes exactly their values to their flags' variables, in their order.
pub flag_parse-command_line :
    (flags : List Flag) (settings : List Setting)
    → All (IsSetting flags) settings
    → flag_parse flags (command_line settings) ≡ (writes_of settings, none)
unfolding flag_parse
flag_parse-command_line flags settings h =
    flag_loop-command_line (length (command_line settings)) flags settings h (omega arith)
