-- ===== src/Flag/Split.antt =====
-- The parts of an argument that a user writes.
use kvx.Common.{
  ℕ, suc, ◌≡◌, ◌≢◌, refl, Bool, true, false, Option, none, some, [], ◌∷◌, ◌++◌, Bytes, All, arith,
  length, ◌==◌, if◌then◌else◌,
}
use kvx.Flag.{split_at, split_name, split_arg, dash, equals_sign}

pub split_at-append :
    (ch : ℕ) (key value : Bytes)
    → All (λ c. c ≢ ch) key
    → split_at ch (key ++ (ch ∷ value)) ≡ some (key, value)
split_at-append ch [] value h = ground arith
split_at-append ch (c ∷ key) value (h, hs) =
    let e : (c == ch) ≡ false = ground arith in rw (e, split_at-append ch key value hs) refl

pub split_at-absent : (ch : ℕ) (key : Bytes) → All (λ c. c ≢ ch) key → split_at ch key ≡ none
split_at-absent ch [] h = refl
split_at-absent ch (c ∷ key) (h, hs) =
    let e : (c == ch) ≡ false = ground arith in rw (e, split_at-absent ch key hs) refl

-- Neither empty nor with a leading dash nor with an equals sign.
abbrev pub IsFlagName : Bytes → Type 0
IsFlagName [] = true ≡ false
IsFlagName (c ∷ s) = (c ≢ dash) × All (λ d. d ≢ equals_sign) (c ∷ s)

abbrev pub with_value : Bytes → Option Bytes → Bytes
with_value name none = name
with_value name (some value) = name ++ (equals_sign ∷ value)

abbrev pub written : Bool → Bytes → Bytes
written false text = dash ∷ text
written true text = dash ∷ dash ∷ text

split_name-with_value :
    (is_long : Bool) (name : Bytes) (value : Option Bytes)
    → All (λ d. d ≢ equals_sign) name
    → split_name is_long (with_value name value) ≡ record {
      is_long = is_long;
      name = with_value name value;
      name_len = length name;
      value = value;
    }
split_name-with_value is_long name none h = rw (split_name, split_at-absent equals_sign name h) refl
split_name-with_value is_long name (some value) h =
    rw (split_name, split_at-append equals_sign name value h) refl

-- Behind one or two dashes, the text splits at its first equals sign.
split_arg-text :
    (is_long : Bool) (c : ℕ) (text : Bytes)
    → c ≢ dash
    → let out = split_name is_long (c ∷ text) in
      split_arg (written is_long (c ∷ text)) ≡ (if out.name_len == 0 then none else some out)
unfolding split_arg
split_arg-text false c text h = let ends : (c == dash) ≡ false = ground arith in rw ends refl
split_arg-text true c text h = let ends : (c == dash) ≡ false = ground arith in rw ends refl

-- A name that is not empty, has no leading dash and no equals sign, written behind one or two dashes
-- and with a value behind an equals sign or without one, is split into its parts.
pub split_arg-written :
    (is_long : Bool) (name : Bytes) (value : Option Bytes)
    → IsFlagName name
    → split_arg (written is_long (with_value name value))
      ≡ some (record {
        is_long = is_long;
        name = with_value name value;
        name_len = length name;
        value = value;
      })
split_arg-written is_long [] value h = absurd (ground arith)
split_arg-written is_long (c ∷ s) none (h, hs) =
    let named : (suc (length s) == 0) ≡ false = ground arith in
    rw (split_arg-text is_long c s h, split_name-with_value is_long (c ∷ s) none hs, named) refl
split_arg-written is_long (c ∷ s) (some value) (h, hs) =
    let named : (suc (length s) == 0) ≡ false = ground arith in
    rw
      (
        split_arg-text is_long c (s ++ (equals_sign ∷ value)) h,
        split_name-with_value is_long (c ∷ s) (some value) hs,
        named,
      )
      refl
