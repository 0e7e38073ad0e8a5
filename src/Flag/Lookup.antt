-- ===== src/Flag/Lookup.antt =====
-- Which flag an argument names.
use kvx.Common.{
  ℕ, zero, suc, ◌≤◌, ◌≡◌, ◌≢◌, ◌↔◌, refl, sym, ap, ◌∙◌, Bool, true, false, Option, take_all,
  take-length, length-append, none, some, List, [], ◌∷◌, ◌++◌, Bytes, All, arith, length, take,
  get_or, ◌==◌, if◌then◌else◌, Bool-cases, inl, inr,
}
use kvx.Flag.Split.{IsFlagName, written, with_value, split_arg-written}
use kvx.Flag.{Flag, Arg, split_arg, equals_sign, name_matches, declared_name, lookup, strncmp_equal}

strncmp-names :
    (declared name : Bytes) (n : ℕ)
    → All (λ c. c ≢ 0) declared
    → n ≤ length name
    → ((if strncmp_equal declared name n then get_or declared n 0 == 0 else false) ≡ true)
      ↔ (declared ≡ take n name)
strncmp-names [] name zero h within = ground arith
strncmp-names (c ∷ s) name zero (h, hs) within = ground arith
strncmp-names [] [] (suc n) h within = absurd (omega arith)
strncmp-names [] (d ∷ t) (suc n) h within = ground arith
strncmp-names (c ∷ s) [] (suc n) h within = absurd (omega arith)
strncmp-names (c ∷ s) (d ∷ t) (suc n) (h, hs) within =
    ground (arith, strncmp-names s t n hs (omega arith))

-- A declared name without a NUL, against an argument whose name has at least `name_len` bytes:
-- name_matches holds exactly where the declared name is the first `name_len` bytes of it.
pub name_matches_iff :
    (declared : Bytes) (arg : Arg)
    → All (λ c. c ≢ 0) declared
    → arg.name_len ≤ length arg.name
    → (name_matches (some declared) arg ≡ true) ↔ (declared ≡ take arg.name_len arg.name)
unfolding name_matches
name_matches_iff declared arg h within = strncmp-names declared arg.name arg.name_len h within

-- A declared name is a C string.
abbrev pub NulFree : Option Bytes → Type 0
NulFree none = Unit
NulFree (some s) = All (λ c. c ≢ 0) s

abbrev pub CleanNames : Flag → Type 0
CleanNames f = NulFree f.short_name × NulFree f.long_name

-- The name behind so many dashes.
abbrev pub name_behind : Bool → Flag → Option Bytes
name_behind is_long f = if is_long then f.long_name else f.short_name

behind-NulFree : (is_long : Bool) (f : Flag) → CleanNames f → NulFree (name_behind is_long f)
behind-NulFree true f (short, long) = long
behind-NulFree false f (short, long) = short

-- The result is the first flag that has the name, or none where no flag has it.
abbrev pub FirstNamed : Bool → Bytes → List Flag → Option Flag → Type 0
FirstNamed is_long name flags none = All (λ g. name_behind is_long g ≢ some name) flags
FirstNamed is_long name flags (some f) =
    (before : List Flag) × (after : List Flag) × (flags ≡ before ++ (f ∷ after))
    × (name_behind is_long f ≡ some name)
    × All (λ g. name_behind is_long g ≢ some name) before

module _ (arg : Arg) (name : Bytes) (named : take arg.name_len arg.name ≡ name)
    (within : arg.name_len ≤ length arg.name) where
  declared_matches_iff :
      (o : Option Bytes) → NulFree o → (name_matches o arg ≡ true) ↔ (o ≡ some name)
  unfolding name_matches
  declared_matches_iff none clean = (λ e. cc e, λ e. cc e)
  declared_matches_iff (some declared) clean =
      let law = name_matches_iff declared arg clean within in
      (
        λ e. ap some (law.0 e ∙ named),
        λ e. let same : declared ≡ name = cc e in law.1 (same ∙ sym named),
      )

  flag_matches_iff :
      (f : Flag)
      → CleanNames f
      → (name_matches (declared_name f arg) arg ≡ true) ↔ (name_behind arg.is_long f ≡ some name)
  flag_matches_iff f clean =
      declared_matches_iff (name_behind arg.is_long f) (behind-NulFree arg.is_long f clean)

  behind_other :
      (g : Flag) (flags : List Flag) (result : Option Flag)
      → name_behind arg.is_long g ≢ some name
      → FirstNamed arg.is_long name flags result
      → FirstNamed arg.is_long name (g ∷ flags) result
  behind_other g flags none ne rest = (ne, rest)
  behind_other g flags (some f) ne (before, after, parts, has_name, others) =
      (g ∷ before, after, ap (λ r. g ∷ r) parts, has_name, (ne, others))

  lookup-FirstNamed :
      (flags : List Flag)
      → All CleanNames flags
      → FirstNamed arg.is_long name flags (lookup flags arg)
  unfolding lookup
  lookup-FirstNamed [] clean = tt
  lookup-FirstNamed (g ∷ flags) (clean, rest) =
      elim (Bool-cases (name_matches (declared_name g arg) arg)) [
        | inl e ↦ rw e ([], flags, refl, (flag_matches_iff g clean).0 e, tt)
        | inr e ↦ rw e (
            behind_other g flags (lookup flags arg)
              (λ has_name. cc ((flag_matches_iff g clean).1 has_name, e))
              (lookup-FirstNamed flags rest))
      ]

take-with_value :
    (name : Bytes) (value : Option Bytes) → take (length name) (with_value name value) ≡ name
take-with_value name none = take_all (length name) name (omega arith)
take-with_value name (some value) = take-length name (equals_sign ∷ value)

with_value_within :
    (name : Bytes) (value : Option Bytes) → length name ≤ length (with_value name value)
with_value_within name none = omega arith
with_value_within name (some value) = omega (arith, length-append name (equals_sign ∷ value))

-- In a table whose names have no NUL, for a name that is not empty, has no leading dash and no equals
-- sign, written behind one or two dashes with a value or without one: the argument is split, and
-- lookup finds the first flag whose short or long name, by the dashes, is exactly that name, and none
-- where no flag has it.
pub lookup-written :
    (flags : List Flag) (is_long : Bool) (name : Bytes) (value : Option Bytes)
    → All CleanNames flags
    → IsFlagName name
    → (arg : Arg) × (split_arg (written is_long (with_value name value)) ≡ some arg)
      × FirstNamed is_long name flags (lookup flags arg)
lookup-written flags is_long name value clean ok =
    let arg : Arg = record {
      is_long = is_long;
      name = with_value name value;
      name_len = length name;
      value = value;
    } in
    (
      arg,
      split_arg-written is_long name value ok,
      lookup-FirstNamed arg name (take-with_value name value) (with_value_within name value) flags
          clean,
    )
