-- ===== src/Tests/Flag.antt =====
-- The flags at concrete arguments.
use kvx.Common.{
  refl, false, ◌∷◌, Bytes, Option, Bool, ◌≡◌, ◌≢◌, true, some, none, All, List, [], arith, codes,
}
use kvx.Flag.{Flag, Arg, t_u64, lookup, name_matches, split_arg}
use kvx.Flag.Split.{written, split_arg-written}
use kvx.Flag.Values.{u64, parse_u64, set_value, flag_parse}
use kvx.Flag.Values.Settings.{Setting, IsSetting, arg_of, command_line, flag_parse-command_line}
use kvx.Flag.Lookup.{CleanNames, FirstNamed, lookup-written}

abbrev port : Flag
port = record {
  type = t_u64;
  short_name = some (codes "p");
  long_name = some (codes "port");
  usage = [];
  dst = 0;
}

abbrev port_arg : Arg
port_arg = record {
  is_long = true;
  name = codes "port=80";
  name_len = 4;
  value = some (codes "80");
}

split_arg-written_example : split_arg (written true (codes "port=80")) ≡ some port_arg
split_arg-written_example =
    split_arg-written true (codes "port") (some (codes "80"))
      (omega arith, (omega arith, (omega arith, (omega arith, (omega arith, tt)))))

-- A table in which another long name begins with the same letters.
abbrev ports : List Flag
ports = record port { long_name = some (codes "ports") } ∷ port ∷ []

ports-CleanNames : All CleanNames ports
ports-CleanNames =
    let p : All (λ c. c ≢ 0) (codes "p") = (omega arith, tt) in
    let named : All (λ c. c ≢ 0) (codes "port") =
      (omega arith, (omega arith, (omega arith, (omega arith, tt)))) in
    let longer : All (λ c. c ≢ 0) (codes "ports") =
      (omega arith, (omega arith, (omega arith, (omega arith, (omega arith, tt))))) in
    ((p, longer), ((p, named), tt))

lookup-written_example :
    (arg : Arg) × (split_arg (written true (codes "port=80")) ≡ some arg)
    × FirstNamed true (codes "port") ports (lookup ports arg)
lookup-written_example =
    lookup-written ports true (codes "port") (some (codes "80")) ports-CleanNames
      (omega arith, (omega arith, (omega arith, (omega arith, (omega arith, tt)))))

abbrev port_setting : Bool → Setting
port_setting inline = record {
  flag = port;
  name = codes "port";
  text = codes "80";
  value = u64 80;
  inline = inline;
}

port-found :
    (inline : Bool) (value : Option Bytes)
    → lookup (port ∷ []) (arg_of (port_setting inline) value) ≡ some port
unfolding lookup name_matches
port-found inline none = refl
port-found inline (some value) = refl

port_setting-IsSetting : (inline : Bool) → IsSetting (port ∷ []) (port_setting inline)
unfolding set_value parse_u64
port_setting-IsSetting inline = record {
  named = (omega arith, (omega arith, (omega arith, (omega arith, (omega arith, tt)))));
  found = port-found inline;
  valued = refl;
  apart = λ e. refl;
}

-- --port=80 --port 80
abbrev two_settings : List Setting
two_settings = port_setting true ∷ port_setting false ∷ []

flag_parse-command_line_example :
    flag_parse (port ∷ []) (command_line two_settings) ≡ ((0, u64 80) ∷ (0, u64 80) ∷ [], none)
flag_parse-command_line_example =
    flag_parse-command_line (port ∷ []) two_settings
      (port_setting-IsSetting true, (port_setting-IsSetting false, tt))
