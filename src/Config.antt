-- ===== src/Config.antt =====
-- src/config.h and src/config.c: the address that the server listens on. A C string is the list of its
-- bytes before the NUL, and the NUL that parse_listener writes over the colon ends the host.
pub mod Laws
use kvx.Common.{
  ℕ, zero, suc, ◌+◌, ◌-◌, ◌*◌, ◌%◌, ◌^◌, Bool, true, false, not, Option, none, some, List, [], ◌∷◌,
  Bytes, take, drop, length, get_or, run_length, ltb, ◌==◌, ◌||◌, if◌then◌else◌, codes,
}
use kvx.Common.Faults.{◌>>=◌}
use kvx.Flag.{Flag, t_str, flag_str, split_at, strncmp_equal}
use kvx.Flag.Values.{FlagErr, Value, i64, u64, boolean, str, isdigit, isspace, flag_parse}

pub data ListenerType : Type 0 where
  listener_tcp listener_unix : ListenerType

-- none is NULL.
pub record ListenerConfig : Type 0 where
  pub type : ListenerType
  pub host : Option Bytes
  pub port : Option Bytes
  pub unix_path : Option Bytes

-- The result of strtoul with base 10, whether errno is set to ERANGE, and the string at `end`.
pub record Strtoul : Type 0 where
  pub value : ℕ
  pub range_error : Bool
  pub rest : Bytes

abbrev pub number_of : Bytes → ℕ → ℕ
number_of [] acc = acc
number_of (c ∷ s) acc = number_of s (acc * 10 + (c - 48))

unfoldable pub read_unsigned : Bytes → Bool → Bytes → Strtoul
read_unsigned text negative s =
    let n = run_length isdigit s in
    let magnitude = number_of (take n s) 0 in
    if n == 0
    then record { value = 0; range_error = false; rest = text }
    else if ltb (2 ^ 64 - 1) magnitude
    then record { value = 2 ^ 64 - 1; range_error = true; rest = drop n s }
    else record {
      value = if negative then (2 ^ 64 - magnitude) % 2 ^ 64 else magnitude;
      range_error = false;
      rest = drop n s;
    }

-- White space and a sign are skipped, and a number behind a minus is negated in `unsigned long`.
unfoldable pub strtoul : Bytes → Strtoul
strtoul text =
    let t = drop (run_length isspace text) text in
    let first = get_or t 0 0 in
    read_unsigned text (first == 45) (if first == 45 || first == 43 then drop 1 t else t)

unfoldable pub parse_port : Bytes → Bool
parse_port [] = false
parse_port (c ∷ s) =
    let r = strtoul (c ∷ s) in
    if r.range_error
    then false
    else if not (length r.rest == 0)
    then false
    else not (r.value == 0 || ltb 65535 r.value)

abbrev pub colon : ℕ
colon = 58

-- parse_listener behind the prefix of TCP. none is false.
unfoldable pub parse_tcp : Bytes → Option ListenerConfig
parse_tcp addr = elim (split_at colon addr) [
  | none ↦ none
  | some (host, port) ↦ elim (split_at colon port) [
    | some _ ↦ none
    | none ↦
        if parse_port port
        then some (record {
          type = listener_tcp;
          host = if length host == 0 then none else some host;
          port = some port;
          unix_path = none;
        })
        else none
  ]
]

unfoldable pub parse_unix : Bytes → Option ListenerConfig
parse_unix path =
    if length path == 0
    then none
    else some (record { type = listener_unix; host = none; port = none; unix_path = some path })

unfoldable pub parse_listener : Bytes → Option ListenerConfig
parse_listener value =
    if strncmp_equal value (codes "tcp://") 6
    then parse_tcp (drop 6 value)
    else if strncmp_equal value (codes "unix://") 7
    then parse_unix (drop 7 value)
    else none

abbrev pub listen_usage : Bytes
listen_usage =
    codes
      "for tcp use addr:port scheme: tcp://:1234\n\t\tfor uds use path to socket: unix:///var/run/kvx.sock"

-- The variable `listen` behind the writes.
abbrev pub listen_after : Option Bytes → List (ℕ × Value) → Option Bytes
listen_after listen [] = listen
listen_after listen ((dst, str v) ∷ writes) = listen_after (some v) writes
listen_after listen ((dst, i64 sign x) ∷ writes) = listen_after listen writes
listen_after listen ((dst, u64 x) ∷ writes) = listen_after listen writes
listen_after listen ((dst, boolean b) ∷ writes) = listen_after listen writes

-- parse_config behind flag_parse.
unfoldable pub configure : List (ℕ × Value) × Option FlagErr → Option ListenerConfig
configure (writes, some err) = none
configure (writes, none) = elim (listen_after none writes) [
  | none ↦ none
  | some listen ↦ parse_listener listen
]

-- The arguments behind argv[0], in a program that has bound no flag before. The variable `listen` is
-- the only one.
unfoldable pub parse_config : List Bytes → Option ListenerConfig
parse_config args =
    flag_str [] (some (codes "l")) (some (codes "listen")) 0 listen_usage >>= λ flags.
    configure (flag_parse flags args)
