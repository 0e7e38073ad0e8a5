-- ===== src/Config/Laws.antt =====
-- Listener addresses that are written are read back by src/config.c, and the range of ports.
use kvx.Common.{
  ◌^◌, ℕ, ◌-◌, ◌≤◌, ◌<◌, ◌≡◌, ◌≢◌, ◌↔◌, refl, ap, ◌∙◌, Bool, true, false, Option, none, some, [],
  ◌∷◌, ◌++◌, Bytes, All, take, drop, length, run_length, ltb, ◌==◌, if◌then◌else◌, codes, arith,
  take_all, Bool-cases, inl, inr,
}
use kvx.Flag.{flag_str, bind, Flag, lookup, name_matches}
use kvx.Flag.Split.{split_at-append, split_at-absent}
use kvx.Flag.Values.{str, isdigit, isspace, set_value}
use kvx.Flag.Values.Settings.{Setting, IsSetting, command_line, flag_parse-command_line, arg_of}
use kvx.Config.{
  t_str, configure, ListenerConfig, listener_tcp, listener_unix, number_of, strtoul, read_unsigned,
  parse_port, colon, parse_tcp, parse_unix, parse_listener, listen_usage, parse_config,
}

abbrev pub AllDigits : Bytes → Type 0
AllDigits s = All (λ c. (48 ≤ c) × (c ≤ 57)) s

run_length-digits : (s : Bytes) → AllDigits s → run_length isdigit s ≡ length s
run_length-digits [] h = refl
run_length-digits (c ∷ s) (h, hs) =
    let e : isdigit c ≡ true = ground (arith, h) in rw (run_length, e, run_length-digits s hs) refl

drop_all : (s : Bytes) → drop (length s) s ≡ []
drop_all [] = refl
drop_all (c ∷ s) = drop_all s

-- A string of digits is read to its end.
strtoul-digits :
    (c : ℕ) (s : Bytes) (big : Bool)
    → AllDigits (c ∷ s)
    → ltb (2 ^ 64 - 1) (number_of (c ∷ s) 0) ≡ big
    → strtoul (c ∷ s) ≡ record {
      value = if big then 2 ^ 64 - 1 else number_of (c ∷ s) 0;
      range_error = big;
      rest = [];
    }
unfolding strtoul read_unsigned
strtoul-digits c s big (h, hs) e =
    let blank : isspace c ≡ false = ground (arith, h) in
    let space : run_length isspace (c ∷ s) ≡ 0 = rw (run_length, blank) refl in
    let minus : (c == 45) ≡ false = ground (arith, h) in
    let plus : (c == 43) ≡ false = ground (arith, h) in
    let digits = run_length-digits (c ∷ s) (h, hs) in
    let whole : take (length (c ∷ s)) (c ∷ s) ≡ c ∷ s =
      take_all (length (c ∷ s)) (c ∷ s) (omega arith) in
    let plain : strtoul (c ∷ s) ≡ read_unsigned (c ∷ s) false (c ∷ s) =
      rw (strtoul, space, minus, plus) refl in
    plain ∙ go big e digits whole
  where
    nonzero : (length (c ∷ s) == 0) ≡ false
    nonzero = ground arith

    go :
        (b : Bool)
        → ltb (2 ^ 64 - 1) (number_of (c ∷ s) 0) ≡ b
        → run_length isdigit (c ∷ s) ≡ length (c ∷ s)
        → take (length (c ∷ s)) (c ∷ s) ≡ c ∷ s
        → read_unsigned (c ∷ s) false (c ∷ s) ≡ record {
          value = if b then 2 ^ 64 - 1 else number_of (c ∷ s) 0;
          range_error = b;
          rest = [];
        }
    go true f digits whole = rw (read_unsigned, digits, nonzero, whole, f, drop_all (c ∷ s)) refl
    go false f digits whole = rw (read_unsigned, digits, nonzero, whole, f, drop_all (c ∷ s)) refl

-- A port of decimal digits is accepted exactly where its number is from 1 to 65535.
pub parse_port_iff :
    (c : ℕ) (s : Bytes)
    → AllDigits (c ∷ s)
    → (parse_port (c ∷ s) ≡ true) ↔ ((1 ≤ number_of (c ∷ s) 0) × (number_of (c ∷ s) 0 ≤ 65535))
unfolding parse_port
parse_port_iff c s digits = elim (Bool-cases (ltb (2 ^ 64 - 1) (number_of (c ∷ s) 0))) [
  | inl big ↦
      rw (strtoul-digits c s true digits big)
        (λ e. cc e, λ (low, high). absurd (ground (arith, big, high)))
  | inr fits ↦ rw (strtoul-digits c s false digits fits) (ground arith)
]

parse_tcp-parts :
    (host port : Bytes)
    → All (λ c. c ≢ colon) host
    → All (λ c. c ≢ colon) port
    → parse_port port ≡ true
    → parse_tcp (host ++ (colon ∷ port))
      ≡ some (record {
        type = listener_tcp;
        host = if length host == 0 then none else some host;
        port = some port;
        unix_path = none;
      })
unfolding parse_tcp
parse_tcp-parts host port h p ok =
    rw (parse_tcp, split_at-append colon host port h, split_at-absent colon port p, ok) refl

-- An address that a user writes.
pub data Address : Type 0 where
  tcp : Bytes → Bytes → Address
  unix : Bytes → Address

abbrev pub url_of : Address → Bytes
url_of (tcp host port) = codes "tcp://" ++ (host ++ (colon ∷ port))
url_of (unix path) = codes "unix://" ++ path

-- Without a colon in the host, and with a port or a path.
abbrev pub IsAddress : Address → Type 0
IsAddress (tcp host port) =
    All (λ c. c ≢ colon) host × All (λ c. c ≢ colon) port × (parse_port port ≡ true)
IsAddress (unix path) = 0 < length path

abbrev pub listener_of : Address → ListenerConfig
listener_of (tcp host port) = record {
  type = listener_tcp;
  host = if length host == 0 then none else some host;
  port = some port;
  unix_path = none;
}
listener_of (unix path) = record {
  type = listener_unix;
  host = none;
  port = none;
  unix_path = some path;
}

parse_listener-url_of :
    (a : Address) → IsAddress a → parse_listener (url_of a) ≡ some (listener_of a)
unfolding parse_listener parse_unix
parse_listener-url_of (tcp host port) (h, p, ok) = parse_tcp-parts host port h p ok
parse_listener-url_of (unix path) h =
    let some_byte : (length path == 0) ≡ false = ground (arith, h) in rw some_byte refl

-- The flag that parse_config binds.
abbrev pub listen_flag : Flag
listen_flag = record {
  type = t_str;
  short_name = some (codes "l");
  long_name = some (codes "listen");
  usage = listen_usage;
  dst = 0;
}

abbrev pub listen_setting : Bytes → Bool → Setting
listen_setting url inline = record {
  flag = listen_flag;
  name = codes "listen";
  text = url;
  value = str url;
  inline = inline;
}

listen_setting-IsSetting :
    (url : Bytes) (inline : Bool) → IsSetting (listen_flag ∷ []) (listen_setting url inline)
unfolding lookup name_matches set_value
listen_setting-IsSetting url inline = record {
  named = ground arith;
  found = λ value. found_listen value;
  valued = refl;
  apart = λ e. refl;
}
  where
    found_listen :
        (value : Option Bytes)
        → lookup (listen_flag ∷ []) (arg_of (listen_setting url inline) value) ≡ some listen_flag
    found_listen none = refl
    found_listen (some v) = refl

-- A command line of --listen with an address, behind an equals sign or as the next argument, is read as
-- that address: a host that may be empty and a port that parse_port accepts, both without a colon, or
-- a path that is not empty.
pub parse_config-url_of :
    (a : Address) (inline : Bool)
    → IsAddress a
    → parse_config (command_line (listen_setting (url_of a) inline ∷ [])) ≡ some (listener_of a)
unfolding parse_config configure flag_str bind
parse_config-url_of a inline ok =
    let parsed =
      flag_parse-command_line (listen_flag ∷ []) (listen_setting (url_of a) inline ∷ [])
        (listen_setting-IsSetting (url_of a) inline, tt) in
    ap configure parsed ∙ parse_listener-url_of a ok
