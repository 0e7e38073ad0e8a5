-- ===== src/Tests/Config.antt =====
-- Addresses and ports at concrete texts.
use kvx.Common.{◌≡◌, ◌↔◌, ◌≤◌, refl, true, some, [], ◌∷◌, Bytes, codes, arith}
use kvx.Flag.Values.Settings.{command_line}
use kvx.Config.{parse_port, parse_config, number_of, strtoul, read_unsigned}
use kvx.Config.Laws.{
  parse_port_iff, Address, tcp, IsAddress, listener_of, listen_setting, url_of, parse_config-url_of,
}

-- Of 1234, the digits behind the first.
abbrev some_port : Bytes
some_port = 50 ∷ 51 ∷ 52 ∷ []

parse_port_iff_example :
    (parse_port (49 ∷ some_port) ≡ true)
    ↔ ((1 ≤ number_of (49 ∷ some_port) 0) × (number_of (49 ∷ some_port) 0 ≤ 65535))
parse_port_iff_example = parse_port_iff 49 some_port (
  (omega arith, omega arith),
  ((omega arith, omega arith), ((omega arith, omega arith), ((omega arith, omega arith), tt))),
)

abbrev any_host : Address
any_host = tcp [] (codes "1234")

parse_port_run : parse_port (codes "1234") ≡ true
unfolding parse_port strtoul read_unsigned
parse_port_run = refl

-- A minus is taken with the wrap-around of `unsigned long`.
parse_port_negative_run : parse_port (codes "-18446744073709551536") ≡ true
unfolding parse_port strtoul read_unsigned
parse_port_negative_run = refl

any_host-IsAddress : IsAddress any_host
any_host-IsAddress = (tt, ground arith, parse_port_run)

parse_config-url_of_example :
    parse_config (command_line (listen_setting (url_of any_host) true ∷ []))
    ≡ some (listener_of any_host)
parse_config-url_of_example = parse_config-url_of any_host true any_host-IsAddress
