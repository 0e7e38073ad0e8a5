-- ===== src/Protocol/Header.antt =====
-- The command line: `proto_find_command`, `proto_parse_noreply`, `proto_parse_key`,
-- `proto_parse_exptime`, `proto_parse_set_fields`, `proto_parse_get_keys` and `proto_parse_header` of
-- src/protocol.c. A function that fills in `cmd` takes its value and returns the new one.
pub mod Words
pub mod Get
use kvx.Common.{
  ℕ, zero, suc, ◌+◌, ◌-◌, Bool, true, false, not, ◌&&◌, ◌||◌, Option, none, some, List, [], ◌∷◌,
  Bytes, codes, same_bytes, uint32_max, size_max, ltb, leb, ◌==◌, if◌then◌else◌, run_length, length,
  take, drop, get_or,
}
use kvx.Protocol.Types.{
  Command, CommandType, CommandSpec, proto_commands, zero_command, max_tokens, max_key_length,
  Token, Result, ok, err, ◌>>=◌, invalid_command, invalid_arguments, key_too_long, invalid_flags,
  invalid_exptime, invalid_value_length,
}
use kvx.Protocol.Numbers.{proto_parse_uint}
use kvx.Protocol.Tokens.{proto_is_separator, in_word, proto_tokenize}

unfoldable pub proto_find_command : Bytes → Option CommandSpec
proto_find_command name =
    let len = length name in
    if len == 3
    then (if same_bytes name (codes "get")
        then some (proto_commands CommandType.get)
        else if same_bytes name (codes "set")
        then some (proto_commands CommandType.set)
        else none)
    else if len == 4
    then (if same_bytes name (codes "quit") then some (proto_commands CommandType.quit) else none)
    else if len == 5
    then (if same_bytes name (codes "touch") then some (proto_commands CommandType.touch) else none)
    else if len == 6
    then (if same_bytes name (codes "delete")
        then some (proto_commands CommandType.delete)
        else none)
    else if len == 7
    then (if same_bytes name (codes "version")
        then some (proto_commands CommandType.version)
        else none)
    else none

abbrev no_token : Token
no_token = record { start = 0; text = [] }

-- `tokens[i]`, read below the count.
abbrev pub token_at : List Token → ℕ → Token
token_at tokens i = get_or tokens i no_token

unfoldable pub proto_parse_noreply : CommandSpec → List Token → Command → Result Command
proto_parse_noreply spec tokens cmd =
    let count = length tokens in
    let last = token_at tokens (count - 1) in
    if count == spec.token_count
    then ok cmd
    else if not spec.allows_noreply
        || (not (count == spec.token_count + 1) || not (same_bytes last.text (codes "noreply")))
    then err invalid_arguments
    else ok (record cmd { noreply = true })

-- The loop over the bytes of the key: control characters, space and DEL are refused.
unfoldable pub key_bytes_valid : Bytes → Bool
key_bytes_valid [] = true
key_bytes_valid (c ∷ rest) = if leb c 0x20 || c == 0x7f then false else key_bytes_valid rest

unfoldable pub proto_parse_key : Token → Command → Result Command
proto_parse_key token cmd =
    let len = length token.text in
    if len == 0
    then err invalid_arguments
    else if ltb max_key_length len
    then err key_too_long
    else if key_bytes_valid token.text
    then ok
        (record cmd { key = some token.start; key_len = len; keys_end = some (token.start + len) })
    else err invalid_arguments

unfoldable pub proto_parse_exptime : Token → Command → Result Command
proto_parse_exptime token cmd = elim (proto_parse_uint token.text uint32_max) [
  | none ↦ err invalid_exptime
  | some value ↦ ok (record cmd { exptime = value })
]

parse_value_len : Token → Command → Result Command
parse_value_len token cmd = elim (proto_parse_uint token.text size_max) [
  | none ↦ err invalid_value_length
  | some value ↦ ok (record cmd { value_len = value })
]

unfoldable pub proto_parse_set_fields : List Token → Command → Result Command
unfolding parse_value_len
proto_parse_set_fields tokens cmd = elim (proto_parse_uint (token_at tokens 2).text uint32_max) [
  | none ↦ err invalid_flags
  | some value ↦
      proto_parse_exptime (token_at tokens 3) (record cmd { flags = value })
      >>= parse_value_len (token_at tokens 4)
]

-- The first key is kept; the later ones are only validated.
unfoldable pub keep_first : Command → Command → Command
keep_first cmd current = elim (cmd.key) [
  | none ↦ record cmd { key = current.key; key_len = current.key_len }
  | some _ ↦ cmd
]

-- The loop of `proto_parse_get_keys`; `rest` is what stands from `pos` on.
unfoldable pub get_keys_loop : ℕ → Bytes → ℕ → Command → Result Command
get_keys_loop zero rest pos cmd = ok cmd
get_keys_loop (suc fuel) rest pos cmd =
    let skipped = run_length proto_is_separator rest in
    let word = drop skipped rest in
    let len = run_length in_word word in
    let token : Token = record { start = pos + skipped; text = take len word } in
    let next = proto_parse_key token zero_command >>= λ current.
    get_keys_loop fuel (drop len word) (pos + skipped + len) (keep_first cmd current) in
    if skipped == length rest then ok cmd else next

finish_get : ℕ → Command → Result Command
finish_get end cmd = elim (cmd.key) [
  | none ↦ err invalid_arguments
  | some _ ↦ ok (record cmd { type = CommandType.get; keys_end = some end })
]

-- The keys stand in `b` from offset `pos` on.
unfoldable pub proto_parse_get_keys : Bytes → ℕ → Command → Result Command
unfolding finish_get
proto_parse_get_keys b pos cmd =
    get_keys_loop (suc (length b)) b pos cmd >>= finish_get (pos + length b)

-- The switch at the end of `proto_parse_header`.
parse_arguments : List Token → Command → Result Command
parse_arguments tokens cmd = elim (cmd.type) [
  | CommandType.set ↦ proto_parse_set_fields tokens cmd
  | CommandType.touch ↦ proto_parse_exptime (token_at tokens 2) cmd
  | _ ↦ ok cmd
]

has_no_key : CommandType → Bool
has_no_key CommandType.version = true
has_no_key CommandType.quit = true
has_no_key _ = false

-- From the tokens on.
unfoldable pub parse_tokens : List Token → Command → Result Command
unfolding parse_arguments has_no_key
parse_tokens tokens cmd =
    if length tokens == 0
    then err invalid_command
    else elim (proto_find_command (token_at tokens 0).text) [
      | none ↦ err invalid_command
      | some spec ↦ proto_parse_noreply spec tokens (record cmd { type = spec.type }) >>= λ c.
          if has_no_key c.type
          then ok c
          else (proto_parse_key (token_at tokens 1) c >>= parse_arguments tokens)
    ]

-- The text behind the leading separators begins with the word "get".
unfoldable pub is_get : Bytes → Bool
is_get text =
    leb 3 (length text)
    && (same_bytes (take 3 text) (codes "get")
        && (length text == 3 || proto_is_separator (get_or text 3 0)))

unfoldable pub proto_parse_header : Bytes → Command → Result Command
proto_parse_header line cmd =
    let start = run_length proto_is_separator line in
    let text = drop start line in
    if is_get text
    then proto_parse_get_keys (drop 3 text) (start + 3) cmd
    else (proto_tokenize line max_tokens >>= λ tokens. parse_tokens tokens cmd)
