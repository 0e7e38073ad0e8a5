-- ===== src/Protocol/Header/Words.antt =====
-- Lines that a client writes: words with one space between them, and how their tokens are read.
use kvx.Common.{
  ℕ, suc, ◌+◌, ◌≤◌, ◌<◌, ◌≡◌, ◌≢◌, ◌↔◌, refl, sym, ap, ◌∙◌, true, false, List, [], ◌∷◌, ◌++◌, arith,
  Bytes, All, length, append_assoc, append-nil, some, run_length,
}
use kvx.Protocol.Types.{Command, Token, ok, max_key_length}
use kvx.Protocol.Numbers.Parse.{IsDigit}
use kvx.Protocol.Numbers.{proto_format_uint}
use kvx.Protocol.Numbers.RoundTrip.{proto_format_uint-All, proto_format_uint-pos}
use kvx.Protocol.Tokens.{proto_is_separator}
use kvx.Protocol.Tokens.Spec.{words_from, close_word, close_word-pos, proto_tokenize-words_from}
use kvx.Protocol.Header.{proto_parse_key, key_bytes_valid, is_get, proto_parse_header, parse_tokens}

-- A byte of a word: neither a space nor a tab.
abbrev pub IsWordByte : ℕ → Type 0
IsWordByte c = proto_is_separator c ≡ false

pub record IsWord (w : Bytes) : Type 0 where
  pub filled : 0 < length w
  pub bytes : All IsWordByte w

-- Each word behind a space.
abbrev pub spaced : List Bytes → Bytes
spaced [] = []
spaced (w ∷ ws) = b' ' ∷ w ++ spaced ws

-- The tokens of `spaced ws` at offset `pos`.
abbrev pub place : ℕ → List Bytes → List Token
place pos [] = []
place pos (w ∷ ws) = record { start = pos + 1; text = w } ∷ place (pos + 1 + length w) ws

length-place : (ws : List Bytes) (pos : ℕ) → length (place pos ws) ≡ length ws
length-place [] pos = refl
length-place (w ∷ ws) pos = ap suc (length-place ws (pos + 1 + length w))

pub words_from-append :
    (w s cur : Bytes) (pos : ℕ)
    → All IsWordByte w
    → words_from pos cur (w ++ s) ≡ words_from (pos + length w) (cur ++ w) s
words_from-append [] s cur pos h = ground (arith, append-nil cur)
words_from-append (c ∷ w) s cur pos h = rw (h.0) (
    words_from-append w s (cur ++ c ∷ []) (pos + 1) h.1
    ∙ ground (arith, append_assoc cur (c ∷ []) w))

words_from-space :
    (s cur : Bytes) (pos : ℕ)
    → words_from pos cur (b' ' ∷ s) ≡ close_word pos cur ++ words_from (pos + 1) [] s
unfolding proto_is_separator
words_from-space s cur pos = refl

-- The tokens behind an open word.
pub words_from-spaced :
    (ws : List Bytes) (cur : Bytes) (pos : ℕ)
    → All IsWord ws
    → words_from pos cur (spaced ws) ≡ close_word pos cur ++ place pos ws
words_from-spaced [] cur pos h = sym (append-nil _)
words_from-spaced (w ∷ ws) cur pos h =
    let next = pos + 1 + length w in
    words_from-space (w ++ spaced ws) cur pos
    ∙ ap (λ r. close_word pos cur ++ r)
        (words_from-append w (spaced ws) [] (pos + 1) (h.0).bytes
          ∙ words_from-spaced ws w next h.1
          ∙ ap (λ r. r ++ place next ws) (close_word-pos (pos + 1) w (h.0).filled))

IsDigit-IsWordByte : (s : Bytes) → All IsDigit s → All IsWordByte s
unfolding proto_is_separator
IsDigit-IsWordByte [] h = tt
IsDigit-IsWordByte (c ∷ s) h = (ground arith, IsDigit-IsWordByte s h.1)

pub format_uint-IsWord : (n : ℕ) → IsWord (proto_format_uint n)
format_uint-IsWord n = record {
  filled = proto_format_uint-pos n;
  bytes = IsDigit-IsWordByte (proto_format_uint n) (proto_format_uint-All n);
}

-- A key that the protocol allows: 1 to 250 bytes, none of them a control character, space or DEL.
pub record IsKey (k : Bytes) : Type 0 where
  pub filled : 0 < length k
  pub short : length k ≤ max_key_length
  pub bytes : All (λ c. (0x20 < c) × (c ≢ 0x7f)) k

key_bytes-IsWordByte : (k : Bytes) → All (λ c. (0x20 < c) × (c ≢ 0x7f)) k → All IsWordByte k
unfolding proto_is_separator
key_bytes-IsWordByte [] h = tt
key_bytes-IsWordByte (c ∷ k) h = (ground arith, key_bytes-IsWordByte k h.1)

pub IsKey-IsWord : {k : Bytes} → IsKey k → IsWord k
IsKey-IsWord {k} h = record { filled = h.filled; bytes = key_bytes-IsWordByte k h.bytes }

-- The loop over the bytes of a key accepts exactly what `IsKey` allows.
key_bytes_valid_iff :
    (k : Bytes) → (key_bytes_valid k ≡ true) ↔ All (λ c. (0x20 < c) × (c ≢ 0x7f)) k
unfolding key_bytes_valid
key_bytes_valid_iff [] = (λ _. tt, λ _. refl)
key_bytes_valid_iff (c ∷ k) = ground (arith, key_bytes_valid_iff k)

-- `proto_parse_key` succeeds exactly on the keys that the protocol allows, and then records the slice
-- of the token and its end.
pub proto_parse_key_iff :
    (token : Token) (cmd result : Command)
    → (proto_parse_key token cmd ≡ ok result) ↔ (
        IsKey token.text
        × (result ≡ record cmd {
          key = some token.start;
          key_len = length token.text;
          keys_end = some (token.start + length token.text);
        }))
unfolding proto_parse_key
proto_parse_key_iff token cmd result = (
  λ h.
      let (valid, e) = accepted h in
      (
        record {
          filled = valid.0;
          short = valid.1;
          bytes = (key_bytes_valid_iff token.text).0 valid.2;
        },
        e,
      ),
  λ (k, e). ground (arith, k.filled, k.short, (key_bytes_valid_iff token.text).1 k.bytes),
)
  where
    accepted :
        proto_parse_key token cmd ≡ ok result
        → ((0 < length token.text)
            × (length token.text ≤ max_key_length)
            × (key_bytes_valid token.text ≡ true))
          × (result ≡ record cmd {
            key = some token.start;
            key_len = length token.text;
            keys_end = some (token.start + length token.text);
          })
    accepted h = ground arith

pub parse_key-IsKey :
    (token : Token) (cmd : Command)
    → IsKey token.text
    → proto_parse_key token cmd
      ≡ ok (record cmd {
        key = some token.start;
        key_len = length token.text;
        keys_end = some (token.start + length token.text);
      })
parse_key-IsKey token cmd h = (proto_parse_key_iff token cmd _).1 (h, refl)

run_length-word : (w s : Bytes) → IsWord w → run_length proto_is_separator (w ++ s) ≡ 0
run_length-word [] s h = absurd (omega arith)
run_length-word (c ∷ w) s h = rw ((h.bytes).0, run_length)

-- The line of a command that is not `get` is read as its words.
pub proto_parse_header-spaced :
    (name : Bytes) (ws : List Bytes) (cmd : Command)
    → IsWord name
    → All IsWord ws
    → length ws ≤ 5
    → is_get (name ++ spaced ws) ≡ false
    → proto_parse_header (name ++ spaced ws) cmd
      ≡ parse_tokens (record { start = 0; text = name } ∷ place (length name) ws) cmd
unfolding proto_parse_header
proto_parse_header-spaced name ws cmd word words few other =
    let e : words_from 0 [] (name ++ spaced ws)
        ≡ record { start = 0; text = name } ∷ place (length name) ws =
      words_from-append name (spaced ws) [] 0 word.bytes
      ∙ words_from-spaced ws name (0 + length name) words
      ∙ ap (λ r. r ++ place (0 + length name) ws) (close_word-pos 0 name word.filled)
      ∙ ground arith in
    rw (run_length-word name (spaced ws) word, other, proto_tokenize-words_from, e)
      (ground (arith, length-place ws (length name)))
