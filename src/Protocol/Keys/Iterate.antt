-- ===== src/Protocol/Keys/Iterate.antt =====
-- Calling `protocol_next_key` until it returns false visits the words behind the current key, in order.
use kvx.Common.{
  ℕ, ◌+◌, ◌-◌, ◌≤◌, ◌≡◌, refl, sym, ◌∙◌, ap, List, [], ◌∷◌, arith, Bytes, take, drop, length,
  length-take, length-drop, drop-drop, run_length, run_length-le, Bool-cases, inl, inr, ◌==◌, some,
  none, false,
}
use kvx.Protocol.Types.{Command, Token}
use kvx.Protocol.Tokens.{proto_is_separator, in_word}
use kvx.Protocol.Tokens.Spec.{words_from, words_from_step, length-take_run}
use kvx.Protocol.Keys.{next_key_from, protocol_next_key}

-- `*cmd` with the key at a token.
abbrev pub at_token : Command → Token → Command
at_token cmd t = record cmd { key = some t.start; key_len = length t.text }

-- The calls from `cmd` on succeed at the tokens, one after the other, and then return false.
abbrev pub Visits : Bytes → Command → List Token → Type 0
Visits b cmd [] = protocol_next_key b cmd ≡ none
Visits b cmd (t ∷ ts) =
    (protocol_next_key b cmd ≡ some (at_token cmd t)) × Visits b (at_token cmd t) ts

module _ (b : Bytes) (cmd : Command) (p keys_end : ℕ) (inside : p ≤ keys_end)
    (fits : keys_end ≤ length b) where
  remaining : length (drop p (take keys_end b)) ≡ keys_end - p
  remaining = omega (arith, length-drop p (take keys_end b), length-take keys_end b)

  next_key_from-nil :
      words_from p [] (drop p (take keys_end b)) ≡ [] → next_key_from b cmd p keys_end ≡ none
  unfolding next_key_from
  next_key_from-nil e = ground (arith, remaining, words_from_step (drop p (take keys_end b)) p)

  -- The first token behind `p`, and what stands behind it.
  first_token :
      (t : Token) (ts : List Token)
      → words_from p [] (drop p (take keys_end b)) ≡ t ∷ ts
      → let rest = drop p (take keys_end b) in
        let skipped = run_length proto_is_separator rest in
        let word = drop skipped rest in
        let len = run_length in_word word in
        ((skipped == length rest) ≡ false)
        × (t.start ≡ p + skipped)
        × (t.text ≡ take len word)
        × (words_from (p + skipped + len) [] (drop len word) ≡ ts)
  first_token t ts e =
      let rest = drop p (take keys_end b) in
      let skipped = run_length proto_is_separator rest in
      let step = sym (words_from_step rest p) ∙ e in
      elim (Bool-cases (skipped == length rest)) [
        | inl all ↦ absurd (ground (arith, step))
        | inr not_all ↦
            let step' = rw not_all at step in (not_all, ground arith, ground arith, ground arith)
      ]

  next_key_from-cons :
      (t : Token) (ts : List Token)
      → words_from p [] (drop p (take keys_end b)) ≡ t ∷ ts
      → (next_key_from b cmd p keys_end ≡ some (at_token cmd t))
        × (t.start + length t.text ≤ keys_end)
        × (words_from
              (t.start + length t.text)
              []
              (drop (t.start + length t.text) (take keys_end b))
            ≡ ts)
  unfolding next_key_from
  next_key_from-cons t ts e =
      let rest = drop p (take keys_end b) in
      let skipped = run_length proto_is_separator rest in
      let word = drop skipped rest in
      let len = run_length in_word word in
      let (some_word, start, text, behind) = first_token t ts e in
      let size : length t.text ≡ len = ap length text ∙ length-take_run in_word word in
      let found : (p + skipped == keys_end) ≡ false =
        ground (arith, remaining, run_length-le proto_is_separator rest) in
      let stop : t.start + length t.text ≡ p + skipped + len = omega arith in
      (
        rw (found, start, size),
        omega (
          arith,
          remaining,
          run_length-le proto_is_separator rest,
          run_length-le in_word word,
          length-drop skipped rest,
        ),
        rw
            (
              stop,
              ← drop-drop len (p + skipped) (take keys_end b),
              ← drop-drop skipped p (take keys_end b),
            )
            behind,
      )

-- From a key that ends at or before `keys_end`, the calls visit the words between them.
pub protocol_next_key-Visits :
    (b : Bytes) (ts : List Token) (cmd : Command) (key keys_end : ℕ)
    → cmd.key ≡ some key
    → cmd.keys_end ≡ some keys_end
    → key + cmd.key_len ≤ keys_end
    → keys_end ≤ length b
    → words_from (key + cmd.key_len) [] (drop (key + cmd.key_len) (take keys_end b)) ≡ ts
    → Visits b cmd ts
unfolding protocol_next_key
protocol_next_key-Visits b [] cmd key keys_end k e inside fits ws =
    ground (arith, next_key_from-nil b cmd (key + cmd.key_len) keys_end inside fits ws)
protocol_next_key-Visits b (t ∷ ts) cmd key keys_end k e inside fits ws =
    let (found, inside', ws') =
      next_key_from-cons b cmd (key + cmd.key_len) keys_end inside fits t ts ws in
    (
      ground (arith, found),
      protocol_next_key-Visits b ts (at_token cmd t) t.start keys_end refl e inside' fits ws',
    )
