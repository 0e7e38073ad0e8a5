-- ===== src/Protocol/Tokens.antt =====
-- `proto_is_separator` and `proto_tokenize` of src/protocol.c; the laws are in the child.
pub mod Spec
use kvx.Common.{
  ℕ, zero, suc, ◌+◌, Bool, not, ◌||◌, List, [], ◌∷◌, ◌++◌, Bytes, ◌==◌, if◌then◌else◌, run_length,
  length, take, drop,
}
use kvx.Protocol.Types.{Token, Result, ok, err, invalid_arguments}

unfoldable pub proto_is_separator : ℕ → Bool
proto_is_separator ch = ch == b' ' || ch == 9

abbrev pub in_word : ℕ → Bool
in_word ch = not (proto_is_separator ch)

-- The outer loop; `rest` is what stands from `pos` on. The first argument is the fuel.
unfoldable pub tokenize_loop : ℕ → Bytes → ℕ → ℕ → List Token → Result (List Token)
tokenize_loop zero rest pos capacity tokens = ok tokens
tokenize_loop (suc fuel) rest pos capacity tokens =
    let skipped = run_length proto_is_separator rest in
    let word = drop skipped rest in
    let len = run_length in_word word in
    let token : Token = record { start = pos + skipped; text = take len word } in
    let next =
      tokenize_loop fuel (drop len word) (pos + skipped + len) capacity (tokens ++ token ∷ []) in
    if skipped == length rest
    then ok tokens
    else if length tokens == capacity
    then err invalid_arguments
    else next

unfoldable pub proto_tokenize : Bytes → ℕ → Result (List Token)
proto_tokenize line capacity = tokenize_loop (suc (length line)) line 0 capacity []
