-- ===== src/Protocol/Header/Get.antt =====
-- `proto_parse_get_keys`: it validates every word of the line and keeps the first.
use kvx.Common.{
  ℕ, zero, suc, ◌+◌, ◌<◌, ◌≡◌, refl, List, [], ◌∷◌, ◌++◌, arith, Bytes, take, drop, length,
  length-drop, run_length, run_length-le, Bool-cases, inl, inr, ◌==◌, some, All, codes,
}
use kvx.Protocol.Types.{Command, zero_command, Token, Result, Result-cases, ok, ◌>>=◌}
use kvx.Protocol.Tokens.{proto_is_separator, in_word}
use kvx.Protocol.Tokens.Spec.{words_from, words_from_step, word-pos}
use kvx.Protocol.Header.{
  proto_parse_key, keep_first, get_keys_loop, proto_parse_get_keys, proto_parse_header, is_get,
}
use kvx.Protocol.Header.Words.{
  IsKey, IsWord, IsKey-IsWord, spaced, place, parse_key-IsKey, words_from-spaced,
}

-- Every token in turn.
abbrev pub check_keys : List Token → Command → Result Command
check_keys [] cmd = ok cmd
check_keys (t ∷ ts) cmd =
    proto_parse_key t zero_command >>= λ current. check_keys ts (keep_first cmd current)

get_keys_loop-words_from :
    (fuel : ℕ) (rest : Bytes) (pos : ℕ) (cmd : Command)
    → length rest < fuel
    → get_keys_loop fuel rest pos cmd ≡ check_keys (words_from pos [] rest) cmd
unfolding get_keys_loop
get_keys_loop-words_from zero rest pos cmd h = absurd (omega arith)
get_keys_loop-words_from (suc fuel) rest pos cmd h =
    let skipped = run_length proto_is_separator rest in
    let word = drop skipped rest in
    let len = run_length in_word word in
    let token : Token = record { start = pos + skipped; text = take len word } in
    rw (words_from_step rest pos) (elim (Bool-cases (skipped == length rest)) [
      | inl e ↦ rw e
      | inr e ↦
          let shorter : length (drop len word) < fuel = ground (
            arith,
            word-pos rest,
            length-drop skipped rest,
            length-drop len word,
            run_length-le proto_is_separator rest,
          ) in
          rw e (elim (Result-cases (proto_parse_key token zero_command)) [
            | inl (current, k) ↦
                rw (k, ◌>>=◌)
                  (get_keys_loop-words_from fuel (drop len word) (pos + skipped + len)
                    (keep_first cmd current) shorter)
            | inr (e', k) ↦ rw (k, ◌>>=◌)
          ])
    ])

keep_first-found : (cmd current : Command) (k : ℕ) → cmd.key ≡ some k → keep_first cmd current ≡ cmd
unfolding keep_first
keep_first-found cmd current k e = ground arith

-- Behind the first key the words are only validated.
check_keys-found :
    (ks : List Bytes) (pos k : ℕ) (cmd : Command)
    → All IsKey ks
    → cmd.key ≡ some k
    → check_keys (place pos ks) cmd ≡ ok cmd
check_keys-found [] pos k cmd h e = refl
check_keys-found (w ∷ ws) pos k cmd h e =
    rw
      (
        parse_key-IsKey (record { start = pos + 1; text = w }) zero_command h.0,
        ◌>>=◌,
        keep_first-found cmd _ k e,
      )
      (check_keys-found ws (pos + 1 + length w) k cmd h.1 e)

check_keys-place :
    (w : Bytes) (ws : List Bytes) (pos : ℕ)
    → All IsKey (w ∷ ws)
    → check_keys (place pos (w ∷ ws)) zero_command
      ≡ ok (record zero_command { key = some (pos + 1); key_len = length w })
unfolding keep_first
check_keys-place w ws pos h =
    rw (parse_key-IsKey (record { start = pos + 1; text = w }) zero_command h.0, ◌>>=◌)
      (check_keys-found ws (pos + 1 + length w) (pos + 1) _ h.1 refl)

pub All-IsWord : (ws : List Bytes) → All IsKey ws → All IsWord ws
All-IsWord [] h = tt
All-IsWord (w ∷ ws) h = (IsKey-IsWord h.0, All-IsWord ws h.1)

-- The line of a `get` with at least one key.
pub proto_parse_header-get :
    (w : Bytes) (ws : List Bytes)
    → All IsKey (w ∷ ws)
    → proto_parse_header (codes "get" ++ spaced (w ∷ ws)) zero_command
      ≡ ok (record zero_command {
        key = some 4;
        key_len = length w;
        keys_end = some (length (codes "get" ++ spaced (w ∷ ws)));
      })
unfolding proto_parse_header is_get proto_is_separator proto_parse_get_keys
proto_parse_header-get w ws h =
    let text = spaced (w ∷ ws) in
    rw
      (
        get_keys_loop-words_from (suc (length text)) text 3 zero_command (omega arith),
        words_from-spaced (w ∷ ws) [] 3 (All-IsWord (w ∷ ws) h),
        check_keys-place w ws 3 h,
      )
      (ground arith)
