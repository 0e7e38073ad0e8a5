-- ===== src/Protocol/Tokens/Spec.antt =====
-- The words of a line by one pass over its bytes, and that `proto_tokenize` finds them.
use kvx.Common.{
  take-length, drop-length, slice, ℕ, zero, suc, ◌+◌, ◌-◌, ◌≤◌, ◌<◌, ◌≡◌, ◌≢◌, refl, ◌∙◌, List, [],
  ◌∷◌, ◌++◌, append_assoc, append-nil, arith, Bytes, take, drop, length, length-append, length-drop,
  length-take, run_length, run_length-le, leb, Bool, if◌then◌else◌, Bool-cases, inl, inr, ◌==◌,
}
use kvx.Protocol.Types.{Token, ok, err, invalid_arguments}
use kvx.Protocol.Tokens.{proto_is_separator, in_word, tokenize_loop, proto_tokenize}

-- The token of a word that ends before offset `pos`, if there is one.
abbrev pub close_word : ℕ → Bytes → List Token
close_word pos [] = []
close_word pos (c ∷ cur) = record { start = pos - length (c ∷ cur); text = c ∷ cur } ∷ []

-- The tokens of a text at offset `pos`, where `cur` is the part of a word that stands before it.
abbrev pub words_from : ℕ → Bytes → Bytes → List Token
words_from pos cur [] = close_word pos cur
words_from pos cur (c ∷ rest) =
    if proto_is_separator c
    then close_word pos cur ++ words_from (pos + 1) [] rest
    else words_from (pos + 1) (cur ++ c ∷ []) rest

-- Separators between words count only for the offset.
words_from-skip :
    (rest : Bytes) (pos : ℕ)
    → let k = run_length proto_is_separator rest in
      words_from pos [] rest ≡ words_from (pos + k) [] (drop k rest)
words_from-skip [] pos = refl
words_from-skip (c ∷ rest) pos = elim (Bool-cases (proto_is_separator c)) [
  | inl e ↦ rw (e, run_length) (words_from-skip rest (pos + 1) ∙ ground arith)
  | inr e ↦ rw (e, run_length) (ground arith)
]

-- The bytes up to the next separator finish the open word.
words_from-word :
    (rest cur : Bytes) (pos : ℕ)
    → let k = run_length in_word rest in
      words_from pos cur rest
      ≡ close_word (pos + k) (cur ++ take k rest) ++ words_from (pos + k) [] (drop k rest)
words_from-word [] cur pos = ground (arith, append-nil cur, append-nil (close_word pos cur))
words_from-word (c ∷ rest) cur pos = elim (Bool-cases (proto_is_separator c)) [
  | inl e ↦ rw (e, run_length) (ground (arith, append-nil cur))
  | inr e ↦
      rw (e, run_length)
        (words_from-word rest (cur ++ c ∷ []) (pos + 1)
          ∙ ground (arith, append_assoc cur (c ∷ []) (take (run_length in_word rest) rest)))
]

pub word-pos :
    (rest : Bytes)
    → let k = run_length proto_is_separator rest in
      k ≢ length rest → 0 < run_length in_word (drop k rest)
word-pos [] h = absurd (h refl)
word-pos (c ∷ rest) h = ground (arith, word-pos rest)

drop_all {ℓ} : {A : Type ℓ} (xs : List A) → drop (length xs) xs ≡ []
drop_all [] = refl
drop_all (x ∷ xs) = drop_all xs

pub close_word-pos :
    (pos : ℕ) (w : Bytes)
    → 0 < length w
    → close_word (pos + length w) w ≡ record { start = pos; text = w } ∷ []
close_word-pos pos [] h = absurd (omega arith)
close_word-pos pos (c ∷ w) h = ground arith

pub length-take_run :
    (p : ℕ → Bool) (xs : Bytes) → length (take (run_length p xs) xs) ≡ run_length p xs
length-take_run p xs = omega (arith, length-take (run_length p xs) xs, run_length-le p xs)

-- One round of the outer loop finds the first word.
pub words_from_step :
    (rest : Bytes) (pos : ℕ)
    → let skipped = run_length proto_is_separator rest in
      let word = drop skipped rest in
      let len = run_length in_word word in
      words_from pos [] rest ≡ (
        if skipped == length rest
        then []
        else record { start = pos + skipped; text = take len word }
          ∷ words_from (pos + skipped + len) [] (drop len word))
words_from_step rest pos =
    let skipped = run_length proto_is_separator rest in
    let word = drop skipped rest in
    let len = run_length in_word word in
    elim (Bool-cases (skipped == length rest)) [
      | inl e ↦
          let e' : skipped ≡ length rest = ground arith in
          rw e (words_from-skip rest pos ∙ rw (e', drop_all rest))
      | inr e ↦
          let some_word = word-pos rest (ground arith) in
          rw e (
            words_from-skip rest pos
            ∙ words_from-word word [] (pos + skipped)
            ∙ ground (
              arith,
              length-take_run in_word word,
              close_word-pos (pos + skipped) (take len word),
            ))
    ]

tokenize_loop-words_from :
    (fuel : ℕ) (rest : Bytes) (pos capacity : ℕ) (tokens : List Token)
    → length rest < fuel
    → length tokens ≤ capacity
    → tokenize_loop fuel rest pos capacity tokens ≡ (
        if leb (length tokens + length (words_from pos [] rest)) capacity
        then ok (tokens ++ words_from pos [] rest)
        else err invalid_arguments)
unfolding tokenize_loop
tokenize_loop-words_from zero rest pos capacity tokens h room = absurd (omega arith)
tokenize_loop-words_from (suc fuel) rest pos capacity tokens h room =
    let skipped = run_length proto_is_separator rest in
    let word = drop skipped rest in
    let len = run_length in_word word in
    let token : Token = record { start = pos + skipped; text = take len word } in
    rw (words_from_step rest pos) (
      ground (
        arith,
        append-nil tokens,
        word-pos rest,
        length-drop skipped rest,
        length-drop len word,
        run_length-le proto_is_separator rest,
        length-append tokens (token ∷ []),
        append_assoc tokens (token ∷ []) (words_from (pos + skipped + len) [] (drop len word)),
        tokenize_loop-words_from fuel (drop len word) (pos + skipped + len) capacity
            (tokens ++ token ∷ []),
      ))

-- `proto_tokenize` gives the words of the line, in order, each with its offset, if the array has
-- room for all of them, and PROTO_ERR_INVALID_ARGUMENTS if it has not. The outer loop ends.
pub proto_tokenize-words_from :
    (line : Bytes) (capacity : ℕ)
    → proto_tokenize line capacity ≡ (
        if leb (length (words_from 0 [] line)) capacity
        then ok (words_from 0 [] line)
        else err invalid_arguments)
unfolding proto_tokenize
proto_tokenize-words_from line capacity =
    tokenize_loop-words_from (suc (length line)) line 0 capacity [] (omega arith) (omega arith)
    ∙ ground arith

-- A token whose text stands in the line at its offset.
abbrev pub IsSlice : Bytes → Token → Type 0
IsSlice line t = slice line t.start (length t.text) ≡ t.text

pub slice_middle :
    (before w rest : Bytes) → slice (before ++ (w ++ rest)) (length before) (length w) ≡ w
slice_middle before w rest = rw (drop-length before (w ++ rest)) (take-length w rest)
