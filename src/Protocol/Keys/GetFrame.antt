-- ===== src/Protocol/Keys/GetFrame.antt =====
-- A `get` that a client sends: the frame is read, and `protocol_next_key` visits its keys.
use kvx.Common.{
  All-append, ◌+◌, ◌≡◌, refl, sym, ◌∙◌, List, [], ◌∷◌, ◌++◌, arith, Bytes, All, codes, take, drop,
  length, length-append, append_assoc, take-length, drop-length, some,
}
use kvx.Protocol.Types.{Command, zero_command, ok, ◌>>=◌}
use kvx.Protocol.Line.Find.{IsLineByte, crlf}
use kvx.Protocol.Tokens.Spec.{words_from, IsSlice, slice_middle}
use kvx.Protocol.Header.Words.{IsKey, spaced, place, words_from-spaced}
use kvx.Protocol.Header.Get.{proto_parse_header-get, All-IsWord}
use kvx.Protocol.Frame.{parse_frame, parse_line, read_body, protocol_parse_command}
use kvx.Protocol.Frame.Requests.Lines.{find_line-line, spaced-IsLine, key_bytes-IsLine}
use kvx.Protocol.Keys.Iterate.{Visits, protocol_next_key-Visits}

abbrev pub get_line : List Bytes → Bytes
get_line ks = codes "get" ++ spaced ks

abbrev pub get_frame : List Bytes → Bytes
get_frame ks = get_line ks ++ crlf

-- `*cmd` behind the call: the first key, and where the keys end.
abbrev pub get_command : Bytes → List Bytes → Command
get_command w ws = record zero_command {
  key = some 4;
  key_len = length w;
  keys_end = some (length (get_line (w ∷ ws)));
}

place-IsSlice :
    (ws : List Bytes) (b before rest : Bytes)
    → b ≡ before ++ (spaced ws ++ rest)
    → All (IsSlice b) (place (length before) ws)
place-IsSlice [] b before rest e = tt
place-IsSlice (w ∷ ws) b before rest e =
    let space = before ++ b' ' ∷ [] in
    let start : length space ≡ length before + 1 = length-append before (b' ' ∷ []) in
    let next : length (space ++ w) ≡ length before + 1 + length w =
      omega (arith, start, length-append space w) in
    let here : b ≡ space ++ (w ++ (spaced ws ++ rest)) =
      e
      ∙ ground (
        arith,
        append_assoc before (b' ' ∷ []) (w ++ (spaced ws ++ rest)),
        append_assoc w (spaced ws) rest,
      ) in
    (
      rw (← start, here) (slice_middle space w (spaced ws ++ rest)),
      rw (← next) (
          place-IsSlice ws b (space ++ w) rest
            (here ∙ sym (append_assoc space w (spaced ws ++ rest)))),
    )

keys-IsLine : (ks : List Bytes) → All IsKey ks → All (All IsLineByte) ks
keys-IsLine [] h = tt
keys-IsLine (k ∷ ks) h = (key_bytes-IsLine k (h.0).bytes, keys-IsLine ks h.1)

get_line-IsLine : (ks : List Bytes) → All IsKey ks → All IsLineByte (get_line ks)
get_line-IsLine ks h =
    All-append IsLineByte (codes "get") (spaced ks) (omega arith)
      (spaced-IsLine ks (keys-IsLine ks h))

parse_frame-get :
    (w : Bytes) (ws : List Bytes) (more : Bytes)
    → All IsKey (w ∷ ws)
    → parse_frame (get_line (w ∷ ws) ++ (crlf ++ more))
      ≡ ok (get_command w ws, length (get_line (w ∷ ws)) + 2)
unfolding parse_frame parse_line read_body
parse_frame-get w ws more h =
    let text = get_line (w ∷ ws) in
    rw (find_line-line text more (get_line-IsLine (w ∷ ws) h), ◌>>=◌)
      (rw (take-length text (crlf ++ more), proto_parse_header-get w ws h, ◌>>=◌))

-- What stands behind the first key.
behind_first :
    (w : Bytes) (ws : List Bytes) (more : Bytes)
    → All IsKey (w ∷ ws)
    → let text = get_line (w ∷ ws) in
      words_from
        (4 + length w)
        []
        (drop (4 + length w) (take (length text) (text ++ (crlf ++ more))))
      ≡ place (4 + length w) ws
behind_first w ws more h =
    let text = get_line (w ∷ ws) in
    let first = codes "get " ++ w in
    let size : 4 + length w ≡ length first = omega arith in
    rw (take-length text (crlf ++ more), size, drop-length first (spaced ws))
      (words_from-spaced ws [] (length first) (All-IsWord ws h.1))

-- A `get` with valid keys, one space before each, is read as one frame whatever bytes follow: `*cmd`
-- has the first key, the calls of `protocol_next_key` visit the other keys in order and then return
-- false, and each key is the slice of the buffer at its position.
pub get_frame-Visits :
    (w : Bytes) (ws : List Bytes) (more : Bytes) (cmd : Command)
    → All IsKey (w ∷ ws)
    → let b = get_frame (w ∷ ws) ++ more in
      (protocol_parse_command b cmd
        ≡ record { result = ok tt; cmd = get_command w ws; consumed = length (get_frame (w ∷ ws)) })
      × Visits b (get_command w ws) (place (4 + length w) ws)
      × All (IsSlice b) (place 3 (w ∷ ws))
unfolding protocol_parse_command
get_frame-Visits w ws more cmd h =
    let text = get_line (w ∷ ws) in
    let size = length-append text crlf in
    rw (append_assoc text crlf more) (
      rw (parse_frame-get w ws more h, protocol_parse_command, size),
      protocol_next_key-Visits (text ++ (crlf ++ more)) (place (4 + length w) ws) (get_command w ws)
          4 (length text) refl refl (omega (arith, length-append w (spaced ws)))
          (omega (arith, length-append text (crlf ++ more))) (behind_first w ws more h),
      place-IsSlice (w ∷ ws) (get_frame (w ∷ ws) ++ more) (codes "get") (crlf ++ more) (
          append_assoc text crlf more
          ∙ append_assoc (codes "get") (spaced (w ∷ ws)) (crlf ++ more)),
    )
