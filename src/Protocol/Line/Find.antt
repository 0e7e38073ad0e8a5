-- ===== src/Protocol/Line/Find.antt =====
-- What `proto_find_line` finds, and that its final answers stay when more bytes arrive.
use kvx.Common.{
  ℕ, zero, suc, ◌+◌, ◌≤◌, ◌≡◌, ◌≢◌, ◌↔◌, refl, [], ◌∷◌, ◌++◌, arith, Bytes, All, slice, take, drop,
  length, Bool-cases, ◌==◌, inl, inr, ◌∙◌, ap, length-take, length-drop,
}
use kvx.Protocol.Types.{ok, err, incomplete}
use kvx.Protocol.Line.{carriage_return, line_feed, find_line_from, proto_find_line}

-- A byte of a line: no part of a line end.
abbrev pub IsLineByte : ℕ → Type 0
IsLineByte c = (c ≢ carriage_return) × (c ≢ line_feed)

abbrev pub crlf : Bytes
crlf = carriage_return ∷ line_feed ∷ []

find_line_from_sound :
    (b : Bytes) (k i : ℕ)
    → find_line_from b k ≡ ok i
    → (j : ℕ) × (i ≡ k + j) × All IsLineByte (take j b) × (slice b j 2 ≡ crlf)
unfolding find_line_from
find_line_from_sound [] k i h = absurd (cc)
find_line_from_sound (c ∷ []) k i h = absurd (ground arith)
find_line_from_sound (c ∷ d ∷ s) k i h = elim (Bool-cases (c == carriage_return)) [
  | inl here ↦ (0, ground arith, tt, ground arith)
  | inr there ↦
      let (j, e, line, end) = find_line_from_sound (d ∷ s) (k + 1) i (ground arith) in
      (suc j, omega arith, ground arith, end)
]

find_line_from_complete :
    (b : Bytes) (k j : ℕ)
    → All IsLineByte (take j b)
    → slice b j 2 ≡ crlf
    → find_line_from b k ≡ ok (k + j)
unfolding find_line_from
find_line_from_complete [] k zero line end = absurd (cc)
find_line_from_complete [] k (suc j) line end = absurd (cc)
find_line_from_complete (c ∷ []) k zero line end = absurd (cc)
find_line_from_complete (c ∷ d ∷ s) k zero line end = ground arith
find_line_from_complete (c ∷ s) k (suc j) line end =
    ground (arith, find_line_from_complete s (k + 1) j line.1 end)

find_line_from-append :
    (b more : Bytes) (k : ℕ)
    → find_line_from b k ≢ err incomplete
    → find_line_from (b ++ more) k ≡ find_line_from b k
unfolding find_line_from
find_line_from-append [] more k h = absurd (h refl)
find_line_from-append (c ∷ []) more k h = ground arith
find_line_from-append (c ∷ d ∷ s) more k h =
    ground (arith, find_line_from-append (d ∷ s) more (k + 1))

-- The line end is found at `i` exactly when the `i` bytes before it hold neither CR nor LF and the
-- next two bytes are CR LF.
pub proto_find_line_iff :
    (b : Bytes) (i : ℕ)
    → (proto_find_line b ≡ ok i) ↔ (All IsLineByte (take i b) × (slice b i 2 ≡ crlf))
unfolding proto_find_line
proto_find_line_iff b i = (
  λ h.
      let (j, e, line, end) = find_line_from_sound b 0 i h in
      let e' : i ≡ j = omega arith in rw e' (line, end),
  λ (line, end). find_line_from_complete b 0 i line end ∙ ap ok (omega arith),
)

-- Unless it asks for more bytes, the answer stays the same whatever bytes follow.
pub proto_find_line-append :
    (b more : Bytes)
    → proto_find_line b ≢ err incomplete
    → proto_find_line (b ++ more) ≡ proto_find_line b
unfolding proto_find_line
proto_find_line-append b more h = find_line_from-append b more 0 h

pub line_fits : (b : Bytes) (i : ℕ) → slice b i 2 ≡ crlf → i + 2 ≤ length b
line_fits b i h = omega (arith, ap length h, length-take 2 (drop i b), length-drop i b)

pub find_line_fits : (b : Bytes) (i : ℕ) → proto_find_line b ≡ ok i → i + 2 ≤ length b
find_line_fits b i h = line_fits b i ((proto_find_line_iff b i).0 h).1
