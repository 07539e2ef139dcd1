-- ===== src/Text/Lines.antt =====
-- `bufio.Scanner` with its default split by lines, on a reader that does not fail.
use go_casclib.Common.{
  ℕ, zero, suc, leb, ◌==◌, if◌then◌else◌, none, some, List, [], ◌∷◌, length, take, drop, Result, ok,
  err, foreign, ◌>>=◌, ◌>>◌, guard, not,
}
use go_casclib.Binary.{Bytes, index_byte}
use go_casclib.Text.Spaces.{backward}

-- A carriage return at the end of a line is dropped.
abbrev pub drop_return : Bytes → Bytes
drop_return [] = []
drop_return (b ∷ rest) = if b == 13 then backward rest else backward (b ∷ rest)

abbrev pub line_text : Bytes → Bytes
line_text line = drop_return (backward line)

-- A line whose bytes fill the buffer before its end is an error.
pub lines_from : ℕ → ℕ → Bytes → Result (List Bytes)
lines_from buffer zero s = ok []
lines_from buffer (suc n) [] = ok []
lines_from buffer (suc n) (b ∷ s) = elim (index_byte 10 (b ∷ s)) [
  | none ↦ if leb buffer (length (b ∷ s)) then err foreign else ok (line_text (b ∷ s) ∷ [])
  | some i ↦ do
    guard (not (leb buffer i)) foreign
    rest ← lines_from buffer n (drop (suc i) (b ∷ s))
    ok (line_text (take i (b ∷ s)) ∷ rest)
]

-- The lines of a text; each has a byte at least, so its length is fuel enough.
unfoldable pub scan_lines : ℕ → Bytes → Result (List Bytes)
unfolding lines_from
scan_lines buffer s = lines_from buffer (length s) s
