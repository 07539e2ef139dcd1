-- ===== src/Csv.antt =====
-- internal/csv/csv.go: the tables of `.build.info`. The reader is the text it returns.
pub mod Split
mod Tests
use go_casclib.Common.{
  ℕ, zero, suc, ◌*◌, leb, ◌==◌, if◌then◌else◌, Bool, true, false, Option, none, some, List, [], ◌∷◌,
  ◌++◌, length, take, map, Result, ok, err, ◌>>=◌,
}
use mathlib.Core.Option.{map as option_map}
use go_casclib.Binary.{Bytes, bytes_eq, index_byte}
use go_casclib.Text.{trim_space, scan_lines}

pub record File : Type 0 where
  pub headers : List Bytes
  pub rows : List (List Bytes)

-- A byte goes to the field that follows it.
abbrev pub extend : ℕ → List Bytes → List Bytes
extend b [] = (b ∷ []) ∷ []
extend b (field ∷ fields) = (b ∷ field) ∷ fields

unfoldable pub split_line : ℕ → Bytes → List Bytes
split_line sep [] = [] ∷ []
split_line sep (b ∷ s) =
    let fields = split_line sep s in if b == sep then [] ∷ fields else extend b fields

-- A header up to its type
abbrev pub header_name : Option ℕ → Bytes → Bytes
header_name none h = h
header_name (some idx) h = take idx h

abbrev pub header_of : Bytes → Bytes
header_of h = trim_space (header_name (index_byte b'!' h) h)

abbrev pub nonempty : List Bytes → List Bytes
nonempty [] = []
nonempty ([] ∷ lines) = nonempty lines
nonempty ((b ∷ s) ∷ lines) = (b ∷ s) ∷ nonempty lines

-- The first line that is not empty has the headers.
abbrev pub table_of : ℕ → List Bytes → File
unfolding split_line
table_of sep [] = record { headers = []; rows = [] }
table_of sep (line ∷ lines) = record {
  headers = map header_of (split_line sep line);
  rows = map (split_line sep) lines;
}

unfoldable pub parse_sep : ℕ → Bytes → Result File
parse_sep sep s = do lines ← scan_lines (16 * 1024 * 1024) s; ok (table_of sep (nonempty lines))

unfoldable pub parse : Bytes → Result File
unfolding parse_sep
parse s = parse_sep b'|' s

-- The place of the name in the headers; `none` stands for -1.
abbrev pub column_in : List Bytes → Bytes → Option ℕ
column_in [] name = none
column_in (h ∷ headers) name =
    if bytes_eq h name then some zero else option_map suc (column_in headers name)

unfoldable pub column : File → Bytes → Option ℕ
column f name = column_in f.headers name

abbrev pub nth {ℓ} : {A : Type ℓ} → List A → ℕ → Option A
nth [] i = none
nth (x ∷ xs) zero = some x
nth (x ∷ xs) (suc i) = nth xs i

abbrev pub field_of : Option (List Bytes) → Option ℕ → Bytes
field_of (some row) (some c) = or_empty (nth row c)
  where
    or_empty : Option Bytes → Bytes
    or_empty none = []
    or_empty (some s) = s
field_of _ _ = []

-- A negative row is out of bounds like one behind the last.
unfoldable pub get : File → ℕ → Bytes → Bytes
unfolding column
get f row col = field_of (nth f.rows row) (column f col)
