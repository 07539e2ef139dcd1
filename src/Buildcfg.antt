-- ===== src/Buildcfg.antt =====
-- internal/buildcfg/buildcfg.go: the build and CDN configurations.
pub mod Keys
pub mod Names
mod Tests
use go_casclib.Common.{
  ℕ, zero, suc, ◌+◌, ◌-◌, ◌*◌, leb, ltb, ◌==◌, ◌&&◌, not, if◌then◌else◌, Bool, true, false, Option,
  none, some, List, [], ◌∷◌, ◌++◌, length, take, drop, lookup, Result, ok, err, ◌>>=◌, ◌>>◌, guard,
  file_not_found, foreign, replicate,
}
use go_casclib.Binary.{Bytes, bytes_eq, index_byte}
use go_casclib.Text.{trim_space, text_fields, scan_lines}

-- The map of the entries, the newest in front, and the names in the order of the file.
pub record Config : Type 0 where
  pub entries : List (Bytes × List Bytes)
  pub order : List Bytes

-- What a lookup in the map has: no values where the name is missing.
abbrev pub values_of : Option (List Bytes) → List Bytes
values_of none = []
values_of (some values) = values

-- `All`
unfoldable pub all_values : Config → Bytes → List Bytes
all_values c name = values_of (lookup bytes_eq name c.entries)

abbrev pub first_of : List Bytes → Bytes
first_of [] = []
first_of (v ∷ values) = v

-- `Get`
unfoldable pub get : Config → Bytes → Bytes
unfolding all_values
get c name = first_of (all_values c name)

-- The value of a digit in `hex.DecodeString`
abbrev pub hex_value : ℕ → Option ℕ
hex_value c =
    if leb 48 c && leb c 57
    then some (c - 48)
    else if leb 97 c && leb c 102
    then some (c - 87)
    else if leb 65 c && leb c 70
    then some (c - 55)
    else none

abbrev pub add_pair : Option ℕ → Option ℕ → Result Bytes → Result Bytes
add_pair (some high) (some low) (ok rest) = ok ((high * 16 + low) ∷ rest)
add_pair _ _ _ = err foreign

-- `hex.DecodeString`
abbrev pub decode_string : Bytes → Result Bytes
decode_string [] = ok []
decode_string (c ∷ []) = err foreign
decode_string (c ∷ d ∷ s) = add_pair (hex_value c) (hex_value d) (decode_string s)

-- A text of another length is an error of the package's own.
unfoldable pub decode_key16 : Bytes → Result Bytes
decode_key16 s = do guard (length s == 32) foreign; decode_string s

-- `CKeyEntry`
pub record CKeyEntry : Type 0 where
  pub ckey : Bytes
  pub ekey : Bytes
  pub has_ekey : Bool
  pub content_size : ℕ

abbrev pub ckey_only : Bytes → CKeyEntry
ckey_only k = record { ckey = k; ekey = replicate 16 0; has_ekey = false; content_size = 0 }

-- A second value that is no key leaves the entry without an EKey.
abbrev pub with_ekey : CKeyEntry → Result Bytes → CKeyEntry
with_ekey e (err _) = e
with_ekey e (ok k) = record e { ekey = k; has_ekey = true }

abbrev pub second_value : CKeyEntry → List Bytes → CKeyEntry
second_value e [] = e
second_value e (v ∷ values) = with_ekey e (decode_key16 v)

abbrev pub entry_of : List Bytes → Result CKeyEntry
entry_of [] = err file_not_found
entry_of (v ∷ values) = do k ← decode_key16 v; ok (second_value (ckey_only k) values)

unfoldable pub lookup_ckey : Config → Bytes → Result CKeyEntry
unfolding all_values
lookup_ckey c name = entry_of (all_values c name)

abbrev pub decode_all : List Bytes → Result (List Bytes)
decode_all [] = ok []
decode_all (v ∷ values) = do k ← decode_key16 v; keys ← decode_all values; ok (k ∷ keys)

-- The bytes of "archives"
abbrev pub archives_name : Bytes
archives_name = 0x61 ∷ 0x72 ∷ 0x63 ∷ 0x68 ∷ 0x69 ∷ 0x76 ∷ 0x65 ∷ 0x73 ∷ []

unfoldable pub archives : Config → Result (List Bytes)
unfolding all_values
archives c = decode_all (all_values c archives_name)

abbrev pub order_with : Option (List Bytes) → Bytes → List Bytes → List Bytes
order_with none name order = order ++ (name ∷ [])
order_with (some old) name order = order

-- A value that is assigned to a name
unfoldable pub assign : Config → Bytes → List Bytes → Config
assign c name values = record {
  entries = (name, values) ∷ c.entries;
  order = order_with (lookup bytes_eq name c.entries) name c.order;
}

abbrev pub assign_named : Config → Bytes → Bytes → Config
unfolding assign
assign_named c [] rest = c
assign_named c (b ∷ name) rest = assign c (b ∷ name) (text_fields rest)

abbrev pub add_pair_at : Config → Bytes → Option ℕ → Config
add_pair_at c line none = c
add_pair_at c line (some eq) =
    assign_named c (trim_space (take eq line)) (trim_space (drop (suc eq) line))

-- A line without the white space at its ends; an empty one and a comment are left out.
abbrev pub add_line : Config → Bytes → Config
add_line c [] = c
add_line c (b ∷ s) = if b == b'#' then c else add_pair_at c (b ∷ s) (index_byte b'=' (b ∷ s))

pub add_lines : Config → List Bytes → Config
add_lines c [] = c
add_lines c (line ∷ lines) = add_lines (add_line c (trim_space line)) lines

abbrev pub empty_config : Config
empty_config = record { entries = []; order = [] }

unfoldable pub parse : Bytes → Result Config
unfolding add_lines
parse s = do lines ← scan_lines (4 * 1024 * 1024) s; ok (add_lines empty_config lines)
