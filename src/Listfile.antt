-- ===== src/Listfile.antt =====
-- internal/listfile/listfile.go: the names of files by their hashes. A name is the list of its bytes.
use go_casclib.Common.{
  ℕ, ◌-◌, ◌*◌, ◌==◌, leb, ◌&&◌, ◌||◌, if◌then◌else◌, map, Option, none, some, List, [], ◌∷◌, lookup,
  Result, ok, ◌>>=◌,
}
use go_casclib.Binary.{Bytes}
use go_casclib.Text.{trim_space, scan_lines}
use go_casclib.Hashes.{hash_file_name}

-- '/' becomes '\', and a small letter a large one.
unfoldable pub normalized_char : ℕ → ℕ
normalized_char c = if c == 0x2F then 0x5C else if leb 0x61 c && leb c 0x7A then c - 32 else c

-- `HashFileName` of listfile
unfoldable pub hash_normalized : Bytes → ℕ
unfolding normalized_char hash_file_name
hash_normalized name = hash_file_name (map normalized_char name)

pub record NameList : Type 0 where
  pub by_hash : List (ℕ × Bytes)

-- `Add`
unfoldable pub add_name : NameList → Bytes → NameList
add_name l name = record { by_hash = (hash_normalized name, name) ∷ l.by_hash }

abbrev pub name_of : Option Bytes → Bytes
name_of none = []
name_of (some name) = name

-- `Lookup`
unfoldable pub lookup_hash : NameList → ℕ → Bytes
lookup_hash l hash = name_of (lookup (λ a b. a == b) hash l.by_hash)

unfoldable pub lookup_name : NameList → Bytes → Bytes
unfolding lookup_hash
lookup_name l name = lookup_hash l (hash_normalized name)

-- An empty line and a comment are left out.
abbrev pub add_named_line : NameList → Bytes → NameList
unfolding add_name
add_named_line l [] = l
add_named_line l (b ∷ s) = if (b == b'#') || (b == b';') then l else add_name l (b ∷ s)

pub add_named_lines : NameList → List Bytes → NameList
add_named_lines l [] = l
add_named_lines l (line ∷ lines) = add_named_lines (add_named_line l (trim_space line)) lines

unfoldable pub load : Bytes → Result NameList
unfolding add_named_lines
load s = do
  lines ← scan_lines (8 * 1024 * 1024) s
  ok (add_named_lines (record { by_hash = [] }) lines)
