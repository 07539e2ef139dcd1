-- ===== src/Root/Text.antt =====
-- internal/root/text/text.go: the root file with a name and a content key in each line.
pub mod Lines
use go_casclib.Common.{
  ℕ, suc, ◌*◌, ◌==◌, leb, ◌&&◌, ◌||◌, if◌then◌else◌, Bool, true, false, Option, none, some, List,
  [], ◌∷◌, length, take, drop, lookup, Result, ok, err, bad_format, ◌>>=◌, ◌>>◌, guard,
}
use go_casclib.Binary.{Bytes, index_byte}
use go_casclib.Text.{trim_space, scan_lines}
use go_casclib.Keys.{CKeyEntry, root_entry, invalid_id}
use go_casclib.Listfile.{hash_normalized}
use go_casclib.Buildcfg.{decode_string}

-- The map of the entries by the hashes of their names
pub record Handler : Type 0 where
  pub by_hash : List (ℕ × (Bytes × CKeyEntry))

abbrev pub text_byte : ℕ → Bool
text_byte c = (c == 9) || (c == 13) || (c == 10) || leb 0x20 c

abbrev pub looks_like_text : Bytes → Bool
looks_like_text [] = true
looks_like_text (c ∷ bs) = text_byte c && looks_like_text bs

unfoldable pub put_name : Handler → Bytes → Bytes → Handler
put_name h name ck = record {
  by_hash =
      (hash_normalized name, (name, root_entry ck (hash_normalized name) 0 invalid_id 0 0))
      ∷ h.by_hash;
}

abbrev pub put_decoded : Handler → Bytes → Result Bytes → Handler
put_decoded h name (err _) = h
put_decoded h name (ok md5) = put_name h name md5

-- A key that is not 32 digits leaves the line out.
unfoldable pub put_pair : Handler → Bytes → Bytes → Handler
put_pair h name hex = if length hex == 32 then put_decoded h name (decode_string hex) else h

abbrev pub put_at : Handler → Bytes → Option ℕ → Handler
unfolding put_pair
put_at h line none = h
put_at h line (some bar) =
    put_pair h (trim_space (take bar line)) (trim_space (drop (suc bar) line))

-- A line without the white space at its ends
unfoldable pub put_line : Handler → Bytes → Handler
unfolding put_at
put_line h [] = h
put_line h (b ∷ s) = if b == b'#' then h else put_at h (b ∷ s) (index_byte b'|' (b ∷ s))

pub put_lines : Handler → List Bytes → Handler
unfolding put_line
put_lines h [] = h
put_lines h (line ∷ lines) = put_lines (put_line h (trim_space line)) lines

unfoldable pub parse : Bytes → Result Handler
unfolding put_lines
parse bs = do
  lines ← scan_lines (16 * 1024 * 1024) bs
  ok (put_lines (record { by_hash = [] }) lines)

abbrev pub is_found : Option ℕ → Bool
is_found none = false
is_found (some i) = true

unfoldable pub probe : Bytes → Result Handler
unfolding parse
probe bs = do
  guard (looks_like_text (take 1024 bs)) bad_format
  guard (is_found (index_byte b'|' (take 1024 bs))) bad_format
  parse bs

abbrev pub entry_in : Option (Bytes × CKeyEntry) → Option CKeyEntry
entry_in none = none
entry_in (some (name, entry)) = some entry

unfoldable pub lookup_by_name : Handler → Bytes → Option CKeyEntry
lookup_by_name h name = entry_in (lookup (λ a b. a == b) (hash_normalized name) h.by_hash)
