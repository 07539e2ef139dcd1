-- ===== src/Root/Install.antt =====
-- internal/root/install/install.go: the INSTALL manifest.
pub mod Writer
pub mod Safety
use go_casclib.Common.{
  ℕ, zero, suc, ◌+◌, ◌/◌, ◌==◌, leb, ltb, not, if◌then◌else◌, ◌&&◌, Option, none, some, List, [],
  ◌∷◌, ◌++◌, Result, ok, err, Error, guard, ◌>>=◌, ◌>>◌, bad_format, not_supported, length, lookup,
  or_else,
}
use go_casclib.Binary.{
  Bytes, at, back, slice, padded, bytes_eq, index_byte, le_uint16_at, be_uint16_at, be_uint32_at,
}
use go_casclib.Bits.{u32}
use go_casclib.Keys.{CKeyEntry, root_entry, invalid_id}
use go_casclib.Listfile.{hash_normalized}

-- `casc.MagicInstall`, 'IN' in little endian
abbrev pub magic_install : ℕ
magic_install = 0x4E49

pub record Tag : Type 0 where
  pub name : Bytes
  pub tag_type : ℕ
  pub bitmap : Bytes

pub record Handler : Type 0 where
  pub hash_size : ℕ
  pub tag_count : ℕ
  pub entry_count : ℕ
  pub tags : List Tag
  pub files : List (Bytes × CKeyEntry)
  pub by_hash : List (ℕ × CKeyEntry)
  pub all : List (Bytes × CKeyEntry)

-- The name at `off`, and the place behind its zero byte.
abbrev pub name_to : Option ℕ → ℕ → Bytes → Result (Bytes × ℕ)
name_to none off bs = err bad_format
name_to (some name_end) off bs = slice off name_end bs >>= λ name. ok (name, off + name_end + 1)

unfoldable pub read_name : ℕ → Bytes → Result (Bytes × ℕ)
read_name off bs = back off bs >>= λ rest. name_to (index_byte 0 rest) off bs

unfoldable pub parse_tag : ℕ → ℕ → Bytes → Result (Tag × ℕ)
parse_tag bitmap_len off bs = do
  named ← read_name off bs
  let at_type = named.1
  guard (leb (at_type + 2 + bitmap_len) (length bs)) bad_format
  tag_type ← be_uint16_at at_type bs
  bitmap ← slice (at_type + 2) bitmap_len bs
  ok (record { name = named.0; tag_type = tag_type; bitmap = bitmap }, at_type + 2 + bitmap_len)

-- The loop over the tags; the first argument counts those that are left.
pub parse_tags : ℕ → ℕ → ℕ → Bytes → Result (List Tag × ℕ)
unfolding parse_tag
parse_tags zero bitmap_len off bs = ok ([], off)
parse_tags (suc n) bitmap_len off bs = do
  first ← parse_tag bitmap_len off bs
  others ← parse_tags n bitmap_len first.1 bs
  ok (first.0 ∷ others.0, others.1)

-- The name, the content key, the size and the place behind them
pub record EntryAt : Type 0 where
  pub entry_name : Bytes
  pub entry_ckey : Bytes
  pub entry_size : ℕ
  pub behind : ℕ

unfoldable pub parse_entry : ℕ → ℕ → Bytes → Result EntryAt
parse_entry hash_size off bs = do
  named ← read_name off bs
  let at_key = named.1
  guard (leb (at_key + hash_size + 4) (length bs)) bad_format
  key ← slice at_key hash_size bs
  size ← be_uint32_at (at_key + hash_size) bs
  ok (record {
    entry_name = named.0;
    entry_ckey = padded 16 key;
    entry_size = size;
    behind = at_key + hash_size + 4;
  })

unfoldable pub add_file : Bytes → Bytes → ℕ → Handler → Handler
unfolding hash_normalized
add_file name ckey size h =
    let hash = hash_normalized name in
    let entry = root_entry ckey hash size invalid_id 0 0 in
    record h {
      files = (name, entry) ∷ h.files;
      by_hash = (hash, entry) ∷ h.by_hash;
      all = h.all ++ ((name, entry) ∷ []);
    }

-- The loop over the entries, which also ends at the end of the data.
pub parse_entries : ℕ → ℕ → Bytes → Handler → Result Handler
unfolding parse_entry
parse_entries zero off bs h = ok h
parse_entries (suc n) off bs h =
    if ltb off (length bs)
    then (do
      e ← parse_entry h.hash_size off bs
      parse_entries n e.behind bs (add_file e.entry_name e.entry_ckey e.entry_size h))
    else ok h

-- `int((entryCount + 7) / 8)`, where the sum is a `uint32`
abbrev pub bitmap_length : ℕ → ℕ
bitmap_length entry_count = u32 (entry_count + 7) / 8

abbrev pub handler_with : ℕ → ℕ → ℕ → List Tag → Handler
handler_with hash_size tag_count entry_count tags = record {
  hash_size = hash_size;
  tag_count = tag_count;
  entry_count = entry_count;
  tags = tags;
  files = [];
  by_hash = [];
  all = [];
}

-- Behind the ten bytes of the header
unfoldable pub parse_body : ℕ → ℕ → ℕ → Bytes → Result Handler
unfolding parse_tags parse_entries
parse_body hash_size tag_count entry_count bs = do
  tags ← parse_tags tag_count (bitmap_length entry_count) 10 bs
  parse_entries entry_count tags.1 bs (handler_with hash_size tag_count entry_count tags.0)

unfoldable pub parse : Bytes → Result Handler
unfolding parse_body
parse bs = do
  guard (leb 10 (length bs)) bad_format
  magic ← le_uint16_at 0 bs
  guard (magic == magic_install) bad_format
  version ← at bs 2
  guard (version == 1) not_supported
  hash_size ← at bs 3
  guard (leb 1 hash_size && leb hash_size 16) bad_format
  tag_count ← be_uint16_at 4 bs
  entry_count ← be_uint32_at 6 bs
  parse_body hash_size tag_count entry_count bs

unfoldable pub probe : Bytes → Result Handler
unfolding parse
probe bs = do
  guard (leb 10 (length bs)) bad_format
  magic ← le_uint16_at 0 bs
  guard (magic == magic_install) bad_format
  parse bs

-- By the name as it is, and then by the hash of the name.
unfoldable pub lookup_by_name : Handler → Bytes → Option CKeyEntry
unfolding hash_normalized
lookup_by_name h name =
    or_else (lookup bytes_eq name h.files) (lookup ◌==◌ (hash_normalized name) h.by_hash)
