-- ===== src/Encoding/Reader.antt =====
-- internal/encoding/encoding.go: `Parse` and `Find`. The map is the list of what was put into it, in
-- that order: the last entry of a key counts.
pub mod Safety
pub mod RoundTrip
use go_casclib.Common.{
  ℕ, zero, suc, ◌+◌, ◌*◌, ◌==◌, ◌&&◌, leb, if◌then◌else◌, Option, none, some, List, [], ◌∷◌, ◌++◌,
  Result, ok, err, guard, ◌>>=◌, ◌>>◌, bad_format, not_supported, file_corrupt, length,
}
use go_casclib.Binary.{Bytes, at, slice, bytes_eq, le_uint16_at, be_uint16_at, be_uint32_at}

pub record Header : Type 0 where
  pub version : ℕ
  pub ckey_length : ℕ
  pub ekey_length : ℕ
  pub ckey_page_size : ℕ
  pub ekey_page_size : ℕ
  pub ckey_page_count : ℕ
  pub ekey_page_count : ℕ
  pub espec_block_size : ℕ

pub record CKeyEntry : Type 0 where
  pub content_size : ℕ
  -- `casc.CKey` and `casc.EKey`, sixteen bytes
  pub ckey : Bytes
  pub ekeys : List Bytes

pub record File : Type 0 where
  pub header : Header
  pub entries : List CKeyEntry

-- `casc.MagicEncoding`, 'EN' in little endian
abbrev pub magic_encoding : ℕ
magic_encoding = 0x4e45

-- The loop over `k`; the first argument counts the keys that are left, the second is `koff`.
pub read_ekeys : ℕ → ℕ → Bytes → Result (List Bytes)
read_ekeys zero off page = ok []
read_ekeys (suc n) off page = do
  ekey ← slice off 16 page
  rest ← read_ekeys n (off + 16) page
  ok (ekey ∷ rest)

-- One record behind its count, and then `next`, the loop from the place behind it.
pub page_record : ℕ → ℕ → ℕ → Bytes → Result (List CKeyEntry) → Result (List CKeyEntry)
page_record count p page_bytes page next = do
  guard (leb (p + (22 + count * 16)) page_bytes) file_corrupt
  content_size ← be_uint32_at (p + 2) page
  ckey ← slice (p + 6) 16 page
  ekeys ← read_ekeys count (p + 22) page
  rest ← next
  ok (record { content_size = content_size; ckey = ckey; ekeys = ekeys } ∷ rest)

-- The loop over `p`; the place behind a record depends on its count. Each round moves `p` by 38 at
-- least.
pub parse_page : ℕ → ℕ → ℕ → Bytes → Result (List CKeyEntry)
unfolding page_record read_ekeys
parse_page zero p page_bytes page = ok []
parse_page (suc fuel) p page_bytes page =
    let next = λ (count : ℕ). parse_page fuel (p + (22 + count * 16)) page_bytes page in
    if leb (p + 6) page_bytes
    then (do
      count ← le_uint16_at p page
      if count == 0 then ok [] else page_record count p page_bytes page (next count))
    else ok []

-- The loop over the pages; the first argument counts those that are left.
unfoldable pub parse_pages : ℕ → ℕ → ℕ → Bytes → Result (List CKeyEntry)
unfolding parse_page
parse_pages zero off page_bytes bs = ok []
parse_pages (suc n) off page_bytes bs = do
  guard (leb (off + page_bytes) (length bs)) file_corrupt
  page ← slice off page_bytes bs
  found ← parse_page page_bytes 0 page_bytes page
  rest ← parse_pages n (off + page_bytes) page_bytes bs
  ok (found ++ rest)

unfoldable pub parse_header : Bytes → Result Header
parse_header bs = do
  guard (leb 22 (length bs)) bad_format
  magic ← le_uint16_at 0 bs
  guard (magic == magic_encoding) bad_format
  version ← at bs 2
  guard (version == 1) not_supported
  ckey_len ← at bs 3
  ekey_len ← at bs 4
  ckey_page_size_kb ← be_uint16_at 5 bs
  ekey_page_size_kb ← be_uint16_at 7 bs
  ckey_page_count ← be_uint32_at 9 bs
  ekey_page_count ← be_uint32_at 13 bs
  espec_size ← be_uint32_at 18 bs
  guard (ckey_len == 16 && ekey_len == 16) not_supported
  ok (record {
    version = 1;
    ckey_length = ckey_len;
    ekey_length = ekey_len;
    ckey_page_size = ckey_page_size_kb * 1024;
    ekey_page_size = ekey_page_size_kb * 1024;
    ckey_page_count = ckey_page_count;
    ekey_page_count = ekey_page_count;
    espec_block_size = espec_size;
  })

-- The page index of 32 bytes for each page is skipped.
unfoldable pub parse : Bytes → Result File
unfolding parse_pages
parse bs = do
  hdr ← parse_header bs
  let off = 22 + hdr.espec_block_size + hdr.ckey_page_count * 32
  guard (leb off (length bs)) file_corrupt
  entries ← parse_pages hdr.ckey_page_count off hdr.ckey_page_size bs
  ok (record { header = hdr; entries = entries })

unfoldable pub find_in : List CKeyEntry → Bytes → Option CKeyEntry
find_in [] ckey = none
find_in (e ∷ entries) ckey = elim (find_in entries ckey) [
  | some later ↦ some later
  | none ↦ if bytes_eq e.ckey ckey then some e else none
]

unfoldable pub find : File → Bytes → Option CKeyEntry
unfolding find_in
find f ckey = find_in f.entries ckey
