-- ===== src/Cdn/ArchiveIndex.antt =====
-- internal/cdn/archive_index.go: `ParseArchiveIndex`. Go's crypto/md5 is a parameter.
pub mod Widths
pub mod Safety
pub mod Writer
use go_casclib.Common.{
  ℕ, zero, suc, ◌+◌, ◌-◌, ◌*◌, ◌/◌, ◌%◌, ◌^◌, ◌==◌, leb, not, if◌then◌else◌, Bool, ◌&&◌, ◌||◌, List,
  [], ◌∷◌, ◌++◌, Result, ok, err, guard, ◌>>=◌, ◌>>◌, bad_format, file_corrupt, length, take,
  replicate,
}
use go_casclib.Binary.{Bytes, at, back, front, slice, padded, bytes_eq, le_uint32_at}
use go_casclib.Compress.{Codecs}
use go_casclib.Keys.{zero_key}

-- The version is 1 and `FooterHashBytes` is 8 in every footer that is accepted; the derived lengths
-- are functions below.
pub record ArchiveIndexFooter : Type 0 where
  pub toc_hash : Bytes
  pub page_size_kb : ℕ
  pub offset_bytes : ℕ
  pub size_bytes : ℕ
  pub ekey_length : ℕ
  pub element_count : ℕ
  -- The eight bytes that are valid
  pub footer_hash : Bytes

pub record ArchiveIndexEntry : Type 0 where
  pub ekey : Bytes
  pub offset : ℕ
  pub encoded_size : ℕ

pub record ArchiveIndex : Type 0 where
  pub footer : ArchiveIndexFooter
  pub entries : List ArchiveIndexEntry

abbrev pub page_length : ArchiveIndexFooter → ℕ
page_length f = f.page_size_kb * 1024

abbrev pub item_length : ArchiveIndexFooter → ℕ
item_length f = f.ekey_length + f.offset_bytes + f.size_bytes

-- A page with its hash
abbrev pub page_stride : ArchiveIndexFooter → ℕ
page_stride f = page_length f + 16

-- `beUintN`: `v = (v << 8) | uint64(x)` for each byte.
pub be_uint_from : ℕ → Bytes → ℕ
be_uint_from v [] = v
be_uint_from v (x ∷ b) = be_uint_from (v * 256 % 2 ^ 64 + x) b

unfoldable pub be_uint_n : Bytes → ℕ
unfolding be_uint_from
be_uint_n b = be_uint_from 0 b

-- The bytes of the footer that are hashed, with zeros for `FooterHash`
abbrev pub hashed_part : Bytes → Bytes
hashed_part kept = kept ++ replicate 8 0

unfoldable pub parse_footer : Codecs → Bytes → Result ArchiveIndexFooter
parse_footer c f = do
  version ← at f 16
  page_size_kb ← at f 19
  offset_bytes ← at f 20
  size_bytes ← at f 21
  ekey_length ← at f 22
  hash_bytes ← at f 23
  toc_hash ← slice 0 16 f
  element_count ← le_uint32_at 24 f
  footer_hash ← slice 28 8 f
  reserved1 ← at f 17
  reserved2 ← at f 18
  guard (version == 1 && reserved1 == 0 && reserved2 == 0 && hash_bytes == 8) bad_format
  guard (leb 1 page_size_kb && leb 1 ekey_length && leb ekey_length 16) bad_format
  guard (leb 1 offset_bytes && leb offset_bytes 8 && leb 1 size_bytes && leb size_bytes 8)
      bad_format
  kept ← slice 16 12 f
  guard (bytes_eq (take 8 (c.md5 (hashed_part kept))) footer_hash) file_corrupt
  ok (record {
    toc_hash = toc_hash;
    page_size_kb = page_size_kb;
    offset_bytes = offset_bytes;
    size_bytes = size_bytes;
    ekey_length = ekey_length;
    element_count = element_count;
    footer_hash = footer_hash;
  })

module _ (f : ArchiveIndexFooter) where
  -- The numbers of a record behind its key
  unfoldable pub record_entry : Bytes → Bytes → Result ArchiveIndexEntry
  unfolding be_uint_n
  record_entry ek rec = do
    size ← slice f.ekey_length f.size_bytes rec
    off ← slice (f.ekey_length + f.size_bytes) f.offset_bytes rec
    ok (record { ekey = ek; offset = be_uint_n off; encoded_size = be_uint_n size })

  -- The loop over the records of a page, on the fuel of its length: each round moves `o`. A zero
  -- key ends it.
  pub parse_page : ℕ → ℕ → Bytes → Result (List ArchiveIndexEntry)
  unfolding record_entry
  parse_page zero o page = ok []
  parse_page (suc fuel) o page =
      if leb (o + item_length f) (length page)
      then (do
        rec ← slice o (item_length f) page
        key ← front f.ekey_length rec
        if bytes_eq (padded 16 key) zero_key then ok [] else (do
          entry ← record_entry (padded 16 key) rec
          rest ← parse_page fuel (o + item_length f) page
          ok (entry ∷ rest)))
      else ok []

  -- The loop over the pages; the first argument counts those that are left, the second is `p`.
  pub parse_pages : ℕ → ℕ → Bytes → Result (List ArchiveIndexEntry)
  unfolding parse_page
  parse_pages zero p bs = ok []
  parse_pages (suc n) p bs = do
    page ← slice (p * page_stride f) (page_length f) bs
    found ← parse_page (length page) 0 page
    rest ← parse_pages n (suc p) bs
    ok (found ++ rest)

-- The capacity that the footer declares for the entries is below 2 ^ 37 bytes, which `make` accepts.
unfoldable pub parse_archive_index : Codecs → Bytes → Result ArchiveIndex
unfolding parse_pages
parse_archive_index c bs = do
  guard (leb 36 (length bs)) bad_format
  trailer ← back (length bs - 36) bs
  footer ← parse_footer c trailer
  entries ← parse_pages footer ((length bs - 36) / page_stride footer) 0 bs
  ok (record { footer = footer; entries = entries })
