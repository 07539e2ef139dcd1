-- ===== src/Cdn/ArchiveIndex/Writer.antt =====
-- internal/cdn/archive_index.go: `EncodeArchiveIndex`.
pub mod Records
pub mod Pages
pub mod RoundTrip
use go_casclib.Common.{
  ℕ, zero, suc, ◌+◌, ◌-◌, ◌*◌, ◌/◌, ◌%◌, ◌^◌, ◌==◌, not, if◌then◌else◌, List, [], ◌∷◌, ◌++◌, Result,
  ok, guard, ◌>>=◌, ◌>>◌, panic, length, take, drop, replicate,
}
use go_casclib.Binary.{Bytes, front, put_le_uint32}
use go_casclib.Compress.{Codecs}
use go_casclib.Cdn.ArchiveIndex.{
  ArchiveIndexFooter, ArchiveIndexEntry, page_length, item_length, hashed_part,
}

-- `putBEUintN`: the low bytes of a number.
unfoldable pub put_be_uint_n : ℕ → ℕ → Bytes
put_be_uint_n zero v = []
put_be_uint_n (suc n) v = put_be_uint_n n (v / 256) ++ (v % 256 ∷ [])

module _ (f : ArchiveIndexFooter) where
  unfoldable pub record_bytes : ArchiveIndexEntry → Result Bytes
  unfolding put_be_uint_n
  record_bytes e = do
    key ← front f.ekey_length e.ekey
    ok (key ++ (put_be_uint_n f.size_bytes e.encoded_size ++ put_be_uint_n f.offset_bytes e.offset))

  pub records_bytes : List ArchiveIndexEntry → Result Bytes
  unfolding record_bytes
  records_bytes [] = ok []
  records_bytes (e ∷ es) = do first ← record_bytes e; rest ← records_bytes es; ok (first ++ rest)

  abbrev pub items_per_page : ℕ
  items_per_page = page_length f / item_length f

  -- A page is made of zeros, and its records are written from its first byte on.
  abbrev pub page_of : Bytes → Bytes
  page_of records = records ++ replicate (page_length f - length records) 0

  -- The loop over the pages; the argument counts those that are left.
  pub pages_bytes : Codecs → ℕ → List ArchiveIndexEntry → Result Bytes
  unfolding records_bytes
  pages_bytes c zero es = ok []
  pages_bytes c (suc n) es = do
    records ← records_bytes (take items_per_page es)
    rest ← pages_bytes c n (drop items_per_page es)
    ok (page_of records ++ (c.md5 (page_of records) ++ rest))

  abbrev pub page_count : ℕ → ℕ
  page_count n =
      let pages = (n + items_per_page - 1) / items_per_page in if pages == 0 then 1 else pages

  -- The bytes 16 to 27 of the footer
  abbrev pub kept_bytes : ℕ → Bytes
  kept_bytes n =
      1
      ∷ 0
      ∷ 0
      ∷ f.page_size_kb
      ∷ f.offset_bytes
      ∷ f.size_bytes
      ∷ f.ekey_length
      ∷ 8
      ∷ put_le_uint32 n

  abbrev pub footer_bytes : Codecs → ℕ → Bytes
  footer_bytes c n = f.toc_hash ++ (kept_bytes n ++ take 8 (c.md5 (hashed_part (kept_bytes n))))

-- The divisions by the length of a record and by the number of records of a page panic at zero.
unfoldable pub encode_archive_index :
    Codecs → ArchiveIndexFooter → List ArchiveIndexEntry → Result Bytes
unfolding pages_bytes
encode_archive_index c f es = do
  guard (not (item_length f == 0)) panic
  guard (not (items_per_page f == 0)) panic
  pages ← pages_bytes f c (page_count f (length es)) es
  ok (pages ++ footer_bytes f c (length es % 2 ^ 32))
