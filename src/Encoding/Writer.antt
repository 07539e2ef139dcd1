-- ===== src/Encoding/Writer.antt =====
-- internal/encoding/writer.go: `Encode`. A page is made of zero bytes, and its records are written
-- from its first byte on.
pub mod Layout
pub mod Sorted
pub mod RoundTrip
use go_casclib.Common.{
  insertion_sort, ℕ, zero, suc, ◌+◌, ◌-◌, ◌*◌, ◌/◌, ◌%◌, ◌^◌, ◌==◌, leb, ltb, if◌then◌else◌, Bool,
  true, false, ◌&&◌, List, [], ◌∷◌, ◌++◌, Result, ok, guard, ◌>>=◌, ◌>>◌, invalid_parameter, length,
  replicate, take,
}
use go_casclib.Binary.{Bytes, put_le_uint16, put_be_uint16, put_be_uint32, put_be_uint40}
use go_casclib.Compress.{Codecs}
use go_casclib.Keys.{zero_key}
use go_casclib.Encoding.Reader.{CKeyEntry, magic_encoding}

abbrev pub ekeys_bytes : List Bytes → Bytes
ekeys_bytes [] = []
ekeys_bytes (k ∷ ks) = k ++ ekeys_bytes ks

-- One record, for an entry that fits a page with all of its keys.
abbrev pub record_bytes : CKeyEntry → Bytes
record_bytes e =
    put_le_uint16 (length e.ekeys % 2 ^ 16)
    ++ (put_be_uint32 (e.content_size % 2 ^ 32) ++ (e.ckey ++ ekeys_bytes e.ekeys))

abbrev pub records_bytes : List CKeyEntry → Bytes
records_bytes [] = []
records_bytes (e ∷ es) = record_bytes e ++ records_bytes es

-- A page of the given size with the records of entries that fit it.
abbrev pub page_of : ℕ → List CKeyEntry → Bytes
page_of page_size es = records_bytes es ++ replicate (page_size - length (records_bytes es)) 0

-- `recordHdr + len(e.EKeys)*casc.MD5HashSize`
abbrev pub record_size : CKeyEntry → ℕ
record_size e = 22 + length e.ekeys * 16

-- An entry that is too large for a page keeps its first key only.
unfoldable pub truncated : ℕ → CKeyEntry → CKeyEntry
truncated page_size e =
    if ltb page_size (record_size e) then record e { ekeys = take 1 e.ekeys } else e

-- The inner loop: the entries of a page from `off` on, and those behind them.
pub fill_page : ℕ → ℕ → List CKeyEntry → List CKeyEntry × List CKeyEntry
unfolding truncated
fill_page page_size off [] = ([], [])
fill_page page_size off (e ∷ es) =
    let kept = truncated page_size e in
    let next = fill_page page_size (off + record_size kept) es in
    if leb (off + record_size kept) page_size then (kept ∷ next.0, next.1) else ([], e ∷ es)

-- A page with the key of its first entry
pub record Page : Type 0 where
  pub first : Bytes
  pub content : List CKeyEntry

-- The outer loop of `layoutCKeyPages`, on the fuel of the number of entries.
unfoldable pub layout_ckey_pages : ℕ → ℕ → List CKeyEntry → List Page
unfolding fill_page
layout_ckey_pages zero page_size es = []
layout_ckey_pages (suc fuel) page_size [] = []
layout_ckey_pages (suc fuel) page_size (e ∷ es) =
    let filled = fill_page page_size 0 (e ∷ es) in
    record { first = e.ckey; content = filled.0 } ∷ layout_ckey_pages fuel page_size filled.1

-- The pages, and the index with the first key and the hash of each
abbrev pub ckey_pages_bytes : ℕ → List Page → Bytes
ckey_pages_bytes page_size [] = []
ckey_pages_bytes page_size (p ∷ ps) = page_of page_size p.content ++ ckey_pages_bytes page_size ps

abbrev pub ckey_index_bytes : Codecs → ℕ → List Page → Bytes
ckey_index_bytes c page_size [] = []
ckey_index_bytes c page_size (p ∷ ps) =
    p.first ++ (c.md5 (page_of page_size p.content) ++ ckey_index_bytes c page_size ps)

-- `entries[i].EKeys[0]` where there is one
abbrev pub first_ekey : CKeyEntry → Bytes
first_ekey e = elim e.ekeys [ [] ↦ zero_key | k ∷ ks ↦ k ]

-- The record of the entry `i`; an entry without a key has none.
abbrev pub ekey_record : ℕ → CKeyEntry → Bytes
ekey_record i e = elim e.ekeys [ [] ↦ [] | k ∷ ks ↦ k ++ (put_be_uint32 i ++ put_be_uint40 0) ]

-- The inner loop of `layoutEKeyPages`: the records of a page from `off` on, the place in the entries
-- and the entries behind them.
pub fill_ekey_page : ℕ → ℕ → ℕ → List CKeyEntry → Bytes × ℕ × List CKeyEntry
fill_ekey_page page_size off i [] = ([], i, [])
fill_ekey_page page_size off i (e ∷ es) =
    let behind : ℕ = elim e.ekeys [ [] ↦ off | k ∷ ks ↦ off + 25 ] in
    let next = fill_ekey_page page_size behind (i + 1) es in
    if leb (off + 25) page_size
    then (ekey_record i e ++ next.0, next.1, next.2)
    else ([], i, e ∷ es)

pub record EKeyPage : Type 0 where
  pub first_key : Bytes
  pub bytes : Bytes

unfoldable pub layout_ekey_pages : ℕ → ℕ → ℕ → List CKeyEntry → List EKeyPage
unfolding fill_ekey_page
layout_ekey_pages zero page_size i es = []
layout_ekey_pages (suc fuel) page_size i [] = []
layout_ekey_pages (suc fuel) page_size i (e ∷ es) =
    let (records, j, rest) = fill_ekey_page page_size 0 i (e ∷ es) in
    let page = records ++ replicate (page_size - length records) 0 in
    record { first_key = first_ekey e; bytes = page } ∷ layout_ekey_pages fuel page_size j rest

abbrev pub ekey_pages_bytes : List EKeyPage → Bytes
ekey_pages_bytes [] = []
ekey_pages_bytes (p ∷ ps) = p.bytes ++ ekey_pages_bytes ps

abbrev pub ekey_index_bytes : Codecs → List EKeyPage → Bytes
ekey_index_bytes c [] = []
ekey_index_bytes c (p ∷ ps) = p.first_key ++ (c.md5 p.bytes ++ ekey_index_bytes c ps)

-- `ckeyLess`; the first argument counts the bytes that are left.
pub ckey_less : ℕ → Bytes → Bytes → Bool
ckey_less zero a b = false
ckey_less (suc n) (x ∷ a) (y ∷ b) = if x == y then ckey_less n a b else ltb x y
ckey_less (suc n) _ _ = false

abbrev pub ckey_before : CKeyEntry → CKeyEntry → Bool
ckey_before x e = ckey_less 16 x.ckey e.ckey

-- The order of equal keys is left open by `sort.Slice`.
unfoldable pub sort_by_ckey : List CKeyEntry → List CKeyEntry
unfolding ckey_less
sort_by_ckey = insertion_sort ckey_before

pub record WriteOptions : Type 0 where
  pub ckey_page_size : ℕ
  pub ekey_page_size : ℕ
  pub include_ekey_pages : Bool
  pub espec_block : Bytes

abbrev pub effective_page_size : ℕ → ℕ
effective_page_size size = if size == 0 then 4096 else size

abbrev pub header_bytes : ℕ → ℕ → ℕ → ℕ → ℕ → Bytes
header_bytes ckey_size ekey_size ckey_pages ekey_pages espec_size =
    put_le_uint16 magic_encoding
    ++ (1
        ∷ 16
        ∷ 16
        ∷ (put_be_uint16 (ckey_size / 1024)
            ++ (put_be_uint16 (ekey_size / 1024)
                ++ (put_be_uint32 ckey_pages
                    ++ (put_be_uint32 ekey_pages ++ (0 ∷ put_be_uint32 espec_size))))))

unfoldable pub encode : Codecs → List CKeyEntry → WriteOptions → Result Bytes
unfolding layout_ckey_pages layout_ekey_pages
encode c entries opts = do
  let ckey_size = effective_page_size opts.ckey_page_size
  let ekey_size = effective_page_size opts.ekey_page_size
  guard (ckey_size % 1024 == 0 && ekey_size % 1024 == 0) invalid_parameter
  let sorted = sort_by_ckey entries
  let pages = layout_ckey_pages (length sorted) ckey_size sorted
  let ekey_pages =
      if opts.include_ekey_pages then layout_ekey_pages (length sorted) ekey_size 0 sorted else []
  ok (
      header_bytes ckey_size ekey_size (length pages) (length ekey_pages) (length opts.espec_block)
      ++ (opts.espec_block
          ++ (ckey_index_bytes c ckey_size pages
              ++ (ckey_pages_bytes ckey_size pages
                  ++ (ekey_index_bytes c ekey_pages ++ ekey_pages_bytes ekey_pages)))))
