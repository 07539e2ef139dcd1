-- ===== src/Encoding/Writer/RoundTrip.antt =====
-- What `Encode` wrote, read by `Parse`.
use go_casclib.Common.{
  ℕ, zero, suc, ◌+◌, ◌-◌, ◌*◌, ◌/◌, ◌%◌, ◌^◌, ◌≤◌, ◌<◌, ◌≡◌, refl, ap, ◌∙◌, sym, subst, arith,
  le→leb, Bool-cases, inl, inr, if◌then◌else◌, List, [], ◌∷◌, ◌++◌, map, ok, length, length-append,
  length-replicate, append_assoc, replicate, All, some,
}
use go_casclib.Binary.{Bytes, at, slice-append, le_uint16_at, be_uint16_at, be_uint32_at}
use go_casclib.Compress.{Codecs, IsCodecs}
use go_casclib.Encoding.Reader.{
  CKeyEntry, Header, File, magic_encoding, parse_pages, parse_header, parse, find, find_in,
}
use go_casclib.Encoding.Reader.RoundTrip.{parse_page-page_of}
use go_casclib.Encoding.Writer.{
  records_bytes, page_of, truncated, Page, EKeyPage, layout_ckey_pages, layout_ekey_pages,
  fill_ekey_page, ckey_pages_bytes, ckey_index_bytes, ekey_pages_bytes, ekey_index_bytes,
  sort_by_ckey, WriteOptions, effective_page_size, header_bytes, encode,
}
use go_casclib.Encoding.Writer.Layout.{
  contents, PageFits, KeptFits, contents-layout, layout-PageFits, length-layout, truncated-ckey,
}
use go_casclib.Encoding.Writer.Sorted.{Agree, All-sort_by_ckey, length-sort_by_ckey, find_in-sorted}

length-page_of :
    (page_size : ℕ) (es : List CKeyEntry)
    → length (records_bytes es) ≤ page_size
    → length (page_of page_size es) ≡ page_size
length-page_of page_size es h =
    let rest = length-replicate {A = ℕ} (page_size - length (records_bytes es)) 0 in
    omega (
      arith,
      length-append (records_bytes es) (replicate (page_size - length (records_bytes es)) 0),
    )

parse_pages-written :
    (pages : List Page) (off page_size : ℕ) (pre rest : Bytes)
    → length pre ≡ off
    → All (PageFits page_size) pages
    → parse_pages (length pages) off page_size (pre ++ (ckey_pages_bytes page_size pages ++ rest))
      ≡ ok (contents pages)
unfolding parse_pages
parse_pages-written [] off page_size pre rest h fits = refl
parse_pages-written (p ∷ ps) off page_size pre rest h (f, fits) =
    let page = page_of page_size p.content in
    let others = ckey_pages_bytes page_size ps in
    let size = length-page_of page_size p.content f.size_fits in
    let whole : pre ++ ((page ++ others) ++ rest) ≡ pre ++ (page ++ (others ++ rest)) =
      ap (◌++◌ pre) (append_assoc page others rest) in
    let inside = le→leb (off + page_size) (length (pre ++ (page ++ (others ++ rest)))) (
      omega (
        arith,
        length-append pre (page ++ (others ++ rest)),
        length-append page (others ++ rest),
      )) in
    let cut = slice-append off page_size pre page (others ++ rest) h size in
    let found = parse_page-page_of p.content page_size f.all_fit f.size_fits in
    let next : parse_pages (length ps) (off + page_size) page_size
          (pre ++ (page ++ (others ++ rest)))
        ≡ ok (contents ps) =
      rw (← append_assoc pre page (others ++ rest)) (
        parse_pages-written ps (off + page_size) page_size (pre ++ page) rest
          (omega (arith, length-append pre page)) fits) in
    rw (whole, inside, cut, found, next)

length-ckey_index_bytes :
    (c : Codecs) (laws : IsCodecs c) (pages : List Page) (page_size : ℕ)
    → All (PageFits page_size) pages
    → length (ckey_index_bytes c page_size pages) ≡ length pages * 32
length-ckey_index_bytes c laws [] page_size fits = refl
length-ckey_index_bytes c laws (p ∷ ps) page_size (f, fits) =
    let page = page_of page_size p.content in
    omega (
      arith,
      length-append p.first (c.md5 page ++ ckey_index_bytes c page_size ps),
      length-append (c.md5 page) (ckey_index_bytes c page_size ps),
      laws.length-md5 page,
      f.first_size,
      length-ckey_index_bytes c laws ps page_size fits,
    )

length-ekey_layout :
    (fuel page_size i : ℕ) (es : List CKeyEntry)
    → length (layout_ekey_pages fuel page_size i es) ≤ fuel
unfolding layout_ekey_pages
length-ekey_layout zero page_size i es = omega arith
length-ekey_layout (suc fuel) page_size i [] = omega arith
length-ekey_layout (suc fuel) page_size i (e ∷ es) =
    let filled = fill_ekey_page page_size 0 i (e ∷ es) in
    omega (arith, length-ekey_layout fuel page_size filled.1 filled.2)

-- The header that `Parse` reads.
abbrev header_of : ℕ → ℕ → ℕ → ℕ → ℕ → Header
header_of ckey_size ekey_size ckey_pages ekey_pages espec_size = record {
  version = 1;
  ckey_length = 16;
  ekey_length = 16;
  ckey_page_size = ckey_size;
  ekey_page_size = ekey_size;
  ckey_page_count = ckey_pages;
  ekey_page_count = ekey_pages;
  espec_block_size = espec_size;
}

parse_header_of :
    (bs : Bytes) (ckey_kb ekey_kb ckey_pages ekey_pages espec_size : ℕ)
    → 22 ≤ length bs
    → le_uint16_at 0 bs ≡ ok magic_encoding
    → at bs 2 ≡ ok 1
    → at bs 3 ≡ ok 16
    → at bs 4 ≡ ok 16
    → be_uint16_at 5 bs ≡ ok ckey_kb
    → be_uint16_at 7 bs ≡ ok ekey_kb
    → be_uint32_at 9 bs ≡ ok ckey_pages
    → be_uint32_at 13 bs ≡ ok ekey_pages
    → be_uint32_at 18 bs ≡ ok espec_size
    → parse_header bs
      ≡ ok (header_of (ckey_kb * 1024) (ekey_kb * 1024) ckey_pages ekey_pages espec_size)
unfolding parse_header
parse_header_of bs ck ek cp ep espec long magic e2 e3 e4 e5 e7 e9 e13 e18 =
    let i = le→leb 22 (length bs) long in rw (i, magic, e2, e3, e4, e5, e7, e9, e13, e18)

parse_of :
    (bs : Bytes) (hdr : Header) {entries : List CKeyEntry}
    → parse_header bs ≡ ok hdr
    → 22 + hdr.espec_block_size + hdr.ckey_page_count * 32 ≤ length bs
    → parse_pages hdr.ckey_page_count
        (22 + hdr.espec_block_size + hdr.ckey_page_count * 32)
        hdr.ckey_page_size
        bs
      ≡ ok entries
    → parse bs ≡ ok (record { header = hdr; entries = entries })
unfolding parse
parse_of bs hdr e inside found =
    let i = le→leb (22 + hdr.espec_block_size + hdr.ckey_page_count * 32) (length bs) inside in
    rw (e, i, found)

-- What `Encode` writes so that `Parse` reads all of it: page sizes that the two bytes of the header
-- hold, counts and lengths of 32 bits, and entries with a key, fields of the source's widths, and
-- fewer than 2 ^ 16 keys. An entry that is too large for a page is written with its first key.
pub record Accepts (entries : List CKeyEntry) (opts : WriteOptions) : Type 0 where
  pub ckey_pages_whole : effective_page_size opts.ckey_page_size % 1024 ≡ 0
  pub ckey_pages_fit : effective_page_size opts.ckey_page_size < 2 ^ 26
  pub ekey_pages_whole : effective_page_size opts.ekey_page_size % 1024 ≡ 0
  pub ekey_pages_fit : effective_page_size opts.ekey_page_size < 2 ^ 26
  pub espec_fits : length opts.espec_block < 2 ^ 32
  pub few : length entries < 2 ^ 32
  pub fits : All (KeptFits (effective_page_size opts.ckey_page_size)) entries

module _ (c : Codecs) (laws : IsCodecs c) (entries : List CKeyEntry) (opts : WriteOptions)
    (a : Accepts entries opts) where
  abbrev pub ckey_size : ℕ
  ckey_size = effective_page_size opts.ckey_page_size

  abbrev ekey_size : ℕ
  ekey_size = effective_page_size opts.ekey_page_size

  abbrev sorted : List CKeyEntry
  sorted = sort_by_ckey entries

  abbrev pages : List Page
  pages = layout_ckey_pages (length sorted) ckey_size sorted

  abbrev ekey_pages : List EKeyPage
  ekey_pages =
      if opts.include_ekey_pages then layout_ekey_pages (length sorted) ekey_size 0 sorted else []

  abbrev head : Bytes
  head =
      header_bytes ckey_size ekey_size (length pages) (length ekey_pages) (length opts.espec_block)

  abbrev tail : Bytes
  tail = ekey_index_bytes c ekey_pages ++ ekey_pages_bytes ekey_pages

  abbrev file_bytes : Bytes
  file_bytes =
      head
      ++ (opts.espec_block
          ++ (ckey_index_bytes c ckey_size pages ++ (ckey_pages_bytes ckey_size pages ++ tail)))

  encode-file_bytes : encode c entries opts ≡ ok file_bytes
  unfolding encode
  encode-file_bytes = rw (a.ckey_pages_whole, a.ekey_pages_whole)

  few_pages : length pages < 2 ^ 32
  few_pages =
      omega
        (arith, length-layout ckey_size (length sorted) sorted, length-sort_by_ckey entries, a.few)

  few_ekey_pages : length ekey_pages < 2 ^ 32
  few_ekey_pages = elim (Bool-cases opts.include_ekey_pages) [
    | inl included ↦ rw included (
        omega (
          arith,
          length-ekey_layout (length sorted) ekey_size 0 sorted,
          length-sort_by_ckey entries,
          a.few,
        ))
    | inr left_out ↦ rw left_out (omega arith)
  ]

  page_large : 1024 ≤ ckey_size
  page_large = let e = a.ckey_pages_whole in ground arith

  parse_header-file_bytes :
      parse_header file_bytes
      ≡ ok (
          header_of ckey_size ekey_size
            (length pages)
            (length ekey_pages)
            (length opts.espec_block))
  parse_header-file_bytes =
      let e =
        parse_header_of file_bytes (ckey_size / 1024) (ekey_size / 1024) (length pages)
          (length ekey_pages) (length opts.espec_block) (omega arith) refl refl refl refl
          (ap ok (omega (arith, a.ckey_pages_fit))) (ap ok (omega (arith, a.ekey_pages_fit)))
          (ap ok (omega (arith, few_pages))) (ap ok (omega (arith, few_ekey_pages)))
          (ap ok (omega (arith, a.espec_fits))) in
      let s1 : ckey_size / 1024 * 1024 ≡ ckey_size = omega (arith, a.ckey_pages_whole) in
      let s2 : ekey_size / 1024 * 1024 ≡ ekey_size = omega (arith, a.ekey_pages_whole) in
      e ∙ rw (s1, s2)

  abbrev file : File
  file = record {
    header =
        header_of ckey_size ekey_size (length pages) (length ekey_pages) (length opts.espec_block);
    entries = contents pages;
  }

  parse-file_bytes : parse file_bytes ≡ ok file
  parse-file_bytes =
      let espec = opts.espec_block in
      let index = ckey_index_bytes c ckey_size pages in
      let ps = ckey_pages_bytes ckey_size pages in
      let off = 22 + length espec + length pages * 32 in
      let fits =
        layout-PageFits ckey_size (length sorted) sorted
          (All-sort_by_ckey (KeptFits ckey_size) entries a.fits) in
      let size = length-ckey_index_bytes c laws pages ckey_size fits in
      let whole : (head ++ (espec ++ index)) ++ (ps ++ tail) ≡ file_bytes =
        append_assoc head (espec ++ index) (ps ++ tail)
        ∙ ap (◌++◌ head) (append_assoc espec index (ps ++ tail)) in
      let front_size : length (head ++ (espec ++ index)) ≡ off =
        omega (arith, length-append espec index) in
      let long : off ≤ length ((head ++ (espec ++ index)) ++ (ps ++ tail)) =
        omega (arith, length-append (head ++ (espec ++ index)) (ps ++ tail)) in
      let found =
        parse_pages-written pages off ckey_size (head ++ (espec ++ index)) tail front_size fits in
      parse_of file_bytes file.header parse_header-file_bytes
        (subst (λ (b : Bytes). off ≤ length b) whole long)
        (subst (λ (b : Bytes). parse_pages (length pages) off ckey_size b ≡ ok (contents pages))
          whole found)

  -- Every entry that `Encode` writes is found by its key in the file that `Parse` reads from its
  -- output, cut to its first key where its record is larger than a page. The page sizes are
  -- multiples of 1024 below 2 ^ 26, the block of specifications and the number of entries are below
  -- 2 ^ 32, the entries that are written have a key, fewer than 2 ^ 16 keys, keys of sixteen bytes
  -- and a size of 32 bits, and entries with the same content key are equal. MD5 has sixteen bytes.
  pub find-parse-encode :
      All (Agree entries) entries
      → (bs : Bytes) × (encode c entries opts ≡ ok bs)
        × (f : File) × (parse bs ≡ ok f)
        × All (λ e. find f e.ckey ≡ some (truncated ckey_size e)) entries
  unfolding find
  find-parse-encode agree =
      let same : contents pages ≡ map (truncated ckey_size) sorted =
        contents-layout ckey_size (length sorted) sorted page_large (omega arith) in
      let found = find_in-sorted (truncated ckey_size) (truncated-ckey ckey_size) entries agree in
      (
        file_bytes,
        encode-file_bytes,
        file,
        parse-file_bytes,
        subst
            (λ es.
              All (λ (e : CKeyEntry). find_in es e.ckey ≡ some (truncated ckey_size e)) entries)
            (sym same) found,
      )
