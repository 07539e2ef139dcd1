-- ===== src/Cdn/ArchiveIndex/Writer/RoundTrip.antt =====
-- What `EncodeArchiveIndex` wrote, read by `ParseArchiveIndex`.
use go_casclib.Common.{
  ℕ, zero, suc, ◌+◌, ◌-◌, ◌*◌, ◌/◌, ◌%◌, ◌^◌, ◌≤◌, ◌<◌, ◌≡◌, refl, ap, ◌∙◌, subst, arith, le→leb,
  List, [], ◌∷◌, ◌++◌, map, ok, length, length-append, length-take, ne→==, ==_iff, ◌==◌, Bool-cases,
  inl, inr, append_assoc, append-nil, take, All, true, ◌>>=◌,
}
use native.Mathlib.Nat.{mul-div_cancel, le-div_iff_mul-le, lt-div-mul-add}
use go_casclib.Binary.{
  Bytes, at, back, back-append, slice, slice-append, bytes_eq, bytes_eq_iff, le_uint32_at,
  le_uint32_at-put, put_le_uint32,
}
use go_casclib.Compress.{Codecs, IsCodecs}
use go_casclib.Cdn.ArchiveIndex.{
  ArchiveIndexFooter, ArchiveIndexEntry, page_length, item_length, page_stride, hashed_part,
  parse_footer, record_entry, parse_page, parse_pages, parse_archive_index,
}
use go_casclib.Cdn.ArchiveIndex.Writer.{
  items_per_page, page_count, kept_bytes, footer_bytes, encode_archive_index,
}
use go_casclib.Cdn.ArchiveIndex.Writer.Records.{IsValid, Fits, trimmed}
use go_casclib.Cdn.ArchiveIndex.Writer.Pages.{
  pages_of, pages_bytes-pages_of, length-pages_of, parse_pages-pages_of,
}

at-append : (n i : ℕ) (pre rest : Bytes) → length pre ≡ n → at (pre ++ rest) (n + i) ≡ at rest i
at-append zero i [] rest h = let e : 0 + i ≡ i = omega arith in rw e
at-append zero i (x ∷ pre) rest h = absurd (omega arith)
at-append (suc n) i [] rest h = absurd (omega arith)
at-append (suc n) i (x ∷ pre) rest h =
    let e : suc n + i ≡ suc (n + i) = omega arith in rw e (at-append n i pre rest (omega arith))

-- A footer as `ParseArchiveIndex` reads it.
record FooterReads (c : Codecs) (bs : Bytes) (f : ArchiveIndexFooter) (kept : Bytes) : Type 0 where
  version : at bs 16 ≡ ok 1
  reserved1 : at bs 17 ≡ ok 0
  reserved2 : at bs 18 ≡ ok 0
  page : at bs 19 ≡ ok f.page_size_kb
  offset : at bs 20 ≡ ok f.offset_bytes
  size : at bs 21 ≡ ok f.size_bytes
  key : at bs 22 ≡ ok f.ekey_length
  hash_bytes : at bs 23 ≡ ok 8
  toc : slice 0 16 bs ≡ ok f.toc_hash
  count : le_uint32_at 24 bs ≡ ok f.element_count
  hash : slice 28 8 bs ≡ ok f.footer_hash
  hashed : slice 16 12 bs ≡ ok kept
  hash_right : take 8 (c.md5 (hashed_part kept)) ≡ f.footer_hash

parse_footer_of :
    (c : Codecs) (bs : Bytes) (f : ArchiveIndexFooter) (kept : Bytes)
    → IsValid f
    → FooterReads c bs f kept
    → parse_footer c bs ≡ ok f
unfolding parse_footer
parse_footer_of c bs f kept v r =
    let i1 = le→leb 1 f.page_size_kb v.page_low in
    let i2 = le→leb 1 f.ekey_length v.key_low in
    let i3 = le→leb f.ekey_length 16 v.key_high in
    let i4 = le→leb 1 f.offset_bytes v.offset_low in
    let i5 = le→leb f.offset_bytes 8 v.offset_high in
    let i6 = le→leb 1 f.size_bytes v.size_low in
    let i7 = le→leb f.size_bytes 8 v.size_high in
    let same : bytes_eq (take 8 (c.md5 (hashed_part kept))) f.footer_hash ≡ true =
      (bytes_eq_iff _ _).1 r.hash_right in
    rw (
      r.version, r.page, r.offset, r.size, r.key, r.hash_bytes, r.toc, r.count, r.hash, r.reserved1,
      r.reserved2, i1, i2, i3, i4, i5, i6, i7, r.hashed, same,
    )

-- The footer that is written: the count and the hash are those of the entries.
abbrev pub written_footer : Codecs → ArchiveIndexFooter → ℕ → ArchiveIndexFooter
written_footer c f n = record f {
  element_count = n;
  footer_hash = take 8 (c.md5 (hashed_part (kept_bytes f n)));
}

module _ (c : Codecs) (f : ArchiveIndexFooter) (n : ℕ) where
  -- The loops do not look at the count and the hash.
  parse_page-same :
      (fuel o : ℕ) (page : Bytes)
      → parse_page (written_footer c f n) fuel o page ≡ parse_page f fuel o page
  unfolding parse_page record_entry
  parse_page-same zero o page = refl
  parse_page-same (suc fuel) o page = rw (parse_page-same fuel (o + item_length f) page)

  parse_pages-same :
      (k p : ℕ) (bs : Bytes) → parse_pages (written_footer c f n) k p bs ≡ parse_pages f k p bs
  unfolding parse_pages
  parse_pages-same zero p bs = refl
  parse_pages-same (suc k) p bs = λ i. slice (p * page_stride f) (page_length f) bs >>= λ page.
      parse_page-same (length page) 0 page i >>= λ found.
      parse_pages-same k (suc p) bs i >>= λ rest. ok (found ++ rest)

module _ (c : Codecs) where
  parse_archive_index_of :
      (bs trailer : Bytes) (n : ℕ) (footer : ArchiveIndexFooter) {entries : List ArchiveIndexEntry}
      → 36 ≤ length bs
      → back (length bs - 36) bs ≡ ok trailer
      → parse_footer c trailer ≡ ok footer
      → (length bs - 36) / page_stride footer ≡ n
      → parse_pages footer n 0 bs ≡ ok entries
      → parse_archive_index c bs ≡ ok (record { footer = footer; entries = entries })
  unfolding parse_archive_index
  parse_archive_index_of bs trailer n footer long cut read count found =
      let i = le→leb 36 (length bs) long in rw (i, cut, read, count, found)

module _ (c : Codecs) (laws : IsCodecs c) (f : ArchiveIndexFooter) (v : IsValid f)
    (toc_size : length f.toc_hash ≡ 16) where
  written_footer-IsValid : (n : ℕ) → IsValid (written_footer c f n)
  written_footer-IsValid n = record {
    page_low = v.page_low;
    page_high = v.page_high;
    key_low = v.key_low;
    key_high = v.key_high;
    offset_low = v.offset_low;
    offset_high = v.offset_high;
    size_low = v.size_low;
    size_high = v.size_high;
  }

  length-hash : (n : ℕ) → length (take 8 (c.md5 (hashed_part (kept_bytes f n)))) ≡ 8
  length-hash n =
      let m = c.md5 (hashed_part (kept_bytes f n)) in
      omega (arith, length-take 8 m, laws.length-md5 (hashed_part (kept_bytes f n)))

  footer_bytes_read :
      (n : ℕ)
      → n < 2 ^ 32
      → FooterReads c (footer_bytes f c n) (written_footer c f n) (kept_bytes f n)
  footer_bytes_read n small =
      let toc = f.toc_hash in
      let kept = kept_bytes f n in
      let hash = take 8 (c.md5 (hashed_part kept)) in
      let rest = kept ++ hash in
      let eight : Bytes =
        1 ∷ 0 ∷ 0 ∷ f.page_size_kb ∷ f.offset_bytes ∷ f.size_bytes ∷ f.ekey_length ∷ 8 ∷ [] in
      record {
        version = at-append 16 0 toc rest toc_size;
        reserved1 = at-append 16 1 toc rest toc_size;
        reserved2 = at-append 16 2 toc rest toc_size;
        page = at-append 16 3 toc rest toc_size;
        offset = at-append 16 4 toc rest toc_size;
        size = at-append 16 5 toc rest toc_size;
        key = at-append 16 6 toc rest toc_size;
        hash_bytes = at-append 16 7 toc rest toc_size;
        toc = slice-append 0 16 [] toc rest refl toc_size;
        count =
            subst (λ (b : Bytes). le_uint32_at 24 b ≡ ok n)
              (append_assoc toc eight (put_le_uint32 n ++ hash))
              (le_uint32_at-put 24 (toc ++ eight) hash n (omega (arith, length-append toc eight))
                small);
        hash =
            subst (λ (b : Bytes). slice 28 8 b ≡ ok hash)
              (append_assoc toc kept (hash ++ [])
                ∙ ap (λ (b : Bytes). toc ++ (kept ++ b)) (append-nil hash))
              (slice-append 28 8 (toc ++ kept) hash [] (omega (arith, length-append toc kept))
                (length-hash n));
        hashed = slice-append 16 12 toc kept hash toc_size refl;
        hash_right = refl;
      }

  items_some : 1 ≤ items_per_page f
  items_some =
      let inside : item_length f ≤ page_length f =
        omega (arith, v.page_low, v.key_high, v.offset_high, v.size_high) in
      let some_item : 1 ≤ item_length f = omega (arith, v.key_low) in
      (le-div_iff_mul-le some_item).1 (omega arith)

  -- There are pages enough for the entries.
  pages_enough : (n : ℕ) → n ≤ page_count f n * items_per_page f
  pages_enough n =
      let some_items = items_some in
      let pages = (n + items_per_page f - 1) / items_per_page f in
      let below : n + items_per_page f - 1 < pages * items_per_page f + items_per_page f =
        lt-div-mul-add {a = n + items_per_page f - 1} some_items in
      elim (Bool-cases (pages == 0)) [
        | inl no_page ↦
            let e : pages ≡ 0 = (==_iff pages 0).0 no_page in
            let e2 : pages * items_per_page f ≡ 0 = rw e (omega arith) in rw no_page (omega arith)
        | inr some_page ↦ rw some_page (omega arith)
      ]

  -- The archive index that `EncodeArchiveIndex` writes is read back by `ParseArchiveIndex`: the
  -- entries in their order, with the bytes of their keys that the index keeps, and the footer with
  -- the count of the entries and its own hash. The widths of the footer are those that the parser
  -- accepts, the hash of the table of contents has sixteen bytes, every entry fits the widths, has
  -- a key of sixteen bytes and a part of it in the index that is not zero, and there are fewer than
  -- 2 ^ 32 entries. MD5 has sixteen bytes.
  pub parse-encode_archive_index :
      (es : List ArchiveIndexEntry)
      → All (Fits f) es
      → length es < 2 ^ 32
      → (bs : Bytes) × (encode_archive_index c f es ≡ ok bs)
        × (parse_archive_index c bs
            ≡ ok (record { footer = written_footer c f (length es); entries = map (trimmed f) es }))
  unfolding encode_archive_index
  parse-encode_archive_index es fits small =
      let n = page_count f (length es) in
      let pages = pages_of c laws f v n es in
      let m : length es % 2 ^ 32 ≡ length es = omega arith in
      let foot = footer_bytes f c (length es) in
      let size = length-pages_of c laws f v n es fits in
      let foot_size : length foot ≡ 36 = omega (
        arith,
        length-append f.toc_hash
            (kept_bytes f (length es) ++ take 8 (c.md5 (hashed_part (kept_bytes f (length es))))),
        length-hash (length es),
        toc_size,
      ) in
      let total : length (pages ++ foot) ≡ n * page_stride f + 36 =
        omega (arith, length-append pages foot) in
      let some_item = ne→== (item_length f) 0 (omega (arith, v.key_low)) in
      let some_items = ne→== (items_per_page f) 0 (omega (arith, items_some)) in
      let body : length (pages ++ foot) - 36 ≡ n * page_stride f = omega arith in
      let count : n * page_stride f / page_stride f ≡ n = mul-div_cancel n (omega arith) in
      let trailer = back-append (n * page_stride f) pages foot size in
      let footer =
        parse_footer_of c foot (written_footer c f (length es)) (kept_bytes f (length es))
          (written_footer-IsValid (length es)) (footer_bytes_read (length es) small) in
      let entries : parse_pages f n 0 (pages ++ foot) ≡ ok (map (trimmed f) es) =
        parse_pages-pages_of c laws f v n 0 es [] foot (omega arith) fits
          (pages_enough (length es)) in
      (
        pages ++ foot,
        rw (some_item, some_items, pages_bytes-pages_of c laws f v n es fits, m),
        parse_archive_index_of c (pages ++ foot) foot n (written_footer c f (length es))
            (omega arith) (rw body trailer) footer (rw body count)
            (parse_pages-same c f (length es) n 0 (pages ++ foot) ∙ entries),
      )
