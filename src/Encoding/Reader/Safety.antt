-- ===== src/Encoding/Reader/Safety.antt =====
-- `Parse` of an ENCODING file on any input: it never reads out of range.
use go_casclib.Common.{
  ℕ, zero, suc, ◌+◌, ◌*◌, ◌≤◌, ◌≡◌, arith, ◌==◌, ◌&&◌, leb, leb→le, List, [], Result, IsSafe,
  ok-IsSafe, guard-IsSafe, if-IsSafe, >>=-IsSafe, bad_format, not_supported, file_corrupt, length,
}
use go_casclib.Binary.{
  Bytes, at, slice, at-IsSafe, slice-IsSafe, slice_size, le_uint16_at, be_uint16_at, be_uint32_at,
  le_uint16_at-IsSafe, be_uint16_at-IsSafe, be_uint32_at-IsSafe,
}
use go_casclib.Encoding.Reader.{
  CKeyEntry, magic_encoding, read_ekeys, page_record, parse_page, parse_pages, parse_header, parse,
}

read_ekeys-IsSafe :
    (n off : ℕ) (page : Bytes) → off + n * 16 ≤ length page → IsSafe (read_ekeys n off page)
unfolding read_ekeys
read_ekeys-IsSafe zero off page h = ok-IsSafe []
read_ekeys-IsSafe (suc n) off page h =
    >>=-IsSafe (slice off 16 page) _ (slice-IsSafe off 16 page (omega arith)) λ ekey _.
      >>=-IsSafe (read_ekeys n (off + 16) page) _
        (read_ekeys-IsSafe n (off + 16) page (omega arith)) λ rest _. ok-IsSafe _

page_record-IsSafe :
    (count p page_bytes : ℕ) (page : Bytes) (next : Result (List CKeyEntry))
    → length page ≡ page_bytes
    → IsSafe next
    → IsSafe (page_record count p page_bytes page next)
unfolding page_record
page_record-IsSafe count p page_bytes page next e s =
    guard-IsSafe (leb (p + (22 + count * 16)) page_bytes) file_corrupt _ (λ e. cc)
      λ fits.
        let fits' = leb→le (p + (22 + count * 16)) page_bytes fits in
        >>=-IsSafe (be_uint32_at (p + 2) page) _ (be_uint32_at-IsSafe (p + 2) page (omega arith))
          λ content_size _.
            >>=-IsSafe (slice (p + 6) 16 page) _ (slice-IsSafe (p + 6) 16 page (omega arith))
              λ ckey _.
                >>=-IsSafe (read_ekeys count (p + 22) page) _
                  (read_ekeys-IsSafe count (p + 22) page (omega arith))
                  λ ekeys _. >>=-IsSafe next _ s λ rest _. ok-IsSafe _

parse_page-IsSafe :
    (fuel p page_bytes : ℕ) (page : Bytes)
    → length page ≡ page_bytes
    → IsSafe (parse_page fuel p page_bytes page)
unfolding parse_page
parse_page-IsSafe zero p page_bytes page e = ok-IsSafe []
parse_page-IsSafe (suc fuel) p page_bytes page e =
    if-IsSafe (leb (p + 6) page_bytes) _ _
      (λ inside.
        let inside' = leb→le (p + 6) page_bytes inside in
        >>=-IsSafe (le_uint16_at p page) _ (le_uint16_at-IsSafe p page (omega arith)) λ count _.
          if-IsSafe (count == 0) _ _ (λ _. ok-IsSafe [])
            (λ _.
              page_record-IsSafe count p page_bytes page _ e
                (parse_page-IsSafe fuel (p + (22 + count * 16)) page_bytes page e)))
      (λ _. ok-IsSafe [])

parse_pages-IsSafe : (n off page_bytes : ℕ) (bs : Bytes) → IsSafe (parse_pages n off page_bytes bs)
unfolding parse_pages
parse_pages-IsSafe zero off page_bytes bs = ok-IsSafe []
parse_pages-IsSafe (suc n) off page_bytes bs =
    guard-IsSafe (leb (off + page_bytes) (length bs)) file_corrupt _ (λ e. cc)
      λ fits.
        let fits' = leb→le (off + page_bytes) (length bs) fits in
        >>=-IsSafe (slice off page_bytes bs) _ (slice-IsSafe off page_bytes bs fits') λ page read.
          >>=-IsSafe (parse_page page_bytes 0 page_bytes page) _
            (parse_page-IsSafe page_bytes 0 page_bytes page
              (slice_size off page_bytes bs fits' read))
            λ found _.
              >>=-IsSafe (parse_pages n (off + page_bytes) page_bytes bs) _
                (parse_pages-IsSafe n (off + page_bytes) page_bytes bs) λ rest _. ok-IsSafe _

parse_header-IsSafe : (bs : Bytes) → IsSafe (parse_header bs)
unfolding parse_header
parse_header-IsSafe bs =
    guard-IsSafe (leb 22 (length bs)) bad_format _ (λ e. cc)
      λ some_left.
        let long = leb→le 22 (length bs) some_left in
        >>=-IsSafe (le_uint16_at 0 bs) _ (le_uint16_at-IsSafe 0 bs (omega arith)) λ magic _.
          guard-IsSafe (magic == magic_encoding) bad_format _ (λ e. cc)
            λ _. >>=-IsSafe (at bs 2) _ (at-IsSafe bs 2 (omega arith)) λ version _.
              guard-IsSafe (version == 1) not_supported _ (λ e. cc)
                λ _. >>=-IsSafe (at bs 3) _ (at-IsSafe bs 3 (omega arith)) λ ckey_len _.
                  >>=-IsSafe (at bs 4) _ (at-IsSafe bs 4 (omega arith)) λ ekey_len _.
                    >>=-IsSafe (be_uint16_at 5 bs) _ (be_uint16_at-IsSafe 5 bs (omega arith)) λ a _.
                      >>=-IsSafe (be_uint16_at 7 bs) _ (be_uint16_at-IsSafe 7 bs (omega arith))
                        λ b _.
                          >>=-IsSafe (be_uint32_at 9 bs) _ (be_uint32_at-IsSafe 9 bs (omega arith))
                            λ c _.
                              >>=-IsSafe (be_uint32_at 13 bs) _
                                (be_uint32_at-IsSafe 13 bs (omega arith))
                                λ d _.
                                  >>=-IsSafe (be_uint32_at 18 bs) _
                                    (be_uint32_at-IsSafe 18 bs (omega arith))
                                    λ espec _.
                                      guard-IsSafe (ckey_len == 16 && ekey_len == 16) not_supported
                                        _ (λ e. cc) λ _. ok-IsSafe _

-- Whatever the bytes of an ENCODING file are, `Parse` does not panic.
pub encoding_parse-IsSafe : (bs : Bytes) → IsSafe (parse bs)
unfolding parse
encoding_parse-IsSafe bs = >>=-IsSafe (parse_header bs) _ (parse_header-IsSafe bs) λ hdr _.
    guard-IsSafe (leb (22 + hdr.espec_block_size + hdr.ckey_page_count * 32) (length bs))
      file_corrupt _ (λ e. cc)
      λ _.
        >>=-IsSafe
          (parse_pages hdr.ckey_page_count (22 + hdr.espec_block_size + hdr.ckey_page_count * 32)
            hdr.ckey_page_size bs)
          _
          (parse_pages-IsSafe hdr.ckey_page_count
            (22 + hdr.espec_block_size + hdr.ckey_page_count * 32) hdr.ckey_page_size bs)
          λ entries _. ok-IsSafe _
