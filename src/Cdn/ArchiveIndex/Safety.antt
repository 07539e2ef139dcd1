-- ===== src/Cdn/ArchiveIndex/Safety.antt =====
-- `ParseArchiveIndex` on any bytes: it never reads out of range.
use go_casclib.Common.{
  ℕ, zero, suc, ◌+◌, ◌-◌, ◌*◌, ◌/◌, ◌≤◌, ◌≡◌, ◌==◌, ◌&&◌, leb, leb→le, arith, IsSafe, ok-IsSafe,
  guard-IsSafe, if-IsSafe, >>=-IsSafe, length, take, bad_format, file_corrupt,
}
use go_casclib.Binary.{
  Bytes, at, back, front, slice, padded, bytes_eq, le_uint32_at, at-IsSafe, back-IsSafe, back_size,
  front-IsSafe, slice-IsSafe, slice_size, le_uint32_at-IsSafe,
}
use go_casclib.Compress.{Codecs}
use go_casclib.Keys.{zero_key}
use go_casclib.Cdn.ArchiveIndex.{
  ArchiveIndexFooter, page_length, item_length, page_stride, hashed_part, record_entry, parse_page,
  parse_pages, parse_footer, parse_archive_index,
}

module _ (f : ArchiveIndexFooter) where
  record_entry-IsSafe :
      (ek rec : Bytes) → length rec ≡ item_length f → IsSafe (record_entry f ek rec)
  unfolding record_entry
  record_entry-IsSafe ek rec h =
      >>=-IsSafe (slice f.ekey_length f.size_bytes rec) _
        (slice-IsSafe f.ekey_length f.size_bytes rec (omega arith))
        λ size _.
          >>=-IsSafe (slice (f.ekey_length + f.size_bytes) f.offset_bytes rec) _
            (slice-IsSafe (f.ekey_length + f.size_bytes) f.offset_bytes rec (omega arith))
            λ off _. ok-IsSafe _

  parse_page-IsSafe : (fuel o : ℕ) (page : Bytes) → IsSafe (parse_page f fuel o page)
  unfolding parse_page
  parse_page-IsSafe zero o page = ok-IsSafe _
  parse_page-IsSafe (suc fuel) o page =
      if-IsSafe (leb (o + item_length f) (length page)) _ _
        (λ inside.
          let fits = leb→le (o + item_length f) (length page) inside in
          >>=-IsSafe (slice o (item_length f) page) _ (slice-IsSafe o (item_length f) page fits)
            λ rec cut.
              let size = slice_size o (item_length f) page fits cut in
              >>=-IsSafe (front f.ekey_length rec) _ (front-IsSafe f.ekey_length rec (omega arith))
                λ key _.
                  if-IsSafe (bytes_eq (padded 16 key) zero_key) _ _ (λ _. ok-IsSafe _)
                    (λ _.
                      >>=-IsSafe (record_entry f (padded 16 key) rec) _
                        (record_entry-IsSafe (padded 16 key) rec size)
                        λ entry _.
                          >>=-IsSafe (parse_page f fuel (o + item_length f) page) _
                            (parse_page-IsSafe fuel (o + item_length f) page)
                            λ rest _. ok-IsSafe _))
        (λ _. ok-IsSafe _)

  parse_pages-IsSafe :
      (n p : ℕ) (bs : Bytes) → (p + n) * page_stride f ≤ length bs → IsSafe (parse_pages f n p bs)
  unfolding parse_pages
  parse_pages-IsSafe zero p bs h = ok-IsSafe _
  parse_pages-IsSafe (suc n) p bs h =
      >>=-IsSafe (slice (p * page_stride f) (page_length f) bs) _
        (slice-IsSafe (p * page_stride f) (page_length f) bs (omega arith))
        λ page _.
          >>=-IsSafe (parse_page f (length page) 0 page) _ (parse_page-IsSafe (length page) 0 page)
            λ found _.
              >>=-IsSafe (parse_pages f n (suc p) bs) _
                (parse_pages-IsSafe n (suc p) bs (omega arith)) λ rest _. ok-IsSafe _

parse_footer-IsSafe : (c : Codecs) (f : Bytes) → 36 ≤ length f → IsSafe (parse_footer c f)
unfolding parse_footer
parse_footer-IsSafe c f h = >>=-IsSafe (at f 16) _ (at-IsSafe f 16 (omega arith)) λ version _.
    >>=-IsSafe (at f 19) _ (at-IsSafe f 19 (omega arith)) λ page _.
      >>=-IsSafe (at f 20) _ (at-IsSafe f 20 (omega arith)) λ off _.
        >>=-IsSafe (at f 21) _ (at-IsSafe f 21 (omega arith)) λ size _.
          >>=-IsSafe (at f 22) _ (at-IsSafe f 22 (omega arith)) λ key _.
            >>=-IsSafe (at f 23) _ (at-IsSafe f 23 (omega arith)) λ n _.
              >>=-IsSafe (slice 0 16 f) _ (slice-IsSafe 0 16 f (omega arith)) λ toc _.
                >>=-IsSafe (le_uint32_at 24 f) _ (le_uint32_at-IsSafe 24 f (omega arith)) λ count _.
                  >>=-IsSafe (slice 28 8 f) _ (slice-IsSafe 28 8 f h) λ hash _.
                    >>=-IsSafe (at f 17) _ (at-IsSafe f 17 (omega arith)) λ r1 _.
                      >>=-IsSafe (at f 18) _ (at-IsSafe f 18 (omega arith)) λ r2 _.
                        guard-IsSafe (version == 1 && r1 == 0 && r2 == 0 && n == 8) bad_format _
                          (λ e. cc)
                          λ _.
                            guard-IsSafe (leb 1 page && leb 1 key && leb key 16) bad_format _
                              (λ e. cc)
                              λ _.
                                guard-IsSafe (leb 1 off && leb off 8 && leb 1 size && leb size 8)
                                  bad_format _ (λ e. cc)
                                  λ _.
                                    >>=-IsSafe (slice 16 12 f) _
                                      (slice-IsSafe 16 12 f (omega arith))
                                      λ kept _.
                                        guard-IsSafe
                                          (bytes_eq (take 8 (c.md5 (hashed_part kept))) hash)
                                          file_corrupt _ (λ e. cc) λ _. ok-IsSafe _

-- Whatever the bytes of an archive index are, `ParseArchiveIndex` does not panic.
pub parse_archive_index-IsSafe : (c : Codecs) (bs : Bytes) → IsSafe (parse_archive_index c bs)
unfolding parse_archive_index
parse_archive_index-IsSafe c bs =
    guard-IsSafe (leb 36 (length bs)) bad_format _ (λ e. cc)
      λ enough.
        let long = leb→le 36 (length bs) enough in
        >>=-IsSafe (back (length bs - 36) bs) _ (back-IsSafe (length bs - 36) bs (omega arith))
          λ trailer cut.
            let size = back_size (length bs - 36) bs (omega arith) cut in
            >>=-IsSafe (parse_footer c trailer) _ (parse_footer-IsSafe c trailer (omega arith))
              λ footer _.
                let count = (length bs - 36) / page_stride footer in
                let inside : count * page_stride footer ≤ length bs - 36 = omega arith in
                >>=-IsSafe (parse_pages footer count 0 bs) _
                  (parse_pages-IsSafe footer count 0 bs (omega arith)) λ entries _. ok-IsSafe _
