-- ===== src/Root/Install/Safety.antt =====
-- `Parse` on any bytes: it never reads out of range.
use go_casclib.Common.{
  ℕ, zero, suc, ◌+◌, ◌≤◌, ◌≡◌, refl, ◌==◌, leb, ltb, ltb→lt, leb→le, arith, Option, none, some,
  ◌&&◌, ok, guard, guard-eq-ok, >>=-eq-ok, IsSafe, ok-IsSafe, err-IsSafe, guard-IsSafe, if-IsSafe,
  >>=-IsSafe, length, bad_format, not_supported,
}
use go_casclib.Binary.{
  Bytes, at, back, slice, index_byte, index_byte_lt, le_uint16_at, be_uint16_at, be_uint32_at,
  le_uint16_at-IsSafe, be_uint16_at-IsSafe, be_uint32_at-IsSafe, at-IsSafe, back-IsSafe, back_size,
  slice-IsSafe,
}
use go_casclib.Root.Install.{
  Tag, Handler, magic_install, name_to, read_name, parse_tag, parse_tags, parse_entry,
  parse_entries, add_file, bitmap_length, handler_with, parse_body, parse,
}

name_to-IsSafe :
    (found : Option ℕ) (off : ℕ) (bs : Bytes)
    → ((k : ℕ) → found ≡ some k → off + k ≤ length bs)
    → IsSafe (name_to found off bs)
name_to-IsSafe none off bs inside = err-IsSafe bad_format (λ e. cc)
name_to-IsSafe (some k) off bs inside =
    >>=-IsSafe (slice off k bs) _ (slice-IsSafe off k bs (inside k refl)) λ name _. ok-IsSafe _

read_name-IsSafe : (off : ℕ) (bs : Bytes) → off ≤ length bs → IsSafe (read_name off bs)
unfolding read_name
read_name-IsSafe off bs h = >>=-IsSafe (back off bs) _ (back-IsSafe off bs h) λ rest cut.
    name_to-IsSafe (index_byte 0 rest) off bs
      λ k found. omega (arith, back_size off bs h cut, index_byte_lt 0 rest k found)

parse_tag-IsSafe :
    (bitmap_len off : ℕ) (bs : Bytes) → off ≤ length bs → IsSafe (parse_tag bitmap_len off bs)
unfolding parse_tag
parse_tag-IsSafe bitmap_len off bs h =
    >>=-IsSafe (read_name off bs) _ (read_name-IsSafe off bs h) λ named _.
      guard-IsSafe (leb (named.1 + 2 + bitmap_len) (length bs)) bad_format _ (λ e. cc)
        λ inside.
          let fits = leb→le (named.1 + 2 + bitmap_len) (length bs) inside in
          >>=-IsSafe (be_uint16_at named.1 bs) _ (be_uint16_at-IsSafe named.1 bs (omega arith))
            λ tag_type _.
              >>=-IsSafe (slice (named.1 + 2) bitmap_len bs) _
                (slice-IsSafe (named.1 + 2) bitmap_len bs fits) λ bitmap _. ok-IsSafe _

-- The place behind a tag is inside the data.
parse_tag_inside :
    (bitmap_len off : ℕ) (bs : Bytes) (read : Tag × ℕ)
    → parse_tag bitmap_len off bs ≡ ok read
    → read.1 ≤ length bs
unfolding parse_tag
parse_tag_inside bitmap_len off bs read done =
    let (named, _, rest1) = >>=-eq-ok (read_name off bs) _ done in
    let (_, passed, rest2) =
      >>=-eq-ok (guard (leb (named.1 + 2 + bitmap_len) (length bs)) bad_format) _ rest1 in
    let fits = leb→le (named.1 + 2 + bitmap_len) (length bs) (guard-eq-ok _ bad_format passed) in
    let (tag_type, _, rest3) = >>=-eq-ok (be_uint16_at named.1 bs) _ rest2 in
    let (bitmap, _, rest4) = >>=-eq-ok (slice (named.1 + 2) bitmap_len bs) _ rest3 in
    let same : named.1 + 2 + bitmap_len ≡ read.1 = cc in omega arith

parse_tags-IsSafe :
    (n bitmap_len off : ℕ) (bs : Bytes) → off ≤ length bs → IsSafe (parse_tags n bitmap_len off bs)
unfolding parse_tags
parse_tags-IsSafe zero bitmap_len off bs h = ok-IsSafe _
parse_tags-IsSafe (suc n) bitmap_len off bs h =
    >>=-IsSafe (parse_tag bitmap_len off bs) _ (parse_tag-IsSafe bitmap_len off bs h) λ first read.
      >>=-IsSafe (parse_tags n bitmap_len first.1 bs) _
        (parse_tags-IsSafe n bitmap_len first.1 bs (parse_tag_inside bitmap_len off bs first read))
        λ others _. ok-IsSafe _

parse_entry-IsSafe :
    (hash_size off : ℕ) (bs : Bytes) → off ≤ length bs → IsSafe (parse_entry hash_size off bs)
unfolding parse_entry
parse_entry-IsSafe hash_size off bs h =
    >>=-IsSafe (read_name off bs) _ (read_name-IsSafe off bs h) λ named _.
      guard-IsSafe (leb (named.1 + hash_size + 4) (length bs)) bad_format _ (λ e. cc)
        λ inside.
          let fits = leb→le (named.1 + hash_size + 4) (length bs) inside in
          >>=-IsSafe (slice named.1 hash_size bs) _
            (slice-IsSafe named.1 hash_size bs (omega arith))
            λ key _.
              >>=-IsSafe (be_uint32_at (named.1 + hash_size) bs) _
                (be_uint32_at-IsSafe (named.1 + hash_size) bs (omega arith)) λ size _. ok-IsSafe _

parse_entries-IsSafe : (n off : ℕ) (bs : Bytes) (h : Handler) → IsSafe (parse_entries n off bs h)
unfolding parse_entries
parse_entries-IsSafe zero off bs h = ok-IsSafe h
parse_entries-IsSafe (suc n) off bs h =
    if-IsSafe (ltb off (length bs)) _ _
      (λ more.
        let below = ltb→lt off (length bs) more in
        >>=-IsSafe (parse_entry h.hash_size off bs) _
          (parse_entry-IsSafe h.hash_size off bs (omega arith))
          λ e _.
            parse_entries-IsSafe n e.behind bs (add_file e.entry_name e.entry_ckey e.entry_size h))
      (λ _. ok-IsSafe h)

parse_body-IsSafe :
    (hash_size tag_count entry_count : ℕ) (bs : Bytes)
    → 10 ≤ length bs
    → IsSafe (parse_body hash_size tag_count entry_count bs)
unfolding parse_body
parse_body-IsSafe hash_size tag_count entry_count bs h =
    >>=-IsSafe (parse_tags tag_count (bitmap_length entry_count) 10 bs) _
      (parse_tags-IsSafe tag_count (bitmap_length entry_count) 10 bs h)
      λ tags _.
        parse_entries-IsSafe entry_count tags.1 bs
          (handler_with hash_size tag_count entry_count tags.0)

-- Whatever the bytes of an INSTALL manifest are, `Parse` does not panic.
pub install_parse-IsSafe : (bs : Bytes) → IsSafe (parse bs)
unfolding parse
install_parse-IsSafe bs =
    guard-IsSafe (leb 10 (length bs)) bad_format _ (λ e. cc)
      λ enough.
        let long = leb→le 10 (length bs) enough in
        >>=-IsSafe (le_uint16_at 0 bs) _ (le_uint16_at-IsSafe 0 bs (omega arith)) λ magic _.
          guard-IsSafe (magic == magic_install) bad_format _ (λ e. cc)
            λ _. >>=-IsSafe (at bs 2) _ (at-IsSafe bs 2 (omega arith)) λ version _.
              guard-IsSafe (version == 1) not_supported _ (λ e. cc)
                λ _. >>=-IsSafe (at bs 3) _ (at-IsSafe bs 3 (omega arith)) λ hash_size _.
                  guard-IsSafe (leb 1 hash_size && leb hash_size 16) bad_format _ (λ e. cc)
                    λ _.
                      >>=-IsSafe (be_uint16_at 4 bs) _ (be_uint16_at-IsSafe 4 bs (omega arith))
                        λ tag_count _.
                          >>=-IsSafe (be_uint32_at 6 bs) _ (be_uint32_at-IsSafe 6 bs (omega arith))
                            λ entry_count _.
                              parse_body-IsSafe hash_size tag_count entry_count bs long
