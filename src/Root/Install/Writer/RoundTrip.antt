-- ===== src/Root/Install/Writer/RoundTrip.antt =====
-- What `Encode` wrote, read by `Parse`.
use go_casclib.Common.{
  ℕ, ◌+◌, ◌/◌, ◌^◌, ◌≤◌, ◌<◌, ◌≡◌, refl, ap, ◌∙◌, arith, le→leb, List, ◌++◌, ok, length,
  length-append, All, map,
}
use go_casclib.Binary.{Bytes, at, le_uint16_at, be_uint16_at, be_uint32_at}
use go_casclib.Root.Install.{
  Tag, Handler, magic_install, bitmap_length, handler_with, parse_tags, parse_entries, parse_body,
  parse,
}
use go_casclib.Root.Install.Writer.{
  Entry, tag_bytes, entry_bytes, header_bytes, effective_hash_size, encode,
}
use go_casclib.Root.Install.Writer.Parts.{TagFits, loaded_tag, parse_tags-written}
use go_casclib.Root.Install.Writer.Entries.{
  Fits, loaded, load_all, parse_entries-written, Names, FoundIn, load_all-FoundIn, load_all-all,
  load_all-tags,
}

parse_of :
    (bs : Bytes) (hash_size tag_count entry_count : ℕ)
    → 10 ≤ length bs
    → le_uint16_at 0 bs ≡ ok magic_install
    → at bs 2 ≡ ok 1
    → at bs 3 ≡ ok hash_size
    → 1 ≤ hash_size
    → hash_size ≤ 16
    → be_uint16_at 4 bs ≡ ok tag_count
    → be_uint32_at 6 bs ≡ ok entry_count
    → parse bs ≡ parse_body hash_size tag_count entry_count bs
unfolding parse
parse_of bs hash_size tag_count entry_count long magic one sized low high tags entries =
    let i1 = le→leb 10 (length bs) long in
    let i2 = le→leb 1 hash_size low in
    let i3 = le→leb hash_size 16 high in rw (i1, magic, one, sized, i2, i3, tags, entries)

parse_body_of :
    (hash_size tag_count entry_count place : ℕ) (bs : Bytes) (tags : List Tag) (h : Handler)
    → parse_tags tag_count (bitmap_length entry_count) 10 bs ≡ ok (tags, place)
    → parse_entries entry_count place bs (handler_with hash_size tag_count entry_count tags) ≡ ok h
    → parse_body hash_size tag_count entry_count bs ≡ ok h
unfolding parse_body
parse_body_of hash_size tag_count entry_count place bs tags h e1 e2 = rw e1 e2

-- What `Encode` writes so that `Parse` reads it: names without a zero byte, fields of the widths of
-- the source's types, and counts that their fields hold. `Parse` adds 7 to the number of entries as
-- a `uint32`.
pub record Accepts (entries : List Entry) (tags : List Tag) (hash_size : ℕ) : Type 0 where
  pub fits : All Fits entries
  pub tags_fit : All TagFits tags
  pub few_tags : length tags < 2 ^ 16
  pub few_entries : length entries + 7 < 2 ^ 32
  pub size_fits : hash_size ≤ 16

module _ (entries : List Entry) (tags : List Tag) (hash_size : ℕ)
    (a : Accepts entries tags hash_size) where
  abbrev pub size : ℕ
  size = effective_hash_size hash_size

  abbrev pub bitmap_len : ℕ
  bitmap_len = (length entries + 7) / 8

  abbrev file_bytes : Bytes
  file_bytes =
      header_bytes size (length tags) (length entries)
      ++ (tag_bytes bitmap_len tags ++ entry_bytes size entries)

  abbrev start : Handler
  start = handler_with size (length tags) (length entries) (map (loaded_tag bitmap_len) tags)

  size_bounds : (1 ≤ size) × (size ≤ 16)
  size_bounds = (ground (arith, a.size_fits), ground (arith, a.size_fits))

  encode-file_bytes : encode entries tags hash_size ≡ ok file_bytes
  unfolding encode
  encode-file_bytes = let i = le→leb size 16 size_bounds.1 in rw i

  parse-file_bytes : parse file_bytes ≡ ok (load_all size entries start)
  parse-file_bytes =
      let head = header_bytes size (length tags) (length entries) in
      let ts = tag_bytes bitmap_len tags in
      let es = entry_bytes size entries in
      let same : bitmap_length (length entries) ≡ bitmap_len = omega (arith, a.few_entries) in
      let e1 : parse_tags (length tags) (bitmap_length (length entries)) 10 file_bytes
          ≡ ok (map (loaded_tag bitmap_len) tags, 10 + length ts) =
        ap (λ (k : ℕ). parse_tags (length tags) k 10 file_bytes) same
        ∙ parse_tags-written tags bitmap_len 10 head es refl a.tags_fit in
      let e2 : parse_entries (length entries) (10 + length ts) ((head ++ ts) ++ es) start
          ≡ ok (load_all size entries start) =
        parse_entries-written entries size (10 + length ts) (head ++ ts) start
          (omega (arith, length-append head ts)) a.fits size_bounds.1 refl in
      let e3 =
        parse_of file_bytes size (length tags) (length entries) (omega arith) refl refl refl
          size_bounds.0 size_bounds.1 (ap ok (omega (arith, a.few_tags)))
          (ap ok (omega (arith, a.few_entries))) in
      e3
      ∙ parse_body_of size (length tags) (length entries) (10 + length ts) file_bytes
          (map (loaded_tag bitmap_len) tags) (load_all size entries start) e1 e2

  -- The manifest that `Encode` writes is read back by `Parse`: the tags with their bitmaps cut or
  -- filled to one bit per entry, the entries in their order, and each is found by its name, with
  -- its size and the bytes of its key that the size of the hash leaves. The names have no zero
  -- byte, those of the entries are distinct, the fields have the widths of the source's types, the
  -- size of the hash is 16 at most, and there are fewer than 2 ^ 16 tags and than 2 ^ 32 - 7
  -- entries.
  pub lookup-parse-encode_install :
      Names entries
      → (bs : Bytes) × (encode entries tags hash_size ≡ ok bs)
        × (h : Handler) × (parse bs ≡ ok h)
        × (h.tags ≡ map (loaded_tag bitmap_len) tags)
        × (h.all ≡ map (λ e. (e.name, loaded size e)) entries)
        × All (FoundIn size h) entries
  lookup-parse-encode_install names = (
    file_bytes,
    encode-file_bytes,
    load_all size entries start,
    parse-file_bytes,
    load_all-tags entries size start,
    load_all-all entries size start,
    load_all-FoundIn entries size start names,
  )
