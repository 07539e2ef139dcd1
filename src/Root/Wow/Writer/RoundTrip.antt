-- ===== src/Root/Wow/Writer/RoundTrip.antt =====
-- What `Encode` wrote, read by `Parse`.
use go_casclib.Common.{
  ℕ, ◌+◌, ◌*◌, ◌^◌, ◌≤◌, ◌<◌, ◌≡◌, refl, ap, ◌∙◌, sym, subst, arith, le→leb, ne→==, lt→ltb, inl,
  inr, ◌⊎◌, List, [], ◌∷◌, ◌++◌, ok, length, All, Bool, true, false, not, some, none, if◌then◌else◌,
}
use go_casclib.Binary.{Bytes, back, le_uint32_at}
use go_casclib.Bits.{IsU32}
use go_casclib.Root.Wow.{
  Handler, wow_magic, no_name_hash, format_v2, format_v3, parse_group, parse_groups, empty_handler,
  v3_groups, detect_v3, parse_v2, parse_detected, is_mfst, parse,
}
use go_casclib.Root.Wow.Writer.{
  WriteEntry, WriteOptions, has_hash, has_duplicate, sort_by_id, head_bytes, group_bytes,
  written_content, written_locale, encode,
}
use go_casclib.Root.Wow.Writer.Entries.{Fits, load_all, load_all-AddedBy, AddedBy}
use go_casclib.Root.Wow.Writer.Sorted.{
  sort_by_id-All, All-sort_by_id, length-sort_by_id, sort_by_id-Ascending,
}
use go_casclib.Root.Wow.Writer.Group.{parse_group-written, parse_groups_end, group_head}

-- The four words behind the magic, as `Parse` reads them.
record WordsAre (bs : Bytes) (n with_hash content : ℕ) : Type 0 where
  long : 24 ≤ length bs
  magic : le_uint32_at 0 bs ≡ ok wow_magic
  word1 : le_uint32_at 4 bs ≡ ok n
  word2 : le_uint32_at 8 bs ≡ ok with_hash
  word3 : le_uint32_at 12 bs ≡ ok n
  word4 : le_uint32_at 16 bs ≡ ok content

is_mfst_of : (bs : Bytes) → 4 ≤ length bs → le_uint32_at 0 bs ≡ ok wow_magic → is_mfst bs ≡ ok true
unfolding is_mfst
is_mfst_of bs long e = let i = le→leb 4 (length bs) long in rw (i, e)

detect_v3_of :
    (bs : Bytes) (n w content : ℕ)
    → WordsAre bs n w content
    → detect_v3 bs ≡ ok (v3_groups n w n content)
unfolding detect_v3
detect_v3_of bs n w content r =
    let i = le→leb 20 (length bs) (omega (arith, r.long)) in
    rw (i, r.word1, r.word2, r.word3, r.word4)

parse_of :
    (bs : Bytes) (n w content : ℕ)
    → WordsAre bs n w content
    → parse bs ≡ parse_detected bs (v3_groups n w n content)
unfolding parse
parse_of bs n w content r =
    let e = is_mfst_of bs (omega (arith, r.long)) r.magic in
    let d = detect_v3_of bs n w content r in rw (e, d)

parse_v2_of :
    (bs : Bytes) (n w content : ℕ)
    → WordsAre bs n w content
    → w ≤ n
    → parse_v2 bs ≡ parse_groups (length bs) false 12 bs (empty_handler format_v2)
unfolding parse_v2
parse_v2_of bs n w content r few =
    let i1 = le→leb 12 (length bs) (omega (arith, r.long)) in
    let i2 = le→leb w n few in rw (i1, r.word1, r.word2, i2)

-- The header of `Encode` for so many entries and these flags is none of version 3 for `Parse`.
abbrev pub IsPlain : ℕ → ℕ → Type 0
IsPlain n content = (n < 20) ⊎ (256 < n) ⊎ (n < content)

v3_groups-IsPlain : (n w content : ℕ) → IsPlain n content → v3_groups n w n content ≡ none
v3_groups-IsPlain n w content (inl h) = ground arith
v3_groups-IsPlain n w content (inr (inl h)) = ground arith
v3_groups-IsPlain n w content (inr (inr h)) = ground arith

v3_groups_mistaken :
    (n : ℕ) (hashed : Bool) (content : ℕ)
    → 20 ≤ n
    → n ≤ 256
    → content ≤ n
    → v3_groups n (if hashed then n else 0) n content ≡ some (n, false)
v3_groups_mistaken n true content low high flags = ground arith
v3_groups_mistaken n false content low high flags = ground arith

-- One group up to the end of the file
one_group :
    (off consumed : ℕ) (bs rest : Bytes) (h after : Handler)
    → off < length bs
    → 1 ≤ consumed
    → length bs ≤ off + consumed
    → back off bs ≡ ok rest
    → parse_group false rest h ≡ ok (after, consumed)
    → parse_groups (length bs) false off bs h ≡ ok after
unfolding parse_groups
one_group off consumed [] rest h after more filled last e g = absurd (omega arith)
one_group off consumed (x ∷ bs) rest h after more filled last e g =
    let i = lt→ltb off (length (x ∷ bs)) more in
    let moved = ne→== consumed 0 (omega arith) in
    let done = parse_groups_end (length bs) (off + consumed) (x ∷ bs) after last in
    rw (i, e, g, moved, done)

abbrev pub content_of : List WriteEntry → WriteOptions → ℕ
content_of entries opts = written_content (has_hash (sort_by_id entries)) opts.content_flags

-- The bytes of a file of `Encode`
abbrev file_bytes : List WriteEntry → WriteOptions → Bytes
file_bytes entries opts =
    let es = sort_by_id entries in
    head_bytes (length es) (has_hash es) (content_of entries opts)
      (written_locale opts.locale_flags)
    ++ group_bytes (has_hash es) es

-- What `Encode` accepts: some entries of the source's widths, with FDIDs of their own. `Parse`
-- compares a count with a length modulo 2 ^ 32, so the file is shorter than that.
pub record Accepts (entries : List WriteEntry) (opts : WriteOptions) : Type 0 where
  pub filled : 1 ≤ length entries
  pub small : 24 + length entries * 28 < 2 ^ 32
  pub fits : All Fits entries
  pub distinct : has_duplicate (sort_by_id entries) ≡ false
  pub locale_fits : IsU32 opts.locale_flags
  pub content_fits : IsU32 opts.content_flags

encode-file_bytes :
    (entries : List WriteEntry) (opts : WriteOptions)
    → Accepts entries opts
    → encode entries opts ≡ ok (file_bytes entries opts)
unfolding encode
encode-file_bytes entries opts a =
    let i1 = le→leb 1 (length entries) a.filled in
    let n = length-sort_by_id entries in
    let i2 = lt→ltb (length (sort_by_id entries)) (2 ^ 32) (omega (arith, a.small)) in
    rw (i1, a.distinct, i2)

written_content_named :
    (hashed : Bool) (c : ℕ) → no_name_hash (written_content hashed c) ≡ not hashed
written_content_named true c = ground arith
written_content_named false c = ground arith

written_content-IsU32 : (hashed : Bool) (c : ℕ) → IsU32 c → IsU32 (written_content hashed c)
written_content-IsU32 true c h = ground arith
written_content-IsU32 false c h = ground arith

written_locale-IsU32 : (c : ℕ) → IsU32 c → IsU32 (written_locale c)
written_locale-IsU32 c h = ground arith

words :
    (n content locale : ℕ) (hashed : Bool) (rest : Bytes)
    → IsU32 n
    → IsU32 content
    → WordsAre (head_bytes n hashed content locale ++ rest) n (if hashed then n else 0) content
words n content locale true rest h c = record {
  long = omega arith;
  magic = refl;
  word1 = ap ok (omega arith);
  word2 = ap ok (omega arith);
  word3 = ap ok (omega arith);
  word4 = ap ok (omega arith);
}
words n content locale false rest h c = record {
  long = omega arith;
  magic = refl;
  word1 = ap ok (omega arith);
  word2 = ap ok (omega arith);
  word3 = ap ok (omega arith);
  word4 = ap ok (omega arith);
}

with_hash_le : (hashed : Bool) (n : ℕ) → (if hashed then n else 0) ≤ n
with_hash_le true n = omega arith
with_hash_le false n = omega arith

module _ (entries : List WriteEntry) (opts : WriteOptions) (a : Accepts entries opts) where
  abbrev sorted : List WriteEntry
  sorted = sort_by_id entries

  words_of_file :
      WordsAre
        (file_bytes entries opts)
        (length sorted)
        (if has_hash sorted then length sorted else 0)
        (content_of entries opts)
  words_of_file =
      words (length sorted) (content_of entries opts) (written_locale opts.locale_flags)
        (has_hash sorted) (group_bytes (has_hash sorted) sorted)
        (omega (arith, length-sort_by_id entries, a.small))
        (written_content-IsU32 (has_hash sorted) opts.content_flags a.content_fits)

  parse-file_bytes :
      IsPlain (length entries) (content_of entries opts)
      → parse (file_bytes entries opts)
        ≡ ok (
            load_all
              (written_locale opts.locale_flags)
              (content_of entries opts)
              sorted
              (empty_handler format_v2))
  parse-file_bytes plain =
      let n = length-sort_by_id entries in
      let hashed = has_hash sorted in
      let content = content_of entries opts in
      let locale = written_locale opts.locale_flags in
      let with_hash = if hashed then length sorted else 0 in
      let h = empty_handler format_v2 in
      let after = load_all locale content sorted h in
      let bs = file_bytes entries opts in
      let group = group_head (length sorted) content locale ++ group_bytes hashed sorted in
      let fits = All-sort_by_id Fits entries a.fits in
      let none_v3 =
        v3_groups-IsPlain (length sorted) with_hash content
          (subst (λ k. IsPlain k content) (sym n) plain) in
      let e1 = parse_of bs (length sorted) with_hash content words_of_file in
      let e2 =
        parse_v2_of bs (length sorted) with_hash content words_of_file
          (with_hash_le hashed (length sorted)) in
      let e3 =
        parse_group-written locale content sorted hashed h fits (omega (arith, a.filled))
          (omega (arith, a.small)) (written_locale-IsU32 opts.locale_flags a.locale_fits)
          (written_content-IsU32 hashed opts.content_flags a.content_fits) refl
          (written_content_named hashed opts.content_flags) refl in
      let e4 =
        one_group 12 (12 + length (group_bytes hashed sorted)) bs group h after (omega arith)
          (omega arith) (omega arith) refl e3 in
      e1 ∙ ap (parse_detected bs) none_v3 ∙ e2 ∙ e4

-- Every entry that `Encode` writes is found by its FDID in the file that `Parse` reads from its
-- output, with its content key and its hash, the flags of the options (all locales where they give
-- none) and the mark of missing hashes where no entry has one. The entries have the widths of the
-- source's types and FDIDs of their own, there is one at least, the file is shorter than 2 ^ 32
-- bytes, and there are fewer than 20 entries or more than 256, or the written content flags are
-- greater than the number of entries.
pub lookup-parse-encode :
    (entries : List WriteEntry) (opts : WriteOptions)
    → Accepts entries opts
    → IsPlain (length entries) (content_of entries opts)
    → (bs : Bytes) × (encode entries opts ≡ ok bs)
      × (h : Handler) × (parse bs ≡ ok h)
      × All (AddedBy (written_locale opts.locale_flags) (content_of entries opts) h) entries
lookup-parse-encode entries opts a plain =
    let locale = written_locale opts.locale_flags in
    let content = content_of entries opts in
    let h = load_all locale content (sort_by_id entries) (empty_handler format_v2) in
    (
      file_bytes entries opts,
      encode-file_bytes entries opts a,
      h,
      parse-file_bytes entries opts a plain,
      sort_by_id-All (AddedBy locale content h) entries (
          load_all-AddedBy locale content (sort_by_id entries) (empty_handler format_v2)
            (sort_by_id-Ascending entries a.distinct)),
    )

-- The output of `Encode` for 20 to 256 entries is taken for a file of version 3 where the written
-- content flags are no greater than the number of entries: `Parse` takes the number of entries for
-- the size of the header, and reads the groups from that offset on instead of 12. The entries have
-- the widths of the source's types and FDIDs of their own.
pub parse-encode_mistaken :
    (entries : List WriteEntry) (opts : WriteOptions)
    → Accepts entries opts
    → 20 ≤ length entries
    → length entries ≤ 256
    → content_of entries opts ≤ length entries
    → (bs : Bytes) × (encode entries opts ≡ ok bs)
      × (parse bs ≡ parse_groups (length bs) false (length entries) bs (empty_handler format_v3))
parse-encode_mistaken entries opts a low high flags =
    let n = length-sort_by_id entries in
    let bs = file_bytes entries opts in
    let hashed = has_hash (sort_by_id entries) in
    let content = content_of entries opts in
    let e1 =
      parse_of bs (length (sort_by_id entries)) (if hashed then length (sort_by_id entries) else 0)
        content (words_of_file entries opts a) in
    let e2 =
      v3_groups_mistaken (length (sort_by_id entries)) hashed content (omega arith) (omega arith)
        (omega arith) in
    (
      bs,
      encode-file_bytes entries opts a,
      e1
          ∙ ap (parse_detected bs) e2
          ∙ ap (λ k. parse_groups (length bs) false k bs (empty_handler format_v3)) n,
    )
