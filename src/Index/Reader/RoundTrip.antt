-- ===== src/Index/Reader/RoundTrip.antt =====
-- `Parse` reads back what `EncodeV1` wrote.
use go_casclib.Common.{
  ℕ, zero, suc, ◌+◌, ◌*◌, ◌^◌, ◌≤◌, ◌<◌, ◌≡◌, ◌≢◌, refl, ap, sym, ◌∙◌, arith, List, [], ◌∷◌, ◌++◌,
  map, append-nil, ok, err, Result, length, length-append, append_assoc, All, All-append, le→leb,
  ==_refl, IsSafe, panic,
}
use go_casclib.Bits.{u32}
use go_casclib.Hashes.{hash_little}
use go_casclib.Hashes.Laws.{hash_little-IsU32}
use go_casclib.Binary.{
  Bytes, front, slice-append, le_uint16_at, le_uint32_at, le_uint64_at, put_le_uint32,
}
use go_casclib.Index.Entry.{EKeyEntry, decode_entry, write_entry_v1}
use go_casclib.Index.Entry.RoundTrip.{
  v1_fields, Fits, trimmed, length-write_entry_v1, decode_entry-write_entry_v1,
}
use go_casclib.Index.Header.Safety.{parse_header_v2_version, parse_header_v2-IsSafe}
use go_casclib.Index.Header.{Header, parse_header_v1, parse_header_v2, capture_v1, check_block}
use go_casclib.Index.Reader.{load_loop, load_entries_v1, parse_from, parse}
use go_casclib.Index.Writer.{write_entries, write_blocks, hashed_header}

length-write_entries :
    (es : List EKeyEntry) → All Fits es → length (write_entries es) ≡ length es * 18
length-write_entries [] h = refl
length-write_entries (e ∷ es) (fit, fits) = omega (
  arith,
  length-append (write_entry_v1 e v1_fields) (write_entries es),
  length-write_entry_v1 e fit,
  length-write_entries es fits,
)

write_entries-append :
    (xs ys : List EKeyEntry) → write_entries (xs ++ ys) ≡ write_entries xs ++ write_entries ys
write_entries-append [] ys = refl
write_entries-append (x ∷ xs) ys =
    ap (◌++◌ (write_entry_v1 x v1_fields)) (write_entries-append xs ys)
    ∙ sym (append_assoc (write_entry_v1 x v1_fields) (write_entries xs) (write_entries ys))

load_loop-write_entries :
    (es : List EKeyEntry) (off : ℕ) (pre tail : Bytes)
    → length pre ≡ off
    → All Fits es
    → load_loop (length es) off (pre ++ (write_entries es ++ tail)) v1_fields ≡ ok (map trimmed es)
unfolding load_loop
load_loop-write_entries [] off pre tail h fits = refl
load_loop-write_entries (e ∷ es) off pre tail h (fit, fits) =
    let bytes = write_entry_v1 e v1_fields in
    let rest = write_entries es ++ tail in
    let piece = slice-append off 18 pre bytes rest h (length-write_entry_v1 e fit) in
    let entry : decode_entry bytes v1_fields ≡ ok (trimmed e) =
      rw append-nil at (decode_entry-write_entry_v1 e [] fit) in
    let later : load_loop (length es) (off + 18) (pre ++ (bytes ++ rest)) v1_fields
        ≡ ok (map trimmed es) =
      rw (← append_assoc pre bytes rest) (
        load_loop-write_entries es (off + 18) (pre ++ bytes) tail
          (omega (arith, length-append pre bytes, length-write_entry_v1 e fit)) fits) in
    rw (append_assoc bytes (write_entries es) tail, piece, entry, later)

-- The header that `parseHeaderV1` makes of the file.
abbrev pub v1_header : ℕ → ℕ → ℕ → Header
v1_header bucket segment_size count = record {
  index_version = 5;
  bucket_index = bucket;
  fields = v1_fields;
  segment_size = segment_size;
  header_length = 48;
  header_padding = 0;
  ekey_count = count;
}

starts_with_zeros :
    (n : ℕ) (rest block : Bytes)
    → front n (0 ∷ 0 ∷ rest) ≡ ok block
    → 16 ≤ length block
    → le_uint16_at 0 block ≡ ok 0
starts_with_zeros zero rest block h long = absurd (ground arith)
starts_with_zeros (suc zero) rest block h long = absurd (ground arith)
starts_with_zeros (suc (suc n)) rest block h long = ground arith

zero_is_not_seven : ◌≡◌ {A = Result ℕ} (ok 0) (ok 7) → ⊥
zero_is_not_seven e = cc

module _ (bucket segment : ℕ) (first second : List EKeyEntry) (segment_fits : segment < 2 ^ 64)
    (first_fits : All Fits first) (second_fits : All Fits second)
    (few : length first + length second < 2 ^ 32) where
  abbrev out : Bytes
  out = write_blocks bucket segment first second

  abbrev head : Bytes
  head = hashed_header bucket segment first second

  abbrev header_hash : ℕ
  header_hash = hash_little (head ++ (0 ∷ 0 ∷ 0 ∷ 0 ∷ [])) 0

  abbrev h48 : Bytes
  h48 = head ++ put_le_uint32 header_hash

  segment_read : le_uint64_at 16 h48 ≡ ok segment
  segment_read = ap ok (omega arith)

  count1_read : le_uint32_at 28 h48 ≡ ok (length first)
  count1_read = ap ok (omega arith)

  count2_read : le_uint32_at 32 h48 ≡ ok (length second)
  count2_read = ap ok (omega arith)

  hash1_read : le_uint32_at 36 out ≡ ok (hash_little (write_entries first) 0)
  hash1_read = ap ok (omega (arith, hash_little-IsU32 (write_entries first) 0))

  hash2_read : le_uint32_at 40 out ≡ ok (hash_little (write_entries second) 0)
  hash2_read = ap ok (omega (arith, hash_little-IsU32 (write_entries second) 0))

  header_hash_read : le_uint32_at 44 out ≡ ok header_hash
  header_hash_read = ap ok (omega (arith, hash_little-IsU32 (head ++ (0 ∷ 0 ∷ 0 ∷ 0 ∷ [])) 0))

  capture_v1-out :
      capture_v1 out h48 bucket ≡ ok (v1_header bucket segment (length first + length second))
  unfolding capture_v1
  capture_v1-out =
      let total : u32 (length first + length second) ≡ length first + length second = omega arith in
      ground (
        arith,
        segment_read,
        count1_read,
        count2_read,
        header_hash_read,
        ==_refl header_hash,
        total,
      )

  check_block-out :
      (pre block tail : Bytes) (off n : ℕ)
      → length pre ≡ off
      → length block ≡ n
      → check_block (pre ++ (block ++ tail)) off n (hash_little block 0) ≡ ok (off + n)
  unfolding check_block
  check_block-out pre block tail off n at_off size =
      let fits =
        le→leb (off + n) (length (pre ++ (block ++ tail)))
          (omega (arith, length-append pre (block ++ tail), length-append block tail)) in
      rw (fits, slice-append off n pre block tail at_off size, ==_refl (hash_little block 0))

  parse_header_v1-out :
      parse_header_v1 out bucket ≡ ok (v1_header bucket segment (length first + length second))
  unfolding parse_header_v1
  parse_header_v1-out =
      let a = write_entries first in
      let b = write_entries second in
      let size_a = length-write_entries first first_fits in
      let block1 = check_block-out h48 a b 48 (length first * 18) refl size_a in
      let block2 : check_block out (48 + length first * 18) (length second * 18) (hash_little b 0)
          ≡ ok (48 + length first * 18 + length second * 18) =
        rw (append-nil, append_assoc h48 a b) at
          (check_block-out (h48 ++ a) b [] (48 + length first * 18) (length second * 18)
            (omega (arith, length-append h48 a, size_a))
            (length-write_entries second second_fits)) in
      let long = le→leb 48 (length out) (omega arith) in
      ground (
        arith, long, capture_v1-out, count1_read, count2_read, hash1_read, hash2_read, block1,
        block2,
      )

  load_entries_v1-out :
      load_entries_v1 out (v1_header bucket segment (length first + length second))
      ≡ ok (map trimmed (first ++ second))
  unfolding load_entries_v1
  load_entries_v1-out =
      let a = write_entries first in
      let b = write_entries second in
      let count = length first + length second in
      let size_a = length-write_entries first first_fits in
      let size_b = length-write_entries second second_fits in
      let fits = le→leb (48 + count * 18) (length out) (omega (arith, length-append a b)) in
      let loaded : load_loop count 48 (h48 ++ (a ++ b)) v1_fields
          ≡ ok (map trimmed (first ++ second)) =
        rw (append-nil, write_entries-append, length-append) at
          (load_loop-write_entries (first ++ second) 48 h48 [] refl
            (All-append Fits first second first_fits second_fits)) in
      ground (arith, fits, loaded)

  -- The bytes where the V2 header has its version are 0 in a V1 file.
  parse_header_v2-out : (hdr : Header) → parse_header_v2 out bucket ≢ ok hdr
  parse_header_v2-out hdr e =
      let (n, block, sliced, long, seven) = parse_header_v2_version out bucket hdr e in
      let zero_version = starts_with_zeros n _ block sliced long in
      zero_is_not_seven (sym zero_version ∙ seven)

-- Without a V2 header the file is read as V1.
parse_from-v1 :
    (r : Result Header) (bs : Bytes) (bucket : ℕ) {hdr : Header} {es : List EKeyEntry}
    → IsSafe r
    → ((h : Header) → r ≢ ok h)
    → parse_header_v1 bs bucket ≡ ok hdr
    → load_entries_v1 bs hdr ≡ ok es
    → parse_from r bs bucket ≡ ok (record { header = hdr; entries = es })
unfolding parse_from
parse_from-v1 (ok h) bs bucket s n e e' = absurd (n h refl)
parse_from-v1 (err panic) bs bucket s n e e' = absurd (s.ne_panic refl)
parse_from-v1 (err _) bs bucket s n e e' = rw (e, e')

pub parse-write_blocks :
    (bucket segment : ℕ) (first second : List EKeyEntry)
    → segment < 2 ^ 64
    → All Fits first
    → All Fits second
    → length first + length second < 2 ^ 32
    → parse (write_blocks bucket segment first second) bucket
      ≡ ok (record {
        header = v1_header bucket segment (length first + length second);
        entries = map trimmed (first ++ second);
      })
unfolding parse
parse-write_blocks bucket segment first second h1 h2 h3 h4 =
    parse_from-v1 _ _ bucket (parse_header_v2-IsSafe _ bucket)
      (parse_header_v2-out bucket segment first second h1 h2 h3 h4)
      (parse_header_v1-out bucket segment first second h1 h2 h3 h4)
      (load_entries_v1-out bucket segment first second h1 h2 h3 h4)
