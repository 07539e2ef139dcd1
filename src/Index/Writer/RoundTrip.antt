-- ===== src/Index/Writer/RoundTrip.antt =====
-- The file that `EncodeV1` writes, read by `Parse`.
use go_casclib.Common.{
  All-insertion_sort, length-insertion_sort, ℕ, ◌+◌, ◌^◌, ◌<◌, ◌≡◌, ap, ◌∙◌, sym, arith, List, ok,
  map, length, length-append, All, All-take, All-drop, take, drop, take-append-drop, ◌==◌,
  if◌then◌else◌,
}
use go_casclib.Index.Entry.{EKeyEntry}
use go_casclib.Index.Entry.RoundTrip.{Fits, trimmed}
use go_casclib.Index.Reader.{parse}
use go_casclib.Index.Reader.RoundTrip.{v1_header, parse-write_blocks}
use go_casclib.Index.Writer.{
  WriteOptions, entry_before, sort_entries, block1_of, default_segment_size, encode_v1,
}

sort_entries-Fits :
    (es : List EKeyEntry)
    → All Fits es
    → All Fits (sort_entries es) × (length (sort_entries es) ≡ length es)
unfolding sort_entries
sort_entries-Fits es h =
    (All-insertion_sort entry_before Fits es h, length-insertion_sort entry_before es)

-- The segment size that the header gets.
abbrev pub effective_segment_size : WriteOptions → ℕ
effective_segment_size o = if o.segment_size == 0 then default_segment_size else o.segment_size

-- `Parse` reads the file of `EncodeV1` as a V1 file of the bucket with the entries in the order of
-- their keys, each with its place and size and the first nine bytes of its key, wherever the file
-- is split into two key blocks. The keys must have 16 bytes, the archive indices fit 10 bits, the
-- offsets 30, the encoded sizes and the number of entries 32, and the segment size 64.
pub parse-encode_v1 :
    (entries : List EKeyEntry) (o : WriteOptions)
    → All Fits entries
    → o.segment_size < 2 ^ 64
    → length entries < 2 ^ 32
    → parse (encode_v1 entries o) o.bucket_index
      ≡ ok (record {
        header = v1_header o.bucket_index (effective_segment_size o) (length entries);
        entries = map trimmed (sort_entries entries);
      })
unfolding encode_v1
parse-encode_v1 entries o fits small few =
    let sorted = sort_entries entries in
    let n = block1_of o.block1_count (length sorted) in
    let (all, size) = sort_entries-Fits entries fits in
    let whole = take-append-drop n sorted in
    let count : length (take n sorted) + length (drop n sorted) ≡ length entries =
      sym (length-append (take n sorted) (drop n sorted)) ∙ ap length whole ∙ size in
    parse-write_blocks o.bucket_index (effective_segment_size o) (take n sorted) (drop n sorted)
      (segment_bound o small) (All-take Fits n sorted all) (All-drop Fits n sorted all)
      (omega arith)
    ∙ rw (count, whole)
  where
    segment_bound : (o : WriteOptions) → o.segment_size < 2 ^ 64 → effective_segment_size o < 2 ^ 64
    segment_bound o h = ground arith
