-- ===== src/Index/Tests.antt =====
-- An index of two entries, and the theorems of the index files at it.
use go_casclib.Common.{
  ◌≡◌, refl, arith, List, [], ◌∷◌, ◌++◌, ok, map, replicate, length, bit_or, All-replicate, IsSafe,
}
use mathlib.Core.List.{Perm}
use go_casclib.Binary.{Bytes, IsByte, put_le_uint32}
use go_casclib.Index.Entry.{EKeyEntry, write_entry_v1}
use go_casclib.Index.Entry.RoundTrip.{v1_fields, Fits, trimmed}
use go_casclib.Index.Reader.{IndexFile, parse, load_pages}
use go_casclib.Index.Reader.Fuel.{FileReads, load_pages-FileReads}
use go_casclib.Index.Reader.Safety.{parse-IsSafe}
use go_casclib.Index.Reader.RoundTrip.{v1_header}
use go_casclib.Index.Writer.{WriteOptions, sort_entries, encode_v1}
use go_casclib.Index.Writer.Ascending.{Ascends, parse-encode_v1-Ascends}
use go_casclib.Index.Header.Lengths.{HasLengths}
use go_casclib.Hashes.{hash_little}
use go_casclib.Index.Writer.RoundTrip.{effective_segment_size, parse-encode_v1}

abbrev high_key : EKeyEntry
high_key = record {
  ekey = replicate 16 9;
  archive_index = 1023;
  archive_offs = 0x3fff_ffff;
  encoded_size = 77;
}

abbrev pub low_key : EKeyEntry
low_key = record { ekey = replicate 16 3; archive_index = 2; archive_offs = 14; encoded_size = 97 }

high_key-Fits : Fits high_key
high_key-Fits = record {
  key_size = refl;
  index_fits = omega arith;
  offs_fits = omega arith;
  size_fits = omega arith;
}

low_key-Fits : Fits low_key
low_key-Fits = record {
  key_size = refl;
  index_fits = omega arith;
  offs_fits = omega arith;
  size_fits = omega arith;
}

abbrev pub two_entries : List EKeyEntry
two_entries = high_key ∷ low_key ∷ []

-- One entry in each key block.
abbrev pub bucket_three : WriteOptions
bucket_three = record { bucket_index = 3; segment_size = 0; block1_count = 1 }

sort_entries_swaps : sort_entries two_entries ≡ low_key ∷ high_key ∷ []
unfolding sort_entries
sort_entries_swaps = refl

parse-encode_v1_example :
    parse (encode_v1 two_entries bucket_three) 3
    ≡ ok (record {
      header = v1_header 3 (effective_segment_size bucket_three) 2;
      entries = map trimmed (sort_entries two_entries);
    })
parse-encode_v1_example =
    parse-encode_v1 two_entries bucket_three (high_key-Fits, (low_key-Fits, tt)) (omega arith)
      (omega arith)

parse-encode_v1-Ascends_example :
    (idx : IndexFile) × (parse (encode_v1 two_entries bucket_three) 3 ≡ ok idx)
    × Ascends 0 idx.entries
    × Perm idx.entries (map trimmed two_entries)
parse-encode_v1-Ascends_example =
    parse-encode_v1-Ascends two_entries bucket_three
      (
        record { fits = high_key-Fits; bytes = All-replicate IsByte 16 9 (omega arith) },
        (record { fits = low_key-Fits; bytes = All-replicate IsByte 16 3 (omega arith) }, tt),
      )
      (omega arith) (omega arith)

abbrev cut_file : Bytes
cut_file = replicate 50 5

parse-IsSafe_example : IsSafe (parse cut_file 5)
parse-IsSafe_example = parse-IsSafe cut_file 5

-- The bytes of an entry and the byte behind it, with their hash in front: one slot of a page.
abbrev hashed_entry : Bytes
hashed_entry = write_entry_v1 low_key v1_fields ++ (0 ∷ [])

abbrev guarded_file : Bytes
guarded_file = put_le_uint32 (bit_or (hash_little hashed_entry 0) 0x8000_0000) ++ hashed_entry

v1_fields-HasLengths : HasLengths v1_fields
v1_fields-HasLengths = record { nine = refl; five = refl; four = refl }

load_pages-FileReads_example :
    (es : List EKeyEntry) × (load_pages (length guarded_file) 0 guarded_file v1_fields ≡ ok es)
    × FileReads guarded_file v1_fields 0 es
load_pages-FileReads_example = load_pages-FileReads guarded_file v1_fields 0 v1_fields-HasLengths
