-- ===== src/Cdn/Tests.antt =====
-- An archive index with two entries, and the set it is added to.
use go_casclib.Common.{◌≡◌, refl, arith, [], ◌∷◌, ok, IsSafe, replicate, map, some}
use go_casclib.Binary.{Bytes}
use go_casclib.Compress.Tests.{run_codecs, run_codecs-IsCodecs}
use go_casclib.Cdn.ArchiveIndex.{
  ArchiveIndexFooter, ArchiveIndexEntry, ArchiveIndex, parse_archive_index,
}
use go_casclib.Cdn.ArchiveIndex.Safety.{parse_archive_index-IsSafe}
use go_casclib.Cdn.ArchiveIndex.Writer.{encode_archive_index}
use go_casclib.Cdn.ArchiveIndex.Writer.Records.{IsValid, Fits, trimmed}
use go_casclib.Cdn.ArchiveIndex.Writer.RoundTrip.{written_footer, parse-encode_archive_index}
use go_casclib.Cdn.ArchiveSet.{
  new_archive_set, add_index, lookup_location, hex_string, lookup_location-add_index,
}

abbrev small_footer : ArchiveIndexFooter
small_footer = record {
  toc_hash = replicate 16 9;
  page_size_kb = 4;
  offset_bytes = 4;
  size_bytes = 4;
  ekey_length = 16;
  element_count = 0;
  footer_hash = [];
}

abbrev first_span : ArchiveIndexEntry
first_span = record { ekey = replicate 16 1; offset = 0; encoded_size = 300 }

abbrev second_span : ArchiveIndexEntry
second_span = record { ekey = replicate 16 2; offset = 300; encoded_size = 7 }

small_footer-IsValid : IsValid small_footer
small_footer-IsValid = record {
  page_low = omega arith;
  page_high = omega arith;
  key_low = omega arith;
  key_high = omega arith;
  offset_low = omega arith;
  offset_high = omega arith;
  size_low = omega arith;
  size_high = omega arith;
}

first_span-Fits : Fits small_footer first_span
first_span-Fits = record {
  key_size = refl;
  key_some = refl;
  offset_word = omega arith;
  offset_fits = omega arith;
  size_word = omega arith;
  size_fits = omega arith;
}

second_span-Fits : Fits small_footer second_span
second_span-Fits = record {
  key_size = refl;
  key_some = refl;
  offset_word = omega arith;
  offset_fits = omega arith;
  size_word = omega arith;
  size_fits = omega arith;
}

parse-encode_archive_index_example :
    (bs : Bytes) × (encode_archive_index run_codecs small_footer (first_span ∷ second_span ∷ [])
      ≡ ok bs)
    × (parse_archive_index run_codecs bs
        ≡ ok (record {
          footer = written_footer run_codecs small_footer 2;
          entries = map (trimmed small_footer) (first_span ∷ second_span ∷ []);
        }))
parse-encode_archive_index_example =
    parse-encode_archive_index run_codecs run_codecs-IsCodecs small_footer small_footer-IsValid refl
      (first_span ∷ second_span ∷ []) (first_span-Fits, (second_span-Fits, tt)) (omega arith)

parse_archive_index-IsSafe_example : IsSafe (parse_archive_index run_codecs (replicate 60 1))
parse_archive_index-IsSafe_example = parse_archive_index-IsSafe run_codecs (replicate 60 1)

abbrev small_index : ArchiveIndex
small_index = record { footer = small_footer; entries = first_span ∷ second_span ∷ [] }

lookup_location-add_index_example :
    lookup_location (add_index (replicate 16 0xab) small_index new_archive_set) (replicate 16 2)
    ≡ some (record {
      archive_hash_hex = hex_string (replicate 16 0xab);
      offset = 300;
      encoded_size = 7;
    })
unfolding lookup_location
lookup_location-add_index_example =
    lookup_location-add_index (replicate 16 0xab) (replicate 16 2) small_index new_archive_set
