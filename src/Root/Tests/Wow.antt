-- ===== src/Root/Tests/Wow.antt =====
-- World of Warcraft root files with two entries and with twenty.
use go_casclib.Common.{
  ℕ, zero, suc, ◌+◌, ◌<◌, ◌^◌, ◌≡◌, refl, arith, List, [], ◌∷◌, ok, err, ◌>>=◌, bad_format, IsSafe,
  replicate, All, inl, false, length,
}
use go_casclib.Binary.{Bytes}
use go_casclib.Root.Wow.{
  Handler, format_v3, parse, is_mfst, detect_v3, parse_group_header, parse_files, empty_handler,
  parse_groups,
}
use go_casclib.Root.Wow.Safety.{wow_parse-IsSafe}
use go_casclib.Root.Wow.Writer.{WriteEntry, WriteOptions, encode, sort_by_id, has_duplicate}
use go_casclib.Root.Wow.Writer.Entries.{Fits, AddedBy}
use go_casclib.Root.Wow.Writer.RoundTrip.{Accepts, lookup-parse-encode, parse-encode_mistaken}

abbrev file_nine : WriteEntry
file_nine = record { file_data_id = 9; ckey = replicate 16 1; file_name_hash = 77 }

abbrev file_four : WriteEntry
file_four = record { file_data_id = 4; ckey = replicate 16 2; file_name_hash = 0 }

abbrev no_flags : WriteOptions
no_flags = record { locale_flags = 0; content_flags = 0 }

two_files_accepted : Accepts (file_nine ∷ file_four ∷ []) no_flags
unfolding sort_by_id has_duplicate
two_files_accepted = record {
  filled = omega arith;
  small = omega arith;
  fits = (
    record { id_fits = omega arith; ckey_size = refl; hash_fits = omega arith },
    (record { id_fits = omega arith; ckey_size = refl; hash_fits = omega arith }, tt),
  );
  distinct = refl;
  locale_fits = omega arith;
  content_fits = omega arith;
}

lookup-parse-encode_example :
    (bs : Bytes) × (encode (file_nine ∷ file_four ∷ []) no_flags ≡ ok bs)
    × (h : Handler) × (parse bs ≡ ok h)
    × All (AddedBy 0xFFFFFFFF 0 h) (file_nine ∷ file_four ∷ [])
unfolding parse encode
lookup-parse-encode_example =
    lookup-parse-encode (file_nine ∷ file_four ∷ []) no_flags two_files_accepted (inl (omega arith))

-- Entries with consecutive FDIDs
abbrev numbered : ℕ → ℕ → List WriteEntry
numbered id zero = []
numbered id (suc n) =
    record { file_data_id = id; ckey = replicate 16 3; file_name_hash = 5 } ∷ numbered (id + 1) n

numbered-Fits : (n id : ℕ) → id + n < 2 ^ 32 → All Fits (numbered id n)
numbered-Fits zero id h = tt
numbered-Fits (suc n) id h = (
  record { id_fits = omega arith; ckey_size = refl; hash_fits = omega arith },
  numbered-Fits n (id + 1) (omega arith),
)

twenty_files_accepted : Accepts (numbered 1 20) no_flags
unfolding sort_by_id has_duplicate
twenty_files_accepted = record {
  filled = omega arith;
  small = omega arith;
  fits = numbered-Fits 20 1 (omega arith);
  distinct = refl;
  locale_fits = omega arith;
  content_fits = omega arith;
}

parse-encode_mistaken_example :
    (bs : Bytes) × (encode (numbered 1 20) no_flags ≡ ok bs)
    × (parse bs ≡ parse_groups (length bs) false 20 bs (empty_handler format_v3))
unfolding parse encode
parse-encode_mistaken_example =
    parse-encode_mistaken (numbered 1 20) no_flags twenty_files_accepted (omega arith) (omega arith)
      (omega arith)

-- The file with twenty entries is not read back at all.
twenty_files_refused : (encode (numbered 1 20) no_flags >>= parse) ≡ err bad_format
unfolding encode parse is_mfst detect_v3 parse_groups parse_group_header parse_files
twenty_files_refused = refl

wow_parse-IsSafe_example : IsSafe (parse (0x54 ∷ 0x53 ∷ 0x46 ∷ 0x4D ∷ replicate 30 1))
wow_parse-IsSafe_example = wow_parse-IsSafe (0x54 ∷ 0x53 ∷ 0x46 ∷ 0x4D ∷ replicate 30 1)
