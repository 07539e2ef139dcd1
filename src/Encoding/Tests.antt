-- ===== src/Encoding/Tests.antt =====
-- An ENCODING page with two entries.
use go_casclib.Common.{
  ℕ, ◌≡◌, refl, ap, arith, [], ◌∷◌, ok, IsSafe, replicate, All, some, true, get_or,
}
use go_casclib.Encoding.Reader.{CKeyEntry, File, parse_page, parse, find}
use go_casclib.Encoding.Reader.Safety.{encoding_parse-IsSafe}
use go_casclib.Encoding.Reader.RoundTrip.{Fits, parse_page-page_of_no_keys}
use go_casclib.Binary.{Bytes}
use go_casclib.Compress.Tests.{run_codecs, run_codecs-IsCodecs}
use go_casclib.Encoding.Writer.{page_of, WriteOptions, truncated, encode}
use go_casclib.Encoding.Writer.Sorted.{Agree}
use go_casclib.Encoding.Writer.RoundTrip.{Accepts, find-parse-encode}

abbrev two_keys : CKeyEntry
two_keys = record {
  content_size = 300;
  ckey = replicate 16 1;
  ekeys = replicate 16 2 ∷ replicate 16 3 ∷ [];
}

abbrev one_key : CKeyEntry
one_key = record { content_size = 7; ckey = replicate 16 4; ekeys = replicate 16 5 ∷ [] }

abbrev no_keys : CKeyEntry
no_keys = record { content_size = 7; ckey = replicate 16 4; ekeys = [] }

two_keys-Fits : Fits two_keys
two_keys-Fits = record {
  has_key = omega arith;
  count_fits = omega arith;
  size_fits = omega arith;
  ckey_size = refl;
  ekey_sizes = (refl, (refl, tt));
}

one_key-Fits : Fits one_key
one_key-Fits = record {
  has_key = omega arith;
  count_fits = omega arith;
  size_fits = omega arith;
  ckey_size = refl;
  ekey_sizes = (refl, tt);
}

parse_page-page_of_no_keys_example :
    parse_page 200 0 200 (page_of 200 (no_keys ∷ one_key ∷ [])) ≡ ok []
parse_page-page_of_no_keys_example =
    parse_page-page_of_no_keys no_keys (one_key ∷ []) 200 refl (omega arith)

encoding_parse-IsSafe_example : IsSafe (parse (0x45 ∷ 0x4e ∷ 1 ∷ 16 ∷ 16 ∷ replicate 20 1))
encoding_parse-IsSafe_example = encoding_parse-IsSafe (0x45 ∷ 0x4e ∷ 1 ∷ 16 ∷ 16 ∷ replicate 20 1)

-- A file of the two entries, with the pages of the encoded keys
abbrev with_ekeys : WriteOptions
with_ekeys = record {
  ckey_page_size = 1024;
  ekey_page_size = 0;
  include_ekey_pages = true;
  espec_block = 122 ∷ 0 ∷ [];
}

two_entries_accepted : Accepts (one_key ∷ two_keys ∷ []) with_ekeys
unfolding truncated
two_entries_accepted = record {
  ckey_pages_whole = refl;
  ckey_pages_fit = omega arith;
  ekey_pages_whole = refl;
  ekey_pages_fit = omega arith;
  espec_fits = omega arith;
  few = omega arith;
  fits = (one_key-Fits, (two_keys-Fits, tt));
}

abbrev head_byte : Bytes → ℕ
head_byte bs = get_or bs 0 0

two_entries-Agree : All (Agree (one_key ∷ two_keys ∷ [])) (one_key ∷ two_keys ∷ [])
two_entries-Agree = (
  ((λ e. refl), ((λ e. absurd (omega (arith, ap head_byte e))), tt)),
  (((λ e. absurd (omega (arith, ap head_byte e))), ((λ e. refl), tt)), tt),
)

find-parse-encode_example :
    (bs : Bytes) × (encode run_codecs (one_key ∷ two_keys ∷ []) with_ekeys ≡ ok bs)
    × (f : File) × (parse bs ≡ ok f)
    × All (λ e. find f e.ckey ≡ some (truncated 1024 e)) (one_key ∷ two_keys ∷ [])
find-parse-encode_example =
    find-parse-encode run_codecs run_codecs-IsCodecs (one_key ∷ two_keys ∷ []) with_ekeys
      two_entries_accepted two_entries-Agree
