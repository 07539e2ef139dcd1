-- ===== src/Storage/Tests.antt =====
-- The theorems of the storage at two small storages, one with local files and one that is online.
use go_casclib.Common.{
  ◌^◌, ◌<◌, ◌≡◌, refl, arith, true, false, none, some, [], ◌∷◌, ok, err, foreign, length, All,
}
use go_casclib.Binary.{Bytes}
use go_casclib.Compress.Tests.{run_codecs, run_codecs-IsCodecs}
use go_casclib.Datafile.Encoder.{encode, encode_chunks, chunks_of}
use go_casclib.Index.Entry.RoundTrip.{Fits}
use go_casclib.Index.Reader.{IndexFile, parse}
use go_casclib.Index.Reader.RoundTrip.{v1_header}
use go_casclib.Index.Writer.{encode_v1}
use go_casclib.Index.Tests.{bucket_three, two_entries, low_key}
use go_casclib.Archive.Writer.{write_span}
use go_casclib.Archive.Tests.{one_file}
use go_casclib.Archive.Tests.History.{start, written, written_reached, start-IsFaithful}
use go_casclib.Storage.Lookup.{
  Storage, Client, ekey_of, ekey_hex, build_ekey_map, find_by_ekey, read_by_ekey,
}
use go_casclib.Storage.Cache.{cache_read}
use go_casclib.Storage.Merge.{first_entry, all_entries, find_by_ekey-build_ekey_map}
use go_casclib.Storage.EndToEnd.{AgreeOn, mount, written_entries, read_by_ekey-Reach}
use go_casclib.Storage.Loading.{load_all}
use go_casclib.Storage.Keeps.{read_by_ekey-load_all, read_by_ekey-cached}

abbrev empty_storage : Storage (Unit {0})
empty_storage = record {
  indexes = [];
  ekeys = none;
  encoding = none;
  root = none;
  keys = none;
  cdn = none;
  cdn_archives = none;
  encoding_ckey =
      some (record { ckey = []; ekey = low_key.ekey; has_ekey = true; content_size = 0 });
  root_ckey = none;
  overcome_encrypted = false;
  data_files = none;
  cache = some [];
}

abbrev two_keys : IndexFile
two_keys = record { header = v1_header 3 1 2; entries = two_entries }

-- The second index has a key of the first with another entry.
abbrev again_low : IndexFile
again_low = record { header = v1_header 4 1 1; entries = record low_key { archive_index = 9 } ∷ [] }

abbrev local_storage : Storage (Unit {0})
local_storage = record empty_storage {
  indexes = two_keys ∷ again_low ∷ [];
  data_files = some one_file;
}

find_by_ekey-build_ekey_map_example :
    find_by_ekey (build_ekey_map local_storage) low_key.ekey
    ≡ first_entry (all_entries (two_keys ∷ again_low ∷ [])) (ekey_of low_key.ekey)
find_by_ekey-build_ekey_map_example = find_by_ekey-build_ekey_map local_storage low_key.ekey

low_found : find_by_ekey (build_ekey_map local_storage) low_key.ekey ≡ some low_key
unfolding find_by_ekey build_ekey_map
low_found = refl

build_keeps_files : (build_ekey_map local_storage).data_files ≡ some one_file
unfolding build_ekey_map
build_keeps_files = refl

read_by_ekey-load_all_example :
    (read_by_ekey run_codecs false
      (load_all run_codecs [] false (build_ekey_map local_storage)).0
      low_key.ekey).1
    ≡ (read_by_ekey run_codecs false (build_ekey_map local_storage) low_key.ekey).1
read_by_ekey-load_all_example =
    read_by_ekey-load_all run_codecs false [] (build_ekey_map local_storage) low_key.ekey low_key
      one_file low_found build_keeps_files

abbrev serves : Bytes → Client
serves blob = record { fetch = λ name. ok blob; fetch_range = λ name offs size. err foreign }

abbrev silent : Client
silent = record { fetch = λ name. err foreign; fetch_range = λ name offs size. err foreign }

abbrev online_storage : Storage (Unit {0})
online_storage = record empty_storage { cdn = some (serves []) }

absent_online : find_by_ekey online_storage low_key.ekey ≡ none
unfolding find_by_ekey
absent_online = refl

uncached : cache_read (some []) (ekey_hex low_key.ekey) ≡ err foreign
unfolding cache_read
uncached = refl

read_by_ekey-cached_example :
    (read_by_ekey run_codecs true
      (record (read_by_ekey run_codecs false online_storage low_key.ekey).0 { cdn = some silent })
      low_key.ekey).1
    ≡ (read_by_ekey run_codecs false online_storage low_key.ekey).1
read_by_ekey-cached_example =
    read_by_ekey-cached run_codecs online_storage low_key.ekey (serves []) silent [] [] foreign true
      absent_online refl refl refl uncached refl

written-Fits : All Fits (written_entries run_codecs empty_storage written)
unfolding write_span encode encode_chunks chunks_of
written-Fits = (
  record {
    key_size = refl;
    index_fits = omega arith;
    offs_fits = omega arith;
    size_fits = omega arith;
  },
  tt,
)

written_agree :
    All
      (AgreeOn (written_entries run_codecs empty_storage written))
      (written_entries run_codecs empty_storage written)
unfolding write_span encode encode_chunks chunks_of
written_agree = (((λ e. refl), tt), tt)

written_once : length written.log < 2 ^ 32
unfolding write_span encode encode_chunks chunks_of
written_once = omega arith

read_by_ekey-Reach_example :
    (idx : IndexFile) × (parse
        (encode_v1 (written_entries run_codecs empty_storage written) bucket_three)
        3
      ≡ ok idx)
    × All
        (λ p.
          (read_by_ekey run_codecs false
            (mount run_codecs empty_storage idx written.disk)
            p.0.ekey).1
          ≡ ok p.1)
        written.log
read_by_ekey-Reach_example =
    read_by_ekey-Reach run_codecs empty_storage run_codecs-IsCodecs refl start written bucket_three
      false start-IsFaithful written_reached written-Fits written_agree (omega arith) written_once
