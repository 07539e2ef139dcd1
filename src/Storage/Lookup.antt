-- ===== src/Storage/Lookup.antt =====
-- internal/storage/lookup.go and cdn_archives.go: the map of the keys of the indices, and the read
-- of a content by its encoded key.
use go_casclib.Common.{
  ℕ, Bool, Option, none, some, List, [], ◌∷◌, Result, ok, err, file_not_found, take, lookup,
  put_absent,
}
use go_casclib.Binary.{Bytes, bytes_eq}
use go_casclib.Compress.{Codecs}
use go_casclib.Index.Entry.{EKeyEntry}
use go_casclib.Index.Reader.{IndexFile}
use go_casclib.Encoding.Reader.{File}
use go_casclib.Archive.Span.{decode_span}
use go_casclib.Archive.Writer.{Disk, read_span}
use go_casclib.Cdn.ArchiveSet.{ArchiveSet, ArchiveLocation, lookup_location, hex_string}
pub use go_casclib.Buildcfg.{CKeyEntry as ConfigKey}
use go_casclib.Storage.Cache.{Files, cache_read, cache_write}

-- `cdn.Client`: a fetch of a file of the kind "data" by its name, and of a range of one, whose offset
-- and size have the 64 bits of the entry.
pub record Client : Type 0 where
  pub fetch : Bytes → Result Bytes
  pub fetch_range : Bytes → ℕ → ℕ → Result Bytes

-- `data_files` is what `locateDataDir` finds, and `cache` the directory of the cache.
pub record Storage (H : Type 0) : Type 0 where
  pub indexes : List IndexFile
  pub ekeys : Option (List (Bytes × EKeyEntry))
  pub encoding : Option File
  pub root : Option H
  pub keys : Option (Bytes → ℕ → Result Bytes)
  pub cdn : Option Client
  pub cdn_archives : Option ArchiveSet
  pub encoding_ckey : Option ConfigKey
  pub root_ckey : Option ConfigKey
  pub overcome_encrypted : Bool
  pub data_files : Option Disk
  pub cache : Option Files

-- `EKeyOf`
abbrev pub ekey_of : Bytes → Bytes
ekey_of e = take 9 e

-- The inner loop of `buildEKeyMap`
unfoldable pub merge_entries : List EKeyEntry → List (Bytes × EKeyEntry) → List (Bytes × EKeyEntry)
merge_entries [] m = m
merge_entries (e ∷ es) m =
    merge_entries es (put_absent (lookup bytes_eq (ekey_of e.ekey) m) (ekey_of e.ekey) e m)

unfoldable pub merge_indexes : List IndexFile → List (Bytes × EKeyEntry) → List (Bytes × EKeyEntry)
unfolding merge_entries
merge_indexes [] m = m
merge_indexes (idx ∷ rest) m = merge_indexes rest (merge_entries idx.entries m)

abbrev pub ekey_map : List IndexFile → Option (List (Bytes × EKeyEntry))
ekey_map [] = none
ekey_map (idx ∷ rest) = some (merge_indexes (idx ∷ rest) [])

-- `ekeyHex`: the digits of `hex.EncodeToString`
abbrev pub ekey_hex : Bytes → Bytes
ekey_hex = hex_string

abbrev pub find_in_map : Option (List (Bytes × EKeyEntry)) → Bytes → Option EKeyEntry
find_in_map none e = none
find_in_map (some m) e = lookup bytes_eq (ekey_of e) m

abbrev pub location_in : Option ArchiveSet → Bytes → Option ArchiveLocation
location_in none e = none
location_in (some set) e = lookup_location set e

module _ {H : Type 0} where
  unfoldable pub build_ekey_map : Storage H → Storage H
  unfolding merge_indexes
  build_ekey_map s = record s { ekeys = ekey_map s.indexes }

  unfoldable pub find_by_ekey : Storage H → Bytes → Option EKeyEntry
  find_by_ekey s e = find_in_map s.ekeys e

  module _ (c : Codecs) where
    -- A blob that the cache does not have: it is fetched, and put into the cache if that works.
    abbrev pub fetch_flat : Bool → Storage H → Bytes → Result Bytes → Storage H × Result Bytes
    fetch_flat write_fails s hex_key (err e) = (s, err e)
    fetch_flat write_fails s hex_key (ok body) = (
      record s { cache = (cache_write write_fails s.cache hex_key body).0 },
      decode_span c s.keys s.overcome_encrypted body,
    )

    abbrev pub fetch_cached :
        Bool → Storage H → Client → Bytes → Result Bytes → Storage H × Result Bytes
    fetch_cached write_fails s client hex_key (ok cached) =
        (s, decode_span c s.keys s.overcome_encrypted cached)
    fetch_cached write_fails s client hex_key (err _) =
        fetch_flat write_fails s hex_key (client.fetch hex_key)

    abbrev pub decode_range : Storage H → Result Bytes → Result Bytes
    decode_range s (err e) = err e
    decode_range s (ok body) = decode_span c s.keys s.overcome_encrypted body

    abbrev pub fetch_located :
        Bool → Storage H → Client → Bytes → Option ArchiveLocation → Storage H × Result Bytes
    fetch_located write_fails s client e (some loc) =
        (s, decode_range s (client.fetch_range loc.archive_hash_hex loc.offset loc.encoded_size))
    fetch_located write_fails s client e none =
        fetch_cached write_fails s client (ekey_hex e) (cache_read s.cache (ekey_hex e))

    -- `fetchByEKeyViaArchives`
    abbrev pub fetch_by_ekey_via_archives :
        Bool → Storage H → Bytes → Option Client → Storage H × Result Bytes
    fetch_by_ekey_via_archives write_fails s e none = (s, err file_not_found)
    fetch_by_ekey_via_archives write_fails s e (some client) =
        fetch_located write_fails s client e (location_in s.cdn_archives e)

    -- The local entry with the data files, if there are both
    abbrev pub read_found :
        Bool → Storage H → Bytes → Option EKeyEntry → Option Disk → Storage H × Result Bytes
    read_found write_fails s e (some entry) (some disk) =
        (s, read_span c s.keys s.overcome_encrypted disk entry)
    read_found write_fails s e _ _ = fetch_by_ekey_via_archives write_fails s e s.cdn

    -- `ReadByEKeyContext`; the flag says whether a write to the cache fails.
    unfoldable pub read_by_ekey : Bool → Storage H → Bytes → Storage H × Result Bytes
    unfolding find_by_ekey
    read_by_ekey write_fails s e = read_found write_fails s e (find_by_ekey s e) s.data_files
