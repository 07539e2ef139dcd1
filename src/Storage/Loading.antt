-- ===== src/Storage/Loading.antt =====
-- internal/storage/lookup.go: `LoadEncoding`, `LoadRoot`, `LoadAll` and `Init`, and `Detect` of
-- internal/root/root.go. The probes that the root handlers register are a parameter.
use go_casclib.Common.{
  Bool, true, false, Option, none, some, List, [], ◌∷◌, Result, ok, err, file_not_found,
  not_supported,
}
use go_casclib.Binary.{Bytes}
use go_casclib.Compress.{Codecs}
use go_casclib.Encoding.Reader.{CKeyEntry, File, parse, find}
use go_casclib.Storage.Lookup.{Storage, ConfigKey, build_ekey_map, read_by_ekey}

-- `Detect`: the first handler that accepts the data.
abbrev pub detected : {H : Type 0} → Result H → Result H → Result H
detected (ok h) later = ok h
detected (err _) later = later

pub detect : {H : Type 0} → List (Bytes → Result H) → Bytes → Result H
detect [] bs = err not_supported
detect (probe ∷ probes) bs = detected (probe bs) (detect probes bs)

module _ {H : Type 0} (c : Codecs) (probes : List (Bytes → Result H)) (fails : Bool) where
  abbrev pub with_encoding : Storage H → Result File → Storage H × Result (Unit {0})
  with_encoding s (err e) = (s, err e)
  with_encoding s (ok enc) = (record s { encoding = some enc }, ok tt)

  -- What is done with the data of the ENCODING file
  abbrev pub parse_encoding : Storage H × Result Bytes → Storage H × Result (Unit {0})
  parse_encoding (s, err e) = (s, err e)
  parse_encoding (s, ok bs) = with_encoding s (parse bs)

  abbrev pub encoding_at : Bool → Storage H → ConfigKey → Storage H × Result (Unit {0})
  encoding_at false s k = (s, err file_not_found)
  encoding_at true s k = parse_encoding (read_by_ekey c fails s k.ekey)

  abbrev pub encoding_of : Storage H → Option ConfigKey → Storage H × Result (Unit {0})
  encoding_of s none = (s, err file_not_found)
  encoding_of s (some k) = encoding_at k.has_ekey s k

  unfoldable pub load_encoding : Storage H → Storage H × Result (Unit {0})
  load_encoding s = encoding_of s s.encoding_ckey

  abbrev pub with_root : Storage H → Result H → Storage H × Result (Unit {0})
  with_root s (err e) = (s, err e)
  with_root s (ok h) = (record s { root = some h }, ok tt)

  abbrev pub parse_root : Storage H × Result Bytes → Storage H × Result (Unit {0})
  parse_root (s, err e) = (s, err e)
  parse_root (s, ok bs) = with_root s (detect probes bs)

  abbrev pub first_key : Storage H → List Bytes → Storage H × Result (Unit {0})
  first_key s [] = (s, err file_not_found)
  first_key s (k ∷ ks) = parse_root (read_by_ekey c fails s k)

  abbrev pub root_entry : Storage H → Option CKeyEntry → Storage H × Result (Unit {0})
  root_entry s none = (s, err file_not_found)
  root_entry s (some e) = first_key s e.ekeys

  abbrev pub root_of : Storage H → Option ConfigKey → Option File → Storage H × Result (Unit {0})
  root_of s (some k) (some enc) = root_entry s (find enc k.ckey)
  root_of s _ _ = (s, err file_not_found)

  unfoldable pub load_root : Storage H → Storage H × Result (Unit {0})
  unfolding detect
  load_root s = root_of s s.root_ckey s.encoding

  -- A root that no handler knows is no error.
  abbrev pub tolerated : Result (Unit {0}) → Result (Unit {0})
  tolerated (err not_supported) = ok tt
  tolerated r = r

  abbrev pub then_root : Storage H × Result (Unit {0}) → Storage H × Result (Unit {0})
  then_root (s, err e) = (s, err e)
  then_root (s, ok u) = let r = load_root s in (r.0, tolerated r.1)

  unfoldable pub load_all : Storage H → Storage H × Result (Unit {0})
  unfolding load_encoding
  load_all s = then_root (load_encoding s)

  unfoldable pub init : Storage H → Storage H × Result (Unit {0})
  unfolding load_all
  init s = load_all (build_ekey_map s)
