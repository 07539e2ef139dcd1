-- ===== src/Storage/Keeps.antt =====
-- What the reads and the loading leave as it is, and what a fetch leaves in the cache.
use go_casclib.Common.{
  ◌≡◌, refl, ap, ◌∙◌, sym, Bool, true, false, Option, none, some, List, [], ◌∷◌, Error, Result, ok,
  err,
}
use go_casclib.Binary.{Bytes}
use go_casclib.Compress.{Codecs}
use go_casclib.Index.Entry.{EKeyEntry}
use go_casclib.Archive.Writer.{Disk, read_span}
use go_casclib.Cdn.ArchiveSet.{ArchiveLocation}
use go_casclib.Encoding.Reader.{CKeyEntry, File, parse, find}
use go_casclib.Storage.Cache.{Files, cache_read, cache_read-cache_write}
use go_casclib.Storage.Lookup.{
  Storage, Client, ConfigKey, find_in_map, find_by_ekey, ekey_hex, location_in, fetch_flat,
  fetch_cached, fetch_located, fetch_by_ekey_via_archives, read_found, read_by_ekey,
}
use go_casclib.Storage.Loading.{
  detect, with_encoding, parse_encoding, encoding_at, encoding_of, load_encoding, with_root,
  parse_root, first_key, root_entry, root_of, load_root, then_root, load_all,
}

module _ {H : Type 0} where
  -- The part of a storage that a local read depends on.
  pub record SameLocal (s t : Storage H) : Type 0 where
    pub same_ekeys : t.ekeys ≡ s.ekeys
    pub same_files : t.data_files ≡ s.data_files
    pub same_keys : t.keys ≡ s.keys
    pub same_overcome : t.overcome_encrypted ≡ s.overcome_encrypted

  SameLocal-refl : (s : Storage H) → SameLocal s s
  SameLocal-refl s = record {
    same_ekeys = refl;
    same_files = refl;
    same_keys = refl;
    same_overcome = refl;
  }

  SameLocal-trans : {s t u : Storage H} → SameLocal s t → SameLocal t u → SameLocal s u
  SameLocal-trans a b = record {
    same_ekeys = b.same_ekeys ∙ a.same_ekeys;
    same_files = b.same_files ∙ a.same_files;
    same_keys = b.same_keys ∙ a.same_keys;
    same_overcome = b.same_overcome ∙ a.same_overcome;
  }

  module _ (c : Codecs) (fails : Bool) where
    fetch_flat-SameLocal :
        (s : Storage H) (hex : Bytes) (r : Result Bytes)
        → SameLocal s (fetch_flat c fails s hex r).0
    fetch_flat-SameLocal s hex (err e) = SameLocal-refl s
    fetch_flat-SameLocal s hex (ok body) = record {
      same_ekeys = refl;
      same_files = refl;
      same_keys = refl;
      same_overcome = refl;
    }

    fetch_cached-SameLocal :
        (s : Storage H) (client : Client) (hex : Bytes) (r : Result Bytes)
        → SameLocal s (fetch_cached c fails s client hex r).0
    fetch_cached-SameLocal s client hex (ok cached) = SameLocal-refl s
    fetch_cached-SameLocal s client hex (err e) = fetch_flat-SameLocal s hex (client.fetch hex)

    fetch_located-SameLocal :
        (s : Storage H) (client : Client) (e : Bytes) (loc : Option ArchiveLocation)
        → SameLocal s (fetch_located c fails s client e loc).0
    fetch_located-SameLocal s client e (some loc) = SameLocal-refl s
    fetch_located-SameLocal s client e none =
        fetch_cached-SameLocal s client (ekey_hex e) (cache_read s.cache (ekey_hex e))

    fetch-SameLocal :
        (s : Storage H) (e : Bytes) (client : Option Client)
        → SameLocal s (fetch_by_ekey_via_archives c fails s e client).0
    fetch-SameLocal s e none = SameLocal-refl s
    fetch-SameLocal s e (some client) =
        fetch_located-SameLocal s client e (location_in s.cdn_archives e)

    read_found-SameLocal :
        (s : Storage H) (e : Bytes) (entry : Option EKeyEntry) (files : Option Disk)
        → SameLocal s (read_found c fails s e entry files).0
    read_found-SameLocal s e (some entry) (some disk) = SameLocal-refl s
    read_found-SameLocal s e (some entry) none = fetch-SameLocal s e s.cdn
    read_found-SameLocal s e none files = fetch-SameLocal s e s.cdn

    read_by_ekey-SameLocal : (s : Storage H) (e : Bytes) → SameLocal s (read_by_ekey c fails s e).0
    unfolding read_by_ekey
    read_by_ekey-SameLocal s e = read_found-SameLocal s e (find_by_ekey s e) s.data_files

    -- The entry that is found is read from the data files.
    pub read_by_ekey-found :
        (s : Storage H) (e : Bytes) (entry : EKeyEntry) (disk : Disk)
        → find_by_ekey s e ≡ some entry
        → s.data_files ≡ some disk
        → (read_by_ekey c fails s e).1 ≡ read_span c s.keys s.overcome_encrypted disk entry
    unfolding read_by_ekey
    read_by_ekey-found s e entry disk found there = rw (found, there)

    with_encoding-SameLocal :
        (probes : List (Bytes → Result H)) (s : Storage H) (r : Result File)
        → SameLocal s (with_encoding c probes fails s r).0
    with_encoding-SameLocal probes s (err e) = SameLocal-refl s
    with_encoding-SameLocal probes s (ok enc) = record {
      same_ekeys = refl;
      same_files = refl;
      same_keys = refl;
      same_overcome = refl;
    }

    module _ (probes : List (Bytes → Result H)) where
      parse_encoding-SameLocal :
          (s : Storage H) (read : Storage H × Result Bytes)
          → SameLocal s read.0
          → SameLocal s (parse_encoding c probes fails read).0
      parse_encoding-SameLocal s (t, err e) same = same
      parse_encoding-SameLocal s (t, ok bs) same =
          SameLocal-trans same (with_encoding-SameLocal probes t (parse bs))

      encoding_at-SameLocal :
          (b : Bool) (s : Storage H) (k : ConfigKey)
          → SameLocal s (encoding_at c probes fails b s k).0
      encoding_at-SameLocal false s k = SameLocal-refl s
      encoding_at-SameLocal true s k =
          parse_encoding-SameLocal s (read_by_ekey c fails s k.ekey)
            (read_by_ekey-SameLocal s k.ekey)

      encoding_of-SameLocal :
          (s : Storage H) (key : Option ConfigKey)
          → SameLocal s (encoding_of c probes fails s key).0
      encoding_of-SameLocal s none = SameLocal-refl s
      encoding_of-SameLocal s (some k) = encoding_at-SameLocal k.has_ekey s k

      with_root-SameLocal :
          (s : Storage H) (r : Result H) → SameLocal s (with_root c probes fails s r).0
      with_root-SameLocal s (err e) = SameLocal-refl s
      with_root-SameLocal s (ok h) = record {
        same_ekeys = refl;
        same_files = refl;
        same_keys = refl;
        same_overcome = refl;
      }

      parse_root-SameLocal :
          (s : Storage H) (read : Storage H × Result Bytes)
          → SameLocal s read.0
          → SameLocal s (parse_root c probes fails read).0
      parse_root-SameLocal s (t, err e) same = same
      parse_root-SameLocal s (t, ok bs) same =
          SameLocal-trans same (with_root-SameLocal t (detect probes bs))

      first_key-SameLocal :
          (s : Storage H) (ks : List Bytes) → SameLocal s (first_key c probes fails s ks).0
      first_key-SameLocal s [] = SameLocal-refl s
      first_key-SameLocal s (k ∷ ks) =
          parse_root-SameLocal s (read_by_ekey c fails s k) (read_by_ekey-SameLocal s k)

      root_entry-SameLocal :
          (s : Storage H) (e : Option CKeyEntry) → SameLocal s (root_entry c probes fails s e).0
      root_entry-SameLocal s none = SameLocal-refl s
      root_entry-SameLocal s (some e) = first_key-SameLocal s e.ekeys

      root_of-SameLocal :
          (s : Storage H) (key : Option ConfigKey) (enc : Option File)
          → SameLocal s (root_of c probes fails s key enc).0
      root_of-SameLocal s (some k) (some enc) = root_entry-SameLocal s (find enc k.ckey)
      root_of-SameLocal s (some k) none = SameLocal-refl s
      root_of-SameLocal s none enc = SameLocal-refl s

      then_root-SameLocal :
          (s : Storage H) (loaded : Storage H × Result (Unit {0}))
          → SameLocal s loaded.0
          → SameLocal s (then_root c probes fails loaded).0
      unfolding load_root
      then_root-SameLocal s (t, err e) same = same
      then_root-SameLocal s (t, ok u) same =
          SameLocal-trans same (root_of-SameLocal t t.root_ckey t.encoding)

      load_all-SameLocal : (s : Storage H) → SameLocal s (load_all c probes fails s).0
      unfolding load_all load_encoding
      load_all-SameLocal s =
          then_root-SameLocal s (load_encoding c probes fails s)
            (encoding_of-SameLocal s s.encoding_ckey)

      -- `LoadAll`, whether it succeeds or fails at any step, leaves every local read as it was: a
      -- key that is found in the indices, with data files there, gives the same result behind it.
      pub read_by_ekey-load_all :
          (s : Storage H) (e : Bytes) (entry : EKeyEntry) (disk : Disk)
          → find_by_ekey s e ≡ some entry
          → s.data_files ≡ some disk
          → (read_by_ekey c fails (load_all c probes fails s).0 e).1 ≡ (read_by_ekey c fails s e).1
      unfolding find_by_ekey
      read_by_ekey-load_all s e entry disk found there =
          let t = (load_all c probes fails s).0 in
          let same = load_all-SameLocal s in
          let found_later : find_by_ekey t e ≡ some entry =
            ap (λ m. find_in_map m e) same.same_ekeys ∙ found in
          read_by_ekey-found t e entry disk found_later (same.same_files ∙ there)
          ∙ rw (same.same_keys, same.same_overcome)
              (sym (read_by_ekey-found s e entry disk found there))

  -- A blob that was fetched as a whole is read from the cache from then on: a key that neither the
  -- indices nor the set of CDN archives have, and whose blob the cache does not have, is fetched from
  -- a client that has it and the write to the cache works; a second read, whatever client and
  -- whatever outcome of cache writes it meets, has the result of the first.
  pub read_by_ekey-cached :
      (c : Codecs) (s : Storage H) (e : Bytes) (client other : Client) (files : Files)
      (body : Bytes) (missing : Error) (fails : Bool)
      → find_by_ekey s e ≡ none
      → s.cdn ≡ some client
      → location_in s.cdn_archives e ≡ none
      → s.cache ≡ some files
      → cache_read s.cache (ekey_hex e) ≡ err missing
      → client.fetch (ekey_hex e) ≡ ok body
      → (read_by_ekey c fails (record (read_by_ekey c false s e).0 { cdn = some other }) e).1
        ≡ (read_by_ekey c false s e).1
  unfolding read_by_ekey find_by_ekey
  read_by_ekey-cached c s e client other files body missing fails absent online unlocated cached
        unread fetched =
      let first : read_by_ekey c false s e ≡ fetch_flat c false s (ekey_hex e) (ok body) =
        rw (absent, online, unlocated, unread, fetched) in
      let again = cache_read-cache_write files (ekey_hex e) body in
      rw first (rw (absent, unlocated, cached, again))
