-- ===== src/Storage/Cache.antt =====
-- internal/storage/cache.go: the directory with the blobs that were fetched, a map from the paths
-- below it, as lists of their components, to contents.
use go_casclib.Common.{
  ◌≡◌, ltb, if◌then◌else◌, Bool, true, false, Option, none, some, List, [], ◌∷◌, Result, ok, err,
  foreign, length, take, drop, lookup, ◌&&◌, refl,
}
use go_casclib.Binary.{Bytes, bytes_eq, bytes_eq_iff}

abbrev pub Files : Type 0
Files = List (List Bytes × Bytes)

abbrev pub path_eq : List Bytes → List Bytes → Bool
path_eq [] [] = true
path_eq (x ∷ xs) (y ∷ ys) = bytes_eq x y && path_eq xs ys
path_eq _ _ = false

-- `cachePath` below its root
abbrev pub cache_path : Bytes → List Bytes
cache_path hex_key =
    if ltb (length hex_key) 4
    then hex_key ∷ []
    else take 2 hex_key ∷ take 2 (drop 2 hex_key) ∷ hex_key ∷ []

abbrev pub found_file : Option Bytes → Result Bytes
found_file none = err foreign
found_file (some blob) = ok blob

-- `cacheRead`; there is no directory where `CacheDir` is empty.
unfoldable pub cache_read : Option Files → Bytes → Result Bytes
cache_read none hex_key = err foreign
cache_read (some files) hex_key = found_file (lookup path_eq (cache_path hex_key) files)

-- `cacheWrite`: the blob is moved into place as a whole, or a call of the system fails before that.
unfoldable pub cache_write : Bool → Option Files → Bytes → Bytes → Option Files × Result (Unit {0})
cache_write fails none hex_key blob = (none, ok tt)
cache_write true (some files) hex_key blob = (some files, err foreign)
cache_write false (some files) hex_key blob = (some ((cache_path hex_key, blob) ∷ files), ok tt)

pub path_eq_refl : (p : List Bytes) → path_eq p p ≡ true
path_eq_refl [] = refl
path_eq_refl (x ∷ xs) = let same = (bytes_eq_iff x x).1 refl in rw (same, path_eq_refl xs)

pub cache_read-cache_write :
    (files : Files) (hex_key blob : Bytes)
    → cache_read (cache_write false (some files) hex_key blob).0 hex_key ≡ ok blob
unfolding cache_read cache_write
cache_read-cache_write files hex_key blob = rw (path_eq_refl (cache_path hex_key))
