-- ===== src/Cdn/ArchiveSet.antt =====
-- internal/cdn/archive_set.go: the map from keys to places in archives, merged from their indices.
use go_casclib.Common.{
  ℕ, ◌+◌, ◌/◌, ◌%◌, ◌≡◌, ◌∙◌, ltb, if◌then◌else◌, inl, inr, Option, none, some, Option-cases, List,
  [], ◌∷◌, take, lookup, or_else, put_absent, or_else-put_absent,
}
use go_casclib.Binary.{Bytes, bytes_eq, bytes_eq_iff}
use go_casclib.Cdn.ArchiveIndex.{ArchiveIndexEntry, ArchiveIndex}

-- `hex.EncodeToString`
abbrev pub hex_digit : ℕ → ℕ
hex_digit d = if ltb d 10 then d + b'0' else d + 87

abbrev pub hex_string : Bytes → Bytes
hex_string [] = []
hex_string (x ∷ bs) = hex_digit (x / 16) ∷ hex_digit (x % 16) ∷ hex_string bs

pub record ArchiveLocation : Type 0 where
  pub archive_hash_hex : Bytes
  pub offset : ℕ
  pub encoded_size : ℕ

-- The keys are the first nine bytes of an EKey.
pub record ArchiveSet : Type 0 where
  pub by_ekey : List (Bytes × ArchiveLocation)

abbrev pub new_archive_set : ArchiveSet
new_archive_set = record { by_ekey = [] }

abbrev pub archive_key : Bytes → Bytes
archive_key ekey = take 9 ekey

abbrev pub location_of : Bytes → ArchiveIndexEntry → ArchiveLocation
location_of archive_hash e = record {
  archive_hash_hex = hex_string archive_hash;
  offset = e.offset;
  encoded_size = e.encoded_size;
}

pub add_entries :
    Bytes → List ArchiveIndexEntry → List (Bytes × ArchiveLocation) → List (Bytes × ArchiveLocation)
add_entries archive_hash [] m = m
add_entries archive_hash (e ∷ es) m = add_entries archive_hash es (
    put_absent (lookup bytes_eq (archive_key e.ekey) m) (archive_key e.ekey)
      (location_of archive_hash e) m)

unfoldable pub add_index : Bytes → ArchiveIndex → ArchiveSet → ArchiveSet
unfolding add_entries
add_index archive_hash idx s = record { by_ekey = add_entries archive_hash idx.entries s.by_ekey }

unfoldable pub lookup_location : ArchiveSet → Bytes → Option ArchiveLocation
lookup_location s ekey = lookup bytes_eq (archive_key ekey) s.by_ekey

-- The place that the first entry with the key has.
abbrev pub first_place : Bytes → List ArchiveIndexEntry → Bytes → Option ArchiveLocation
first_place archive_hash [] k = none
first_place archive_hash (e ∷ es) k =
    if bytes_eq (archive_key e.ekey) k
    then some (location_of archive_hash e)
    else first_place archive_hash es k

add_entries-lookup :
    (archive_hash k : Bytes) (es : List ArchiveIndexEntry) (m : List (Bytes × ArchiveLocation))
    → lookup bytes_eq k (add_entries archive_hash es m)
      ≡ or_else (lookup bytes_eq k m) (first_place archive_hash es k)
unfolding add_entries
add_entries-lookup archive_hash k [] m = elim (Option-cases (lookup bytes_eq k m)) [
  | inl absent ↦ rw absent
  | inr (loc, present) ↦ rw present
]
add_entries-lookup archive_hash k (e ∷ es) m =
    add_entries-lookup archive_hash k es _
    ∙ or_else-put_absent bytes_eq (λ a b. (bytes_eq_iff a b).0) (archive_key e.ekey) k
        (location_of archive_hash e) m (first_place archive_hash es k)

-- After an index is added, a key has the place it had in the set, or else the place of the first
-- entry of the index that has the same nine bytes, or else none.
pub lookup_location-add_index :
    (archive_hash ekey : Bytes) (idx : ArchiveIndex) (s : ArchiveSet)
    → lookup_location (add_index archive_hash idx s) ekey
      ≡ or_else (lookup_location s ekey) (first_place archive_hash idx.entries (archive_key ekey))
unfolding lookup_location add_index
lookup_location-add_index archive_hash ekey idx s =
    add_entries-lookup archive_hash (archive_key ekey) idx.entries s.by_ekey
