-- ===== src/Root/Wow/Writer.antt =====
-- internal/root/wow/writer.go: `Encode`, which writes one group in the format of version 2.
pub mod Entries
pub mod Sorted
pub mod Group
pub mod RoundTrip
use go_casclib.Common.{
  ℕ, zero, suc, ◌+◌, ◌-◌, ◌*◌, ◌/◌, ◌%◌, ◌^◌, ◌==◌, leb, ltb, if◌then◌else◌, Bool, true, false, not,
  ◌||◌, List, [], ◌∷◌, ◌++◌, Result, ok, err, guard, ◌>>=◌, ◌>>◌, invalid_parameter, panic, length,
  insertion_sort,
}
use go_casclib.Binary.{Bytes, put_le_uint32, put_le_uint64}
use go_casclib.Bits.{add32, sub32}
use go_casclib.Root.Wow.{wow_magic, no_name_hash}

pub record WriteEntry : Type 0 where
  pub file_data_id : ℕ
  -- `casc.CKey`, sixteen bytes
  pub ckey : Bytes
  pub file_name_hash : ℕ

pub record WriteOptions : Type 0 where
  pub locale_flags : ℕ
  pub content_flags : ℕ

abbrev pub id_before : WriteEntry → WriteEntry → Bool
id_before x e = ltb x.file_data_id e.file_data_id

-- The order of equal FDIDs does not matter: they are an error.
unfoldable pub sort_by_id : List WriteEntry → List WriteEntry
sort_by_id = insertion_sort id_before

-- Two neighbours with the same FDID
unfoldable pub has_duplicate : List WriteEntry → Bool
has_duplicate [] = false
has_duplicate (x ∷ []) = false
has_duplicate (x ∷ y ∷ ys) = y.file_data_id == x.file_data_id || has_duplicate (y ∷ ys)

unfoldable pub has_hash : List WriteEntry → Bool
has_hash [] = false
has_hash (e ∷ es) = not (e.file_name_hash == 0) || has_hash es

-- `contentFlags |= cflagNoNameHash` and `contentFlags &^= cflagNoNameHash`, on the bit 28
abbrev pub written_content : Bool → ℕ → ℕ
written_content true content = if no_name_hash content then content - 2 ^ 28 else content
written_content false content = if no_name_hash content then content else content + 2 ^ 28

abbrev pub written_locale : ℕ → ℕ
written_locale locale = if locale == 0 then 0xFFFFFFFF else locale

-- The argument is `prevPost`, the FDID behind the last one.
abbrev pub delta_bytes : ℕ → List WriteEntry → Bytes
delta_bytes prev [] = []
delta_bytes prev (e ∷ es) =
    put_le_uint32 (sub32 e.file_data_id prev) ++ delta_bytes (add32 e.file_data_id 1) es

abbrev pub ckey_bytes : List WriteEntry → Bytes
ckey_bytes [] = []
ckey_bytes (e ∷ es) = e.ckey ++ ckey_bytes es

abbrev pub hash_bytes : List WriteEntry → Bytes
hash_bytes [] = []
hash_bytes (e ∷ es) = put_le_uint64 e.file_name_hash ++ hash_bytes es

-- The header of the file and that of the group
abbrev pub head_bytes : ℕ → Bool → ℕ → ℕ → Bytes
head_bytes total hashed content locale =
    put_le_uint32 wow_magic
    ++ (put_le_uint32 total
        ++ (put_le_uint32 (if hashed then total else 0)
            ++ (put_le_uint32 total ++ (put_le_uint32 content ++ put_le_uint32 locale))))

abbrev pub group_bytes : Bool → List WriteEntry → Bytes
group_bytes hashed es =
    delta_bytes 0 es ++ (ckey_bytes es ++ (if hashed then hash_bytes es else []))

-- `totalFiles` is a `uint32`: for 2 ^ 32 entries and more the output is made too short for them,
-- and a loop runs over its end.
unfoldable pub encode : List WriteEntry → WriteOptions → Result Bytes
unfolding sort_by_id has_duplicate has_hash
encode entries opts = do
  guard (leb 1 (length entries)) invalid_parameter
  let es = sort_by_id entries
  guard (not (has_duplicate es)) invalid_parameter
  let hashed = has_hash es
  guard (ltb (length es) (2 ^ 32)) panic
  ok (
      head_bytes (length es) hashed (written_content hashed opts.content_flags)
        (written_locale opts.locale_flags)
      ++ group_bytes hashed es)
