-- ===== src/Root/Install/Writer.antt =====
-- internal/root/install/writer.go: `Encode`.
pub mod Parts
pub mod Entries
pub mod RoundTrip
use go_casclib.Common.{
  ℕ, ◌+◌, ◌/◌, ◌%◌, ◌^◌, ◌==◌, leb, if◌then◌else◌, List, [], ◌∷◌, ◌++◌, Result, ok, guard, ◌>>=◌,
  ◌>>◌, invalid_parameter, length, take,
}
use go_casclib.Binary.{Bytes, byte, padded, put_le_uint16, put_be_uint16, put_be_uint32}
use go_casclib.Root.Install.{Tag, magic_install}

pub record Entry : Type 0 where
  pub name : Bytes
  -- `casc.CKey`, sixteen bytes
  pub ckey : Bytes
  pub content_size : ℕ

abbrev pub effective_hash_size : ℕ → ℕ
effective_hash_size hash_size = if hash_size == 0 then 16 else hash_size

-- A bitmap is cut or filled with zeros to its length.
abbrev pub tag_record : ℕ → Tag → Bytes
tag_record bitmap_len t = t.name ++ (0 ∷ (put_be_uint16 t.tag_type ++ padded bitmap_len t.bitmap))

abbrev pub tag_bytes : ℕ → List Tag → Bytes
tag_bytes bitmap_len [] = []
tag_bytes bitmap_len (t ∷ ts) = tag_record bitmap_len t ++ tag_bytes bitmap_len ts

abbrev pub entry_record : ℕ → Entry → Bytes
entry_record hash_size e = e.name ++ (0 ∷ (take hash_size e.ckey ++ put_be_uint32 e.content_size))

abbrev pub entry_bytes : ℕ → List Entry → Bytes
entry_bytes hash_size [] = []
entry_bytes hash_size (e ∷ es) = entry_record hash_size e ++ entry_bytes hash_size es

abbrev pub header_bytes : ℕ → ℕ → ℕ → Bytes
header_bytes hash_size tag_count entry_count =
    put_le_uint16 magic_install
    ++ (1 ∷ hash_size ∷ (put_be_uint16 tag_count ++ put_be_uint32 entry_count))

-- The last argument is `opts.HashSize`.
unfoldable pub encode : List Entry → List Tag → ℕ → Result Bytes
encode entries tags hash_size = do
  let size = effective_hash_size hash_size
  guard (leb size 16) invalid_parameter
  ok (
      header_bytes size (length tags) (length entries)
      ++ (tag_bytes ((length entries + 7) / 8) tags ++ entry_bytes size entries))
