-- ===== src/Index/Entry.antt =====
-- One entry of an index file: `EKeyEntry`, `decodeEntry`, `readBE` (index.go), `writeEntryV1` and
-- `writeBE` (writer.go).
pub mod RoundTrip
use go_casclib.Common.{
  ℕ, zero, suc, ◌+◌, ◌*◌, ◌/◌, ◌%◌, ◌^◌, [], ◌∷◌, ◌++◌, Result, ok, ◌>>=◌, take, bit_or,
}
use go_casclib.Binary.{Bytes, front, slice, padded}

pub record EKeyEntry : Type 0 where
  -- `casc.EKey`, sixteen bytes
  pub ekey : Bytes
  pub archive_index : ℕ
  pub archive_offs : ℕ
  pub encoded_size : ℕ

-- The four lengths of an entry's fields; `file_offset_bits` splits the storage offset.
pub record EntryFields : Type 0 where
  pub ekey_length : ℕ
  pub storage_offset_length : ℕ
  pub encoded_size_length : ℕ
  pub file_offset_bits : ℕ

abbrev pub entry_length : EntryFields → ℕ
entry_length f = f.ekey_length + f.storage_offset_length + f.encoded_size_length

-- `v = (v << 8) | uint64(x)` for each byte.
pub read_be_from : ℕ → Bytes → ℕ
read_be_from v [] = v
read_be_from v (x ∷ b) = read_be_from (v * 256 % 2 ^ 64 + x) b

unfoldable pub read_be : Bytes → ℕ
unfolding read_be_from
read_be b = read_be_from 0 b

-- `storeOff & mask` with a mask of the low bits is a remainder.
unfoldable pub decode_entry : Bytes → EntryFields → Result EKeyEntry
decode_entry b f = do
  key ← front f.ekey_length b
  storage ← slice f.ekey_length f.storage_offset_length b
  size ← slice (f.ekey_length + f.storage_offset_length) f.encoded_size_length b
  ok (record {
    ekey = padded 16 key;
    archive_index = read_be storage / 2 ^ f.file_offset_bits % 2 ^ 32;
    archive_offs = read_be storage % 2 ^ f.file_offset_bits % 2 ^ 32;
    encoded_size = read_be size % 2 ^ 32;
  })

-- The bytes that `writeBE` leaves in a slice of the given length.
unfoldable pub write_be : ℕ → ℕ → Bytes
write_be zero v = []
write_be (suc n) v = write_be n (v / 256) ++ (v % 256 ∷ [])

-- The entry is written with a key of `EKeyLen` bytes or more.
unfoldable pub write_entry_v1 : EKeyEntry → EntryFields → Bytes
unfolding write_be
write_entry_v1 e f =
    let storage = bit_or (e.archive_index * 2 ^ f.file_offset_bits % 2 ^ 64) e.archive_offs in
    take f.ekey_length e.ekey
    ++ (write_be f.storage_offset_length storage ++ write_be f.encoded_size_length e.encoded_size)
