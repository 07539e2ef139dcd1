-- ===== src/Index/Header.antt =====
-- internal/index/index.go: the headers of the two versions, and the guarded blocks.
pub mod Safety
pub mod Blocks
pub mod Lengths
use go_casclib.Common.{
  ℕ, zero, suc, ◌+◌, ◌*◌, ◌/◌, ◌==◌, ◌&&◌, not, leb, [], ◌∷◌, ◌++◌, Result, ok, err, guard, ◌>>=◌,
  ◌>>◌, bad_format, file_corrupt, not_supported, length, bit_or, if◌then◌else◌,
}
use go_casclib.Binary.{Bytes, at, front, slice, le_uint16_at, le_uint32_at, le_uint64_at}
use go_casclib.Bits.{u32}
use go_casclib.Hashes.{hash_little, hash_little2}
use go_casclib.Index.Entry.{EntryFields, entry_length}

pub record Header : Type 0 where
  pub index_version : ℕ
  pub bucket_index : ℕ
  pub fields : EntryFields
  pub segment_size : ℕ
  pub header_length : ℕ
  pub header_padding : ℕ
  pub ekey_count : ℕ

-- The check of one key block of a V1 file, and the offset behind it.
unfoldable pub check_block : Bytes → ℕ → ℕ → ℕ → Result ℕ
check_block bs off size hash = do
  guard (leb (off + size) (length bs)) file_corrupt
  block ← slice off size bs
  guard (hash_little block 0 == hash) file_corrupt
  ok (off + size)

-- The header's own fields, up to its hash.
unfoldable pub capture_v1 : Bytes → Bytes → ℕ → Result Header
capture_v1 bs h bucket = do
  version ← le_uint16_at 0 h
  guard (version == 5) bad_format
  stored_bucket ← at h 2
  guard (stored_bucket == bucket) bad_format
  field8 ← le_uint64_at 8 h
  guard (not (field8 == 0)) bad_format
  segment_size ← le_uint64_at 16 h
  enc_size_len ← at h 24
  store_offs_len ← at h 25
  ekey_len ← at h 26
  file_offs_bits ← at h 27
  guard (enc_size_len == 4 && store_offs_len == 5 && ekey_len == 9) not_supported
  count1 ← le_uint32_at 28 h
  count2 ← le_uint32_at 32 h
  header_hash ← le_uint32_at 44 bs
  hashed ← front 44 bs
  guard (hash_little (hashed ++ (0 ∷ 0 ∷ 0 ∷ 0 ∷ [])) 0 == header_hash) bad_format
  ok (record {
    index_version = version;
    bucket_index = stored_bucket;
    fields = record {
      ekey_length = ekey_len;
      storage_offset_length = store_offs_len;
      encoded_size_length = enc_size_len;
      file_offset_bits = file_offs_bits;
    };
    segment_size = segment_size;
    header_length = 48;
    header_padding = 0;
    ekey_count = u32 (count1 + count2);
  })

unfoldable pub parse_header_v1 : Bytes → ℕ → Result Header
unfolding capture_v1 check_block
parse_header_v1 bs bucket = do
  guard (leb 48 (length bs)) bad_format
  h ← front 48 bs
  hdr ← capture_v1 bs h bucket
  count1 ← le_uint32_at 28 h
  count2 ← le_uint32_at 32 h
  hash1 ← le_uint32_at 36 bs
  hash2 ← le_uint32_at 40 bs
  off ← check_block bs 48 (count1 * entry_length hdr.fields) hash1
  end ← check_block bs off (count2 * entry_length hdr.fields) hash2
  ok hdr

unfoldable pub capture_guarded_block1 : Bytes → Result Bytes
capture_guarded_block1 bs = do
  guard (leb 8 (length bs)) file_corrupt
  size ← le_uint32_at 0 bs
  hash ← le_uint32_at 4 bs
  guard (leb (8 + size) (length bs)) file_corrupt
  block ← slice 8 size bs
  guard (hash_little block 0 == hash) file_corrupt
  ok block

unfoldable pub parse_header_v2 : Bytes → ℕ → Result Header
unfolding capture_guarded_block1
parse_header_v2 bs bucket = do
  h ← capture_guarded_block1 bs
  guard (leb 16 (length h)) bad_format
  version ← le_uint16_at 0 h
  stored_bucket ← at h 2
  extra ← at h 3
  guard (version == 7 && stored_bucket == bucket && extra == 0) bad_format
  enc_size_len ← at h 4
  store_offs_len ← at h 5
  ekey_len ← at h 6
  file_offs_bits ← at h 7
  guard (enc_size_len == 4 && store_offs_len == 5 && ekey_len == 9) bad_format
  segment_size ← le_uint64_at 8 h
  ok (record {
    index_version = version;
    bucket_index = stored_bucket;
    fields = record {
      ekey_length = ekey_len;
      storage_offset_length = store_offs_len;
      encoded_size_length = enc_size_len;
      file_offset_bits = file_offs_bits;
    };
    segment_size = segment_size;
    header_length = 24;
    header_padding = 8;
    ekey_count = 0;
  })

-- Method 1: `hashlittle2` over the entries, from entry `i` on; the pair is (hashHigh, hashLow).
pub hash_entries2 : ℕ → ℕ → ℕ → Bytes → ℕ × ℕ → Result (ℕ × ℕ)
hash_entries2 zero i len payload hash = ok hash
hash_entries2 (suc n) i len payload hash = do
  entry ← slice (i * len) len payload
  hash_entries2 n (i + 1) len payload (hash_little2 entry hash.0 hash.1)

-- Method 2: `hashlittle`, whose seed is the hash so far.
pub hash_entries : ℕ → ℕ → ℕ → Bytes → ℕ → Result ℕ
hash_entries zero i len payload hash = ok hash
hash_entries (suc n) i len payload hash = do
  entry ← slice (i * len) len payload
  hash_entries n (i + 1) len payload (hash_little entry hash)

unfoldable pub capture_guarded_block2 : Bytes → ℕ → Result Bytes
unfolding hash_entries2 hash_entries
capture_guarded_block2 bs len = do
  guard (leb 8 (length bs)) file_corrupt
  size ← le_uint32_at 0 bs
  hash ← le_uint32_at 4 bs
  guard (not (size == 0)) file_corrupt
  guard (leb (8 + size) (length bs)) file_corrupt
  payload ← slice 8 size bs
  high ← hash_entries2 (size / len) 0 len payload (0, 0)
  seeded ← hash_entries (size / len) 0 len payload 0
  if high.0 == hash then ok payload else if seeded == hash then ok payload else err file_corrupt

-- The payload is followed by one byte that the hash covers too.
unfoldable pub capture_guarded_block3 : Bytes → ℕ → Result Bytes
capture_guarded_block3 bs len = do
  guard (leb (4 + len + 1) (length bs)) file_corrupt
  hash ← le_uint32_at 0 bs
  guard (not (hash == 0)) file_corrupt
  hashed ← slice 4 (len + 1) bs
  guard (bit_or (hash_little hashed 0) 0x8000_0000 == hash) file_corrupt
  slice 4 len bs
