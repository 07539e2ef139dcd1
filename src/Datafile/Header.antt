-- ===== src/Datafile/Header.antt =====
-- internal/datafile/blte.go: `Frame`, `Header` and `ParseHeader`.
pub mod Safety
use go_casclib.Common.{
  ℕ, zero, suc, ◌+◌, ◌*◌, ◌==◌, ◌&&◌, leb, if◌then◌else◌, List, [], ◌∷◌, Result, ok, guard, ◌>>=◌,
  ◌>>◌, bad_format, length, replicate,
}
use go_casclib.Binary.{Bytes, at, slice, le_uint32_at, be_uint24_at, be_uint32_at}

pub record Frame : Type 0 where
  pub index : ℕ
  pub encoded_size : ℕ
  pub content_size : ℕ
  -- `[16]byte`, all zero if absent
  pub frame_hash : Bytes

pub record Header : Type 0 where
  pub header_size : ℕ
  pub frame_count : ℕ
  pub frames : List Frame
  pub data_offset : ℕ

-- `casc.BLTESignature`, 'BLTE' in little endian
abbrev pub blte_signature : ℕ
blte_signature = 0x4554_4c42

abbrev pub no_hash : Bytes
no_hash = replicate 16 0

-- The body of the loop over the frame table.
abbrev pub parse_frame : Bytes → ℕ → Result Frame
parse_frame bs i = do
  let off = 12 + i * 24
  encoded_size ← be_uint32_at off bs
  content_size ← be_uint32_at (off + 4) bs
  hash ← slice (off + 8) 16 bs
  ok (record {
    index = i;
    encoded_size = encoded_size;
    content_size = content_size;
    frame_hash = hash;
  })

-- The frames from index `i` on; the first argument counts those that are left.
unfoldable pub parse_frames : ℕ → ℕ → Bytes → Result (List Frame)
parse_frames zero i bs = ok []
parse_frames (suc n) i bs = do f ← parse_frame bs i; fs ← parse_frames n (i + 1) bs; ok (f ∷ fs)

abbrev pub single_frame : Header
single_frame = record {
  header_size = 0;
  frame_count = 1;
  frames = record { index = 0; encoded_size = 0; content_size = 0; frame_hash = no_hash } ∷ [];
  data_offset = 8;
}

-- The part of `ParseHeader` behind the test of `headerSize` for 0.
unfoldable pub parse_table : Bytes → ℕ → Result Header
parse_table bs header_size = do
  guard (leb 12 header_size && leb header_size (length bs)) bad_format
  flags ← at bs 8
  guard (flags == 0x0f) bad_format
  frame_count ← be_uint24_at 9 bs
  guard (leb (12 + frame_count * 24) header_size) bad_format
  frames ← parse_frames frame_count 0 bs
  ok (record {
    header_size = header_size;
    frame_count = frame_count;
    frames = frames;
    data_offset = header_size;
  })

unfoldable pub parse_header : Bytes → Result Header
unfolding parse_table parse_frames
parse_header bs = do
  guard (leb 8 (length bs)) bad_format
  signature ← le_uint32_at 0 bs
  guard (signature == blte_signature) bad_format
  header_size ← be_uint32_at 4 bs
  if header_size == 0 then ok single_frame else parse_table bs header_size
