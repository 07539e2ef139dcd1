-- ===== src/Archive/Span.antt =====
-- internal/archive/archive.go: `DecodeSpan`, `DecodeSpanWithOptions`, `stripEncodedHeader`.
pub mod Safety
pub mod Strip
pub mod RoundTrip
pub mod Overflow
use go_casclib.Common.{
  ℕ, ◌+◌, ◌-◌, ◌%◌, ◌^◌, Bool, true, false, ◌==◌, leb, if◌then◌else◌, Option, List, [], ◌∷◌, ◌++◌,
  Result, ok, err, guard, ◌>>=◌, ◌>>◌, bad_format, file_corrupt, panic, length,
}
use go_casclib.Binary.{Bytes, at, back, slice, le_uint32_at}
use go_casclib.Compress.{Codecs}
use go_casclib.Datafile.Header.{Frame, Header, blte_signature, parse_header}
use go_casclib.Datafile.Frame.{FrameDecoder, decode}

abbrev pub encoded_header_size : ℕ
encoded_header_size = 30

unfoldable pub strip_encoded_header : Bytes → Result Bytes
strip_encoded_header span = do
  guard (leb 4 (length span)) bad_format
  first ← le_uint32_at 0 span
  if first == blte_signature then ok span else (do
    guard (leb (encoded_header_size + 4) (length span)) bad_format
    second ← le_uint32_at encoded_header_size span
    guard (second == blte_signature) bad_format
    back encoded_header_size span)

-- The loop over the frames, from `cursor` on.
unfoldable pub decode_frames : Codecs → FrameDecoder → List Frame → ℕ → Bytes → Result Bytes
decode_frames c d [] cursor body = ok []
decode_frames c d (fr ∷ frames) cursor body = do
  guard (leb (cursor + fr.encoded_size) (length body)) file_corrupt
  encoded ← slice cursor fr.encoded_size body
  decoded ← decode c d fr encoded
  rest ← decode_frames c d frames (cursor + fr.encoded_size) body
  ok (decoded ++ rest)

-- The sum is below 2 ^ 56, so that `int` does not wrap.
abbrev pub total_content_size : List Frame → ℕ
total_content_size [] = 0
total_content_size (fr ∷ frames) = fr.content_size + total_content_size frames

-- The runtime's `maxAlloc` for an address space of 48 bits: `make` panics above it.
abbrev pub max_alloc : ℕ
max_alloc = 2 ^ 48

-- The frames of a table. The capacity of the output is what the table declares.
abbrev pub decode_table : Codecs → FrameDecoder → Header → Bytes → Result Bytes
unfolding decode_frames
decode_table c d hdr body = do
  guard (leb (total_content_size hdr.frames) max_alloc) panic
  decode_frames c d hdr.frames hdr.data_offset body

-- The single frame of a header of size 0 takes the rest of the body.
decode_single : Codecs → FrameDecoder → Header → Bytes → Result Bytes
decode_single c d hdr body = do
  fr ← at hdr.frames 0
  rest ← back hdr.data_offset body
  decode c d (record fr { encoded_size = (length body - hdr.data_offset) % 2 ^ 32 }) rest

-- `DecodeSpanWithOptions`. `keys` is the registry's `DecryptFrame`, if there is a registry.
unfoldable pub decode_span :
    Codecs → Option (Bytes → ℕ → Result Bytes) → Bool → Bytes → Result Bytes
unfolding decode_single decode_table
decode_span c keys overcome span = do
  body ← strip_encoded_header span
  hdr ← parse_header body
  let d : FrameDecoder = record {
    decrypt = keys;
    verify_hashes = true;
    overcome_encrypted = overcome;
  }
  if hdr.header_size == 0 then decode_single c d hdr body else decode_table c d hdr body
