-- ===== src/Datafile/Frame.antt =====
-- internal/datafile/blte.go: `FrameDecoder`, one frame's payload.
pub mod RoundTrip
pub mod Safety
use go_casclib.Common.{
  ℕ, zero, suc, ◌-◌, ◌==◌, ◌&&◌, leb, ltb, not, if◌then◌else◌, Bool, true, false, Option, none,
  some, [], ◌∷◌, ◌++◌, Error, Result, ok, err, ◌>>=◌, bad_format, file_corrupt, not_supported,
  encrypted, length, replicate, get_or,
}
use go_casclib.Binary.{Bytes, bytes_eq}
use go_casclib.Compress.{Codecs, inflate, unbzip2, unlzma, lzma_registered, looks_like_lzma}
use go_casclib.Datafile.Header.{Frame, no_hash}

pub record FrameDecoder : Type 0 where
  pub decrypt : Option (Bytes → ℕ → Result Bytes)
  pub verify_hashes : Bool
  pub overcome_encrypted : Bool

pub decompress_z : Codecs → Bytes → ℕ → Result Bytes
decompress_z c body expected =
    if leb 2 (length body) && get_or body 0 0 == 0x42 && get_or body 1 0 == 0x5a
    then unbzip2 c body expected
    else if lzma_registered c && looks_like_lzma body
    then unlzma c body expected
    else inflate c body expected

abbrev pub zero_frame : Frame → Bytes
zero_frame fr = replicate fr.content_size 0

-- `errors.Is(err, casc.ErrEncrypted)`
abbrev pub is_encrypted : Error → Bool
is_encrypted encrypted = true
is_encrypted _ = false

-- The padding behind a short result.
pub pad_to : ℕ → Bytes → Bytes
pad_to expected out =
    if ltb 0 expected && ltb (length out) expected
    then out ++ replicate (expected - length out) 0
    else out

-- `case 'E'`, on the result of the callback; `again` decodes what was decrypted.
pub after_decrypt : Bool → Frame → Result Bytes → (Bytes → Result Bytes) → Result Bytes
after_decrypt overcome fr (ok plain) again = again plain
after_decrypt overcome fr (err e) again =
    if overcome && is_encrypted e then ok (zero_frame fr) else err e

pub decrypt_step :
    Bool → Option (Bytes → ℕ → Result Bytes) → Frame → Bytes → (Bytes → Result Bytes) → Result Bytes
unfolding after_decrypt
decrypt_step overcome none fr body again = if overcome then ok (zero_frame fr) else err encrypted
decrypt_step overcome (some decrypt) fr body again =
    after_decrypt overcome fr (decrypt body fr.index) again

-- The switch on the mode byte.
unfoldable pub decode_mode :
    Codecs → FrameDecoder → Frame → ℕ → Bytes → (Bytes → Result Bytes) → Result Bytes
unfolding decrypt_step pad_to
decode_mode c d fr mode body again =
    if mode == b'N'
    then ok body
    else if mode == b'Z'
    then (do out ← decompress_z c body fr.content_size; ok (pad_to fr.content_size out))
    else if mode == b'E'
    then decrypt_step d.overcome_encrypted d.decrypt fr body again
    else err not_supported

-- `decodeStep`. The number counts the depths 0 to 4 that are left, so that zero is `depth > 4`.
unfoldable pub decode_step : ℕ → Codecs → FrameDecoder → Frame → Bytes → Result Bytes
unfolding decode_mode
decode_step zero c d fr bs = err file_corrupt
decode_step (suc left) c d fr [] = err bad_format
decode_step (suc left) c d fr (mode ∷ body) = decode_mode c d fr mode body (decode_step left c d fr)

unfoldable pub decode : Codecs → FrameDecoder → Frame → Bytes → Result Bytes
unfolding decode_step
decode c d fr bs =
    if d.verify_hashes
      && not (bytes_eq fr.frame_hash no_hash)
      && not (bytes_eq (c.md5 bs) fr.frame_hash)
    then err file_corrupt
    else decode_step 5 c d fr bs
