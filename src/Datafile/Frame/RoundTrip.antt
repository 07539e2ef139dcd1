-- ===== src/Datafile/Frame/RoundTrip.antt =====
-- A frame that `encodeFrame` wrote decodes to the chunk.
use go_casclib.Common.{
  suc, ℕ, ◌≤◌, ◌<◌, ◌≡◌, arith, ◌∷◌, length, ok, none, leb, Bool-cases, inl, inr, >>=-eq-ok, ◌==◌,
  ◌⊎◌, ◌∙◌,
}
use go_casclib.Binary.{Bytes, bytes_eq_iff}
use go_casclib.Compress.{Codecs, IsCodecs, lzma_registered}
use go_casclib.Datafile.Header.{Frame, no_hash}
use go_casclib.Datafile.Frame.{FrameDecoder, decode, decompress_z, pad_to, decode_step}
use go_casclib.Datafile.Encoder.{encode_frame}

-- A frame is the raw chunk, or its zlib form where that is shorter.
pub encode_frame_cases :
    (c : Codecs) (mode : ℕ) (chunk body : Bytes)
    → encode_frame c mode chunk ≡ ok body
    → (body ≡ b'N' ∷ chunk)
      ⊎ ((z : Bytes) × (c.deflate chunk ≡ ok z) × (body ≡ b'Z' ∷ z) × (length z < length chunk))
unfolding encode_frame
encode_frame_cases c mode chunk body h = elim (Bool-cases (mode == b'N')) [
  | inl raw ↦ inl (ground arith)
  | inr other ↦ elim (Bool-cases (mode == b'Z')) [
    | inl zlib ↦
        let (z, e, b) = >>=-eq-ok (c.deflate chunk) _ (rw (other, zlib) at h) in
        elim (Bool-cases (leb (length chunk) (length z))) [
          | inl long ↦ inl (ground arith)
          | inr short ↦ inr (z, e, ground arith, ground arith)
        ]
    | inr bad ↦ absurd (ground arith)
  ]
]

module _ (c : Codecs) (laws : IsCodecs c) (no_lzma : c.lzma_decoder ≡ none) where
  decompress_z-deflate :
      (chunk z : Bytes) (n : ℕ) → c.deflate chunk ≡ ok z → decompress_z c z n ≡ ok chunk
  unfolding decompress_z lzma_registered
  decompress_z-deflate chunk z n h =
      let (t, e) = laws.zlib_magic chunk z h in ground (arith, laws.read-deflate chunk z h)

  pad_to_same : (bs : Bytes) (n : ℕ) → n ≤ length bs → pad_to n bs ≡ bs
  unfolding pad_to
  pad_to_same bs n h = ground arith

  -- The hash of a frame is right or absent: the check of it passes.
  pub decode-hash :
      (d : FrameDecoder) (fr : Frame) (body : Bytes)
      → (fr.frame_hash ≡ c.md5 body) ⊎ (fr.frame_hash ≡ no_hash)
      → decode c d fr body ≡ decode_step 5 c d fr body
  unfolding decode
  decode-hash d fr body g =
      ground (arith, bytes_eq_iff (c.md5 body) fr.frame_hash, bytes_eq_iff fr.frame_hash no_hash)

  -- At any depth that is left.
  pub decode_step-encode_frame :
      (left : ℕ) (d : FrameDecoder) (fr : Frame) (mode : ℕ) (chunk body : Bytes)
      → encode_frame c mode chunk ≡ ok body
      → fr.content_size ≤ length chunk
      → decode_step (suc left) c d fr body ≡ ok chunk
  unfolding decode_step
  decode_step-encode_frame left d fr mode chunk body h k =
      elim (encode_frame_cases c mode chunk body h) [
        | inl e ↦ rw e
        | inr (z, deflated, e, _) ↦ rw (
          e,
          decompress_z-deflate chunk z fr.content_size deflated,
          pad_to_same chunk fr.content_size k,
        )
      ]

  -- The payload of a frame that `encodeFrame` wrote is the chunk, where the frame's content size
  -- does not pass the chunk's length and its hash is right or absent, the codecs are as documented
  -- and no LZMA decoder is registered.
  pub decode-encode_frame :
      (d : FrameDecoder) (fr : Frame) (mode : ℕ) (chunk body : Bytes)
      → encode_frame c mode chunk ≡ ok body
      → fr.content_size ≤ length chunk
      → (fr.frame_hash ≡ c.md5 body) ⊎ (fr.frame_hash ≡ no_hash)
      → decode c d fr body ≡ ok chunk
  decode-encode_frame d fr mode chunk body h k g =
      decode-hash d fr body g ∙ decode_step-encode_frame 4 d fr mode chunk body h k
