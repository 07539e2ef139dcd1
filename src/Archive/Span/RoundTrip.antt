-- ===== src/Archive/Span/RoundTrip.antt =====
-- `DecodeSpan` gives back the content that `Encode` was given.
use go_casclib.Common.{
  ◌%◌, ℕ, ◌+◌, ◌-◌, ◌*◌, ◌^◌, ◌≤◌, ◌<◌, ◌≡◌, refl, ap, ◌∙◌, arith, Bool, true, false, ◌==◌, List,
  [], ◌∷◌, ◌++◌, none, Option, Result, ok, length, length-append, append_assoc, All, inl, inr,
  le→leb,
}
use go_casclib.Binary.{Bytes, slice-append}
use go_casclib.Compress.{Codecs, IsCodecs}
use go_casclib.Datafile.Header.{Frame, no_hash, parse_header}
use go_casclib.Datafile.Frame.{FrameDecoder}
use go_casclib.Datafile.Frame.RoundTrip.{decode-encode_frame}
use go_casclib.Datafile.Encoder.{
  EncFrame, EncodeOptions, Encoded, bodies, encode_chunks, encode_frame, write_frames, encode,
  chunks_of, effective_frame_size,
}
use go_casclib.Datafile.Encoder.Chunks.{joined, chunks_of_bounds, chunks_of-joined}
use go_casclib.Datafile.Encoder.Frames.{
  encode_chunks-cons, encode_chunks-Fits, encode_cases, frame_of,
}
use go_casclib.Datafile.Encoder.HeaderRoundTrip.{
  frame_at, frames_from, parse_header-write_frames, head_bytes, length-head_bytes,
  head_bytes-bodies,
}
use go_casclib.Archive.Span.{
  strip_encoded_header, total_content_size, max_alloc, decode_frames, decode_table, decode_span,
}
use go_casclib.Archive.Span.Strip.{
  with_magic, StartsWithBlte, strip_bare, strip-build_encoded_header,
}
use go_casclib.Archive.SpanHeader.{build_encoded_header}

chunks_below :
    (size : ℕ) (chunks : List Bytes)
    → All (λ chunk. length chunk ≤ size) chunks
    → size + 1 < 2 ^ 32
    → All (λ chunk. length chunk + 1 < 2 ^ 32) chunks
chunks_below size [] h k = tt
chunks_below size (chunk ∷ chunks) (b, h) k = (omega arith, chunks_below size chunks h k)

module _ (c : Codecs) (laws : IsCodecs c) (no_lzma : c.lzma_decoder ≡ none) where
  -- One frame of the loop: it takes the frame's bytes, and the cursor moves behind them.
  decode_frames-cons :
      (d : FrameDecoder) (mode i cursor : ℕ) (chunk body : Bytes) (frames : List Frame)
      (pre rest tail : Bytes)
      → length pre ≡ cursor
      → encode_frame c mode chunk ≡ ok body
      → length chunk < 2 ^ 32
      → decode_frames c d frames (cursor + length body) (pre ++ (body ++ rest)) ≡ ok tail
      → decode_frames c d
          (frame_at i (frame_of c chunk body) ∷ frames)
          cursor
          (pre ++ (body ++ rest))
        ≡ ok (chunk ++ tail)
  unfolding decode_frames
  decode_frames-cons d mode i cursor chunk body frames pre rest tail at h small ih =
      let fr = frame_at i (frame_of c chunk body) in
      let bounds =
        le→leb (cursor + length body) (length (pre ++ (body ++ rest)))
          (omega (arith, length-append pre (body ++ rest), length-append body rest)) in
      let piece = slice-append cursor (length body) pre body rest at refl in
      let plain =
        decode-encode_frame c laws no_lzma d fr mode chunk body h (omega arith) (inl refl) in
      rw (bounds, piece, plain, ih)

  decode_frames-encode_chunks :
      (d : FrameDecoder) (mode i cursor : ℕ) (chunks : List Bytes) (fs : List EncFrame)
      (pre : Bytes)
      → length pre ≡ cursor
      → encode_chunks c mode chunks ≡ ok fs
      → All (λ chunk. length chunk + 1 < 2 ^ 32) chunks
      → decode_frames c d (frames_from i fs) cursor (pre ++ bodies fs) ≡ ok (joined chunks)
  decode_frames-encode_chunks d mode i cursor [] fs pre at h small =
      unfold encode_chunks decode_frames in ground arith
  decode_frames-encode_chunks d mode i cursor (chunk ∷ chunks) fs pre at h (s, small) =
      let (body, rest, e, e', g) = encode_chunks-cons c mode chunk chunks fs h in
      let ih =
        decode_frames-encode_chunks d mode (i + 1) (cursor + length body) chunks rest (pre ++ body)
          (omega (arith, length-append pre body)) e' small in
      rw g (
        decode_frames-cons d mode i cursor chunk body _ pre (bodies rest) (joined chunks) at e
          (omega arith) (rw (← append_assoc pre body (bodies rest)) ih))

  -- The table declares no more than there is.
  total-encode_chunks :
      (mode i : ℕ) (chunks : List Bytes) (fs : List EncFrame)
      → encode_chunks c mode chunks ≡ ok fs
      → total_content_size (frames_from i fs) ≤ length (joined chunks)
  total-encode_chunks mode i [] fs h = unfold encode_chunks in ground arith
  total-encode_chunks mode i (chunk ∷ chunks) fs h =
      let (body, rest, e, e', g) = encode_chunks-cons c mode chunk chunks fs h in
      rw g (
        omega (
          arith,
          total-encode_chunks mode (i + 1) chunks rest e',
          length-append chunk (joined chunks),
        ))

  decode_span-write_frames :
      (keys : Option (Bytes → ℕ → Result Bytes)) (overcome : Bool) (mode : ℕ) (span : Bytes)
      (chunks : List Bytes) (fs : List EncFrame)
      → strip_encoded_header span ≡ ok (write_frames fs)
      → encode_chunks c mode chunks ≡ ok fs
      → All (λ chunk. length chunk + 1 < 2 ^ 32) chunks
      → length chunks < 2 ^ 24
      → length (joined chunks) ≤ max_alloc
      → decode_span c keys overcome span ≡ ok (joined chunks)
  unfolding decode_span decode_table
  decode_span-write_frames keys overcome mode span chunks fs stripped h small few fits_memory =
      let (fits, same) = encode_chunks-Fits c laws mode chunks fs h small in
      let header = parse_header-write_frames fs fits (omega arith) in
      let d : FrameDecoder = record {
        decrypt = keys;
        verify_hashes = true;
        overcome_encrypted = overcome;
      } in
      let front = head_bytes fs in
      let frames : decode_frames c d (frames_from 0 fs) (12 + length fs * 24) (front ++ bodies fs)
          ≡ ok (joined chunks) =
        decode_frames-encode_chunks d mode 0 (12 + length fs * 24) chunks fs front
          (length-head_bytes fs fits) h small in
      let more : (12 + length fs * 24 == 0) ≡ false = ground arith in
      let room =
        le→leb (total_content_size (frames_from 0 fs)) max_alloc
          (omega (arith, total-encode_chunks mode 0 chunks fs h)) in
      rw (stripped, header, more, room, ← head_bytes-bodies fs) frames

  decode_span-single :
      (keys : Option (Bytes → ℕ → Result Bytes)) (overcome : Bool) (mode : ℕ)
      (span content body : Bytes)
      → strip_encoded_header span ≡ ok (with_magic (0 ∷ 0 ∷ 0 ∷ 0 ∷ body))
      → encode_frame c mode content ≡ ok body
      → decode_span c keys overcome span ≡ ok content
  unfolding decode_span parse_header
  decode_span-single keys overcome mode span content body stripped h =
      let d : FrameDecoder = record {
        decrypt = keys;
        verify_hashes = true;
        overcome_encrypted = overcome;
      } in
      let fr : Frame = record {
        index = 0;
        encoded_size = (length (with_magic (0 ∷ 0 ∷ 0 ∷ 0 ∷ body)) - 8) % 2 ^ 32;
        content_size = 0;
        frame_hash = no_hash;
      } in
      let plain =
        decode-encode_frame c laws no_lzma d fr mode content body h (omega arith) (inr refl) in
      rw stripped (ground (arith, plain))

  decode_span_both :
      (keys : Option (Bytes → ℕ → Result Bytes)) (overcome : Bool) (content : Bytes)
      (o : EncodeOptions) (e : Encoded) (ekey : Bytes) (n off : ℕ)
      → encode c content o ≡ ok e
      → effective_frame_size o + 1 < 2 ^ 32
      → length (chunks_of (effective_frame_size o) content) < 2 ^ 24
      → length content ≤ max_alloc
      → (decode_span c keys overcome e.out ≡ ok content)
        × (¬ StartsWithBlte ekey
            → decode_span c keys overcome (build_encoded_header ekey n off ++ e.out) ≡ ok content)
  decode_span_both keys overcome content o e ekey n off h small few fits_memory =
      elim (encode_cases c content o e h) [
        | inl (body, f, out) ↦ rw out (
          decode_span-single keys overcome _ _ content body (strip_bare _) f,
          λ plain.
              decode_span-single keys overcome _ _ content body
                (strip-build_encoded_header ekey n off _ plain) f,
        )
        | inr (fs, f, out) ↦
            let size = effective_frame_size o in
            let bounded = chunks_below size _ (chunks_of_bounds size content) small in
            let whole = chunks_of-joined size content (ground arith) in
            let room : length (joined (chunks_of size content)) ≤ max_alloc =
              rw whole fits_memory in
            rw out (
              decode_span-write_frames keys overcome _ _ _ fs (strip_bare _) f bounded few room
                  ∙ ap ok whole,
              λ plain.
                  decode_span-write_frames keys overcome _ _ _ fs
                    (strip-build_encoded_header ekey n off _ plain) f bounded few room
                  ∙ ap ok whole,
            )
      ]

  -- A span that `Encode` wrote decodes to the content, where the frame size and the number of
  -- frames fit the fields of the header, the content has at most the 2 ^ 48 bytes that Go can
  -- allocate, the codecs are as documented and no LZMA decoder is registered, whatever keys there are.
  pub decode_span-encode :
      (keys : Option (Bytes → ℕ → Result Bytes)) (overcome : Bool) (content : Bytes)
      (o : EncodeOptions) (e : Encoded)
      → encode c content o ≡ ok e
      → effective_frame_size o + 1 < 2 ^ 32
      → length (chunks_of (effective_frame_size o) content) < 2 ^ 24
      → length content ≤ max_alloc
      → decode_span c keys overcome e.out ≡ ok content
  decode_span-encode keys overcome content o e h small few fits_memory =
      (decode_span_both keys overcome content o e [] 0 0 h small few fits_memory).0

  -- A span that `Encode` wrote also decodes behind a header that the archive's writer puts before it,
  -- where the frame size and the number of frames fit the fields of the header, the codecs are as
  -- documented, no LZMA decoder is registered, the content has at most 2 ^ 48 bytes and the EKey does not end in "ETLB".
  pub decode_span-build_encoded_header :
      (keys : Option (Bytes → ℕ → Result Bytes)) (overcome : Bool) (content : Bytes)
      (o : EncodeOptions) (e : Encoded) (ekey : Bytes) (n off : ℕ)
      → encode c content o ≡ ok e
      → effective_frame_size o + 1 < 2 ^ 32
      → length (chunks_of (effective_frame_size o) content) < 2 ^ 24
      → length content ≤ max_alloc
      → ¬ StartsWithBlte ekey
      → decode_span c keys overcome (build_encoded_header ekey n off ++ e.out) ≡ ok content
  decode_span-build_encoded_header keys overcome content o e ekey n off h small few fits_memory
        plain =
      (decode_span_both keys overcome content o e ekey n off h small few fits_memory).1 plain
