-- ===== src/Datafile/Encoder/Frames.antt =====
-- The frames that `Encode` writes for a list of chunks fit the frame table.
use go_casclib.Common.{
  ℕ, ◌+◌, ◌%◌, ◌^◌, ◌≤◌, ◌<◌, ◌≡◌, arith, List, [], ◌∷◌, ok, length, All, >>=-eq-ok, inl, inr, ◌⊎◌,
  ◌++◌, Bool-cases, guard, ◌==◌, ◌||◌, not_supported,
}
use go_casclib.Binary.{Bytes, put_le_uint32}
use go_casclib.Compress.{Codecs, IsCodecs}
use go_casclib.Datafile.Frame.RoundTrip.{encode_frame_cases}
use go_casclib.Datafile.Header.{blte_signature}
use go_casclib.Datafile.Encoder.{
  EncFrame, EncodeOptions, Encoded, effective_mode, effective_frame_size, encode_raw, encode_zlib,
  encode_frame, encode_chunks, chunks_of, write_frames, encode,
}
use go_casclib.Datafile.Encoder.HeaderRoundTrip.{Fits}

-- What `Encode` keeps of one chunk.
abbrev pub frame_of : Codecs → Bytes → Bytes → EncFrame
frame_of c chunk body = record {
  body = body;
  content_size = length chunk % 2 ^ 32;
  hash = c.md5 body;
}

-- A frame is at most a byte longer than its chunk.
pub length-encode_frame :
    (c : Codecs) (mode : ℕ) (chunk body : Bytes)
    → encode_frame c mode chunk ≡ ok body
    → length body ≤ length chunk + 1
length-encode_frame c mode chunk body h = elim (encode_frame_cases c mode chunk body h) [
  | inl e ↦ rw e (omega arith)
  | inr (z, _, e, short) ↦ rw e (omega arith)
]

pub encode_chunks-cons :
    (c : Codecs) (mode : ℕ) (chunk : Bytes) (chunks : List Bytes) (fs : List EncFrame)
    → encode_chunks c mode (chunk ∷ chunks) ≡ ok fs
    → (body : Bytes) × (rest : List EncFrame) × (encode_frame c mode chunk ≡ ok body)
      × (encode_chunks c mode chunks ≡ ok rest)
      × (fs ≡ frame_of c chunk body ∷ rest)
unfolding encode_chunks
encode_chunks-cons c mode chunk chunks fs h =
    let (body, e, g) = >>=-eq-ok (encode_frame c mode chunk) _ h in
    let (rest, e', k) = >>=-eq-ok (encode_chunks c mode chunks) _ g in (body, rest, e, e', cc)

module _ (c : Codecs) (laws : IsCodecs c) (mode : ℕ) where
  pub encode_chunks-Fits :
      (chunks : List Bytes) (fs : List EncFrame)
      → encode_chunks c mode chunks ≡ ok fs
      → All (λ chunk. length chunk + 1 < 2 ^ 32) chunks
      → All Fits fs × (length fs ≡ length chunks)
  encode_chunks-Fits [] fs h small = unfold encode_chunks in ground arith
  encode_chunks-Fits (chunk ∷ chunks) fs h (s, small) =
      let (body, rest, e, e', g) = encode_chunks-cons c mode chunk chunks fs h in
      let (fit, same) = encode_chunks-Fits chunks rest e' small in
      let fits : Fits (frame_of c chunk body) = record {
        body_size = omega (arith, length-encode_frame c mode chunk body e);
        content_size = omega arith;
        hash_size = laws.length-md5 body;
      } in
      rw g ((fits, fit), omega arith)

-- What `Encode` wrote, in its two forms.
pub encode_cases :
    (c : Codecs) (content : Bytes) (o : EncodeOptions) (e : Encoded)
    → encode c content o ≡ ok e
    → ((body : Bytes) × (encode_frame c (effective_mode o) content ≡ ok body)
        × (e.out ≡ put_le_uint32 blte_signature ++ (0 ∷ 0 ∷ 0 ∷ 0 ∷ body)))
      ⊎ ((fs : List EncFrame) × (encode_chunks c
              (effective_mode o)
              (chunks_of (effective_frame_size o) content)
            ≡ ok fs)
          × (e.out ≡ write_frames fs))
unfolding encode
encode_cases c content o e h =
    let mode = effective_mode o in
    let (_, known, g) =
      >>=-eq-ok (guard (mode == encode_raw || mode == encode_zlib) not_supported) _ h in
    elim (Bool-cases o.single_frame_no_header) [
      | inl single ↦
          let (body, b, k) = >>=-eq-ok (encode_frame c mode content) _ (rw single at g) in
          inl (body, b, cc)
      | inr multi ↦
          let (fs, f, k) =
            >>=-eq-ok (encode_chunks c mode (chunks_of (effective_frame_size o) content)) _
              (rw multi at g) in
          inr (fs, f, cc)
    ]
