-- ===== src/Decrypt/Frames.antt =====
-- An encrypted frame of a BLTE stream: `FrameDecoder` with the registry's `DecryptFrame`.
use go_casclib.Common.{
  ℕ, ◌^◌, ◌≤◌, ◌<◌, ◌≡◌, ◌⊎◌, true, ◌∙◌, Bool, none, some, ◌∷◌, Result, ok, length, All,
}
use go_casclib.Binary.{Bytes, IsByte}
use go_casclib.Compress.{Codecs, IsCodecs}
use go_casclib.Datafile.Header.{Frame, no_hash}
use go_casclib.Datafile.Frame.{FrameDecoder, decode, decode_step}
use go_casclib.Datafile.Frame.RoundTrip.{decode-hash, decode_step-encode_frame}
use go_casclib.Datafile.Encoder.{encode_frame}
use go_casclib.Decrypt.Salsa20.{salsa20_xor}
use go_casclib.Decrypt.Registry.{KeyRegistry, find, decrypt_frame}
use go_casclib.Decrypt.Registry.RoundTrip.{sealed_bytes, nonce_of, decrypt_frame-sealed_bytes}

module _ (c : Codecs) (laws : IsCodecs c) (no_lzma : c.lzma_decoder ≡ none)
    (aes_ctr : Bytes → Bytes → Bytes → Result Bytes) (r : KeyRegistry) where
  abbrev pub keyed_decoder : Bool → FrameDecoder
  keyed_decoder overcome = record {
    decrypt = some (decrypt_frame aes_ctr r);
    verify_hashes = true;
    overcome_encrypted = overcome;
  }

  decode_step-sealed_bytes :
      (overcome : Bool) (fr : Frame) (sealed plain : Bytes)
      → decrypt_frame aes_ctr r sealed fr.index ≡ ok plain
      → decode_step 5 c (keyed_decoder overcome) fr (b'E' ∷ sealed)
        ≡ decode_step 4 c (keyed_decoder overcome) fr plain
  unfolding decode_step
  decode_step-sealed_bytes overcome fr sealed plain h = rw h

  -- An 'E' frame in the wire format, whose ciphertext Salsa20 made of a frame that `encodeFrame`
  -- wrote, decodes to the chunk: with a key registered under the frame's name, an IV of 4 or 8
  -- bytes, a content size that does not pass the chunk's length, a hash that is right or absent,
  -- codecs as documented and no LZMA decoder.
  pub decode-sealed_bytes :
      (overcome : Bool) (fr : Frame) (mode : ℕ) (chunk body cipher : Bytes) (name : ℕ)
      (key iv : Bytes)
      → encode_frame c mode chunk ≡ ok body
      → All IsByte body
      → fr.content_size ≤ length chunk
      → (fr.frame_hash ≡ c.md5 (b'E' ∷ sealed_bytes name iv b'S' cipher))
        ⊎ (fr.frame_hash ≡ no_hash)
      → name < 2 ^ 64
      → (length iv ≡ 4) ⊎ (length iv ≡ 8)
      → find r name ≡ some key
      → salsa20_xor body key (nonce_of iv fr.index) ≡ ok cipher
      → decode c (keyed_decoder overcome) fr (b'E' ∷ sealed_bytes name iv b'S' cipher) ≡ ok chunk
  decode-sealed_bytes overcome fr mode chunk body cipher name key iv h bytes k g small sizes
        registered enciphered =
      let d = keyed_decoder overcome in
      let sealed = sealed_bytes name iv b'S' cipher in
      let plain =
        decrypt_frame-sealed_bytes aes_ctr r name key iv body cipher fr.index small sizes bytes
          registered enciphered in
      decode-hash c laws no_lzma d fr (b'E' ∷ sealed) g
      ∙ decode_step-sealed_bytes overcome fr sealed body plain
      ∙ decode_step-encode_frame c laws no_lzma 3 d fr mode chunk body h k
