-- ===== src/Datafile/Frame/Safety.antt =====
-- Decoding a frame does not panic where the codecs and the callback do not.
use go_casclib.Common.{
  ℕ, leb, length, get_or, zero, suc, ◌≡◌, refl, Bool, not, ◌&&◌, ◌==◌, Option, none, some, [], ◌∷◌,
  Result, ok, err, IsSafe, ok-IsSafe, err-IsSafe, if-IsSafe, >>=-IsSafe, file_corrupt, bad_format,
  encrypted, not_supported,
}
use go_casclib.Binary.{Bytes, bytes_eq}
use go_casclib.Compress.{Codecs, lzma_registered, looks_like_lzma, unlzma}
use go_casclib.Datafile.Header.{Frame, no_hash}
use go_casclib.Datafile.Frame.{
  decompress_z, is_encrypted, decrypt_step, after_decrypt, decode_mode, decode_step, decode,
}

-- The code outside the repository returns an error where it fails.
pub record AreSafe (c : Codecs) (decrypt : Option (Bytes → ℕ → Result Bytes)) : Type 0 where
  pub zlib_safe : (b : Bytes) → IsSafe (c.zlib_read b)
  pub bzip2_safe : (b : Bytes) → IsSafe (c.bzip2_read b)
  pub lzma_safe :
      (d : Bytes → ℕ → Result Bytes)
      → c.lzma_decoder ≡ some d
      → (b : Bytes) (n : ℕ) → IsSafe (d b n)
  pub decrypt_safe :
      (k : Bytes → ℕ → Result Bytes) → decrypt ≡ some k → (b : Bytes) (i : ℕ) → IsSafe (k b i)

module _ (c : Codecs) (decrypt : Option (Bytes → ℕ → Result Bytes)) (safe : AreSafe c decrypt) where
  unlzma-IsSafe :
      (o : Option (Bytes → ℕ → Result Bytes)) (b : Bytes) (n : ℕ)
      → c.lzma_decoder ≡ o
      → IsSafe (unlzma c b n)
  unfolding unlzma
  unlzma-IsSafe none b n e = rw e (err-IsSafe _ (λ p. cc))
  unlzma-IsSafe (some d) b n e = rw e (safe.lzma_safe d e b n)

  decompress_z-IsSafe : (b : Bytes) (n : ℕ) → IsSafe (decompress_z c b n)
  unfolding decompress_z
  decompress_z-IsSafe b n =
      if-IsSafe (leb 2 (length b) && get_or b 0 0 == 0x42 && get_or b 1 0 == 0x5a) _ _
        (λ _. safe.bzip2_safe b)
        λ _.
          if-IsSafe (lzma_registered c && looks_like_lzma b) _ _
            (λ _. unlzma-IsSafe c.lzma_decoder b n refl) (λ _. safe.zlib_safe b)

  after_decrypt-IsSafe :
      (overcome : Bool) (fr : Frame) (r : Result Bytes) (again : Bytes → Result Bytes)
      → IsSafe r
      → ((b : Bytes) → IsSafe (again b))
      → IsSafe (after_decrypt overcome fr r again)
  unfolding after_decrypt
  after_decrypt-IsSafe overcome fr (ok plain) again s h = h plain
  after_decrypt-IsSafe overcome fr (err e) again s h =
      if-IsSafe (overcome && is_encrypted e) _ _ (λ _. ok-IsSafe _) (λ _. s)

  decrypt_step-IsSafe :
      (overcome : Bool) (fr : Frame) (o : Option (Bytes → ℕ → Result Bytes)) (body : Bytes)
      (again : Bytes → Result Bytes)
      → decrypt ≡ o
      → ((b : Bytes) → IsSafe (again b))
      → IsSafe (decrypt_step overcome o fr body again)
  unfolding decrypt_step
  decrypt_step-IsSafe overcome fr none body again e h =
      if-IsSafe overcome _ _ (λ _. ok-IsSafe _) (λ _. err-IsSafe encrypted (λ p. cc))
  decrypt_step-IsSafe overcome fr (some k) body again e h =
      after_decrypt-IsSafe overcome fr (k body fr.index) again (safe.decrypt_safe k e body fr.index)
        h

  decode_mode-IsSafe :
      (verify overcome : Bool) (fr : Frame) (mode : ℕ) (body : Bytes) (again : Bytes → Result Bytes)
      → ((b : Bytes) → IsSafe (again b))
      → IsSafe (
          decode_mode c
            (record { decrypt = decrypt; verify_hashes = verify; overcome_encrypted = overcome })
            fr
            mode
            body
            again)
  unfolding decode_mode
  decode_mode-IsSafe verify overcome fr mode body again h =
      if-IsSafe (mode == b'N') _ _ (λ _. ok-IsSafe _)
        λ _.
          if-IsSafe (mode == b'Z') _ _
            (λ _.
              >>=-IsSafe (decompress_z c body fr.content_size) _
                (decompress_z-IsSafe body fr.content_size) (λ out _. ok-IsSafe _))
            λ _.
              if-IsSafe (mode == b'E') _ _
                (λ _. decrypt_step-IsSafe overcome fr decrypt body again refl h)
                (λ _. err-IsSafe not_supported (λ p. cc))

  decode_step-IsSafe :
      (left : ℕ) (verify overcome : Bool) (fr : Frame) (bs : Bytes)
      → IsSafe (
          decode_step left c
            (record { decrypt = decrypt; verify_hashes = verify; overcome_encrypted = overcome })
            fr
            bs)
  unfolding decode_step
  decode_step-IsSafe zero verify overcome fr bs = err-IsSafe file_corrupt (λ p. cc)
  decode_step-IsSafe (suc left) verify overcome fr [] = err-IsSafe bad_format (λ p. cc)
  decode_step-IsSafe (suc left) verify overcome fr (mode ∷ body) =
      decode_mode-IsSafe verify overcome fr mode body _ (decode_step-IsSafe left verify overcome fr)

  pub decode-IsSafe :
      (verify overcome : Bool) (fr : Frame) (bs : Bytes)
      → IsSafe (
          decode c
            (record { decrypt = decrypt; verify_hashes = verify; overcome_encrypted = overcome })
            fr
            bs)
  unfolding decode
  decode-IsSafe verify overcome fr bs =
      if-IsSafe
        (verify && not (bytes_eq fr.frame_hash no_hash) && not (bytes_eq (c.md5 bs) fr.frame_hash))
        _ _ (λ _. err-IsSafe file_corrupt (λ p. cc))
        (λ _. decode_step-IsSafe 5 verify overcome fr bs)
