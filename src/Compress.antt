-- ===== src/Compress.antt =====
-- internal/compress: the codecs. Go's compress/zlib, compress/bzip2 and crypto/md5, and the LZMA
-- decoder that another package may register, are not in the repository: they are parameters.
pub mod Tests
use go_casclib.Common.{
  ℕ, ◌+◌, ◌*◌, ◌^◌, ◌≡◌, Bool, true, false, ◌&&◌, ◌||◌, Option, none, some, ◌∷◌, Result, ok, err,
  foreign, length, get_or, ltb, leb, ◌==◌,
}
use go_casclib.Binary.{Bytes}

pub record Codecs : Type 0 where
  -- `md5.Sum`
  pub md5 : Bytes → Bytes
  -- `Deflate` and `Inflate`: the zlib writer at its default level, and the zlib reader.
  pub deflate : Bytes → Result Bytes
  pub zlib_read : Bytes → Result Bytes
  pub bzip2_read : Bytes → Result Bytes
  -- `lzmaDecoder`
  pub lzma_decoder : Option (Bytes → ℕ → Result Bytes)

-- `expected` sets a capacity only.
abbrev pub inflate : Codecs → Bytes → ℕ → Result Bytes
inflate c body expected = c.zlib_read body

abbrev pub unbzip2 : Codecs → Bytes → ℕ → Result Bytes
unbzip2 c body expected = c.bzip2_read body

unfoldable pub lzma_registered : Codecs → Bool
lzma_registered c = elim c.lzma_decoder [ none ↦ false | some _ ↦ true ]

unfoldable pub unlzma : Codecs → Bytes → ℕ → Result Bytes
unlzma c body expected = elim c.lzma_decoder [ none ↦ err foreign | some d ↦ d body expected ]

-- Every index is behind a test of the length.
abbrev byte_at : Bytes → ℕ → ℕ
byte_at b i = get_or b i 0

unfoldable pub looks_like_lzma : Bytes → Bool
looks_like_lzma b =
    let dict = byte_at b 1 + byte_at b 2 * 2 ^ 8 + byte_at b 3 * 2 ^ 16 + byte_at b 4 * 2 ^ 24 in
    (leb 6 (length b)
      && byte_at b 0 == 0xfd
      && byte_at b 1 == b'7'
      && byte_at b 2 == b'z'
      && byte_at b 3 == b'X'
      && byte_at b 4 == b'Z'
      && byte_at b 5 == 0)
    || (leb 13 (length b) && ltb (byte_at b 0) 225 && leb 4096 dict && leb dict (2 ^ 30))

-- What RFC 1950, RFC 1951 and RFC 1321 and the documentation of Go's packages promise.
pub record IsCodecs (c : Codecs) : Type 0 where
  pub length-md5 : (b : Bytes) → length (c.md5 b) ≡ 16
  pub read-deflate : (b z : Bytes) → c.deflate b ≡ ok z → c.zlib_read z ≡ ok b
  -- The first byte of a zlib stream with the default window is 0x78.
  pub zlib_magic : (b z : Bytes) → c.deflate b ≡ ok z → (t : Bytes) × (z ≡ 0x78 ∷ t)
