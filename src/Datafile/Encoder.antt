-- ===== src/Datafile/Encoder.antt =====
-- internal/datafile/encoder.go. The output buffer is filled once, from its first byte to its last:
-- it is the concatenation of what is written.
pub mod Chunks
pub mod HeaderRoundTrip
pub mod Frames
use go_casclib.Common.{
  ℕ, zero, suc, ◌+◌, ◌*◌, ◌%◌, ◌^◌, ◌==◌, ◌||◌, leb, if◌then◌else◌, Bool, List, [], ◌∷◌, ◌++◌,
  Result, ok, err, guard, ◌>>=◌, ◌>>◌, not_supported, length, take, drop,
}
use go_casclib.Binary.{Bytes, put_le_uint32, put_be_uint32, put_be_uint24}
use go_casclib.Compress.{Codecs}
use go_casclib.Datafile.Header.{blte_signature}

-- `frame_size` 0 stands for every size that is not positive.
pub record EncodeOptions : Type 0 where
  pub mode : ℕ
  pub frame_size : ℕ
  pub single_frame_no_header : Bool

abbrev pub encode_raw : ℕ
encode_raw = b'N'

abbrev pub encode_zlib : ℕ
encode_zlib = b'Z'

abbrev pub default_frame_size : ℕ
default_frame_size = 256 * 1024

-- The two defaults at the head of `Encode`.
abbrev pub effective_frame_size : EncodeOptions → ℕ
effective_frame_size o = if o.frame_size == 0 then default_frame_size else o.frame_size

abbrev pub effective_mode : EncodeOptions → ℕ
effective_mode o = if o.mode == 0 then encode_zlib else o.mode

unfoldable pub encode_frame : Codecs → ℕ → Bytes → Result Bytes
encode_frame c mode chunk =
    if mode == encode_raw
    then ok (b'N' ∷ chunk)
    else if mode == encode_zlib
    then (do
      zb ← c.deflate chunk
      ok (if leb (length chunk) (length zb) then b'N' ∷ chunk else b'Z' ∷ zb))
    else err not_supported

-- The loop over `off`; the list is what lies behind `off`, and each round takes a byte at least.
pub chunk_loop : ℕ → ℕ → Bytes → List Bytes
chunk_loop zero size rest = []
chunk_loop (suc fuel) size [] = []
chunk_loop (suc fuel) size (x ∷ rest) =
    take size (x ∷ rest) ∷ chunk_loop fuel size (drop size (x ∷ rest))

unfoldable pub chunks_of : ℕ → Bytes → List Bytes
unfolding chunk_loop
chunks_of size [] = [] ∷ []
chunks_of size (x ∷ rest) = chunk_loop (length (x ∷ rest)) size (x ∷ rest)

-- `encFrame`
pub record EncFrame : Type 0 where
  pub body : Bytes
  pub content_size : ℕ
  pub hash : Bytes

unfoldable pub encode_chunks : Codecs → ℕ → List Bytes → Result (List EncFrame)
unfolding encode_frame
encode_chunks c mode [] = ok []
encode_chunks c mode (chunk ∷ chunks) = do
  body ← encode_frame c mode chunk
  frames ← encode_chunks c mode chunks
  ok (record { body = body; content_size = length chunk % 2 ^ 32; hash = c.md5 body } ∷ frames)

-- One entry of the frame table.
abbrev pub entry_bytes : EncFrame → Bytes
entry_bytes f = put_be_uint32 (length f.body) ++ (put_be_uint32 f.content_size ++ f.hash)

abbrev pub table_bytes : List EncFrame → Bytes
table_bytes [] = []
table_bytes (f ∷ fs) = entry_bytes f ++ table_bytes fs

abbrev pub bodies : List EncFrame → Bytes
bodies [] = []
bodies (f ∷ fs) = f.body ++ bodies fs

-- The multi-frame form.
abbrev pub write_frames : List EncFrame → Bytes
write_frames frames =
    let header_size = 12 + length frames * 24 in
    put_le_uint32 blte_signature
    ++ (put_be_uint32 header_size
        ++ (0x0f ∷ (put_be_uint24 (length frames) ++ (table_bytes frames ++ bodies frames))))

pub record Encoded : Type 0 where
  pub out : Bytes
  pub ckey : Bytes
  pub ekey : Bytes

abbrev pub keyed : Codecs → Bytes → Bytes → Encoded
keyed c content out = record { out = out; ckey = c.md5 content; ekey = c.md5 out }

unfoldable pub encode_single : Codecs → ℕ → Bytes → Result Encoded
encode_single c mode content = do
  body ← encode_frame c mode content
  ok (keyed c content (put_le_uint32 blte_signature ++ (0 ∷ 0 ∷ 0 ∷ 0 ∷ body)))

unfoldable pub encode_multi : Codecs → ℕ → ℕ → Bytes → Result Encoded
encode_multi c mode size content = do
  frames ← encode_chunks c mode (chunks_of size content)
  ok (keyed c content (write_frames frames))

unfoldable pub encode : Codecs → Bytes → EncodeOptions → Result Encoded
unfolding encode_single encode_multi
encode c content o = do
  let mode = effective_mode o
  guard (mode == encode_raw || mode == encode_zlib) not_supported
  if o.single_frame_no_header
      then encode_single c mode content
      else encode_multi c mode (effective_frame_size o) content
