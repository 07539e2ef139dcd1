-- ===== src/Datafile/Encoder/HeaderRoundTrip.antt =====
-- `ParseHeader` reads back the frame table that `Encode` wrote.
use go_casclib.Common.{
  ℕ, ◌+◌, ◌*◌, ◌^◌, ◌<◌, ◌≡◌, refl, arith, List, [], ◌∷◌, ◌++◌, ok, length, length-append, All,
  append_assoc,
}
use go_casclib.Binary.{
  Bytes, be_uint32_at, be_uint32_at-put, be_uint24_at-put, put_be_uint32, put_be_uint24,
  put_le_uint32, slice, slice-append,
}
use go_casclib.Datafile.Header.{
  blte_signature, Frame, Header, parse_frame, parse_frames, parse_header,
}
use go_casclib.Datafile.Encoder.{EncFrame, entry_bytes, table_bytes, bodies, write_frames}

-- The fields of the entry fit their places.
pub record Fits (f : EncFrame) : Type 0 where
  pub body_size : length f.body < 2 ^ 32
  pub content_size : f.content_size < 2 ^ 32
  pub hash_size : length f.hash ≡ 16

abbrev pub frame_at : ℕ → EncFrame → Frame
frame_at i f = record {
  index = i;
  encoded_size = length f.body;
  content_size = f.content_size;
  frame_hash = f.hash;
}

abbrev pub frames_from : ℕ → List EncFrame → List Frame
frames_from i [] = []
frames_from i (f ∷ fs) = frame_at i f ∷ frames_from (i + 1) fs

parse_frame-entry :
    (pre rest : Bytes) (i : ℕ) (f : EncFrame)
    → length pre ≡ 12 + i * 24
    → Fits f
    → parse_frame (pre ++ (entry_bytes f ++ rest)) i ≡ ok (frame_at i f)
parse_frame-entry pre rest i f h fits =
    let a = put_be_uint32 (length f.body) in
    let b = put_be_uint32 f.content_size in
    let off = 12 + i * 24 in
    let e1 = be_uint32_at-put off pre (b ++ (f.hash ++ rest)) (length f.body) h fits.body_size in
    let e2 : be_uint32_at (off + 4) (pre ++ (a ++ (b ++ (f.hash ++ rest)))) ≡ ok f.content_size =
      rw (← append_assoc pre a (b ++ (f.hash ++ rest))) (
        be_uint32_at-put (off + 4) (pre ++ a) (f.hash ++ rest) f.content_size
          (omega (arith, length-append pre a)) fits.content_size) in
    let e3 : slice (off + 8) 16 (pre ++ ((a ++ b) ++ (f.hash ++ rest))) ≡ ok f.hash =
      rw (← append_assoc pre (a ++ b) (f.hash ++ rest)) (
        slice-append (off + 8) 16 (pre ++ (a ++ b)) f.hash rest
          (omega (arith, length-append pre (a ++ b))) fits.hash_size) in
    rw (e1, e2, e3)

pub length-entry_bytes : (f : EncFrame) → Fits f → length (entry_bytes f) ≡ 24
length-entry_bytes f fits = omega arith

parse_frames-table :
    (fs : List EncFrame) (pre tail : Bytes) (i : ℕ)
    → length pre ≡ 12 + i * 24
    → All Fits fs
    → parse_frames (length fs) i (pre ++ (table_bytes fs ++ tail)) ≡ ok (frames_from i fs)
unfolding parse_frames
parse_frames-table [] pre tail i h fits = refl
parse_frames-table (f ∷ fs) pre tail i h (fit, fits) =
    let rest = table_bytes fs ++ tail in
    let e1 = parse_frame-entry pre rest i f h fit in
    let e2 : parse_frames (length fs) (i + 1) (pre ++ (entry_bytes f ++ rest))
        ≡ ok (frames_from (i + 1) fs) =
      rw (← append_assoc pre (entry_bytes f) rest) (
        parse_frames-table fs (pre ++ entry_bytes f) tail (i + 1)
          (omega (arith, length-append pre (entry_bytes f), length-entry_bytes f fit)) fits) in
    rw (append_assoc f.hash (table_bytes fs) tail, e1, e2)

length-table_bytes : (fs : List EncFrame) → All Fits fs → length (table_bytes fs) ≡ length fs * 24
length-table_bytes [] h = refl
length-table_bytes (f ∷ fs) (fit, fits) = omega (
  arith,
  length-append (entry_bytes f) (table_bytes fs),
  length-entry_bytes f fit,
  length-table_bytes fs fits,
)

-- The header that `Encode` wrote, and the place behind it.
abbrev pub header_of : List EncFrame → Header
header_of fs = record {
  header_size = 12 + length fs * 24;
  frame_count = length fs;
  frames = frames_from 0 fs;
  data_offset = 12 + length fs * 24;
}

-- `ParseHeader` reads back the frame table that `Encode` wrote, where the sizes of each frame fit 32
-- bits, its hash has 16 bytes, and the number of frames fits 24 bits.
pub parse_header-write_frames :
    (fs : List EncFrame)
    → All Fits fs
    → length fs < 2 ^ 24
    → parse_header (write_frames fs) ≡ ok (header_of fs)
unfolding parse_header
parse_header-write_frames fs fits few =
    let count = length fs in
    let body = table_bytes fs ++ bodies fs in
    let magic = put_le_uint32 blte_signature in
    let size = put_be_uint32 (12 + count * 24) in
    let e1 =
      be_uint32_at-put 4 magic (0x0f ∷ (put_be_uint24 count ++ body)) (12 + count * 24) refl
        (omega arith) in
    let e2 = be_uint24_at-put 9 (magic ++ (size ++ 0x0f ∷ [])) body count refl (omega arith) in
    let e3 =
      parse_frames-table fs (magic ++ (size ++ (0x0f ∷ put_be_uint24 count))) (bodies fs) 0 refl
        fits in
    let e4 = length-table_bytes fs fits in
    let e5 = length-append (table_bytes fs) (bodies fs) in ground (arith, e1, e2, e3, e4, e5)

-- All that stands before the bodies.
abbrev pub head_bytes : List EncFrame → Bytes
head_bytes fs =
    put_le_uint32 blte_signature
    ++ (put_be_uint32 (12 + length fs * 24)
        ++ (0x0f ∷ (put_be_uint24 (length fs) ++ table_bytes fs)))

pub head_bytes-bodies : (fs : List EncFrame) → head_bytes fs ++ bodies fs ≡ write_frames fs
head_bytes-bodies fs = refl

pub length-head_bytes :
    (fs : List EncFrame) → All Fits fs → length (head_bytes fs) ≡ 12 + length fs * 24
length-head_bytes fs fits = omega (arith, length-table_bytes fs fits)
