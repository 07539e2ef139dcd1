-- ===== src/Archive/Span/Overflow.antt =====
-- A span that `DecodeSpan` panics for: many frames that declare more content than they have.
use go_casclib.Common.{
  ℕ, Bool, zero, suc, ◌+◌, ◌*◌, ◌^◌, ◌<◌, ◌≡◌, arith, leb, ◌==◌, false, Option, Result, err, panic,
  length, replicate, length-replicate, All-replicate,
}
use go_casclib.Binary.{Bytes}
use go_casclib.Compress.{Codecs}
use go_casclib.Datafile.Encoder.{EncFrame, write_frames}
use go_casclib.Datafile.Encoder.HeaderRoundTrip.{Fits, frames_from, parse_header-write_frames}
use go_casclib.Archive.Span.{total_content_size, max_alloc, decode_table, decode_span}
use go_casclib.Archive.Span.Strip.{strip_bare}

total_content_size-replicate :
    (n i : ℕ) (f : EncFrame)
    → total_content_size (frames_from i (replicate n f)) ≡ n * f.content_size
total_content_size-replicate zero i f = omega arith
total_content_size-replicate (suc n) i f = omega (arith, total_content_size-replicate n (i + 1) f)

-- A bare stream of equal frames whose declared content sizes sum to more than 2 ^ 48 makes
-- `DecodeSpan` panic, whatever the frames hold, the codecs and the keys do, where each frame fits
-- its place in the table and the number of frames has 24 bits.
pub decode_span_overflows :
    (c : Codecs) (keys : Option (Bytes → ℕ → Result Bytes)) (overcome : Bool) (n : ℕ) (f : EncFrame)
    → Fits f
    → n < 2 ^ 24
    → max_alloc < n * f.content_size
    → decode_span c keys overcome (write_frames (replicate n f)) ≡ err panic
unfolding decode_span decode_table
decode_span_overflows c keys overcome n f fits few large =
    let fs = replicate n f in
    let count : length fs ≡ n = length-replicate n f in
    let header =
      parse_header-write_frames fs (All-replicate Fits n f fits) (omega (arith, count)) in
    let more : (12 + length fs * 24 == 0) ≡ false = ground arith in
    let over : leb (total_content_size (frames_from 0 fs)) max_alloc ≡ false =
      ground (arith, total_content_size-replicate n 0 f) in
    rw (strip_bare _, header, more, over)
