-- ===== src/Archive/Tests.antt =====
-- The archive's theorems at a writer with one file, whose segment holds eighty bytes.
pub mod History
use go_casclib.Common.{
  ℕ, ◌^◌, zero, suc, ◌+◌, ◌<◌, ◌≤◌, ◌≡◌, refl, arith, [], ◌∷◌, ◌++◌, ok, err, true, false, none,
  some, Error, foreign, panic, replicate, ◌↔◌, IsSafe, err-IsSafe, length, take, All,
}
use go_casclib.Binary.{Bytes, IsByte}
use go_casclib.Compress.Tests.{run_codecs, run_codecs-IsCodecs, read_run-IsSafe}
use go_casclib.Datafile.Frame.Safety.{AreSafe}
use go_casclib.Datafile.Encoder.{EncFrame, encode, encode_chunks, chunks_of, write_frames}
use go_casclib.Datafile.Encoder.HeaderRoundTrip.{Fits}
use go_casclib.Datafile.Tests.{
  plain_content, small_frames, encoded_content, encoded_content-Encodes,
}
use go_casclib.Index.Entry.{EKeyEntry}
use go_casclib.Archive.Span.{decode_span}
use go_casclib.Archive.Span.RoundTrip.{decode_span-encode, decode_span-build_encoded_header}
use go_casclib.Archive.Span.Safety.{decode_span_panics_iff, Overflows}
use go_casclib.Archive.Span.Overflow.{decode_span_overflows}
use go_casclib.Archive.Span.Strip.{StartsWithBlte}
use go_casclib.Archive.SpanHeader.{build_encoded_header, xor_lanes, no_lanes, encoded_offset_bytes}
use go_casclib.Archive.SpanHeader.Checksum.{xor_lanes-build_encoded_header}
use go_casclib.Archive.Writer.{Disk, Writer, Outcome, write_span, read_span}
use go_casclib.Archive.Writer.Healthy.{healthy, Accepts, write_span_lem, write_span_refuses}
use go_casclib.Archive.Writer.Reads.{read_span-write_span, read_span_later}
use go_casclib.Archive.Writer.Failures.{
  current_length, span_stops_at, write_span_cap, write_span_reopened, write_span_stops,
}

pub chunk_count : length (chunks_of 4 plain_content) < 2 ^ 24
unfolding chunks_of
chunk_count = omega arith

decode_span-encode_example :
    decode_span run_codecs none false encoded_content.out ≡ ok plain_content
decode_span-encode_example =
    decode_span-encode run_codecs run_codecs-IsCodecs refl none false plain_content small_frames
      encoded_content encoded_content-Encodes (omega arith) chunk_count (omega arith)

abbrev sixteen_sevens : Bytes
sixteen_sevens = run_codecs.md5 []

no_codec_panics : AreSafe run_codecs none
no_codec_panics = record {
  zlib_safe = λ b. read_run-IsSafe b;
  bzip2_safe = λ b. err-IsSafe foreign (λ e. cc);
  lzma_safe = λ d e. absurd cc;
  decrypt_safe = λ k e. absurd cc;
}

decode_span_panics_iff_example :
    (decode_span run_codecs none true encoded_content.out ≡ err panic)
    ↔ Overflows encoded_content.out
decode_span_panics_iff_example =
    decode_span_panics_iff run_codecs none no_codec_panics true encoded_content.out

-- 65537 frames with no bytes that declare 2 ^ 32 - 1 bytes each.
abbrev greedy_frame : EncFrame
greedy_frame = record { body = []; content_size = 0xffff_ffff; hash = run_codecs.md5 [] }

greedy_frame-Fits : Fits greedy_frame
greedy_frame-Fits = record { body_size = omega arith; content_size = omega arith; hash_size = refl }

decode_span_overflows_example :
    decode_span run_codecs none false (write_frames (replicate 65537 greedy_frame)) ≡ err panic
decode_span_overflows_example =
    decode_span_overflows run_codecs none false 65537 greedy_frame greedy_frame-Fits (omega arith)
      (omega arith)

-- Fourteen bytes are in the first file, where the handle stands.
abbrev pub one_file : Disk
one_file zero = take 14 sixteen_sevens
one_file (suc n) = []

abbrev pub open_writer : ℕ → Writer
open_writer size = record {
  segment_size = size;
  segment_index = 0;
  segment_file = some 14;
  segment_offs = 14;
  closed = false;
}

abbrev shut_writer : ℕ → Writer
shut_writer size = record {
  segment_size = size;
  segment_index = 0;
  segment_file = none;
  segment_offs = 0;
  closed = false;
}

abbrev ten_bytes : Bytes
ten_bytes = take 10 encoded_content.out

pub one_file_small : (n : ℕ) → length (one_file n) + (30 + length encoded_content.out) < 2 ^ 32
unfolding encode encode_chunks chunks_of
one_file_small zero = omega arith
one_file_small (suc n) = omega arith

encoded_content_accepted : Accepts (open_writer 111) encoded_content.out
unfolding encode encode_chunks chunks_of
encoded_content_accepted = record {
  is_open = refl;
  has_prefix = omega arith;
  fits_segment = omega arith;
}

abbrev written : Outcome
written = write_span healthy (open_writer 111) one_file encoded_content.out encoded_content.ekey

pub not_blte : ¬ StartsWithBlte encoded_content.ekey
unfolding encode encode_chunks chunks_of
not_blte e = omega arith

read_span-write_span_example :
    (entry : EKeyEntry) × (written.result ≡ ok entry)
    × (read_span run_codecs none false written.disk entry ≡ ok plain_content)
read_span-write_span_example =
    read_span-write_span run_codecs run_codecs-IsCodecs none false plain_content small_frames
      encoded_content (open_writer 111) one_file refl encoded_content-Encodes (omega arith)
      chunk_count (omega arith) not_blte (refl, refl) encoded_content_accepted one_file_small

first_read :
    (entry : EKeyEntry) × (written.result ≡ ok entry)
    × (read_span run_codecs none false written.disk entry ≡ ok plain_content)
first_read =
    read_span-write_span run_codecs run_codecs-IsCodecs none false plain_content small_frames
      encoded_content (open_writer 111) one_file refl encoded_content-Encodes (omega arith)
      chunk_count (omega arith) not_blte (refl, refl) encoded_content_accepted one_file_small

abbrev first_entry : EKeyEntry
first_entry = first_read.0

read_span_later_example :
    read_span run_codecs none false
      (write_span healthy written.writer written.disk ten_bytes sixteen_sevens).disk
      first_entry
    ≡ ok plain_content
read_span_later_example =
    read_span_later run_codecs none false written.writer written.disk ten_bytes sixteen_sevens
      first_entry plain_content
      (write_span_lem (open_writer 111) one_file encoded_content.out encoded_content.ekey
        (refl, refl) encoded_content_accepted).valid
      first_read.2

-- The handle stands too far in the file for ten bytes more: the writer goes on in the next file.
ten_accepted : Accepts (open_writer 40) ten_bytes
unfolding encode encode_chunks chunks_of
ten_accepted = record { is_open = refl; has_prefix = omega arith; fits_segment = omega arith }

write_span_cap_example :
    current_length (write_span healthy (open_writer 40) one_file ten_bytes sixteen_sevens) ≤ 40
write_span_cap_example =
    write_span_cap (open_writer 40) one_file 14 ten_bytes sixteen_sevens refl (refl, refl)
      ten_accepted refl

short_refused : ¬ Accepts (open_writer 40) (1 ∷ 2 ∷ [])
short_refused a = omega (arith, a.has_prefix)

write_span_refuses_example :
    ((write_span healthy (open_writer 40) one_file (1 ∷ 2 ∷ []) sixteen_sevens).writer
      ≡ open_writer 40)
    × ((write_span healthy (open_writer 40) one_file (1 ∷ 2 ∷ []) sixteen_sevens).disk ≡ one_file)
    × ((e : Error) × ((write_span healthy
            (open_writer 40)
            one_file
            (1 ∷ 2 ∷ [])
            sixteen_sevens).result
          ≡ err e))
write_span_refuses_example =
    write_span_refuses healthy (open_writer 40) one_file (1 ∷ 2 ∷ []) sixteen_sevens short_refused

ten_accepted_shut : Accepts (shut_writer 40) ten_bytes
unfolding encode encode_chunks chunks_of
ten_accepted_shut = record { is_open = refl; has_prefix = omega arith; fits_segment = omega arith }

ten_pass : 40 < 14 + (30 + length ten_bytes)
unfolding encode encode_chunks chunks_of
ten_pass = omega arith

write_span_reopened_example :
    40 < current_length (write_span healthy (shut_writer 40) one_file ten_bytes sixteen_sevens)
write_span_reopened_example =
    write_span_reopened (shut_writer 40) one_file ten_bytes sixteen_sevens refl ten_accepted_shut
      ten_pass

ten_accepted_wide : Accepts (open_writer 80) ten_bytes
unfolding encode encode_chunks chunks_of
ten_accepted_wide = record { is_open = refl; has_prefix = omega arith; fits_segment = omega arith }

ten_has_room : 14 + (30 + length ten_bytes) ≤ 80
unfolding encode encode_chunks chunks_of
ten_has_room = omega arith

abbrev stopped : Outcome
stopped = write_span (span_stops_at 3) (open_writer 80) one_file ten_bytes sixteen_sevens

write_span_stops_example :
    (stopped.result ≡ err foreign)
    × (stopped.writer.segment_offs ≡ 14)
    × (current_length stopped ≡ 14 + (30 + length (take 3 ten_bytes)))
    × (stopped.writer.segment_file ≡ some (current_length stopped))
write_span_stops_example =
    write_span_stops (open_writer 80) one_file 14 3 ten_bytes sixteen_sevens refl (refl, refl)
      ten_accepted_wide ten_has_room

sevens_are_bytes : All IsByte sixteen_sevens
sevens_are_bytes = omega arith
