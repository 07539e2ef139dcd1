-- ===== src/Archive/Writer.antt =====
-- internal/archive/writer.go: `Writer`, and `Pool.ReadSpanWithOptions` of archive.go. The data files
-- are a function from segment numbers to bytes; a file that does not exist is one with no bytes, which
-- `openSegment` makes of it. What the operating system does in one call is an argument, `Faults`. Sizes and offsets are below 2 ^ 63.
pub mod Healthy
pub mod Reads
pub mod Failures
pub mod History
use go_casclib.Common.{
  ℕ, zero, suc, ◌+◌, ◌%◌, ◌^◌, ◌==◌, ◌&&◌, not, leb, ltb, if◌then◌else◌, Bool, true, false, Option,
  none, some, List, [], ◌∷◌, ◌++◌, Error, Result, ok, err, guard, ◌>>=◌, ◌>>◌, invalid_handle,
  bad_format, not_supported, foreign, length, take, drop,
}
use go_casclib.Binary.{Bytes, padded, slice}
use go_casclib.Compress.{Codecs}
use go_casclib.Index.Entry.{EKeyEntry}
use go_casclib.Archive.Span.{encoded_header_size, decode_span}
use go_casclib.Archive.SpanHeader.{build_encoded_header}

abbrev pub Disk : Type 0
Disk = ℕ → Bytes

-- `segment_file` is the open handle, by its position in the file.
pub record Writer : Type 0 where
  pub segment_size : ℕ
  pub segment_index : ℕ
  pub segment_file : Option ℕ
  pub segment_offs : ℕ
  pub closed : Bool

-- A write that fails has written some bytes before.
pub record Faults : Type 0 where
  pub close_fails : Bool
  pub open_fails : Bool
  pub header_stops : Option ℕ
  pub span_stops : Option ℕ

pub record Outcome : Type 0 where
  pub writer : Writer
  pub disk : Disk
  pub result : Result EKeyEntry

abbrev pub default_segment_size : ℕ
default_segment_size = 0x4000_0000

unfoldable pub new_writer : ℕ → Writer
new_writer size = record {
  segment_size = if size == 0 then default_segment_size else size;
  segment_index = 0;
  segment_file = none;
  segment_offs = 0;
  closed = false;
}

-- `Close`: the writer is closed whether the file's own `Close` fails or not.
unfoldable pub close : Faults → Writer → Writer × Result (Unit {0})
close faults w = (
  record w { closed = true; segment_file = none },
  elim w.segment_file [ none ↦ ok tt | some _ ↦ if faults.close_fails then err foreign else ok tt ],
)

-- The file behind a write at a position; a gap is filled with zeros.
unfoldable pub write_at : ℕ → Bytes → Bytes → Bytes
write_at pos new file = padded pos file ++ (new ++ drop (pos + length new) file)

unfoldable pub update : Disk → ℕ → Bytes → Disk
update disk n file m = if m == n then file else disk m

-- `openSegment`: the handle stands at the end of the file. `none` is an error of the system.
unfoldable pub open_segment : Faults → Writer → Disk → Option Writer
open_segment faults w disk =
    let end = length (disk w.segment_index) in
    if faults.open_fails
    then none
    else some (record w { segment_file = some end; segment_offs = end })

abbrev pub failed : Writer → Disk → Error → Outcome
failed w disk e = record { writer = w; disk = disk; result = err e }

-- One call of `Write`, and what follows where it succeeds.
pub write_bytes : Option ℕ → Writer → Disk → ℕ → Bytes → (Writer → Disk → Outcome) → Outcome
unfolding write_at update
write_bytes none w disk pos new next =
    next (record w { segment_file = some (pos + length new) })
      (update disk w.segment_index (write_at pos new (disk w.segment_index)))
write_bytes (some n) w disk pos new next =
    let part = take n new in
    failed (record w { segment_file = some (pos + length part) })
      (update disk w.segment_index (write_at pos part (disk w.segment_index))) foreign

-- The end of `WriteSpan`, behind both writes.
abbrev pub finished : Writer → Disk → Bytes → ℕ → Outcome
finished w disk ekey total = record {
  writer = record w { segment_offs = w.segment_offs + total };
  disk = disk;
  result = ok (record {
    ekey = ekey;
    archive_index = w.segment_index;
    archive_offs = w.segment_offs % 2 ^ 32;
    encoded_size = total % 2 ^ 32;
  });
}

-- `WriteSpan` from the header on, with the segment open at a position.
pub append_span : Faults → Writer → Disk → ℕ → Bytes → Bytes → Outcome
unfolding write_bytes
append_span faults w disk pos blte ekey =
    let header = build_encoded_header ekey (length blte % 2 ^ 32) w.segment_offs in
    write_bytes faults.header_stops w disk pos header λ w' disk'.
      write_bytes faults.span_stops w' disk' (pos + length header) blte
        λ w'' disk''. finished w'' disk'' ekey (encoded_header_size + length blte)

-- `WriteSpan` behind the roll-over: the segment is opened if it is not open.
pub write_open : Faults → Writer → Disk → Option ℕ → Bytes → Bytes → Outcome
unfolding append_span open_segment
write_open faults w disk (some pos) blte ekey = append_span faults w disk pos blte ekey
write_open faults w disk none blte ekey = elim (open_segment faults w disk) [
  | none ↦ failed w disk foreign
  | some w' ↦ append_span faults w' disk (length (disk w.segment_index)) blte ekey
]

-- The next segment, with no file open.
abbrev pub next_segment : Writer → Writer
next_segment w = record w {
  segment_file = none;
  segment_index = (w.segment_index + 1) % 2 ^ 32;
  segment_offs = 0;
}

-- The roll-over, on the handle as it stands.
pub write_fitting : Faults → Writer → Disk → Option ℕ → Bytes → Bytes → Outcome
unfolding write_open
write_fitting faults w disk none blte ekey = write_open faults w disk none blte ekey
write_fitting faults w disk (some pos) blte ekey =
    if ltb w.segment_size (w.segment_offs + (encoded_header_size + length blte))
    then (if faults.close_fails
        then failed w disk foreign
        else write_open faults (next_segment w) disk none blte ekey)
    else write_open faults w disk (some pos) blte ekey

unfoldable pub write_span : Faults → Writer → Disk → Bytes → Bytes → Outcome
unfolding write_fitting
write_span faults w disk blte ekey =
    if w.closed
    then failed w disk invalid_handle
    else if ltb (length blte) 8
    then failed w disk bad_format
    else if ltb w.segment_size (encoded_header_size + length blte)
    then failed w disk not_supported
    else write_fitting faults w disk w.segment_file blte ekey

-- `ReadSpanWithOptions` on a file that `open` finds; `ReadAt` fails where it ends before the span.
unfoldable pub read_span :
    Codecs → Option (Bytes → ℕ → Result Bytes) → Bool → Disk → EKeyEntry → Result Bytes
read_span c keys overcome disk e = do
  guard (leb encoded_header_size e.encoded_size) bad_format
  let file = disk e.archive_index
  guard (leb (e.archive_offs + e.encoded_size) (length file)) foreign
  buf ← slice e.archive_offs e.encoded_size file
  decode_span c keys overcome buf
