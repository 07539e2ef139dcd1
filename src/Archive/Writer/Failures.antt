-- ===== src/Archive/Writer/Failures.antt =====
-- The cap on a segment, and the writer where a call of the operating system fails.
use go_casclib.Common.{
  ℕ, ◌+◌, ◌%◌, ◌^◌, ◌≤◌, ◌<◌, ◌≡◌, refl, ap, sym, ◌∙◌, arith, ltb, false, Bool-cases, inl, inr,
  Option, none, some, [], ◌++◌, err, foreign, length, length-append, take, subst,
}
use go_casclib.Binary.{Bytes}
use go_casclib.Archive.SpanHeader.{build_encoded_header}
use go_casclib.Archive.SpanHeader.Checksum.{length-build_encoded_header}
use go_casclib.Archive.Writer.{
  Disk, Writer, Faults, Outcome, write_at, update, write_bytes, append_span, open_segment,
  write_open, write_fitting, next_segment, write_span,
}
use go_casclib.Archive.Writer.Healthy.{
  healthy, length-headed, AtEnd, IsValid, Accepts, update_self, both_writes,
}

-- The length of the file that the writer is at behind a call.
abbrev pub current_length : Outcome → ℕ
current_length o = length (o.disk o.writer.segment_index)

append_span-length :
    (w : Writer) (disk : Disk) (blte ekey : Bytes)
    → current_length (append_span healthy w disk (length (disk w.segment_index)) blte ekey)
      ≡ length (disk w.segment_index) + (30 + length blte)
unfolding append_span write_bytes
append_span-length w disk blte ekey =
    let n = w.segment_index in
    let file = disk n in
    let header = build_encoded_header ekey (length blte % 2 ^ 32) w.segment_offs in
    let file1 = write_at (length file) header file in
    let disk1 = update disk n file1 in
    let file2 = write_at (length file + length header) blte (disk1 n) in
    rw (update_self disk1 n file2, both_writes disk n header blte)
      (omega (arith, length-append file (header ++ blte), length-headed ekey blte w.segment_offs))

write_open-length :
    (w : Writer) (disk : Disk) (handle : Option ℕ) (blte ekey : Bytes)
    → AtEnd handle w.segment_offs (disk w.segment_index)
    → current_length (write_open healthy w disk handle blte ekey)
      ≡ length (disk w.segment_index) + (30 + length blte)
unfolding write_open open_segment
write_open-length w disk none blte ekey v =
    append_span-length
      (record w {
        segment_file = some (length (disk w.segment_index));
        segment_offs = length (disk w.segment_index);
      })
      disk blte ekey
write_open-length w disk (some pos) blte ekey (at, e) =
    rw (at ∙ e) (append_span-length w disk blte ekey)

write_fitting_cap :
    (w : Writer) (disk : Disk) (pos : ℕ) (blte ekey : Bytes)
    → AtEnd (some pos) w.segment_offs (disk w.segment_index)
    → 30 + length blte ≤ w.segment_size
    → disk (next_segment w).segment_index ≡ []
    → current_length (write_fitting healthy w disk (some pos) blte ekey) ≤ w.segment_size
unfolding write_fitting
write_fitting_cap w disk pos blte ekey v fits fresh =
    elim (Bool-cases (ltb w.segment_size (w.segment_offs + (30 + length blte)))) [
      | inl full ↦ rw full (
          omega (arith, write_open-length (next_segment w) disk none blte ekey tt, ap length fresh))
      | inr room ↦
          let below : w.segment_offs + (30 + length blte) ≤ w.segment_size = ground (arith, room) in
          let at_end : w.segment_offs ≡ length (disk w.segment_index) = v.1 in
          rw room (omega (arith, write_open-length w disk (some pos) blte ekey v))
    ]

write_span-Accepts :
    (faults : Faults) (w : Writer) (disk : Disk) (blte ekey : Bytes)
    → Accepts w blte
    → write_span faults w disk blte ekey ≡ write_fitting faults w disk w.segment_file blte ekey
unfolding write_span
write_span-Accepts faults w disk blte ekey a =
    let long : ltb (length blte) 8 ≡ false = ground (arith, a.has_prefix) in
    let fits : ltb w.segment_size (30 + length blte) ≡ false = ground (arith, a.fits_segment) in
    rw (a.is_open, long, fits)

-- A writer that has a segment open, with the handle and the offset at the end of the file, keeps the
-- cap: behind an accepted span the file that it is at is no longer than the segment size, if no call
-- of the operating system fails and the file of the next segment does not exist or is empty.
pub write_span_cap :
    (w : Writer) (disk : Disk) (pos : ℕ) (blte ekey : Bytes)
    → w.segment_file ≡ some pos
    → IsValid w disk
    → Accepts w blte
    → disk (next_segment w).segment_index ≡ []
    → current_length (write_span healthy w disk blte ekey) ≤ w.segment_size
write_span_cap w disk pos blte ekey opened v a fresh =
    let at_end : AtEnd (some pos) w.segment_offs (disk w.segment_index) =
      subst (λ h. AtEnd h w.segment_offs (disk w.segment_index)) opened v in
    let same =
      write_span-Accepts healthy w disk blte ekey a
      ∙ ap (λ h. write_fitting healthy w disk h blte ekey) opened in
    subst (λ (o : Outcome). current_length o ≤ w.segment_size) (sym same)
      (write_fitting_cap w disk pos blte ekey at_end a.fits_segment fresh)

write_fitting_shut :
    (w : Writer) (disk : Disk) (blte ekey : Bytes)
    → write_fitting healthy w disk none blte ekey ≡ write_open healthy w disk none blte ekey
unfolding write_fitting
write_fitting_shut w disk blte ekey = refl

-- A writer with no open segment, as it is behind `NewWriter`, does not look at the length of the
-- file: where no call of the operating system fails, an accepted span goes behind what the file
-- holds, and the file passes the segment size if the two together do.
pub write_span_reopened :
    (w : Writer) (disk : Disk) (blte ekey : Bytes)
    → w.segment_file ≡ none
    → Accepts w blte
    → w.segment_size < length (disk w.segment_index) + (30 + length blte)
    → w.segment_size < current_length (write_span healthy w disk blte ekey)
write_span_reopened w disk blte ekey shut a passes =
    let same =
      write_span-Accepts healthy w disk blte ekey a
      ∙ ap (λ h. write_fitting healthy w disk h blte ekey) shut
      ∙ write_fitting_shut w disk blte ekey in
    let size = ap current_length same ∙ write_open-length w disk none blte ekey tt in
    subst (λ (n : ℕ). w.segment_size < n) (sym size) passes

-- The second write of a span stops behind `n` bytes.
abbrev pub span_stops_at : ℕ → Faults
span_stops_at n = record {
  close_fails = false;
  open_fails = false;
  header_stops = none;
  span_stops = some n;
}

append_span_stops :
    (w : Writer) (disk : Disk) (n : ℕ) (blte ekey : Bytes)
    → let o = append_span (span_stops_at n) w disk (length (disk w.segment_index)) blte ekey in
      (o.result ≡ err foreign)
      × (o.writer.segment_offs ≡ w.segment_offs)
      × (current_length o ≡ length (disk w.segment_index) + (30 + length (take n blte)))
      × (o.writer.segment_file ≡ some (current_length o))
unfolding append_span write_bytes
append_span_stops w disk n blte ekey =
    let i = w.segment_index in
    let file = disk i in
    let header = build_encoded_header ekey (length blte % 2 ^ 32) w.segment_offs in
    let part = take n blte in
    let disk1 = update disk i (write_at (length file) header file) in
    let file2 = write_at (length file + length header) part (disk1 i) in
    let size : length (update disk1 i file2 i) ≡ length file + (30 + length part) =
      rw (update_self disk1 i file2, both_writes disk i header part)
        (omega (
          arith,
          length-append file (header ++ part),
          length-append header part,
          length-build_encoded_header ekey (length blte % 2 ^ 32) w.segment_offs,
        )) in
    (
      refl,
      refl,
      size,
      ap some (
          omega
            (arith, size, length-build_encoded_header ekey (length blte % 2 ^ 32) w.segment_offs)),
    )

write_fitting_room :
    (faults : Faults) (w : Writer) (disk : Disk) (pos : ℕ) (blte ekey : Bytes)
    → w.segment_offs + (30 + length blte) ≤ w.segment_size
    → write_fitting faults w disk (some pos) blte ekey ≡ append_span faults w disk pos blte ekey
unfolding write_fitting write_open
write_fitting_room faults w disk pos blte ekey room =
    let fits : ltb w.segment_size (w.segment_offs + (30 + length blte)) ≡ false = ground arith in
    rw fits

-- Where the second write of an accepted span that fits the open segment fails behind `n` bytes,
-- `WriteSpan` returns the error and keeps its offset, but the file has the header and those bytes
-- more, and the handle stands behind them: the offset is no longer the place of the next write.
pub write_span_stops :
    (w : Writer) (disk : Disk) (pos n : ℕ) (blte ekey : Bytes)
    → w.segment_file ≡ some pos
    → IsValid w disk
    → Accepts w blte
    → w.segment_offs + (30 + length blte) ≤ w.segment_size
    → let o = write_span (span_stops_at n) w disk blte ekey in
      (o.result ≡ err foreign)
      × (o.writer.segment_offs ≡ length (disk w.segment_index))
      × (current_length o ≡ length (disk w.segment_index) + (30 + length (take n blte)))
      × (o.writer.segment_file ≡ some (current_length o))
write_span_stops w disk pos n blte ekey opened v a room =
    let (at, e) : AtEnd (some pos) w.segment_offs (disk w.segment_index) =
      subst (λ h. AtEnd h w.segment_offs (disk w.segment_index)) opened v in
    let same =
      write_span-Accepts (span_stops_at n) w disk blte ekey a
      ∙ ap (λ h. write_fitting (span_stops_at n) w disk h blte ekey) opened
      ∙ write_fitting_room (span_stops_at n) w disk pos blte ekey room
      ∙ ap (λ (p : ℕ). append_span (span_stops_at n) w disk p blte ekey) (at ∙ e) in
    let (failed_call, offs, size, handle) = append_span_stops w disk n blte ekey in
    subst
      (λ (o : Outcome).
        (o.result ≡ err foreign)
        × (o.writer.segment_offs ≡ length (disk w.segment_index))
        × (current_length o ≡ length (disk w.segment_index) + (30 + length (take n blte)))
        × (o.writer.segment_file ≡ some (current_length o)))
      (sym same) (failed_call, offs ∙ e, size, handle)
