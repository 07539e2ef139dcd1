-- ===== src/Archive/Writer/Reads.antt =====
-- What the writer wrote, read back.
use go_casclib.Common.{
  ℕ, ◌+◌, ◌%◌, ◌^◌, ◌<◌, ◌≤◌, ◌≡◌, refl, ap, sym, ◌∙◌, arith, Bool, Option, none, [], ◌++◌, Result,
  ok, guard, >>=-eq-ok, guard-eq-ok, leb, le→leb, leb→le, length, length-append, append-nil,
  bad_format, foreign, inl, inr,
}
use native.Mathlib.Decide.{ℕ_discrete}
use go_casclib.Binary.{Bytes, slice, slice-append, slice-append_of_le}
use go_casclib.Compress.{Codecs, IsCodecs}
use go_casclib.Datafile.Encoder.{EncodeOptions, Encoded, encode, chunks_of, effective_frame_size}
use go_casclib.Index.Entry.{EKeyEntry}
use go_casclib.Archive.Span.{decode_span, max_alloc}
use go_casclib.Archive.Span.Strip.{StartsWithBlte}
use go_casclib.Archive.Span.RoundTrip.{decode_span-build_encoded_header}
use go_casclib.Archive.Writer.{Disk, Writer, Outcome, write_span, read_span}
use go_casclib.Archive.Writer.Healthy.{
  healthy, headed, length-headed, Written, Accepts, IsValid, write_span_lem, write_span_refuses,
  Accepts-cases,
}

-- A file only grows at its end.
abbrev pub Extends : Disk → Disk → Type 0
Extends old new = (n : ℕ) → (tail : Bytes) × (new n ≡ old n ++ tail)

Written-Extends :
    (disk : Disk) (blte ekey : Bytes) (o : Outcome) → Written disk blte ekey o → Extends disk o.disk
Written-Extends disk blte ekey o w n = elim (ℕ_discrete n w.segment) [
  | yes e ↦ rw e (headed ekey (length (disk w.segment)) blte, w.appended)
  | no ne ↦ ([], w.others n ne ∙ sym (append-nil (disk n)))
]

-- A span that can be read stays readable, with the same content, when the files grow.
pub read_span-Extends :
    (c : Codecs) (keys : Option (Bytes → ℕ → Result Bytes)) (overcome : Bool) (old new : Disk)
    (e : EKeyEntry) {content : Bytes}
    → Extends old new
    → read_span c keys overcome old e ≡ ok content
    → read_span c keys overcome new e ≡ ok content
unfolding read_span
read_span-Extends c keys overcome old new e grows h =
    let (tail, same) = grows e.archive_index in
    let (_, g1, h1) = >>=-eq-ok (guard (leb 30 e.encoded_size) bad_format) _ h in
    let (_, g2, h2) =
      >>=-eq-ok
        (guard (leb (e.archive_offs + e.encoded_size) (length (old e.archive_index))) foreign) _
        h1 in
    let big = guard-eq-ok (leb 30 e.encoded_size) bad_format g1 in
    let inside = leb→le _ _ (
      guard-eq-ok (leb (e.archive_offs + e.encoded_size) (length (old e.archive_index))) foreign
        g2) in
    let inside' =
      le→leb (e.archive_offs + e.encoded_size) (length (old e.archive_index ++ tail))
        (omega (arith, length-append (old e.archive_index) tail)) in
    rw
      (
        same,
        big,
        inside',
        slice-append_of_le e.archive_offs e.encoded_size (old e.archive_index) tail inside,
      )
      h2

-- Reading the place of a written span decodes the header and the span.
Written-read_span :
    (c : Codecs) (keys : Option (Bytes → ℕ → Result Bytes)) (overcome : Bool) (disk : Disk)
    (blte ekey : Bytes) (o : Outcome) (w : Written disk blte ekey o)
    → length (disk w.segment) + (30 + length blte) < 2 ^ 32
    → (e : EKeyEntry) × (o.result ≡ ok e)
      × (read_span c keys overcome o.disk e
          ≡ decode_span c keys overcome (headed ekey (length (disk w.segment)) blte))
unfolding read_span
Written-read_span c keys overcome disk blte ekey o w small =
    let file = disk w.segment in
    let span = headed ekey (length file) blte in
    let size = length-headed ekey blte (length file) in
    let offs : length file % 2 ^ 32 ≡ length file = omega arith in
    let total : (30 + length blte) % 2 ^ 32 ≡ 30 + length blte = omega arith in
    let big = le→leb 30 (30 + length blte) (omega arith) in
    let inside =
      le→leb (length file + (30 + length blte)) (length (file ++ span))
        (omega (arith, length-append file span)) in
    let piece : slice (length file) (30 + length blte) (file ++ span) ≡ ok span =
      rw append-nil at (slice-append (length file) (30 + length blte) file span [] refl size) in
    (_, w.entry, rw (w.appended, offs, total, big, inside, piece))

-- What is written can be read: the content that was encoded comes back by the entry that
-- `WriteSpan` returned. The codecs are as documented with no LZMA decoder, frame size and number fit
-- the header, the content has at most 2 ^ 48 bytes, the EKey does not end in "ETLB", the writer is at
-- the end of its file and accepts the span, no call of the system fails, and the place fits 32 bits.
pub read_span-write_span :
    (c : Codecs) (laws : IsCodecs c) (keys : Option (Bytes → ℕ → Result Bytes)) (overcome : Bool)
    (content : Bytes) (o : EncodeOptions) (e : Encoded) (w : Writer) (disk : Disk)
    → c.lzma_decoder ≡ none
    → encode c content o ≡ ok e
    → effective_frame_size o + 1 < 2 ^ 32
    → length (chunks_of (effective_frame_size o) content) < 2 ^ 24
    → length content ≤ max_alloc
    → ¬ StartsWithBlte e.ekey
    → IsValid w disk
    → Accepts w e.out
    → ((n : ℕ) → length (disk n) + (30 + length e.out) < 2 ^ 32)
    → (entry : EKeyEntry) × ((write_span healthy w disk e.out e.ekey).result ≡ ok entry)
      × (read_span c keys overcome (write_span healthy w disk e.out e.ekey).disk entry ≡ ok content)
read_span-write_span c laws keys overcome content o e w disk no_lzma h size few room plain v a
      small =
    let out = write_span healthy w disk e.out e.ekey in
    let written = write_span_lem w disk e.out e.ekey v a in
    let (entry, returned, reads) =
      Written-read_span c keys overcome disk e.out e.ekey out written (small written.segment) in
    let offs = length (disk written.segment) in
    let decoded =
      decode_span-build_encoded_header c laws no_lzma keys overcome content o e e.ekey
        (length e.out % 2 ^ 32) offs h size few room plain in
    (entry, returned, reads ∙ decoded)

-- A later call of `WriteSpan`, accepted or not, leaves every span readable that was, with the same
-- content, where the writer is at the end of its file and no call of the system fails.
pub read_span_later :
    (c : Codecs) (keys : Option (Bytes → ℕ → Result Bytes)) (overcome : Bool) (w : Writer)
    (disk : Disk) (blte ekey : Bytes) (entry : EKeyEntry) (content : Bytes)
    → IsValid w disk
    → read_span c keys overcome disk entry ≡ ok content
    → read_span c keys overcome (write_span healthy w disk blte ekey).disk entry ≡ ok content
read_span_later c keys overcome w disk blte ekey entry content v h =
    read_span-Extends c keys overcome disk _ entry grows h
  where
    grows : Extends disk (write_span healthy w disk blte ekey).disk
    grows = elim (Accepts-cases w blte) [
      | inl a ↦ Written-Extends disk blte ekey _ (write_span_lem w disk blte ekey v a)
      | inr r ↦
          let (_, same, _) = write_span_refuses healthy w disk blte ekey r in
          λ n. ([], ap (λ (d : Disk). d n) same ∙ sym (append-nil (disk n)))
    ]
