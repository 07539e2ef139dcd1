-- ===== src/Archive/Writer/Healthy.antt =====
-- The writer where the operating system does not fail.
use go_casclib.Common.{
  ℕ, ◌+◌, ◌-◌, ◌%◌, ◌^◌, ◌≤◌, ◌≡◌, ◌≢◌, ◌⊎◌, refl, ap, ◌∙◌, arith, ltb, false, Bool-cases, inl, inr,
  Option, none, some, ◌++◌, Error, ok, err, invalid_handle, bad_format, not_supported, length,
  length-append, append-nil, append_assoc, take_all, drop_all,
}
use native.Mathlib.Decide.{dec_le}
use go_casclib.Binary.{Bytes}
use go_casclib.Archive.SpanHeader.{build_encoded_header}
use go_casclib.Archive.SpanHeader.Checksum.{length-build_encoded_header}
use go_casclib.Archive.Writer.{
  Disk, Writer, Faults, Outcome, write_at, update, write_bytes, append_span, open_segment,
  write_open, write_fitting, next_segment, write_span,
}

abbrev pub healthy : Faults
healthy = record { close_fails = false; open_fails = false; header_stops = none; span_stops = none }

-- An open segment is open at its end, where the next span goes.
abbrev pub AtEnd : Option ℕ → ℕ → Bytes → Type 0
AtEnd none offs file = Unit
AtEnd (some pos) offs file = (pos ≡ offs) × (offs ≡ length file)

abbrev pub IsValid : Writer → Disk → Type 0
IsValid w disk = AtEnd w.segment_file w.segment_offs (disk w.segment_index)

-- What a span and its header add to the file.
abbrev pub headed : Bytes → ℕ → Bytes → Bytes
headed ekey offs blte = build_encoded_header ekey (length blte % 2 ^ 32) offs ++ blte

-- The span was added behind one file and nothing else changed; the entry says where it is.
pub record Written (disk : Disk) (blte ekey : Bytes) (o : Outcome) : Type 0 where
  pub segment : ℕ
  pub appended : o.disk segment ≡ disk segment ++ headed ekey (length (disk segment)) blte
  pub others : (n : ℕ) → n ≢ segment → o.disk n ≡ disk n
  pub entry :
      o.result
      ≡ ok (record {
        ekey = ekey;
        archive_index = segment;
        archive_offs = length (disk segment) % 2 ^ 32;
        encoded_size = (30 + length blte) % 2 ^ 32;
      })
  pub valid : IsValid o.writer o.disk

pub write_at_end : (new file : Bytes) → write_at (length file) new file ≡ file ++ new
unfolding write_at
write_at_end new file =
    let none_missing : length file - length file ≡ 0 = omega arith in
    rw (
      take_all (length file) file (omega arith),
      drop_all (length file + length new) file (omega arith),
      none_missing,
      append-nil file,
      append-nil new,
    )

pub update_self : (disk : Disk) (n : ℕ) (file : Bytes) → update disk n file n ≡ file
unfolding update
update_self disk n file = ground arith

update_ne : (disk : Disk) (n m : ℕ) (file : Bytes) → m ≢ n → update disk n file m ≡ disk m
unfolding update
update_ne disk n m file h = ground arith

pub length-headed :
    (ekey blte : Bytes) (offs : ℕ) → length (headed ekey offs blte) ≡ 30 + length blte
length-headed ekey blte offs =
    let header = build_encoded_header ekey (length blte % 2 ^ 32) offs in
    omega (
      arith,
      length-append header blte,
      length-build_encoded_header ekey (length blte % 2 ^ 32) offs,
    )

-- Both writes go behind the file.
pub both_writes :
    (disk : Disk) (n : ℕ) (header blte : Bytes)
    → write_at
        (length (disk n) + length header)
        blte
        (update disk n (write_at (length (disk n)) header (disk n)) n)
      ≡ disk n ++ (header ++ blte)
both_writes disk n header blte =
    let file = disk n in
    let end : length file + length header ≡ length (file ++ header) =
      omega (arith, length-append file header) in
    rw (
      update_self disk n (write_at (length file) header file),
      write_at_end header file,
      end,
      write_at_end blte (file ++ header),
      append_assoc file header blte,
    )

append_span_lem :
    (w : Writer) (disk : Disk) (blte ekey : Bytes)
    → w.segment_offs ≡ length (disk w.segment_index)
    → Written disk blte ekey (append_span healthy w disk (length (disk w.segment_index)) blte ekey)
unfolding append_span write_bytes
append_span_lem w disk blte ekey e =
    let n = w.segment_index in
    let file = disk n in
    let header = build_encoded_header ekey (length blte % 2 ^ 32) w.segment_offs in
    let file1 = write_at (length file) header file in
    let disk1 = update disk n file1 in
    let file2 = write_at (length file + length header) blte (disk1 n) in
    let whole : update disk1 n file2 n ≡ file ++ headed ekey w.segment_offs blte =
      update_self disk1 n file2 ∙ both_writes disk n header blte in
    let size = length-append file (headed ekey w.segment_offs blte) in
    let size' = length-headed ekey blte w.segment_offs in
    record {
      segment = n;
      appended = whole ∙ ap (λ (t : ℕ). file ++ headed ekey t blte) e;
      others = λ m h. update_ne disk1 n m file2 h ∙ update_ne disk n m file1 h;
      entry =
          ap
            (λ (t : ℕ). ok (record {
              ekey = ekey;
              archive_index = n;
              archive_offs = t % 2 ^ 32;
              encoded_size = (30 + length blte) % 2 ^ 32;
            }))
            e;
      valid = (
        omega (arith, length-build_encoded_header ekey (length blte % 2 ^ 32) w.segment_offs),
        rw whole (omega arith),
      );
    }

write_open_lem :
    (w : Writer) (disk : Disk) (handle : Option ℕ) (blte ekey : Bytes)
    → AtEnd handle w.segment_offs (disk w.segment_index)
    → Written disk blte ekey (write_open healthy w disk handle blte ekey)
unfolding write_open open_segment
write_open_lem w disk (some pos) blte ekey (at, e) =
    rw (at ∙ e) (append_span_lem w disk blte ekey e)
write_open_lem w disk none blte ekey v =
    append_span_lem
      (record w {
        segment_file = some (length (disk w.segment_index));
        segment_offs = length (disk w.segment_index);
      })
      disk blte ekey refl

write_fitting_lem :
    (w : Writer) (disk : Disk) (handle : Option ℕ) (blte ekey : Bytes)
    → AtEnd handle w.segment_offs (disk w.segment_index)
    → Written disk blte ekey (write_fitting healthy w disk handle blte ekey)
unfolding write_fitting
write_fitting_lem w disk none blte ekey v = write_open_lem w disk none blte ekey v
write_fitting_lem w disk (some pos) blte ekey v =
    elim (Bool-cases (ltb w.segment_size (w.segment_offs + (30 + length blte)))) [
      | inl full ↦ rw full (write_open_lem (next_segment w) disk none blte ekey tt)
      | inr room ↦ rw room (write_open_lem w disk (some pos) blte ekey v)
    ]

-- What `WriteSpan` accepts: an open writer, a span with a BLTE prefix, which fits one segment.
pub record Accepts (w : Writer) (blte : Bytes) : Type 0 where
  pub is_open : w.closed ≡ false
  pub has_prefix : 8 ≤ length blte
  pub fits_segment : 30 + length blte ≤ w.segment_size

pub write_span_lem :
    (w : Writer) (disk : Disk) (blte ekey : Bytes)
    → IsValid w disk
    → Accepts w blte
    → Written disk blte ekey (write_span healthy w disk blte ekey)
unfolding write_span
write_span_lem w disk blte ekey v a =
    let long : ltb (length blte) 8 ≡ false = ground (arith, a.has_prefix) in
    let fits : ltb w.segment_size (30 + length blte) ≡ false = ground (arith, a.fits_segment) in
    simp (a.is_open, long, fits) (write_fitting_lem w disk w.segment_file blte ekey v)

-- A span that is not accepted, since the writer is closed, the span is shorter than 8 bytes or it is
-- longer than a segment, gets an error and changes neither the writer nor a file.
pub write_span_refuses :
    (faults : Faults) (w : Writer) (disk : Disk) (blte ekey : Bytes)
    → ¬ Accepts w blte
    → ((write_span faults w disk blte ekey).writer ≡ w)
      × ((write_span faults w disk blte ekey).disk ≡ disk)
      × ((e : Error) × ((write_span faults w disk blte ekey).result ≡ err e))
unfolding write_span
write_span_refuses faults w disk blte ekey h = elim (Bool-cases w.closed) [
  | inl shut ↦ rw shut (refl, refl, (invalid_handle, refl))
  | inr open_still ↦ elim (Bool-cases (ltb (length blte) 8)) [
    | inl short ↦ rw (open_still, short) (refl, refl, (bad_format, refl))
    | inr long ↦ elim (Bool-cases (ltb w.segment_size (30 + length blte))) [
      | inl big ↦ rw (open_still, long, big) (refl, refl, (not_supported, refl))
      | inr fits ↦ absurd (
          h (record {
            is_open = open_still;
            has_prefix = ground arith;
            fits_segment = ground arith;
          }))
    ]
  ]
]

pub Accepts-cases : (w : Writer) (blte : Bytes) → Accepts w blte ⊎ (¬ Accepts w blte)
Accepts-cases w blte = elim (Bool-cases w.closed) [
  | inl shut ↦ inr (λ a. cc (a.is_open))
  | inr open_still ↦ elim (dec_le 8 (length blte)) [
    | no short ↦ inr (λ a. short a.has_prefix)
    | yes long ↦ elim (dec_le (30 + length blte) w.segment_size) [
      | yes fits ↦ inl (record { is_open = open_still; has_prefix = long; fits_segment = fits })
      | no big ↦ inr (λ a. big a.fits_segment)
    ]
  ]
]
