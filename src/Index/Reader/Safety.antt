-- ===== src/Index/Reader/Safety.antt =====
-- `Parse` on any input: it never reads out of range.
use go_casclib.Common.{
  ℕ, zero, suc, ◌+◌, ◌-◌, ◌*◌, ◌/◌, ◌≤◌, ◌≡◌, refl, ap, leb, ltb, min, arith, List, [], ok, err,
  Result, IsSafe, ok-IsSafe, guard-IsSafe, if-IsSafe, >>=-IsSafe, length, file_corrupt, panic,
}
use go_casclib.Binary.{
  slice-IsSafe, Bytes, front, back, slice, slice_size, back_size, front-IsSafe, back-IsSafe,
}
use go_casclib.Index.Entry.{EKeyEntry, EntryFields, entry_length, decode_entry}
use go_casclib.Index.Header.{
  Header, parse_header_v1, parse_header_v2, capture_guarded_block2, capture_guarded_block3,
}
use go_casclib.Index.Header.Safety.{
  parse_header_v1-IsSafe, parse_header_v2-IsSafe, corrupt_is_error,
}
use go_casclib.Index.Header.Lengths.{
  HasLengths, FieldsHold, entry_length_18, parse_header_v1-HasLengths, parse_header_v2-FieldsHold,
}
use go_casclib.Index.Header.Blocks.{
  capture_guarded_block2-IsSafe, capture_guarded_block3-IsSafe, capture_guarded_block3_size,
}
use go_casclib.Index.Reader.{
  aligned_entry, load_loop, load_entries_v1, load_block, page_entry, load_page, load_pages,
  load_paged, load_captured, load_entries_v2, parse_from, parse,
}

decode_entry-IsSafe :
    (b : Bytes) (f : EntryFields) → HasLengths f → 18 ≤ length b → IsSafe (decode_entry b f)
unfolding decode_entry
decode_entry-IsSafe b f l long =
    >>=-IsSafe (front f.ekey_length b) _ (front-IsSafe f.ekey_length b (omega (arith, l.nine)))
      λ key _.
        >>=-IsSafe (slice f.ekey_length f.storage_offset_length b) _
          (slice-IsSafe f.ekey_length f.storage_offset_length b (omega (arith, l.nine, l.five)))
          λ storage _.
            >>=-IsSafe (slice (f.ekey_length + f.storage_offset_length) f.encoded_size_length b) _
              (slice-IsSafe (f.ekey_length + f.storage_offset_length) f.encoded_size_length b
                (omega (arith, l.nine, l.five, l.four)))
              λ size _. ok-IsSafe _

load_loop-IsSafe :
    (n off : ℕ) (bs : Bytes) (f : EntryFields)
    → HasLengths f
    → off + n * 18 ≤ length bs
    → IsSafe (load_loop n off bs f)
unfolding load_loop
load_loop-IsSafe zero off bs f l h = ok-IsSafe []
load_loop-IsSafe (suc n) off bs f l h =
    let e = entry_length_18 f l in
    >>=-IsSafe (slice off (entry_length f) bs) _
      (slice-IsSafe off (entry_length f) bs (omega arith))
      λ bytes read.
        >>=-IsSafe (decode_entry bytes f) _
          (decode_entry-IsSafe bytes f l
            (omega (arith, slice_size off (entry_length f) bs (omega arith) read)))
          λ entry _.
            >>=-IsSafe (load_loop n (off + entry_length f) bs f) _
              (load_loop-IsSafe n (off + entry_length f) bs f l (omega arith)) λ rest _. ok-IsSafe _

load_entries_v1-IsSafe :
    (bs : Bytes) (h : Header) → HasLengths h.fields → IsSafe (load_entries_v1 bs h)
unfolding load_entries_v1
load_entries_v1-IsSafe bs h l =
    guard-IsSafe
      (leb (h.header_length + h.header_padding + h.ekey_count * entry_length h.fields) (length bs))
      file_corrupt _ corrupt_is_error
      λ fits.
        load_loop-IsSafe h.ekey_count (h.header_length + h.header_padding) bs h.fields l
          (let e = entry_length_18 h.fields l in ground (arith, e))

load_block-IsSafe :
    (n i : ℕ) (bs : Bytes) (f : EntryFields)
    → HasLengths f
    → (i + n) * 18 ≤ length bs
    → IsSafe (load_block n i bs f)
unfolding load_block
load_block-IsSafe zero i bs f l h = ok-IsSafe []
load_block-IsSafe (suc n) i bs f l h =
    let e = entry_length_18 f l in
    let at_entry : i * entry_length f ≡ i * 18 = ap (λ (t : ℕ). i * t) e in
    >>=-IsSafe (back (i * entry_length f) bs) _ (back-IsSafe (i * entry_length f) bs (omega arith))
      λ bytes read.
        >>=-IsSafe (decode_entry bytes f) _
          (decode_entry-IsSafe bytes f l
            (omega (arith, back_size (i * entry_length f) bs (omega arith) read)))
          λ entry _.
            >>=-IsSafe (load_block n (i + 1) bs f) _
              (load_block-IsSafe n (i + 1) bs f l (omega arith)) λ rest _. ok-IsSafe _

page_entry-IsSafe :
    (block : Result Bytes) (f : EntryFields) (next : Result (List EKeyEntry))
    → HasLengths f
    → IsSafe block
    → ((b : Bytes) → block ≡ ok b → length b ≡ 18)
    → IsSafe next
    → IsSafe (page_entry block f next)
unfolding page_entry
page_entry-IsSafe (ok bytes) f next l s size h =
    >>=-IsSafe (decode_entry bytes f) _
      (decode_entry-IsSafe bytes f l (let e = size bytes refl in omega arith))
      λ entry _. >>=-IsSafe next _ h λ rest _. ok-IsSafe _
page_entry-IsSafe (err panic) f next l s size h = absurd (s.ne_panic refl)
page_entry-IsSafe (err _) f next l s size h = ok-IsSafe []

load_page-IsSafe :
    (fuel p page_end : ℕ) (bs : Bytes) (f : EntryFields)
    → HasLengths f
    → page_end ≤ length bs
    → IsSafe (load_page fuel p page_end bs f)
unfolding load_page
load_page-IsSafe zero p page_end bs f l h = ok-IsSafe []
load_page-IsSafe (suc fuel) p page_end bs f l h =
    let next = load_page-IsSafe fuel (p + 4 + aligned_entry f) page_end bs f l h in
    let e = entry_length_18 f l in
    if-IsSafe (leb (p + 4 + entry_length f) page_end) _ _
      (λ fits.
        >>=-IsSafe (slice p (page_end - p) bs) _
          (slice-IsSafe p (page_end - p) bs (ground (arith, e)))
          λ window _.
            page_entry-IsSafe (capture_guarded_block3 window (entry_length f)) f _ l
              (rw e (capture_guarded_block3-IsSafe window))
              (λ b read. capture_guarded_block3_size window (rw e at read)) next)
      (λ _. ok-IsSafe [])

load_pages-IsSafe :
    (fuel start : ℕ) (bs : Bytes) (f : EntryFields)
    → HasLengths f
    → IsSafe (load_pages fuel start bs f)
unfolding load_pages
load_pages-IsSafe zero start bs f l = ok-IsSafe []
load_pages-IsSafe (suc fuel) start bs f l =
    let rest = load_pages-IsSafe fuel (start + 0x1000) bs f l in
    if-IsSafe (ltb start (length bs)) _ _
      (λ _.
        >>=-IsSafe (load_page (length bs) start (min (start + 0x1000) (length bs)) bs f) _
          (load_page-IsSafe (length bs) start (min (start + 0x1000) (length bs)) bs f l
            (omega arith))
          λ page _.
            >>=-IsSafe (load_pages fuel (start + 0x1000) bs f) _ rest λ others _. ok-IsSafe _)
      (λ _. ok-IsSafe [])

load_paged-IsSafe : (bs : Bytes) (h : Header) → HasLengths h.fields → IsSafe (load_paged bs h)
unfolding load_paged
load_paged-IsSafe bs h l =
    guard-IsSafe (leb (0x1000 + 0x7800) (length bs)) file_corrupt _ corrupt_is_error
      λ _. load_pages-IsSafe (length bs) 0x1000 bs h.fields l

load_captured-IsSafe :
    (block : Result Bytes) (bs : Bytes) (h : Header)
    → HasLengths h.fields
    → IsSafe block
    → IsSafe (load_captured block bs h)
unfolding load_captured
load_captured-IsSafe (ok payload) bs h l s =
    let e = entry_length_18 h.fields l in
    load_block-IsSafe (length payload / entry_length h.fields) 0 payload h.fields l
      (rw e (omega arith))
load_captured-IsSafe (err panic) bs h l s = absurd (s.ne_panic refl)
load_captured-IsSafe (err _) bs h l s = load_paged-IsSafe bs h l

load_entries_v2-IsSafe :
    (bs : Bytes) (h : Header) → HasLengths h.fields → IsSafe (load_entries_v2 bs h)
unfolding load_entries_v2
load_entries_v2-IsSafe bs h l =
    if-IsSafe (ltb (h.header_length + h.header_padding) (length bs)) _ _
      (λ inside.
        >>=-IsSafe (back (h.header_length + h.header_padding) bs) _
          (back-IsSafe (h.header_length + h.header_padding) bs (ground arith))
          λ block _.
            load_captured-IsSafe (capture_guarded_block2 block (entry_length h.fields)) bs h l
              (rw (entry_length_18 h.fields l) (capture_guarded_block2-IsSafe block)))
      (λ _. load_paged-IsSafe bs h l)

parse_from-IsSafe :
    (first : Result Header) (bs : Bytes) (bucket : ℕ)
    → IsSafe first
    → FieldsHold first
    → IsSafe (parse_from first bs bucket)
unfolding parse_from
parse_from-IsSafe (ok hdr) bs bucket s l =
    >>=-IsSafe (load_entries_v2 bs hdr) _ (load_entries_v2-IsSafe bs hdr l) λ entries _. ok-IsSafe _
parse_from-IsSafe (err panic) bs bucket s l = absurd (s.ne_panic refl)
parse_from-IsSafe (err _) bs bucket s l =
    >>=-IsSafe (parse_header_v1 bs bucket) _ (parse_header_v1-IsSafe bs bucket) λ hdr read.
      >>=-IsSafe (load_entries_v1 bs hdr) _
        (load_entries_v1-IsSafe bs hdr (parse_header_v1-HasLengths bs bucket read))
        λ entries _. ok-IsSafe _

-- Whatever the bytes of an index file and the bucket are, `Parse` does not panic, in either version
-- and in either layout of the second.
pub parse-IsSafe : (bs : Bytes) (bucket : ℕ) → IsSafe (parse bs bucket)
unfolding parse
parse-IsSafe bs bucket =
    parse_from-IsSafe (parse_header_v2 bs bucket) bs bucket (parse_header_v2-IsSafe bs bucket)
      (parse_header_v2-FieldsHold bs bucket)
