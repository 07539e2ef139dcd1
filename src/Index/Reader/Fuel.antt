-- ===== src/Index/Reader/Fuel.antt =====
-- The two loops over the pages of an index file of version 2, as relations without fuel: both loops
-- end, and what they return is what the relations say.
use go_casclib.Common.{
  ℕ, zero, suc, ◌+◌, ◌-◌, ◌/◌, ◌%◌, ◌^◌, ◌≤◌, ◌<◌, ◌≡◌, refl, arith, leb, ltb, min, inl, inr,
  Bool-cases, List, [], ◌∷◌, ◌++◌, Error, Result, ok, err, panic, IsSafe, length, take, drop,
}
use go_casclib.Binary.{Bytes, padded, front-take, slice-take-drop}
use go_casclib.Index.Entry.{EKeyEntry, EntryFields, entry_length, read_be, decode_entry}
use go_casclib.Index.Header.{capture_guarded_block3}
use go_casclib.Index.Header.Lengths.{HasLengths, entry_length_18}
use go_casclib.Index.Header.Blocks.{capture_guarded_block3-IsSafe, capture_guarded_block3_size}
use go_casclib.Index.Reader.{aligned_entry, page_entry, load_page, load_pages}

-- The entry of 18 bytes that a guarded block at a place of a page holds.
abbrev pub block_at : Bytes → ℕ → ℕ → Result Bytes
block_at bs page_end p = capture_guarded_block3 (take (page_end - p) (drop p bs)) 18

-- The entries of a page from `p` on: a slot has 24 bytes, of which a hash of 4 and an entry of 18
-- must lie in the page, and the first slot that is no guarded block ends the page.
pub data PageReads (bs : Bytes) (f : EntryFields) (page_end : ℕ) : ℕ → List EKeyEntry → Type 0 where
  page_full : (p : ℕ) → page_end < p + 22 → PageReads bs f page_end p []
  bad_slot :
      (p : ℕ) (e : Error)
      → p + 22 ≤ page_end
      → block_at bs page_end p ≡ err e
      → PageReads bs f page_end p []
  good_slot :
      (p : ℕ) (bytes : Bytes) (entry : EKeyEntry) (entries : List EKeyEntry)
      → p + 22 ≤ page_end
      → block_at bs page_end p ≡ ok bytes
      → decode_entry bytes f ≡ ok entry
      → PageReads bs f page_end (p + 24) entries
      → PageReads bs f page_end p (entry ∷ entries)

-- The entries of the pages of 4096 bytes from `start` to the end of the file.
pub data FileReads (bs : Bytes) (f : EntryFields) : ℕ → List EKeyEntry → Type 0 where
  file_end : (start : ℕ) → length bs ≤ start → FileReads bs f start []
  one_page :
      (start : ℕ) (page rest : List EKeyEntry)
      → start < length bs
      → PageReads bs f (min (start + 4096) (length bs)) start page
      → FileReads bs f (start + 4096) rest
      → FileReads bs f start (page ++ rest)

decode_entry_reads :
    (b : Bytes) (f : EntryFields)
    → HasLengths f
    → length b ≡ 18
    → (entry : EKeyEntry) × (decode_entry b f ≡ ok entry)
unfolding decode_entry
decode_entry_reads b f l long =
    let key = front-take f.ekey_length b (omega (arith, l.nine)) in
    let storage =
      slice-take-drop f.ekey_length f.storage_offset_length b (omega (arith, l.nine, l.five)) in
    let size =
      slice-take-drop (f.ekey_length + f.storage_offset_length) f.encoded_size_length b
        (omega (arith, l.nine, l.five, l.four)) in
    let store = take f.storage_offset_length (drop f.ekey_length b) in
    let length_bytes =
      take f.encoded_size_length (drop (f.ekey_length + f.storage_offset_length) b) in
    let entry : EKeyEntry = record {
      ekey = padded 16 (take f.ekey_length b);
      archive_index = read_be store / 2 ^ f.file_offset_bits % 2 ^ 32;
      archive_offs = read_be store % 2 ^ f.file_offset_bits % 2 ^ 32;
      encoded_size = read_be length_bytes % 2 ^ 32;
    } in
    (entry, rw (key, storage, size) refl)

-- One round of the loop over a page.
abbrev Reads : Bytes → EntryFields → ℕ → ℕ → Result (List EKeyEntry) → Type 0
Reads bs f page_end p r = (es : List EKeyEntry) × (r ≡ ok es) × PageReads bs f page_end p es

page_entry-Reads :
    (bs : Bytes) (f : EntryFields) (page_end p : ℕ) (block : Result Bytes)
    (next : Result (List EKeyEntry))
    → HasLengths f
    → p + 22 ≤ page_end
    → block_at bs page_end p ≡ block
    → IsSafe block
    → ((b : Bytes) → block ≡ ok b → length b ≡ 18)
    → Reads bs f page_end (p + 24) next
    → Reads bs f page_end p (page_entry block f next)
unfolding page_entry
page_entry-Reads bs f page_end p (ok bytes) next l fits at safe size (es, returned, reads) =
    let (entry, decoded) = decode_entry_reads bytes f l (size bytes refl) in
    (entry ∷ es, rw (decoded, returned) refl, good_slot p bytes entry es fits at decoded reads)
page_entry-Reads bs f page_end p (err panic) next l fits at safe size h =
    absurd (safe.ne_panic refl)
page_entry-Reads bs f page_end p (err e) next l fits at safe size h =
    ([], refl, bad_slot p e fits at)

-- With fuel for the bytes that are left, the loop over a page ends as the page does.
load_page-Reads :
    (fuel p page_end : ℕ) (bs : Bytes) (f : EntryFields)
    → HasLengths f
    → page_end ≤ length bs
    → page_end ≤ p + fuel
    → Reads bs f page_end p (load_page fuel p page_end bs f)
unfolding load_page
load_page-Reads zero p page_end bs f l inside enough = ([], refl, page_full p (omega arith))
load_page-Reads (suc fuel) p page_end bs f l inside enough =
    elim (Bool-cases (leb (p + 4 + entry_length f) page_end)) [
      | inl fits ↦
          let e = entry_length_18 f l in
          let room : p + 22 ≤ page_end = ground (arith, fits, e) in
          let step : p + 4 + aligned_entry f ≡ p + 24 = omega (arith, e) in
          let next = rw step at (
            load_page-Reads fuel (p + 4 + aligned_entry f) page_end bs f l inside
              (omega (arith, step))) in
          let window = slice-take-drop p (page_end - p) bs (omega arith) in
          let block = take (page_end - p) (drop p bs) in
          rw (fits, window, step, e)
            (page_entry-Reads bs f page_end p (capture_guarded_block3 block 18)
              (load_page fuel (p + 24) page_end bs f) l room refl
              (capture_guarded_block3-IsSafe block)
              (λ b read. capture_guarded_block3_size block read) next)
      | inr full ↦
          let e = entry_length_18 f l in ([], rw full refl, page_full p (ground (arith, full, e)))
    ]

-- For the field lengths that a header can have, both loops over the pages of a version 2 file end on
-- any bytes: with the length of the file as fuel they return what the pages hold. From each page of
-- 4096 bytes these are the entries of its slots of 24 bytes, up to the first slot that is no guarded
-- block or does not fit the page.
pub load_pages-FileReads :
    (bs : Bytes) (f : EntryFields) (start : ℕ)
    → HasLengths f
    → (es : List EKeyEntry) × (load_pages (length bs) start bs f ≡ ok es) × FileReads bs f start es
unfolding load_pages
load_pages-FileReads bs f start l = load_pages_reads (length bs) start (omega arith)
  where
    load_pages_reads :
        (fuel start : ℕ)
        → length bs ≤ start + fuel
        → (es : List EKeyEntry) × (load_pages fuel start bs f ≡ ok es) × FileReads bs f start es
    load_pages_reads zero start enough = ([], refl, file_end start (omega arith))
    load_pages_reads (suc fuel) start enough = elim (Bool-cases (ltb start (length bs))) [
      | inl more ↦
          let page_end = min (start + 0x1000) (length bs) in
          let (page, returned, reads) =
            load_page-Reads (length bs) start page_end bs f l (omega arith) (omega arith) in
          let (rest, later, others) = load_pages_reads fuel (start + 0x1000) (omega arith) in
          (
            page ++ rest,
            rw (more, returned, later) refl,
            one_page start page rest (ground (arith, more)) reads others,
          )
      | inr done ↦ ([], rw done refl, file_end start (ground (arith, done)))
    ]
