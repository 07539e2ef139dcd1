-- ===== src/Datafile/Header/Safety.antt =====
-- `ParseHeader` on any input: it never reads out of range, and what it returns fits the input.
use go_casclib.Common.{
  ℕ, zero, suc, ◌+◌, ◌*◌, ◌≤◌, ◌≡◌, refl, ◌==◌, leb, ◌&&◌, ok, IsSafe, >>=-IsSafe, guard-IsSafe,
  if-IsSafe, ok-IsSafe, length, arith, Bool-cases, inl, inr, List, [], ◌∷◌, IsSafe-ok, >>=-eq-ok,
  guard-eq-ok, guard, bad_format, ◌⊎◌,
}
use go_casclib.Binary.{
  Bytes, at, be_uint32_at, be_uint24_at, le_uint32_at, be_uint32_at_reads, be_uint32_at-IsSafe,
  be_uint24_at-IsSafe, le_uint32_at-IsSafe, at-IsSafe, slice-take-drop,
}
use go_casclib.Datafile.Header.{
  Frame, Header, parse_frame, parse_frames, parse_table, parse_header, blte_signature, single_frame,
}

parse_frame_reads :
    (bs : Bytes) (i : ℕ) → 12 + (i + 1) * 24 ≤ length bs → (f : Frame) × (parse_frame bs i ≡ ok f)
parse_frame_reads bs i h =
    let (a, e) = be_uint32_at_reads (12 + i * 24) bs (omega arith) in
    let (b, e') = be_uint32_at_reads (12 + i * 24 + 4) bs (omega arith) in
    let e'' = slice-take-drop (12 + i * 24 + 8) 16 bs (omega arith) in rw (e, e', e'') (_, refl)

parse_frames_reads :
    (n i : ℕ) (bs : Bytes)
    → 12 + (i + n) * 24 ≤ length bs
    → (fs : List Frame) × (parse_frames n i bs ≡ ok fs) × (length fs ≡ n)
unfolding parse_frames
parse_frames_reads zero i bs h = ([], refl, refl)
parse_frames_reads (suc n) i bs h =
    let (f, e) = parse_frame_reads bs i (omega arith) in
    let (fs, e', l) = parse_frames_reads n (i + 1) bs (omega arith) in
    (f ∷ fs, ground arith, ground arith)

parse_table-IsSafe : (bs : Bytes) (n : ℕ) → IsSafe (parse_table bs n)
unfolding parse_table
parse_table-IsSafe bs n =
    guard-IsSafe (leb 12 n && leb n (length bs)) bad_format _ (λ e. cc)
      λ fits. >>=-IsSafe (at bs 8) _ (at-IsSafe bs 8 (ground arith)) λ flags _.
        guard-IsSafe (flags == 0x0f) bad_format _ (λ e. cc)
          λ _. >>=-IsSafe (be_uint24_at 9 bs) _ (be_uint24_at-IsSafe 9 bs (ground arith)) λ count _.
            guard-IsSafe (leb (12 + count * 24) n) bad_format _ (λ e. cc)
              λ holds.
                let (fs, e, _) = parse_frames_reads count 0 bs (ground arith) in
                >>=-IsSafe (parse_frames count 0 bs) _ (IsSafe-ok _ e) λ frames _. ok-IsSafe _

-- Whatever the bytes are, `ParseHeader` does not panic: it reads nothing out of range.
pub parse_header-IsSafe : (bs : Bytes) → IsSafe (parse_header bs)
unfolding parse_header
parse_header-IsSafe bs =
    guard-IsSafe (leb 8 (length bs)) bad_format _ (λ e. cc)
      λ long. >>=-IsSafe (le_uint32_at 0 bs) _ (le_uint32_at-IsSafe 0 bs (ground arith)) λ sig _.
        guard-IsSafe (sig == blte_signature) bad_format _ (λ e. cc)
          λ _.
            >>=-IsSafe (be_uint32_at 4 bs) _ (be_uint32_at-IsSafe 4 bs (ground arith))
              λ n _. if-IsSafe (n == 0) _ _ (λ _. ok-IsSafe _) (λ _. parse_table-IsSafe bs n)

-- The table of a header that was parsed lies inside the header, and the header inside the input.
pub record HasTable (bs : Bytes) (hdr : Header) : Type 0 where
  pub has_prefix : 12 ≤ hdr.header_size
  pub in_input : hdr.header_size ≤ length bs
  pub table_fits : 12 + hdr.frame_count * 24 ≤ hdr.header_size
  pub all_frames : length hdr.frames ≡ hdr.frame_count
  pub payload_follows : hdr.data_offset ≡ hdr.header_size

length-parse_frames :
    (n i : ℕ) (bs : Bytes) {fs : List Frame} → parse_frames n i bs ≡ ok fs → length fs ≡ n
unfolding parse_frames
length-parse_frames zero i bs h = ground arith
length-parse_frames (suc n) i bs h =
    let (f, e, g) = >>=-eq-ok (parse_frame bs i) _ h in
    let (rest, e', k) = >>=-eq-ok (parse_frames n (i + 1) bs) _ g in
    ground (arith, length-parse_frames n (i + 1) bs e')

parse_table_lem : (bs : Bytes) (n : ℕ) {hdr : Header} → parse_table bs n ≡ ok hdr → HasTable bs hdr
unfolding parse_table
parse_table_lem bs n h =
    let (_, fits, h1) = >>=-eq-ok (guard (leb 12 n && leb n (length bs)) bad_format) _ h in
    let (flags, _, h2) = >>=-eq-ok (at bs 8) _ h1 in
    let (_, _, h3) = >>=-eq-ok (guard (flags == 0x0f) bad_format) _ h2 in
    let (count, _, h4) = >>=-eq-ok (be_uint24_at 9 bs) _ h3 in
    let (_, holds, h5) = >>=-eq-ok (guard (leb (12 + count * 24) n) bad_format) _ h4 in
    let (fs, read, h6) = >>=-eq-ok (parse_frames count 0 bs) _ h5 in
    let a = guard-eq-ok (leb 12 n && leb n (length bs)) bad_format fits in
    let b = guard-eq-ok (leb (12 + count * 24) n) bad_format holds in
    ground (arith, length-parse_frames count 0 bs read)

-- A header that `ParseHeader` returns is the one without a table, for an input of 8 bytes or more,
-- or its table fits the header and the header fits the input.
pub parse_header_lem :
    (bs : Bytes) (hdr : Header)
    → parse_header bs ≡ ok hdr
    → ((hdr ≡ single_frame) × (8 ≤ length bs)) ⊎ HasTable bs hdr
unfolding parse_header
parse_header_lem bs hdr h =
    let (_, long, h1) = >>=-eq-ok (guard (leb 8 (length bs)) bad_format) _ h in
    let (sig, _, h2) = >>=-eq-ok (le_uint32_at 0 bs) _ h1 in
    let (_, _, h3) = >>=-eq-ok (guard (sig == blte_signature) bad_format) _ h2 in
    let (n, _, h4) = >>=-eq-ok (be_uint32_at 4 bs) _ h3 in
    let a = guard-eq-ok (leb 8 (length bs)) bad_format long in
    elim (Bool-cases (n == 0)) [
      | inl none_left ↦ inl (ground arith)
      | inr table ↦ inr (parse_table_lem bs n (rw table at h4))
    ]
