-- ===== src/Index/Header/Safety.antt =====
-- The headers and the guarded blocks of an index file, on any input.
use go_casclib.Common.{
  ℕ, ◌+◌, ◌*◌, ◌≤◌, ◌≡◌, ◌≢◌, Bool, true, ap, ◌∙◌, ◌==◌, ◌&&◌, not, leb, arith, [], ◌∷◌, ◌++◌, ok,
  guard, IsSafe, ok-IsSafe, guard-IsSafe, >>=-IsSafe, >>=-eq-ok, guard-eq-ok, leb→le, length,
  bad_format, file_corrupt, not_supported, panic,
}
use go_casclib.Binary.{
  Bytes, at, front, slice, at-IsSafe, front_size, front-IsSafe, slice-IsSafe, le_uint16_at,
  le_uint32_at, le_uint64_at, le_uint16_at-IsSafe, le_uint32_at-IsSafe, le_uint64_at-IsSafe,
}
use go_casclib.Hashes.{hash_little}
use go_casclib.Index.Entry.{entry_length}
use go_casclib.Index.Header.{
  Header, check_block, capture_v1, parse_header_v1, capture_guarded_block1, parse_header_v2,
}

pub corrupt_is_error : file_corrupt ≢ panic
corrupt_is_error e = cc

pub bad_is_error : bad_format ≢ panic
bad_is_error e = cc

check_block-IsSafe : (bs : Bytes) (off size hash : ℕ) → IsSafe (check_block bs off size hash)
unfolding check_block
check_block-IsSafe bs off size hash =
    guard-IsSafe (leb (off + size) (length bs)) file_corrupt _ corrupt_is_error λ fits.
      >>=-IsSafe (slice off size bs) _ (slice-IsSafe off size bs (ground arith)) λ block _.
        guard-IsSafe (hash_little block 0 == hash) file_corrupt _ corrupt_is_error λ _. ok-IsSafe _

capture_v1-IsSafe :
    (bs h : Bytes) (bucket : ℕ) → 48 ≤ length bs → length h ≡ 48 → IsSafe (capture_v1 bs h bucket)
unfolding capture_v1
capture_v1-IsSafe bs h bucket long size =
    >>=-IsSafe (le_uint16_at 0 h) _ (le_uint16_at-IsSafe 0 h (omega arith)) λ version _.
      guard-IsSafe (version == 5) bad_format _ bad_is_error λ _.
        >>=-IsSafe (at h 2) _ (at-IsSafe h 2 (omega arith)) λ stored _.
          guard-IsSafe (stored == bucket) bad_format _ bad_is_error λ _.
            >>=-IsSafe (le_uint64_at 8 h) _ (le_uint64_at-IsSafe 8 h (omega arith)) λ field8 _.
              guard-IsSafe (not (field8 == 0)) bad_format _ bad_is_error λ _.
                >>=-IsSafe (le_uint64_at 16 h) _ (le_uint64_at-IsSafe 16 h (omega arith))
                  λ segment _. >>=-IsSafe (at h 24) _ (at-IsSafe h 24 (omega arith)) λ a _.
                    >>=-IsSafe (at h 25) _ (at-IsSafe h 25 (omega arith)) λ b _.
                      >>=-IsSafe (at h 26) _ (at-IsSafe h 26 (omega arith)) λ c _.
                        >>=-IsSafe (at h 27) _ (at-IsSafe h 27 (omega arith)) λ d _.
                          guard-IsSafe (a == 4 && b == 5 && c == 9) not_supported _ (λ e. cc)
                            λ _.
                              >>=-IsSafe (le_uint32_at 28 h) _
                                (le_uint32_at-IsSafe 28 h (omega arith))
                                λ count1 _.
                                  >>=-IsSafe (le_uint32_at 32 h) _
                                    (le_uint32_at-IsSafe 32 h (omega arith))
                                    λ count2 _.
                                      >>=-IsSafe (le_uint32_at 44 bs) _
                                        (le_uint32_at-IsSafe 44 bs (omega arith))
                                        λ hash _.
                                          >>=-IsSafe (front 44 bs) _
                                            (front-IsSafe 44 bs (omega arith))
                                            λ hashed _.
                                              guard-IsSafe
                                                (hash_little (hashed ++ (0 ∷ 0 ∷ 0 ∷ 0 ∷ [])) 0
                                                  == hash)
                                                bad_format _ bad_is_error λ _. ok-IsSafe _

-- Whatever the bytes are, `parseHeaderV1` does not panic.
pub parse_header_v1-IsSafe : (bs : Bytes) (bucket : ℕ) → IsSafe (parse_header_v1 bs bucket)
unfolding parse_header_v1
parse_header_v1-IsSafe bs bucket =
    guard-IsSafe (leb 48 (length bs)) bad_format _ bad_is_error λ long.
      let long' = leb→le 48 (length bs) long in
      >>=-IsSafe (front 48 bs) _ (front-IsSafe 48 bs long') λ h read.
        let size = front_size 48 bs long' read in
        >>=-IsSafe (capture_v1 bs h bucket) _ (capture_v1-IsSafe bs h bucket long' size) λ hdr _.
          >>=-IsSafe (le_uint32_at 28 h) _ (le_uint32_at-IsSafe 28 h (omega arith)) λ count1 _.
            >>=-IsSafe (le_uint32_at 32 h) _ (le_uint32_at-IsSafe 32 h (omega arith)) λ count2 _.
              >>=-IsSafe (le_uint32_at 36 bs) _ (le_uint32_at-IsSafe 36 bs (omega arith)) λ hash1 _.
                >>=-IsSafe (le_uint32_at 40 bs) _ (le_uint32_at-IsSafe 40 bs (omega arith))
                  λ hash2 _.
                    >>=-IsSafe (check_block bs 48 (count1 * entry_length hdr.fields) hash1) _
                      (check_block-IsSafe bs _ _ _)
                      λ off _.
                        >>=-IsSafe (check_block bs off (count2 * entry_length hdr.fields) hash2) _
                          (check_block-IsSafe bs _ _ _) λ _ _. ok-IsSafe _

capture_guarded_block1-IsSafe : (bs : Bytes) → IsSafe (capture_guarded_block1 bs)
unfolding capture_guarded_block1
capture_guarded_block1-IsSafe bs =
    guard-IsSafe (leb 8 (length bs)) file_corrupt _ corrupt_is_error λ long.
      >>=-IsSafe (le_uint32_at 0 bs) _ (le_uint32_at-IsSafe 0 bs (ground arith)) λ size _.
        >>=-IsSafe (le_uint32_at 4 bs) _ (le_uint32_at-IsSafe 4 bs (ground arith)) λ hash _.
          guard-IsSafe (leb (8 + size) (length bs)) file_corrupt _ corrupt_is_error λ fits.
            >>=-IsSafe (slice 8 size bs) _ (slice-IsSafe 8 size bs (ground arith)) λ block _.
              guard-IsSafe (hash_little block 0 == hash) file_corrupt _ corrupt_is_error
                λ _. ok-IsSafe _

-- Whatever the bytes are, `parseHeaderV2` does not panic.
pub parse_header_v2-IsSafe : (bs : Bytes) (bucket : ℕ) → IsSafe (parse_header_v2 bs bucket)
unfolding parse_header_v2
parse_header_v2-IsSafe bs bucket =
    >>=-IsSafe (capture_guarded_block1 bs) _ (capture_guarded_block1-IsSafe bs) λ h _.
      guard-IsSafe (leb 16 (length h)) bad_format _ bad_is_error λ long.
        >>=-IsSafe (le_uint16_at 0 h) _ (le_uint16_at-IsSafe 0 h (ground arith)) λ version _.
          >>=-IsSafe (at h 2) _ (at-IsSafe h 2 (ground arith)) λ stored _.
            >>=-IsSafe (at h 3) _ (at-IsSafe h 3 (ground arith)) λ extra _.
              guard-IsSafe (version == 7 && stored == bucket && extra == 0) bad_format _
                bad_is_error
                λ _. >>=-IsSafe (at h 4) _ (at-IsSafe h 4 (ground arith)) λ a _.
                  >>=-IsSafe (at h 5) _ (at-IsSafe h 5 (ground arith)) λ b _.
                    >>=-IsSafe (at h 6) _ (at-IsSafe h 6 (ground arith)) λ c _.
                      >>=-IsSafe (at h 7) _ (at-IsSafe h 7 (ground arith)) λ d _.
                        guard-IsSafe (a == 4 && b == 5 && c == 9) bad_format _ bad_is_error λ _.
                          >>=-IsSafe (le_uint64_at 8 h) _ (le_uint64_at-IsSafe 8 h (ground arith))
                            λ segment _. ok-IsSafe _

capture_guarded_block1_lem :
    (bs block : Bytes) → capture_guarded_block1 bs ≡ ok block → (n : ℕ) × (slice 8 n bs ≡ ok block)
unfolding capture_guarded_block1
capture_guarded_block1_lem bs block h =
    let (_, _, h1) = >>=-eq-ok (guard (leb 8 (length bs)) file_corrupt) _ h in
    let (size, _, h2) = >>=-eq-ok (le_uint32_at 0 bs) _ h1 in
    let (hash, _, h3) = >>=-eq-ok (le_uint32_at 4 bs) _ h2 in
    let (_, _, h4) = >>=-eq-ok (guard (leb (8 + size) (length bs)) file_corrupt) _ h3 in
    let (found, e, h5) = >>=-eq-ok (slice 8 size bs) _ h4 in
    let (_, _, h6) = >>=-eq-ok (guard (hash_little found 0 == hash) file_corrupt) _ h5 in (size, cc)

-- Where a V2 header is accepted, its version stands behind the guarded block's two words.
pub parse_header_v2_version :
    (bs : Bytes) (bucket : ℕ) (hdr : Header)
    → parse_header_v2 bs bucket ≡ ok hdr
    → (n : ℕ) × (block : Bytes) × (slice 8 n bs ≡ ok block)
      × (16 ≤ length block)
      × (le_uint16_at 0 block ≡ ok 7)
unfolding parse_header_v2
parse_header_v2_version bs bucket hdr h =
    let (block, captured, h1) = >>=-eq-ok (capture_guarded_block1 bs) _ h in
    let (_, long, h2) = >>=-eq-ok (guard (leb 16 (length block)) bad_format) _ h1 in
    let (version, read, h3) = >>=-eq-ok (le_uint16_at 0 block) _ h2 in
    let (stored, _, h4) = >>=-eq-ok (at block 2) _ h3 in
    let (extra, _, h5) = >>=-eq-ok (at block 3) _ h4 in
    let (_, ok_version, _) =
      >>=-eq-ok (guard (version == 7 && stored == bucket && extra == 0) bad_format) _ h5 in
    let all_three =
      guard-eq-ok (version == 7 && stored == bucket && extra == 0) bad_format ok_version in
    let seven = version_is_seven version (stored == bucket) (extra == 0) all_three in
    let (n, e) = capture_guarded_block1_lem bs block captured in
    (n, block, e, leb→le 16 (length block) (guard-eq-ok _ bad_format long), read ∙ ap ok seven)
  where
    version_is_seven : (v : ℕ) (a b : Bool) → (v == 7 && a && b) ≡ true → v ≡ 7
    version_is_seven v a b h = ground arith
