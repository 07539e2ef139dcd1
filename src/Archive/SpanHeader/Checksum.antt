-- ===== src/Archive/SpanHeader/Checksum.antt =====
-- The checksum of a span header, as `VerifyHeaderSpan` of the reference implementation reads it.
use go_casclib.Common.{
  ℕ, ◌+◌, ◌≡◌, refl, ◌∙◌, arith, length, [], ◌∷◌, ◌++◌, All, All-set, All-get_or, All-append,
  length-set, bit_xor, bit_and, get_or, set,
}
use go_casclib.Binary.{Bytes, IsByte, put_le_uint32}
use go_casclib.Bits.{bit_xor_cancel_left, bit_xor-byte}
use go_casclib.Hashes.{hash_little}
use go_casclib.Archive.SpanHeader.{
  xor_lanes, no_lanes, checksum, reversed, checked_part, hashed_part, jenkins_initval,
  encoded_offset_bytes, build_encoded_header,
}

pub length-build_encoded_header :
    (ekey : Bytes) (n off : ℕ) → length (build_encoded_header ekey n off) ≡ 30
unfolding build_encoded_header
length-build_encoded_header ekey n off = omega arith

xor_lanes-append :
    (xs ys hashed : Bytes) (i j : ℕ)
    → i + length xs ≡ j
    → xor_lanes i (xs ++ ys) hashed ≡ xor_lanes j ys (xor_lanes i xs hashed)
unfolding xor_lanes
xor_lanes-append [] ys hashed i j e = let e' : i ≡ j = omega arith in rw e'
xor_lanes-append (x ∷ xs) ys hashed i j e = xor_lanes-append xs ys _ (i + 1) j (omega arith)

-- Four bytes stay four bytes.
xor_lanes-IsByte :
    (xs hashed : Bytes) (i : ℕ)
    → All IsByte xs
    → All IsByte hashed
    → length hashed ≡ 4
    → All IsByte (xor_lanes i xs hashed) × (length (xor_lanes i xs hashed) ≡ 4)
unfolding xor_lanes
xor_lanes-IsByte [] hashed i h k four = (k, four)
xor_lanes-IsByte (x ∷ xs) hashed i (b, h) k four =
    let lane = bit_and i 3 in
    let old : IsByte (get_or hashed lane 0) = All-get_or IsByte hashed lane 0 (omega arith) k in
    let new = bit_xor (get_or hashed lane 0) x in
    xor_lanes-IsByte xs (set hashed lane new) (i + 1) h
      (All-set IsByte hashed lane new (bit_xor-byte _ x old b) k)
      (omega (arith, length-set hashed lane new))

xor_lanes-checksum :
    (hashed offset : Bytes)
    → All IsByte hashed
    → length hashed ≡ 4
    → All IsByte offset
    → length offset ≡ 4
    → xor_lanes 26 (checksum hashed offset) hashed ≡ offset
unfolding xor_lanes
xor_lanes-checksum (a ∷ b ∷ c ∷ d ∷ []) (p ∷ q ∷ r ∷ s ∷ []) (ha, (hb, (hc, (hd, _)))) four
      (hp, (hq, (hr, (hs, _)))) four' =
    rw (
      bit_xor_cancel_left 8 c r hc hr,
      bit_xor_cancel_left 8 d s hd hs,
      bit_xor_cancel_left 8 a p ha hp,
      bit_xor_cancel_left 8 b q hb hq,
    )
xor_lanes-checksum _ _ h four k four' = absurd (omega arith)

reversed-IsByte : (ekey : Bytes) → All IsByte ekey → All IsByte (reversed ekey)
reversed-IsByte ekey h =
    let r = λ (i : ℕ). All-get_or IsByte ekey i 0 (omega arith) h in
    (
      r 15,
      (
        r 14,
        (
          r 13,
          (
            r 12,
            (
              r 11,
              (r 10, (r 9, (r 8, (r 7, (r 6, (r 5, (r 4, (r 3, (r 2, (r 1, (r 0, tt))))))))))),
            ),
          ),
        ),
      ),
    )

checked_part-IsByte : (ekey : Bytes) (n : ℕ) → All IsByte ekey → All IsByte (checked_part ekey n)
checked_part-IsByte ekey n h =
    let jh = hash_little (hashed_part ekey n) jenkins_initval in
    let behind = put_le_uint32 n ++ (0 ∷ 0 ∷ put_le_uint32 jh) in
    All-append IsByte (reversed ekey) behind (reversed-IsByte ekey h) (omega arith)

-- The exclusive or of the thirty bytes of a header, in four lanes, is the encoded place of the
-- signature behind it: the checksum ties a header to the offset where it was written.
pub xor_lanes-build_encoded_header :
    (ekey : Bytes) (n off : ℕ)
    → All IsByte ekey
    → xor_lanes 0 (build_encoded_header ekey n off) no_lanes ≡ encoded_offset_bytes off
unfolding build_encoded_header
xor_lanes-build_encoded_header ekey n off h =
    let hdr = checked_part ekey n in
    let hashed = xor_lanes 0 hdr no_lanes in
    let (bytes, four) =
      xor_lanes-IsByte hdr no_lanes 0 (checked_part-IsByte ekey n h) (omega arith) refl in
    xor_lanes-append hdr (checksum hashed (encoded_offset_bytes off)) no_lanes 0 26 refl
    ∙ xor_lanes-checksum hashed (encoded_offset_bytes off) bytes four (omega arith) refl
