-- ===== src/Index/Header/Blocks.antt =====
-- The guarded blocks with entries of 18 bytes, on any input.
use go_casclib.Common.{
  ℕ, bit_or, zero, suc, ◌+◌, ◌*◌, ◌/◌, ◌≤◌, ◌≡◌, ◌==◌, not, leb, arith, ok, guard, IsSafe,
  ok-IsSafe, err-IsSafe, guard-IsSafe, if-IsSafe, >>=-IsSafe, >>=-eq-ok, guard-eq-ok, leb→le,
  length, file_corrupt,
}
use go_casclib.Binary.{slice-IsSafe, Bytes, slice, slice_size, le_uint32_at, le_uint32_at-IsSafe}
use go_casclib.Hashes.{hash_little, hash_little2}
use go_casclib.Index.Header.{
  hash_entries2, hash_entries, capture_guarded_block2, capture_guarded_block3,
}
use go_casclib.Index.Header.Safety.{corrupt_is_error}

hash_entries2-IsSafe :
    (n i : ℕ) (payload : Bytes) (hash : ℕ × ℕ)
    → (i + n) * 18 ≤ length payload
    → IsSafe (hash_entries2 n i 18 payload hash)
unfolding hash_entries2
hash_entries2-IsSafe zero i payload hash h = ok-IsSafe hash
hash_entries2-IsSafe (suc n) i payload hash h =
    >>=-IsSafe (slice (i * 18) 18 payload) _ (slice-IsSafe (i * 18) 18 payload (omega arith))
      λ entry _.
        hash_entries2-IsSafe n (i + 1) payload (hash_little2 entry hash.0 hash.1) (omega arith)

hash_entries-IsSafe :
    (n i : ℕ) (payload : Bytes) (hash : ℕ)
    → (i + n) * 18 ≤ length payload
    → IsSafe (hash_entries n i 18 payload hash)
unfolding hash_entries
hash_entries-IsSafe zero i payload hash h = ok-IsSafe hash
hash_entries-IsSafe (suc n) i payload hash h =
    >>=-IsSafe (slice (i * 18) 18 payload) _ (slice-IsSafe (i * 18) 18 payload (omega arith))
      λ entry _. hash_entries-IsSafe n (i + 1) payload (hash_little entry hash) (omega arith)

pub capture_guarded_block2-IsSafe : (bs : Bytes) → IsSafe (capture_guarded_block2 bs 18)
unfolding capture_guarded_block2
capture_guarded_block2-IsSafe bs =
    guard-IsSafe (leb 8 (length bs)) file_corrupt _ corrupt_is_error λ long.
      >>=-IsSafe (le_uint32_at 0 bs) _ (le_uint32_at-IsSafe 0 bs (ground arith)) λ size _.
        >>=-IsSafe (le_uint32_at 4 bs) _ (le_uint32_at-IsSafe 4 bs (ground arith)) λ hash _.
          guard-IsSafe (not (size == 0)) file_corrupt _ corrupt_is_error λ _.
            guard-IsSafe (leb (8 + size) (length bs)) file_corrupt _ corrupt_is_error λ fits.
              let inside = leb→le (8 + size) (length bs) fits in
              >>=-IsSafe (slice 8 size bs) _ (slice-IsSafe 8 size bs inside) λ payload read.
                let whole : (0 + size / 18) * 18 ≤ length payload =
                  omega (arith, slice_size 8 size bs inside read) in
                >>=-IsSafe (hash_entries2 (size / 18) 0 18 payload (0, 0)) _
                  (hash_entries2-IsSafe (size / 18) 0 payload (0, 0) whole)
                  λ high _.
                    >>=-IsSafe (hash_entries (size / 18) 0 18 payload 0) _
                      (hash_entries-IsSafe (size / 18) 0 payload 0 whole)
                      λ seeded _.
                        if-IsSafe (high.0 == hash) _ _ (λ _. ok-IsSafe _)
                          λ _.
                            if-IsSafe (seeded == hash) _ _ (λ _. ok-IsSafe _)
                              (λ _. err-IsSafe file_corrupt corrupt_is_error)

pub capture_guarded_block3-IsSafe : (bs : Bytes) → IsSafe (capture_guarded_block3 bs 18)
unfolding capture_guarded_block3
capture_guarded_block3-IsSafe bs =
    guard-IsSafe (leb 23 (length bs)) file_corrupt _ corrupt_is_error λ long.
      let long' = leb→le 23 (length bs) long in
      >>=-IsSafe (le_uint32_at 0 bs) _ (le_uint32_at-IsSafe 0 bs (omega arith)) λ hash _.
        guard-IsSafe (not (hash == 0)) file_corrupt _ corrupt_is_error λ _.
          >>=-IsSafe (slice 4 19 bs) _ (slice-IsSafe 4 19 bs (omega arith)) λ hashed _.
            guard-IsSafe (bit_or (hash_little hashed 0) 0x8000_0000 == hash) file_corrupt _
              corrupt_is_error λ _. slice-IsSafe 4 18 bs (omega arith)

-- The entry of a guarded block 3 that is accepted has 18 bytes.
pub capture_guarded_block3_size :
    (bs : Bytes) {b : Bytes} → capture_guarded_block3 bs 18 ≡ ok b → length b ≡ 18
unfolding capture_guarded_block3
capture_guarded_block3_size bs h =
    let (_, long, h1) = >>=-eq-ok (guard (leb 23 (length bs)) file_corrupt) _ h in
    let (hash, _, h2) = >>=-eq-ok (le_uint32_at 0 bs) _ h1 in
    let (_, _, h3) = >>=-eq-ok (guard (not (hash == 0)) file_corrupt) _ h2 in
    let (hashed, _, h4) = >>=-eq-ok (slice 4 19 bs) _ h3 in
    let (_, _, h5) =
      >>=-eq-ok (guard (bit_or (hash_little hashed 0) 0x8000_0000 == hash) file_corrupt) _ h4 in
    let long' = leb→le 23 (length bs) (guard-eq-ok (leb 23 (length bs)) file_corrupt long) in
    slice_size 4 18 bs (omega arith) h5
