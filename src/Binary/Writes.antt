-- ===== src/Binary/Writes.antt =====
-- The readers find what the writers wrote, behind any prefix.
use go_casclib.Common.{ℕ, ◌^◌, ◌<◌, ◌≡◌, [], ◌++◌, ok, length, arith}
use go_casclib.Binary.Slices.{Bytes, slice-append}
use go_casclib.Binary.Words.{
  be_uint16_at, be_uint24_at, be_uint32_at, le_uint16_at, le_uint32_at, le_uint64_at, put_be_uint16,
  put_be_uint24, put_be_uint32, put_le_uint16, put_le_uint32, put_le_uint64, be_uint16-put,
  be_uint24-put, be_uint32-put, le_uint16-put, le_uint32-put, le_uint64-put,
}

module _ (lo : ℕ) (pre rest : Bytes) (v : ℕ) (at_lo : length pre ≡ lo) where
  pub be_uint16_at-put : v < 2 ^ 16 → be_uint16_at lo (pre ++ (put_be_uint16 v ++ rest)) ≡ ok v
  be_uint16_at-put h =
      rw (slice-append lo 2 pre (put_be_uint16 v) rest at_lo (omega arith)) (be_uint16-put v [] h)

  pub be_uint24_at-put : v < 2 ^ 24 → be_uint24_at lo (pre ++ (put_be_uint24 v ++ rest)) ≡ ok v
  be_uint24_at-put h =
      rw (slice-append lo 3 pre (put_be_uint24 v) rest at_lo (omega arith)) (be_uint24-put v [] h)

  pub be_uint32_at-put : v < 2 ^ 32 → be_uint32_at lo (pre ++ (put_be_uint32 v ++ rest)) ≡ ok v
  be_uint32_at-put h =
      rw (slice-append lo 4 pre (put_be_uint32 v) rest at_lo (omega arith)) (be_uint32-put v [] h)

  pub le_uint16_at-put : v < 2 ^ 16 → le_uint16_at lo (pre ++ (put_le_uint16 v ++ rest)) ≡ ok v
  le_uint16_at-put h =
      rw (slice-append lo 2 pre (put_le_uint16 v) rest at_lo (omega arith)) (le_uint16-put v [] h)

  pub le_uint32_at-put : v < 2 ^ 32 → le_uint32_at lo (pre ++ (put_le_uint32 v ++ rest)) ≡ ok v
  le_uint32_at-put h =
      rw (slice-append lo 4 pre (put_le_uint32 v) rest at_lo (omega arith)) (le_uint32-put v [] h)

  pub le_uint64_at-put : v < 2 ^ 64 → le_uint64_at lo (pre ++ (put_le_uint64 v ++ rest)) ≡ ok v
  le_uint64_at-put h =
      rw (slice-append lo 8 pre (put_le_uint64 v) rest at_lo (omega arith)) (le_uint64-put v [] h)
