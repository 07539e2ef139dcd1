-- ===== src/Binary/Reads.antt =====
-- The readers of integers do not panic where the slice is long enough.
use go_casclib.Common.{
  ℕ, ◌+◌, ◌≤◌, ◌≡◌, refl, [], ◌∷◌, ok, arith, length, take, drop, length-take, length-drop, IsSafe,
  IsSafe-ok,
}
use go_casclib.Binary.Slices.{Bytes, slice-take-drop}
use go_casclib.Binary.Words.{
  be_uint16, be_uint24, be_uint32, le_uint16, le_uint32, le_uint64, be_uint16_at, be_uint24_at,
  be_uint32_at, le_uint16_at, le_uint32_at, le_uint64_at,
}

pub be_uint16_reads : (b : Bytes) → 2 ≤ length b → (v : ℕ) × (be_uint16 b ≡ ok v)
be_uint16_reads (a ∷ b ∷ _) h = (_, refl)
be_uint16_reads (a ∷ []) h = absurd (omega arith)
be_uint16_reads [] h = absurd (omega arith)

pub be_uint16_at_reads :
    (lo : ℕ) (b : Bytes) → lo + 2 ≤ length b → (v : ℕ) × (be_uint16_at lo b ≡ ok v)
be_uint16_at_reads lo b h = rw (slice-take-drop lo 2 b h) (
    be_uint16_reads (take 2 (drop lo b))
      (omega (arith, length-take 2 (drop lo b), length-drop lo b)))

pub be_uint16_at-IsSafe : (lo : ℕ) (b : Bytes) → lo + 2 ≤ length b → IsSafe (be_uint16_at lo b)
be_uint16_at-IsSafe lo b h =
    let (v, e) = be_uint16_at_reads lo b h in IsSafe-ok (be_uint16_at lo b) e

be_uint24_reads : (b : Bytes) → 3 ≤ length b → (v : ℕ) × (be_uint24 b ≡ ok v)
be_uint24_reads (a ∷ b ∷ c ∷ _) h = (_, refl)
be_uint24_reads (a ∷ b ∷ []) h = absurd (omega arith)
be_uint24_reads (a ∷ []) h = absurd (omega arith)
be_uint24_reads [] h = absurd (omega arith)

pub be_uint24_at_reads :
    (lo : ℕ) (b : Bytes) → lo + 3 ≤ length b → (v : ℕ) × (be_uint24_at lo b ≡ ok v)
be_uint24_at_reads lo b h = rw (slice-take-drop lo 3 b h) (
    be_uint24_reads (take 3 (drop lo b))
      (omega (arith, length-take 3 (drop lo b), length-drop lo b)))

pub be_uint24_at-IsSafe : (lo : ℕ) (b : Bytes) → lo + 3 ≤ length b → IsSafe (be_uint24_at lo b)
be_uint24_at-IsSafe lo b h =
    let (v, e) = be_uint24_at_reads lo b h in IsSafe-ok (be_uint24_at lo b) e

pub be_uint32_reads : (b : Bytes) → 4 ≤ length b → (v : ℕ) × (be_uint32 b ≡ ok v)
be_uint32_reads (a ∷ b ∷ c ∷ d ∷ _) h = (_, refl)
be_uint32_reads (a ∷ b ∷ c ∷ []) h = absurd (omega arith)
be_uint32_reads (a ∷ b ∷ []) h = absurd (omega arith)
be_uint32_reads (a ∷ []) h = absurd (omega arith)
be_uint32_reads [] h = absurd (omega arith)

pub be_uint32_at_reads :
    (lo : ℕ) (b : Bytes) → lo + 4 ≤ length b → (v : ℕ) × (be_uint32_at lo b ≡ ok v)
be_uint32_at_reads lo b h = rw (slice-take-drop lo 4 b h) (
    be_uint32_reads (take 4 (drop lo b))
      (omega (arith, length-take 4 (drop lo b), length-drop lo b)))

pub be_uint32_at-IsSafe : (lo : ℕ) (b : Bytes) → lo + 4 ≤ length b → IsSafe (be_uint32_at lo b)
be_uint32_at-IsSafe lo b h =
    let (v, e) = be_uint32_at_reads lo b h in IsSafe-ok (be_uint32_at lo b) e

pub le_uint16_reads : (b : Bytes) → 2 ≤ length b → (v : ℕ) × (le_uint16 b ≡ ok v)
le_uint16_reads (a ∷ b ∷ _) h = (_, refl)
le_uint16_reads (a ∷ []) h = absurd (omega arith)
le_uint16_reads [] h = absurd (omega arith)

pub le_uint16_at_reads :
    (lo : ℕ) (b : Bytes) → lo + 2 ≤ length b → (v : ℕ) × (le_uint16_at lo b ≡ ok v)
le_uint16_at_reads lo b h = rw (slice-take-drop lo 2 b h) (
    le_uint16_reads (take 2 (drop lo b))
      (omega (arith, length-take 2 (drop lo b), length-drop lo b)))

pub le_uint16_at-IsSafe : (lo : ℕ) (b : Bytes) → lo + 2 ≤ length b → IsSafe (le_uint16_at lo b)
le_uint16_at-IsSafe lo b h =
    let (v, e) = le_uint16_at_reads lo b h in IsSafe-ok (le_uint16_at lo b) e

pub le_uint32_reads : (b : Bytes) → 4 ≤ length b → (v : ℕ) × (le_uint32 b ≡ ok v)
le_uint32_reads (a ∷ b ∷ c ∷ d ∷ _) h = (_, refl)
le_uint32_reads (a ∷ b ∷ c ∷ []) h = absurd (omega arith)
le_uint32_reads (a ∷ b ∷ []) h = absurd (omega arith)
le_uint32_reads (a ∷ []) h = absurd (omega arith)
le_uint32_reads [] h = absurd (omega arith)

pub le_uint32_at_reads :
    (lo : ℕ) (b : Bytes) → lo + 4 ≤ length b → (v : ℕ) × (le_uint32_at lo b ≡ ok v)
le_uint32_at_reads lo b h = rw (slice-take-drop lo 4 b h) (
    le_uint32_reads (take 4 (drop lo b))
      (omega (arith, length-take 4 (drop lo b), length-drop lo b)))

pub le_uint32_at-IsSafe : (lo : ℕ) (b : Bytes) → lo + 4 ≤ length b → IsSafe (le_uint32_at lo b)
le_uint32_at-IsSafe lo b h =
    let (v, e) = le_uint32_at_reads lo b h in IsSafe-ok (le_uint32_at lo b) e

pub le_uint64_reads : (b : Bytes) → 8 ≤ length b → (v : ℕ) × (le_uint64 b ≡ ok v)
le_uint64_reads (a ∷ b ∷ c ∷ d ∷ e ∷ f ∷ g ∷ i ∷ _) h = (_, refl)
le_uint64_reads (a ∷ b ∷ c ∷ d ∷ e ∷ f ∷ g ∷ []) h = absurd (omega arith)
le_uint64_reads (a ∷ b ∷ c ∷ d ∷ e ∷ f ∷ []) h = absurd (omega arith)
le_uint64_reads (a ∷ b ∷ c ∷ d ∷ e ∷ []) h = absurd (omega arith)
le_uint64_reads (a ∷ b ∷ c ∷ d ∷ []) h = absurd (omega arith)
le_uint64_reads (a ∷ b ∷ c ∷ []) h = absurd (omega arith)
le_uint64_reads (a ∷ b ∷ []) h = absurd (omega arith)
le_uint64_reads (a ∷ []) h = absurd (omega arith)
le_uint64_reads [] h = absurd (omega arith)

pub le_uint64_at_reads :
    (lo : ℕ) (b : Bytes) → lo + 8 ≤ length b → (v : ℕ) × (le_uint64_at lo b ≡ ok v)
le_uint64_at_reads lo b h = rw (slice-take-drop lo 8 b h) (
    le_uint64_reads (take 8 (drop lo b))
      (omega (arith, length-take 8 (drop lo b), length-drop lo b)))

pub le_uint64_at-IsSafe : (lo : ℕ) (b : Bytes) → lo + 8 ≤ length b → IsSafe (le_uint64_at lo b)
le_uint64_at-IsSafe lo b h =
    let (v, e) = le_uint64_at_reads lo b h in IsSafe-ok (le_uint64_at lo b) e
