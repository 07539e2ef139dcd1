-- ===== src/Bits/Digits.antt =====
-- The native operations on binary digits by their lowest digit, and the laws that follow.
use Prim.Native.Nat.{digits, differ, bit_xor-bitwise, bit_or-bitwise}
use native.Mathlib.Nat.{pow-suc}
use go_casclib.Common.{
  ℕ, zero, suc, ◌+◌, ◌*◌, ◌/◌, ◌%◌, ◌^◌, ◌≤◌, ◌<◌, ◌≡◌, refl, ap, ◌∙◌, arith, bit_xor, bit_or, max,
}

module _ (f : ℕ → ℕ → ℕ) where
  -- Any count of digits that the first number does not pass gives the same result.
  any_count : (n m a b : ℕ) → a ≤ n → a ≤ m → digits (λ y. y) f n a b ≡ digits (λ y. y) f m a b
  any_count zero zero a b h k = refl
  any_count zero (suc m) zero b h k = refl
  any_count (suc n) zero zero b h k = refl
  any_count (suc n) (suc m) zero b h k = refl
  any_count zero (suc m) (suc a) b h k = absurd (omega arith)
  any_count (suc n) zero (suc a) b h k = absurd (omega arith)
  any_count (suc n) (suc m) (suc a) b h k =
      ap (λ t. t * 2 + f (suc a % 2) (b % 2))
        (any_count n m (suc a / 2) (b / 2) (omega arith) (omega arith))

differ_digits : (x y : ℕ) → x < 2 → y < 2 → differ x y ≡ (x + y) % 2
differ_digits zero y h k = omega arith
differ_digits (suc zero) zero h k = omega arith
differ_digits (suc zero) (suc zero) h k = omega arith
differ_digits (suc zero) (suc (suc y)) h k = absurd (omega arith)
differ_digits (suc (suc x)) y h k = absurd (omega arith)

bit_xor_step : (a b : ℕ) → bit_xor a b ≡ bit_xor (a / 2) (b / 2) * 2 + (a + b) % 2
bit_xor_step zero b = simp bit_xor-bitwise (omega arith)
bit_xor_step (suc a) b = simp bit_xor-bitwise (
    omega (
      arith,
      any_count differ a (suc a / 2) (suc a / 2) (b / 2) (omega arith) (omega arith),
      differ_digits (suc a % 2) (b % 2) (omega arith) (omega arith),
    ))

bit_or_step : (x y : ℕ) → bit_or x y ≡ bit_or (x / 2) (y / 2) * 2 + max (x % 2) (y % 2)
bit_or_step (suc x) y =
    let enough = any_count max x (suc x / 2) (suc x / 2) (y / 2) (omega arith) (omega arith) in
    simp bit_or-bitwise (omega (arith, enough))
bit_or_step zero y = simp bit_or-bitwise (omega arith)

pub bit_xor_lt : (k a b : ℕ) → a < 2 ^ k → b < 2 ^ k → bit_xor a b < 2 ^ k
bit_xor_lt zero zero zero h g = omega (arith, bit_xor_step 0 0)
bit_xor_lt zero zero (suc b) h g = absurd (omega arith)
bit_xor_lt zero (suc a) b h g = absurd (omega arith)
bit_xor_lt (suc k) a b h g = omega (
  arith,
  pow-suc 2 k,
  bit_xor_step a b,
  bit_xor_lt k (a / 2) (b / 2) (omega (arith, pow-suc 2 k)) (omega (arith, pow-suc 2 k)),
)

xor_comm_below : (k a b : ℕ) → a < 2 ^ k → b < 2 ^ k → bit_xor a b ≡ bit_xor b a
xor_comm_below zero zero zero h g = refl
xor_comm_below zero zero (suc b) h g = absurd (omega arith)
xor_comm_below zero (suc a) b h g = absurd (omega arith)
xor_comm_below (suc k) a b h g =
    let ih =
      xor_comm_below k (a / 2) (b / 2) (omega (arith, pow-suc 2 k)) (omega (arith, pow-suc 2 k)) in
    omega (arith, bit_xor_step a b, bit_xor_step b a, ih)

-- Exclusive or does not depend on the order, on numbers below a power of two.
pub bit_xor_comm : (k a b : ℕ) → a < 2 ^ k → b < 2 ^ k → bit_xor a b ≡ bit_xor b a
bit_xor_comm = xor_comm_below

-- Exclusive or with the same number twice changes nothing.
pub bit_xor_cancel : (k a b : ℕ) → a < 2 ^ k → b < 2 ^ k → bit_xor (bit_xor a b) b ≡ a
bit_xor_cancel zero zero zero h g = refl
bit_xor_cancel zero zero (suc b) h g = absurd (omega arith)
bit_xor_cancel zero (suc a) b h g = absurd (omega arith)
bit_xor_cancel (suc k) a b h g =
    let x = bit_xor (a / 2) (b / 2) in
    let halved : bit_xor a b / 2 ≡ x = omega (arith, bit_xor_step a b) in
    let low : (bit_xor a b + b) % 2 ≡ a % 2 = omega (arith, bit_xor_step a b) in
    let ih : bit_xor x (b / 2) ≡ a / 2 =
      bit_xor_cancel k (a / 2) (b / 2) (omega (arith, pow-suc 2 k)) (omega (arith, pow-suc 2 k)) in
    bit_xor_step (bit_xor a b) b
    ∙ ap (λ t. bit_xor t (b / 2) * 2 + (bit_xor a b + b) % 2) halved
    ∙ omega (arith, ih, low)

or_zero : (k a : ℕ) → a ≤ k → bit_or a 0 ≡ a
or_zero k zero h = refl
or_zero zero (suc a) h = absurd (omega arith)
or_zero (suc k) (suc a) h =
    omega (arith, bit_or_step (suc a) 0, or_zero k (suc a / 2) (omega arith))

-- Fields that do not overlap: `|` is a sum.
pub bit_or_fields : (k q r : ℕ) → r < 2 ^ k → bit_or (q * 2 ^ k) r ≡ q * 2 ^ k + r
bit_or_fields zero q zero h = or_zero (q * 1) (q * 1) (omega arith) ∙ omega arith
bit_or_fields zero q (suc r) h = absurd (omega arith)
bit_or_fields (suc k) q r h =
    let e : q * 2 ^ suc k ≡ 2 * (q * 2 ^ k) = omega (arith, ap (λ (t : ℕ). q * t) (pow-suc 2 k)) in
    let e' : q * 2 ^ suc k / 2 ≡ q * 2 ^ k = omega (arith, e) in
    bit_or_step (q * 2 ^ suc k) r
    ∙ ap (λ t. bit_or t (r / 2) * 2 + max (q * 2 ^ suc k % 2) (r % 2)) e'
    ∙ omega (arith, e, bit_or_fields k q (r / 2) (omega (arith, pow-suc 2 k)))
