-- ===== src/Bits.antt =====
-- Machine words: the wrapping operations of uint32, rotations, and the laws of `^` and `|` on
-- numbers of a known width.
mod Digits
pub use Digits.{bit_xor_lt, bit_xor_cancel, bit_xor_comm, bit_or_fields}
use go_casclib.Common.{ℕ, ◌+◌, ◌-◌, ◌*◌, ◌/◌, ◌%◌, ◌^◌, ◌<◌, ◌≡◌, ap, ◌∙◌, arith, bit_xor}

abbrev pub u32 : ℕ → ℕ
u32 v = v % 2 ^ 32

abbrev pub IsU32 : ℕ → Type 0
IsU32 v = v < 2 ^ 32

-- `a + b` and `a - b` on uint32
abbrev pub add32 : ℕ → ℕ → ℕ
add32 a b = u32 (a + b)

abbrev pub sub32 : ℕ → ℕ → ℕ
sub32 a b = u32 (a + 2 ^ 32 - b)

-- `(x << k) | (x >> (32 - k))`: the two fields do not overlap.
abbrev pub rotl32 : ℕ → ℕ → ℕ
rotl32 x k = u32 (x * 2 ^ k) + x / 2 ^ (32 - k)

pub add32-sub32 : (a b : ℕ) → IsU32 a → IsU32 b → add32 (sub32 a b) b ≡ a
add32-sub32 a b h k = omega arith

pub sub32-add32 : (a b : ℕ) → IsU32 a → IsU32 b → sub32 (add32 a b) b ≡ a
sub32-add32 a b h k = omega arith

pub bit_xor-IsU32 : (a b : ℕ) → IsU32 a → IsU32 b → IsU32 (bit_xor a b)
bit_xor-IsU32 a b = bit_xor_lt 32 a b

pub bit_xor-byte : (a b : ℕ) → a < 256 → b < 256 → bit_xor a b < 256
bit_xor-byte a b = bit_xor_lt 8 a b

pub bit_xor_cancel_left : (k a b : ℕ) → a < 2 ^ k → b < 2 ^ k → bit_xor a (bit_xor a b) ≡ b
bit_xor_cancel_left k a b h g =
    ap (bit_xor a) (bit_xor_comm k a b h g)
    ∙ bit_xor_comm k a (bit_xor b a) h (bit_xor_lt k b a g h)
    ∙ bit_xor_cancel k b a g h
