-- ===== src/Hashes.antt =====
-- internal/hashes/jenkins.go: lookup3's hashlittle and hashlittle2. The four bytes of a word do not
-- overlap: `|` is a sum. `uint32(len(key))` counts the bytes left of a key below 4 GiB.
pub mod Laws
mod Tests
use go_casclib.Common.{ℕ, ◌+◌, ◌*◌, ◌^◌, List, [], ◌∷◌, length, get_or, bit_xor}
use go_casclib.Binary.{Bytes}
use go_casclib.Bits.{u32, add32, sub32, rotl32}

-- The three words `a`, `b` and `c`.
pub record Words : Type 0 where
  pub a : ℕ
  pub b : ℕ
  pub c : ℕ

-- Three lines of `mix`: `x -= z; x ^= rot(z, k); z += y`. The result is ordered for the next three.
pub mix_round : ℕ → Words → Words
mix_round k w =
    let x = bit_xor (sub32 w.a w.c) (rotl32 w.c k) in
    let z = add32 w.c w.b in record { a = w.b; b = z; c = x }

unfoldable pub mix : Words → Words
unfolding mix_round
mix w = mix_round 4 (mix_round 19 (mix_round 16 (mix_round 8 (mix_round 6 (mix_round 4 w)))))

-- `x ^= y; x -= rot(y, k)`
abbrev stir : ℕ → ℕ → ℕ → ℕ
stir x y k = sub32 (bit_xor x y) (rotl32 y k)

-- `final` returns b and c.
unfoldable pub final : Words → ℕ × ℕ
final w =
    let c1 = stir w.c w.b 14 in
    let a1 = stir w.a c1 11 in
    let b1 = stir w.b a1 25 in
    let c2 = stir c1 b1 16 in
    let a2 = stir a1 c2 4 in let b2 = stir b1 a2 14 in let c3 = stir c2 b2 24 in (b2, c3)

abbrev word : ℕ → ℕ → ℕ → ℕ → ℕ
word p q r s = p + q * 2 ^ 8 + r * 2 ^ 16 + s * 2 ^ 24

abbrev add_block : ℕ → ℕ → ℕ → Words → Words
add_block p q r w = record { a = add32 w.a p; b = add32 w.b q; c = add32 w.c r }

-- The loop of `HashLittle` while more than twelve bytes are left: the rest of the key, and the words.
pub absorb : Bytes → Words → Bytes × Words
unfolding mix
absorb (k0 ∷ k1 ∷ k2 ∷ k3 ∷ k4 ∷ k5 ∷ k6 ∷ k7 ∷ k8 ∷ k9 ∷ k10 ∷ k11 ∷ k12 ∷ rest) w =
    absorb (k12 ∷ rest)
      (mix (add_block (word k0 k1 k2 k3) (word k4 k5 k6 k7) (word k8 k9 k10 k11) w))
absorb k w = (k, w)

-- The switch, from `case 12` down. The cases above the length add bytes that are read as 0.
unfoldable pub add_tail : Bytes → Words → Words
add_tail k w =
    let at = λ (i : ℕ). get_or k i 0 in
    let c =
      add32 (add32 (add32 (add32 w.c (at 11 * 2 ^ 24)) (at 10 * 2 ^ 16)) (at 9 * 2 ^ 8)) (at 8) in
    let b =
      add32 (add32 (add32 (add32 w.b (at 7 * 2 ^ 24)) (at 6 * 2 ^ 16)) (at 5 * 2 ^ 8)) (at 4) in
    let a =
      add32 (add32 (add32 (add32 w.a (at 3 * 2 ^ 24)) (at 2 * 2 ^ 16)) (at 1 * 2 ^ 8)) (at 0) in
    record { a = a; b = b; c = c }

-- Behind the loop: `case 0` returns the words as they are.
unfoldable pub finish : Bytes → Words → ℕ
unfolding final add_tail
finish [] w = w.c
finish (x ∷ k) w = (final (add_tail (x ∷ k) w)).1

abbrev golden : Bytes → ℕ → ℕ
golden key initval = u32 (0xdead_beef + length key + initval)

unfoldable pub hash_little : Bytes → ℕ → ℕ
unfolding absorb finish
hash_little key initval =
    let a = golden key initval in
    let (k, w) = absorb key (record { a = a; b = a; c = a }) in finish k w

-- `HashLittle2` has its own loop and its own switch.
pub absorb2 : Bytes → Words → Bytes × Words
unfolding mix
absorb2 (k0 ∷ k1 ∷ k2 ∷ k3 ∷ k4 ∷ k5 ∷ k6 ∷ k7 ∷ k8 ∷ k9 ∷ k10 ∷ k11 ∷ k12 ∷ rest) w =
    absorb2 (k12 ∷ rest)
      (mix (add_block (word k0 k1 k2 k3) (word k4 k5 k6 k7) (word k8 k9 k10 k11) w))
absorb2 k w = (k, w)

unfoldable pub add_tail2 : Bytes → Words → Words
add_tail2 k w =
    let at = λ (i : ℕ). get_or k i 0 in
    let c =
      add32 (add32 (add32 (add32 w.c (at 11 * 2 ^ 24)) (at 10 * 2 ^ 16)) (at 9 * 2 ^ 8)) (at 8) in
    let b =
      add32 (add32 (add32 (add32 w.b (at 7 * 2 ^ 24)) (at 6 * 2 ^ 16)) (at 5 * 2 ^ 8)) (at 4) in
    let a =
      add32 (add32 (add32 (add32 w.a (at 3 * 2 ^ 24)) (at 2 * 2 ^ 16)) (at 1 * 2 ^ 8)) (at 0) in
    record { a = a; b = b; c = c }

-- The pair is (pc, pb).
unfoldable pub finish2 : Bytes → Words → ℕ × ℕ
unfolding final add_tail2
finish2 [] w = (w.c, w.b)
finish2 (x ∷ k) w = let (b, c) = final (add_tail2 (x ∷ k) w) in (c, b)

unfoldable pub hash_little2 : Bytes → ℕ → ℕ → ℕ × ℕ
unfolding absorb2 finish2
hash_little2 key initpc initpb =
    let a = golden key initpc in
    let (k, w) = absorb2 key (record { a = a; b = a; c = add32 a initpb }) in finish2 k w

-- `HashFileName`: `uint64(pc) | uint64(pb)<<32`, whose halves do not overlap.
unfoldable pub hash_file_name : Bytes → ℕ
unfolding hash_little2
hash_file_name name = let (pc, pb) = hash_little2 name 0 0 in pc + pb * 2 ^ 32
