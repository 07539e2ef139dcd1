-- ===== src/Decrypt/Salsa20/Blocks.antt =====
-- The blocks of Salsa20: lengths and bytes.
use go_casclib.Common.{
  ℕ, zero, suc, ◌*◌, ◌==◌, ◌≤◌, ◌<◌, ◌≡◌, inl, inr, refl, ap, ◌∙◌, arith, Bool-cases, List, [], ◌∷◌,
  ◌++◌, length, length-append, length-take, length-drop, length-set, take, drop, All, All-take,
  All-drop, All-append, get_or, set,
}
use go_casclib.Binary.{Bytes, IsByte, put_le_uint32}
use go_casclib.Bits.{add32, bit_xor_cancel, bit_xor-byte}
use go_casclib.Decrypt.Salsa20.{
  Line, double_round, run_lines, run_line, rounds, add_words, salsa20_block, next_state, xor_with,
  xor_blocks,
}

length-run_lines : (ls : List Line) (x : List ℕ) → length (run_lines ls x) ≡ length x
unfolding run_lines
length-run_lines [] x = refl
length-run_lines (l ∷ ls) x = length-run_lines ls (run_line l x) ∙ length-set x l.target _

length-rounds : (n : ℕ) (x : List ℕ) → length (rounds n x) ≡ length x
unfolding rounds
length-rounds zero x = refl
length-rounds (suc n) x =
    length-rounds n (run_lines double_round x) ∙ length-run_lines double_round x

add_words-bytes :
    (x s : List ℕ)
    → length x ≡ length s
    → (length (add_words x s) ≡ 4 * length s) × All IsByte (add_words x s)
unfolding add_words
add_words-bytes [] [] h = (refl, tt)
add_words-bytes [] (b ∷ s) h = absurd (omega arith)
add_words-bytes (a ∷ x) [] h = absurd (omega arith)
add_words-bytes (a ∷ x) (b ∷ s) h =
    let (size, bytes) = add_words-bytes x s (omega arith) in
    (
      omega (arith, size),
      All-append IsByte (put_le_uint32 (add32 a b)) (add_words x s) (omega arith) bytes,
    )

-- A block has 64 bytes.
pub salsa20_block-bytes :
    (state : List ℕ)
    → length state ≡ 16
    → (length (salsa20_block state) ≡ 64) × All IsByte (salsa20_block state)
unfolding salsa20_block
salsa20_block-bytes state h =
    let (size, bytes) = add_words-bytes (rounds 10 state) state (length-rounds 10 state) in
    (omega (arith, size), bytes)

pub length-next_state : (state : List ℕ) → length (next_state state) ≡ length state
length-next_state state =
    let low = add32 (get_or state 8 0) 1 in
    let first = length-set state 8 low in
    elim (Bool-cases (low == 0)) [
      | inl carry ↦ rw carry (length-set (set state 8 low) 9 _ ∙ first)
      | inr plain ↦ rw plain first
    ]

pub length-xor_with :
    (src block : Bytes) → length src ≤ length block → length (xor_with src block) ≡ length src
unfolding xor_with
length-xor_with [] block h = refl
length-xor_with (x ∷ src) [] h = absurd (omega arith)
length-xor_with (x ∷ src) (k ∷ block) h = ap suc (length-xor_with src block (omega arith))

xor_with-IsByte :
    (src block : Bytes) → All IsByte src → All IsByte block → All IsByte (xor_with src block)
unfolding xor_with
xor_with-IsByte [] block h g = tt
xor_with-IsByte (x ∷ src) [] h g = tt
xor_with-IsByte (x ∷ src) (k ∷ block) (h, hs) (g, gs) =
    (bit_xor-byte x k h g, xor_with-IsByte src block hs gs)

pub xor_with_twice :
    (src block : Bytes)
    → length src ≤ length block
    → All IsByte src
    → All IsByte block
    → xor_with (xor_with src block) block ≡ src
unfolding xor_with
xor_with_twice [] block h b g = refl
xor_with_twice (x ∷ src) [] h b g = absurd (omega arith)
xor_with_twice (x ∷ src) (k ∷ block) h (b, bs) (g, gs) =
    rw (bit_xor_cancel 8 x k b g, xor_with_twice src block (omega arith) bs gs)

-- A round, whatever the bytes that are left.
pub xor_blocks_round :
    (fuel : ℕ) (state : List ℕ) (src : Bytes)
    → 0 < length src
    → xor_blocks (suc fuel) state src
      ≡ xor_with (take 64 src) (salsa20_block state)
        ++ xor_blocks fuel (next_state state) (drop 64 src)
unfolding xor_blocks
xor_blocks_round fuel state [] h = absurd (omega arith)
xor_blocks_round fuel state (x ∷ src) h = refl

pub length-xor_blocks :
    (fuel : ℕ) (state : List ℕ) (src : Bytes)
    → length state ≡ 16
    → length src ≤ fuel
    → length (xor_blocks fuel state src) ≡ length src
unfolding xor_blocks
length-xor_blocks zero state [] h k = refl
length-xor_blocks zero state (x ∷ src) h k = absurd (omega arith)
length-xor_blocks (suc fuel) state [] h k = refl
length-xor_blocks (suc fuel) state (x ∷ src) h k =
    let s = x ∷ src in
    let block = salsa20_block state in
    let (size, _) = salsa20_block-bytes state h in
    let rest =
      length-xor_blocks fuel (next_state state) (drop 64 s) (length-next_state state ∙ h)
        (omega (arith, length-drop 64 s)) in
    let front = length-xor_with (take 64 s) block (omega (arith, length-take 64 s)) in
    omega (
      arith,
      length-append (xor_with (take 64 s) block) (xor_blocks fuel (next_state state) (drop 64 s)),
      rest,
      front,
      length-take 64 s,
      length-drop 64 s,
    )

pub xor_blocks-IsByte :
    (fuel : ℕ) (state : List ℕ) (src : Bytes)
    → length state ≡ 16
    → All IsByte src
    → All IsByte (xor_blocks fuel state src)
unfolding xor_blocks
xor_blocks-IsByte zero state src h b = tt
xor_blocks-IsByte (suc fuel) state [] h b = tt
xor_blocks-IsByte (suc fuel) state (x ∷ src) h b =
    let s = x ∷ src in
    let (_, bytes) = salsa20_block-bytes state h in
    All-append IsByte (xor_with (take 64 s) (salsa20_block state))
      (xor_blocks fuel (next_state state) (drop 64 s))
      (xor_with-IsByte (take 64 s) (salsa20_block state) (All-take IsByte 64 s b) bytes)
      (xor_blocks-IsByte fuel (next_state state) (drop 64 s) (length-next_state state ∙ h)
        (All-drop IsByte 64 s b))
