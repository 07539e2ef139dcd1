-- ===== src/Decrypt/Salsa20/Involution.antt =====
-- Salsa20 keeps the length, and twice it is the identity.
use go_casclib.Common.{
  ℕ, subst, zero, suc, ◌+◌, ◌==◌, ◌≤◌, ◌≡◌, ◌⊎◌, inl, inr, refl, ap, sym, ◌∙◌, arith, Bool-cases,
  List, [], ◌∷◌, ◌++◌, Result, ok, err, panic, guard, ◌>>=◌, >>=-eq-ok, length, length-append,
  length-take, length-drop, append-nil, take, drop, take_all, drop_all, take-append, drop-append,
  take-append-drop, All, All-take, All-drop,
}
use native.Mathlib.Decide.{dec_le}
use go_casclib.Binary.{Bytes, IsByte, le_uint32_at}
use go_casclib.Decrypt.Salsa20.{
  sigma, tau, salsa20_block, next_state, xor_with, xor_blocks, first_state, keyed_state,
  salsa20_xor,
}
use go_casclib.Decrypt.Salsa20.Blocks.{
  salsa20_block-bytes, length-next_state, length-xor_with, xor_blocks_round, length-xor_blocks,
  xor_blocks-IsByte, xor_with_twice,
}

-- The first 64 bytes and the rest, where the first part has 64 bytes or the rest is empty.
split_64 :
    (a r : Bytes)
    → length a ≤ 64
    → (length a ≡ 64) ⊎ (r ≡ [])
    → (take 64 (a ++ r) ≡ a) × (drop 64 (a ++ r) ≡ r)
split_64 a r h (inl e) = (take-append 64 a r e, drop-append 64 a r e)
split_64 a r h (inr e) = rw (e, append-nil a) (take_all 64 a h, drop_all 64 a h)

empty_of_length : (b : Bytes) → length b ≡ 0 → b ≡ []
empty_of_length [] h = refl
empty_of_length (x ∷ b) h = absurd (omega arith)

xor_blocks_none : (fuel : ℕ) (state : List ℕ) → xor_blocks fuel state [] ≡ []
unfolding xor_blocks
xor_blocks_none zero state = refl
xor_blocks_none (suc fuel) state = refl

pub xor_blocks_twice :
    (fuel : ℕ) (state : List ℕ) (src : Bytes)
    → length state ≡ 16
    → length src ≤ fuel
    → All IsByte src
    → xor_blocks fuel state (xor_blocks fuel state src) ≡ src
xor_blocks_twice zero state [] h k b =
    ap (xor_blocks 0 state) (xor_blocks_none 0 state) ∙ xor_blocks_none 0 state
xor_blocks_twice zero state (x ∷ src) h k b = absurd (omega arith)
xor_blocks_twice (suc fuel) state [] h k b =
    ap (xor_blocks (suc fuel) state) (xor_blocks_none (suc fuel) state)
    ∙ xor_blocks_none (suc fuel) state
xor_blocks_twice (suc fuel) state (x ∷ src) h k b =
    let s = x ∷ src in
    let block = salsa20_block state in
    let next = next_state state in
    let a = xor_with (take 64 s) block in
    let r = xor_blocks fuel next (drop 64 s) in
    let (size, bytes) = salsa20_block-bytes state h in
    let next_size : length next ≡ 16 = length-next_state state ∙ h in
    let a_size = length-xor_with (take 64 s) block (omega (arith, length-take 64 s)) in
    let r_size =
      length-xor_blocks fuel next (drop 64 s) next_size (omega (arith, length-drop 64 s)) in
    let parts : (length a ≡ 64) ⊎ (r ≡ []) = elim (dec_le 64 (length s)) [
      | yes long ↦ inl (omega (arith, a_size, length-take 64 s))
      | no short ↦ inr (empty_of_length r (omega (arith, r_size, length-drop 64 s)))
    ] in
    let (first, rest) = split_64 a r (omega (arith, a_size, length-take 64 s)) parts in
    let one_round = xor_blocks_round fuel state s (omega arith) in
    let again =
      xor_blocks_round fuel state (a ++ r)
        (omega (arith, length-append a r, a_size, length-take 64 s)) in
    let back =
      xor_with_twice (take 64 s) block (omega (arith, length-take 64 s)) (All-take IsByte 64 s b)
        bytes in
    let others =
      xor_blocks_twice fuel next (drop 64 s) next_size (omega (arith, length-drop 64 s))
        (All-drop IsByte 64 s b) in
    rw (one_round, again, first, rest, back, others) (take-append-drop 64 s)

value_or : Bytes → Result Bytes → Bytes
value_or d (ok v) = v
value_or d (err _) = d

-- A state that is made has sixteen words.
abbrev HasSixteen : Result (List ℕ) → Type 0
HasSixteen (ok state) = length state ≡ 16
HasSixteen (err _) = Unit

with_word :
    (m : Result ℕ) (next : ℕ → Result (List ℕ))
    → ((v : ℕ) → HasSixteen (next v))
    → HasSixteen (m >>= next)
with_word (ok v) next h = h v
with_word (err _) next h = tt

first_state-HasSixteen :
    (consts key : Bytes) (index : ℕ) (nonce : Bytes)
    → HasSixteen (first_state consts key index nonce)
first_state-HasSixteen consts key index nonce = with_word (le_uint32_at 0 consts) _ λ _.
    with_word (le_uint32_at 0 key) _ λ _. with_word (le_uint32_at 4 key) _ λ _.
      with_word (le_uint32_at 8 key) _ λ _. with_word (le_uint32_at 12 key) _ λ _.
        with_word (le_uint32_at 4 consts) _ λ _. with_word (le_uint32_at 0 nonce) _ λ _.
          with_word (le_uint32_at 4 nonce) _ λ _. with_word (le_uint32_at 8 consts) _ λ _.
            with_word (le_uint32_at index key) _ λ _.
              with_word (le_uint32_at (index + 4) key) _ λ _.
                with_word (le_uint32_at (index + 8) key) _ λ _.
                  with_word (le_uint32_at (index + 12) key) _
                    λ _. with_word (le_uint32_at 12 consts) _ λ _. refl

keyed_state-HasSixteen : (key nonce : Bytes) → HasSixteen (keyed_state key nonce)
unfolding keyed_state
keyed_state-HasSixteen key nonce = elim (Bool-cases (length key == 16)) [
  | inl short ↦ rw short (first_state-HasSixteen tau key 0 nonce)
  | inr other ↦ elim (Bool-cases (length key == 32)) [
    | inl long ↦ rw (other, long) (first_state-HasSixteen sigma key 16 nonce)
    | inr bad ↦ rw (other, bad) tt
  ]
]

-- What Salsa20 makes of bytes has their length, is bytes again, and Salsa20 with the same key and
-- nonce makes the first bytes of it.
pub salsa20_xor_twice :
    (src key nonce dst : Bytes)
    → All IsByte src
    → salsa20_xor src key nonce ≡ ok dst
    → (length dst ≡ length src) × All IsByte dst × (salsa20_xor dst key nonce ≡ ok src)
unfolding salsa20_xor value_or
salsa20_xor_twice src key nonce dst b h =
    let (_, guarded, h1) = >>=-eq-ok (guard (length nonce == 8) panic) _ h in
    let (state, made, h2) = >>=-eq-ok (keyed_state key nonce) _ h1 in
    let sixteen : length state ≡ 16 = subst HasSixteen made (keyed_state-HasSixteen key nonce) in
    let n = length src in
    let out : xor_blocks n state src ≡ dst = ap (value_or []) h2 in
    let size : length dst ≡ n =
      ap length (sym out) ∙ length-xor_blocks n state src sixteen (omega arith) in
    let bytes = subst (All IsByte) out (xor_blocks-IsByte n state src sixteen b) in
    let again : xor_blocks n state dst ≡ src =
      ap (xor_blocks n state) (sym out) ∙ xor_blocks_twice n state src sixteen (omega arith) b in
    (size, bytes, rw (guarded, made, size) (ap ok again))
