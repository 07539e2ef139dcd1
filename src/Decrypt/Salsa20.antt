-- ===== src/Decrypt/Salsa20.antt =====
-- internal/decrypt/salsa20.go. The state is a list of sixteen words, `dst` is what is returned: the
-- one caller gives a `dst` of the length of `src`.
pub mod Blocks
pub mod Involution
use go_casclib.Common.{
  ℕ, zero, suc, ◌+◌, ◌%◌, ◌^◌, ◌==◌, ◌||◌, if◌then◌else◌, List, [], ◌∷◌, ◌++◌, Result, ok, err,
  panic, guard, ◌>>=◌, ◌>>◌, length, take, drop, get_or, set, bit_xor,
}
use go_casclib.Binary.{Bytes, le_uint32_at, put_le_uint32}
use go_casclib.Bits.{add32, rotl32}

-- "expand 32-byte k" and "expand 16-byte k"
abbrev pub sigma : Bytes
sigma =
    0x65 ∷ 0x78 ∷ 0x70 ∷ 0x61 ∷ 0x6e ∷ 0x64 ∷ 0x20 ∷ 0x33 ∷ 0x32 ∷ 0x2d ∷ 0x62 ∷ 0x79 ∷ 0x74 ∷ 0x65
    ∷ 0x20 ∷ 0x6b ∷ []

abbrev pub tau : Bytes
tau =
    0x65 ∷ 0x78 ∷ 0x70 ∷ 0x61 ∷ 0x6e ∷ 0x64 ∷ 0x20 ∷ 0x31 ∷ 0x36 ∷ 0x2d ∷ 0x62 ∷ 0x79 ∷ 0x74 ∷ 0x65
    ∷ 0x20 ∷ 0x6b ∷ []

-- One line of a round: `x[target] ^= rol32(x[left]+x[right], shift)`.
pub record Line : Type 0 where
  pub target : ℕ
  pub left : ℕ
  pub right : ℕ
  pub shift : ℕ

abbrev pub line : ℕ → ℕ → ℕ → ℕ → Line
line t l r s = record { target = t; left = l; right = r; shift = s }

-- The column round and the row round.
abbrev pub double_round : List Line
double_round =
    line 4 0 12 7
    ∷ line 8 4 0 9
    ∷ line 12 8 4 13
    ∷ line 0 12 8 18
    ∷ line 9 5 1 7
    ∷ line 13 9 5 9
    ∷ line 1 13 9 13
    ∷ line 5 1 13 18
    ∷ line 14 10 6 7
    ∷ line 2 14 10 9
    ∷ line 6 2 14 13
    ∷ line 10 6 2 18
    ∷ line 3 15 11 7
    ∷ line 7 3 15 9
    ∷ line 11 7 3 13
    ∷ line 15 11 7 18
    ∷ line 1 0 3 7
    ∷ line 2 1 0 9
    ∷ line 3 2 1 13
    ∷ line 0 3 2 18
    ∷ line 6 5 4 7
    ∷ line 7 6 5 9
    ∷ line 4 7 6 13
    ∷ line 5 4 7 18
    ∷ line 11 10 9 7
    ∷ line 8 11 10 9
    ∷ line 9 8 11 13
    ∷ line 10 9 8 18
    ∷ line 12 15 14 7
    ∷ line 13 12 15 9
    ∷ line 14 13 12 13
    ∷ line 15 14 13 18
    ∷ []

abbrev run_line : Line → List ℕ → List ℕ
run_line l x = set x l.target (
    bit_xor (get_or x l.target 0) (rotl32 (add32 (get_or x l.left 0) (get_or x l.right 0)) l.shift))

pub run_lines : List Line → List ℕ → List ℕ
run_lines [] x = x
run_lines (l ∷ ls) x = run_lines ls (run_line l x)

pub rounds : ℕ → List ℕ → List ℕ
unfolding run_lines
rounds zero x = x
rounds (suc n) x = rounds n (run_lines double_round x)

-- `out[i*4:i*4+4]` is `x[i]+state[i]`.
pub add_words : List ℕ → List ℕ → Bytes
add_words (x ∷ xs) (s ∷ ss) = put_le_uint32 (add32 x s) ++ add_words xs ss
add_words _ _ = []

unfoldable pub salsa20_block : List ℕ → Bytes
unfolding rounds add_words
salsa20_block state = add_words (rounds 10 state) state

-- `state[8]++`, and the carry.
abbrev pub next_state : List ℕ → List ℕ
next_state state =
    let low = add32 (get_or state 8 0) 1 in
    let counted = set state 8 low in
    if low == 0 then set counted 9 (add32 (get_or state 9 0) 1) else counted

-- `dst[i] = src[i] ^ block[i]`
unfoldable pub xor_with : Bytes → Bytes → Bytes
xor_with (x ∷ src) (k ∷ block) = bit_xor x k ∷ xor_with src block
xor_with _ _ = []

-- The loop while bytes of `src` are left; each round takes one at least.
pub xor_blocks : ℕ → List ℕ → Bytes → Bytes
unfolding xor_with salsa20_block
xor_blocks zero state src = []
xor_blocks (suc fuel) state [] = []
xor_blocks (suc fuel) state (x ∷ src) =
    xor_with (take 64 (x ∷ src)) (salsa20_block state)
    ++ xor_blocks fuel (next_state state) (drop 64 (x ∷ src))

-- The sixteen words before the first block.
abbrev pub first_state : Bytes → Bytes → ℕ → Bytes → Result (List ℕ)
first_state consts key index nonce = do
  c0 ← le_uint32_at 0 consts
  k0 ← le_uint32_at 0 key
  k1 ← le_uint32_at 4 key
  k2 ← le_uint32_at 8 key
  k3 ← le_uint32_at 12 key
  c1 ← le_uint32_at 4 consts
  n0 ← le_uint32_at 0 nonce
  n1 ← le_uint32_at 4 nonce
  c2 ← le_uint32_at 8 consts
  k4 ← le_uint32_at index key
  k5 ← le_uint32_at (index + 4) key
  k6 ← le_uint32_at (index + 8) key
  k7 ← le_uint32_at (index + 12) key
  c3 ← le_uint32_at 12 consts
  ok (c0 ∷ k0 ∷ k1 ∷ k2 ∷ k3 ∷ c1 ∷ n0 ∷ n1 ∷ 0 ∷ 0 ∷ c2 ∷ k4 ∷ k5 ∷ k6 ∷ k7 ∷ c3 ∷ [])

-- The switch on the length of the key.
unfoldable pub keyed_state : Bytes → Bytes → Result (List ℕ)
keyed_state key nonce =
    if length key == 16
    then first_state tau key 0 nonce
    else if length key == 32
    then first_state sigma key 16 nonce
    else err panic

unfoldable pub salsa20_xor : Bytes → Bytes → Bytes → Result Bytes
unfolding keyed_state xor_blocks
salsa20_xor src key nonce = do
  guard (length nonce == 8) panic
  state ← keyed_state key nonce
  ok (xor_blocks (length src) state src)
