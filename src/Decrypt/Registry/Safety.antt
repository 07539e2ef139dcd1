-- ===== src/Decrypt/Registry/Safety.antt =====
-- `DecryptFrame` on any input: it never reads out of range.
use go_casclib.Common.{
  ℕ, List, ◌+◌, ◌-◌, ◌≤◌, ◌≡◌, subst, arith, ◌==◌, ◌||◌, leb, leb→le, Option, none, some, [], ◌∷◌,
  Result, ok, err, guard, ◌>>=◌, >>=-eq-ok, IsSafe, ok-IsSafe, err-IsSafe, guard-IsSafe, if-IsSafe,
  >>=-IsSafe, file_corrupt, not_supported, encrypted, length, take, drop, length-append,
  length-take, length-drop, length-replicate, replicate, true,
}
use go_casclib.Binary.{
  Bytes, at, front, back, padded, at-IsSafe, front-IsSafe, back-IsSafe, back_size, front_size,
  le_uint64_at-IsSafe, le_uint32_at, le_uint32_at-IsSafe, put_le_uint32,
}
use go_casclib.Decrypt.Salsa20.{xor_with, salsa20_xor, keyed_state, first_state, tau}
use go_casclib.Decrypt.Salsa20.Blocks.{length-xor_with}
use go_casclib.Decrypt.Registry.{
  KeyRegistry, find, Sealed, parse_iv, parse_sealed, xor_index, read_name, decipher, decipher_with,
  decrypt_frame,
}
use go_casclib.Decrypt.Registry.Laws.{HasKeySize, IsValid}

parse_iv-IsSafe :
    (key_name : ℕ) (input : Bytes) → 1 ≤ length input → IsSafe (parse_iv key_name input)
unfolding parse_iv
parse_iv-IsSafe key_name input long =
    >>=-IsSafe (at input 0) _ (at-IsSafe input 0 long) λ iv_size _.
      guard-IsSafe (iv_size == 4 || iv_size == 8) not_supported _ (λ e. cc)
        λ _. >>=-IsSafe (back 1 input) _ (back-IsSafe 1 input long) λ after _.
          guard-IsSafe (leb (iv_size + 1) (length after)) file_corrupt _ (λ e. cc)
            λ fits.
              let fits' = leb→le (iv_size + 1) (length after) fits in
              >>=-IsSafe (front iv_size after) _ (front-IsSafe iv_size after (omega arith)) λ iv _.
                >>=-IsSafe (back iv_size after) _ (back-IsSafe iv_size after (omega arith))
                  λ typed read.
                    let size = back_size iv_size after (omega arith) read in
                    >>=-IsSafe (at typed 0) _ (at-IsSafe typed 0 (omega arith)) λ enc_type _.
                      >>=-IsSafe (back 1 typed) _ (back-IsSafe 1 typed (omega arith))
                        λ rest _. ok-IsSafe _

read_name-IsSafe :
    (name_size : ℕ) (named : Bytes)
    → name_size + 1 ≤ length named
    → IsSafe (read_name name_size named)
unfolding read_name
read_name-IsSafe name_size named h =
    if-IsSafe (name_size == 8) _ _ (λ eight. le_uint64_at-IsSafe 0 named (ground arith))
      (λ _. ok-IsSafe 0)

parse_sealed-IsSafe : (input : Bytes) → IsSafe (parse_sealed input)
unfolding parse_sealed
parse_sealed-IsSafe input =
    guard-IsSafe (leb 1 (length input)) file_corrupt _ (λ e. cc)
      λ some_left.
        let long = leb→le 1 (length input) some_left in
        >>=-IsSafe (at input 0) _ (at-IsSafe input 0 long) λ name_size _.
          guard-IsSafe (name_size == 0 || name_size == 8) not_supported _ (λ e. cc)
            λ sizes. >>=-IsSafe (back 1 input) _ (back-IsSafe 1 input long) λ named _.
              guard-IsSafe (leb (name_size + 1) (length named)) file_corrupt _ (λ e. cc)
                λ fits.
                  let fits' = leb→le (name_size + 1) (length named) fits in
                  >>=-IsSafe (read_name name_size named) _ (read_name-IsSafe name_size named fits')
                    λ key_name _.
                      >>=-IsSafe (back name_size named) _
                        (back-IsSafe name_size named (omega arith))
                        λ behind read.
                          parse_iv-IsSafe key_name behind
                            (let e = back_size name_size named (omega arith) read in omega arith)

abbrev IvHolds : Result Sealed → Type 0
IvHolds (ok s) = length s.iv ≡ 16
IvHolds (err _) = Unit

-- The IV of a frame that is parsed has sixteen bytes.
parse_iv_size :
    (key_name : ℕ) (input : Bytes) {s : Sealed} → parse_iv key_name input ≡ ok s → length s.iv ≡ 16
unfolding parse_iv
parse_iv_size key_name input h =
    let (iv_size, _, h1) = >>=-eq-ok (at input 0) _ h in
    let (_, _, h2) = >>=-eq-ok (guard (iv_size == 4 || iv_size == 8) not_supported) _ h1 in
    let (after, _, h3) = >>=-eq-ok (back 1 input) _ h2 in
    let (_, _, h4) = >>=-eq-ok (guard (leb (iv_size + 1) (length after)) file_corrupt) _ h3 in
    let (iv, _, h5) = >>=-eq-ok (front iv_size after) _ h4 in
    let (typed, _, h6) = >>=-eq-ok (back iv_size after) _ h5 in
    let (enc_type, _, h7) = >>=-eq-ok (at typed 0) _ h6 in
    let (rest, _, h8) = >>=-eq-ok (back 1 typed) _ h7 in
    let size : length (padded 16 iv) ≡ 16 = omega (
      arith,
      length-append (take 16 iv) (replicate (16 - length iv) 0),
      length-take 16 iv,
      length-replicate {A = ℕ} (16 - length iv) 0,
    ) in
    subst (λ (r : Result Sealed). IvHolds r) h8 size

parse_sealed_size : (input : Bytes) {s : Sealed} → parse_sealed input ≡ ok s → length s.iv ≡ 16
unfolding parse_sealed
parse_sealed_size input h =
    let (_, _, h1) = >>=-eq-ok (guard (leb 1 (length input)) file_corrupt) _ h in
    let (name_size, _, h2) = >>=-eq-ok (at input 0) _ h1 in
    let (_, _, h3) = >>=-eq-ok (guard (name_size == 0 || name_size == 8) not_supported) _ h2 in
    let (named, _, h4) = >>=-eq-ok (back 1 input) _ h3 in
    let (_, _, h5) = >>=-eq-ok (guard (leb (name_size + 1) (length named)) file_corrupt) _ h4 in
    let (key_name, _, h6) = >>=-eq-ok (read_name name_size named) _ h5 in
    let (behind, _, h7) = >>=-eq-ok (back name_size named) _ h6 in parse_iv_size key_name behind h7

pub length-xor_index : (iv : Bytes) (i : ℕ) → length iv ≡ 16 → length (xor_index iv i) ≡ 16
unfolding xor_index
length-xor_index iv i h = omega (
  arith,
  length-append (xor_with (take 4 iv) (put_le_uint32 i)) (drop 4 iv),
  length-drop 4 iv,
  length-xor_with (take 4 iv) (put_le_uint32 i) (omega (arith, length-take 4 iv)),
  length-take 4 iv,
)

with_word :
    (lo : ℕ) (b : Bytes) (next : ℕ → Result (List ℕ))
    → lo + 4 ≤ length b
    → ((v : ℕ) → IsSafe (next v))
    → IsSafe (le_uint32_at lo b >>= next)
with_word lo b next h g =
    >>=-IsSafe (le_uint32_at lo b) next (le_uint32_at-IsSafe lo b h) λ v _. g v

first_state-IsSafe :
    (key nonce : Bytes) → length key ≡ 16 → length nonce ≡ 8 → IsSafe (first_state tau key 0 nonce)
first_state-IsSafe key nonce k n = with_word 0 tau _ (omega arith) λ c0.
    with_word 0 key _ (omega arith) λ k0. with_word 4 key _ (omega arith) λ k1.
      with_word 8 key _ (omega arith) λ k2. with_word 12 key _ (omega arith) λ k3.
        with_word 4 tau _ (omega arith) λ c1. with_word 0 nonce _ (omega arith) λ n0.
          with_word 4 nonce _ (omega arith) λ n1. with_word 8 tau _ (omega arith) λ c2.
            with_word 0 key _ (omega arith) λ k4. with_word 4 key _ (omega arith) λ k5.
              with_word 8 key _ (omega arith) λ k6. with_word 12 key _ (omega arith) λ k7.
                with_word 12 tau _ (omega arith) λ c3.
                  ok-IsSafe (
                    c0 ∷ k0 ∷ k1 ∷ k2 ∷ k3 ∷ c1 ∷ n0 ∷ n1 ∷ 0 ∷ 0 ∷ c2 ∷ k4 ∷ k5 ∷ k6 ∷ k7 ∷ c3
                    ∷ [])

salsa20_xor-IsSafe :
    (src key nonce : Bytes)
    → length key ≡ 16
    → length nonce ≡ 8
    → IsSafe (salsa20_xor src key nonce)
unfolding salsa20_xor keyed_state
salsa20_xor-IsSafe src key nonce k n =
    let sixteen : (length key == 16) ≡ true = ground arith in
    let eight : (length nonce == 8) ≡ true = ground arith in
    rw (sixteen, eight)
      (>>=-IsSafe (first_state tau key 0 nonce) _ (first_state-IsSafe key nonce k n)
        λ state _. ok-IsSafe _)

module _ (aes_ctr : Bytes → Bytes → Bytes → Result Bytes)
    (safe : (key iv b : Bytes) → IsSafe (aes_ctr key iv b)) where
  decipher-IsSafe :
      (key iv : Bytes) (enc_type : ℕ) (input : Bytes)
      → length key ≡ 16
      → length iv ≡ 16
      → IsSafe (decipher aes_ctr key iv enc_type input)
  unfolding decipher
  decipher-IsSafe key iv enc_type input k n =
      if-IsSafe (enc_type == b'S') _ _
        (λ _.
          >>=-IsSafe (front 8 iv) _ (front-IsSafe 8 iv (omega arith))
            λ nonce read. salsa20_xor-IsSafe input key nonce k (front_size 8 iv (omega arith) read))
        λ _.
          if-IsSafe (enc_type == b'A') _ _ (λ _. safe key iv input)
            (λ _. err-IsSafe not_supported (λ e. cc))

  -- Whatever the bytes of an encrypted frame and its index are, `DecryptFrame` does not panic, where
  -- all keys that are registered have sixteen bytes and AES does not panic.
  pub decrypt_frame-IsSafe :
      (r : KeyRegistry) (input : Bytes) (frame_index : ℕ)
      → IsValid r
      → IsSafe (decrypt_frame aes_ctr r input frame_index)
  unfolding decrypt_frame
  decrypt_frame-IsSafe r input frame_index v =
      >>=-IsSafe (parse_sealed input) _ (parse_sealed-IsSafe input)
        λ s parsed. with_key s (find r s.key_name) (v s.key_name) (parse_sealed_size input parsed)
    where
      with_key :
          (s : Sealed) (k : Option Bytes)
          → HasKeySize k
          → length s.iv ≡ 16
          → IsSafe (decipher_with aes_ctr k s frame_index)
      with_key s none h n = err-IsSafe encrypted (λ e. cc)
      with_key s (some key) h n =
          decipher-IsSafe key (xor_index s.iv frame_index) s.enc_type s.rest h
            (length-xor_index s.iv frame_index n)
