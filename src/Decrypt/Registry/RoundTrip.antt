-- ===== src/Decrypt/Registry/RoundTrip.antt =====
-- A frame that was enciphered with Salsa20 is deciphered.
use go_casclib.Common.{
  ap, inl, inr, ◌∙◌, get_or, bit_xor, ◌/◌, ℕ, ◌+◌, ◌^◌, ◌<◌, ◌≡◌, ◌⊎◌, refl, arith, ◌==◌, ◌||◌,
  le→leb, some, [], ◌∷◌, ◌++◌, Result, ok, true, length, length-append, length-take, take,
  replicate, length-replicate, ◌-◌, All,
}
use go_casclib.Binary.{
  byte, Bytes, IsByte, front, padded, front-append, back-append, front-take, le_uint64_at-put,
  put_le_uint64,
}
use go_casclib.Decrypt.Salsa20.{salsa20_xor, xor_with}
use go_casclib.Decrypt.Salsa20.Involution.{salsa20_xor_twice}
use go_casclib.Decrypt.Registry.Safety.{length-xor_index}
use go_casclib.Decrypt.Registry.{
  KeyRegistry, find, parse_iv, parse_sealed, xor_index, read_name, decipher, decrypt_frame,
}

-- The wire format, as the comment of `DecryptFrame` gives it, with a name of eight bytes.
abbrev pub typed_bytes : ℕ → Bytes → Bytes
typed_bytes enc_type cipher = enc_type ∷ cipher

abbrev pub sealed_bytes : ℕ → Bytes → ℕ → Bytes → Bytes
sealed_bytes name iv enc_type cipher =
    8 ∷ (put_le_uint64 name ++ (length iv ∷ (iv ++ typed_bytes enc_type cipher)))

parse_iv-typed :
    (name : ℕ) (iv : Bytes) (enc_type : ℕ) (cipher : Bytes)
    → (length iv ≡ 4) ⊎ (length iv ≡ 8)
    → parse_iv name (length iv ∷ (iv ++ typed_bytes enc_type cipher))
      ≡ ok (record { key_name = name; iv = padded 16 iv; enc_type = enc_type; rest = cipher })
unfolding parse_iv
parse_iv-typed name iv enc_type cipher h =
    let tail = typed_bytes enc_type cipher in
    let sizes : (length iv == 4 || length iv == 8) ≡ true = ground (arith, h) in
    let fits =
      le→leb (length iv + 1) (length (iv ++ tail)) (omega (arith, length-append iv tail)) in
    rw (sizes, fits, front-append (length iv) iv tail refl, back-append (length iv) iv tail refl)

read_name-put :
    (name : ℕ) (tail : Bytes) → name < 2 ^ 64 → read_name 8 (put_le_uint64 name ++ tail) ≡ ok name
unfolding read_name
read_name-put name tail small = le_uint64_at-put 0 [] tail name refl small

parse_sealed-sealed_bytes :
    (name : ℕ) (iv : Bytes) (enc_type : ℕ) (cipher : Bytes)
    → name < 2 ^ 64
    → (length iv ≡ 4) ⊎ (length iv ≡ 8)
    → parse_sealed (sealed_bytes name iv enc_type cipher)
      ≡ ok (record { key_name = name; iv = padded 16 iv; enc_type = enc_type; rest = cipher })
unfolding parse_sealed
parse_sealed-sealed_bytes name iv enc_type cipher small h =
    let tail = length iv ∷ (iv ++ typed_bytes enc_type cipher) in
    let fits = le→leb 9 (length (put_le_uint64 name ++ tail)) (omega arith) in
    let read = read_name-put name tail small in
    let not_empty = le→leb 1 (length (sealed_bytes name iv enc_type cipher)) (omega arith) in
    rw (not_empty, fits, read, parse_iv-typed name iv enc_type cipher h)

-- The nonce of a frame: the IV in eight bytes, the first four combined with the frame's index.
abbrev pub nonce_of : Bytes → ℕ → Bytes
nonce_of iv frame_index =
    let at = λ (i : ℕ). get_or iv i 0 in
    bit_xor (at 0) (byte frame_index)
    ∷ bit_xor (at 1) (byte (frame_index / 2 ^ 8))
    ∷ bit_xor (at 2) (byte (frame_index / 2 ^ 16))
    ∷ bit_xor (at 3) (byte (frame_index / 2 ^ 24))
    ∷ at 4
    ∷ at 5
    ∷ at 6
    ∷ at 7
    ∷ []

take-xor_index :
    (iv : Bytes) (frame_index : ℕ)
    → (length iv ≡ 4) ⊎ (length iv ≡ 8)
    → take 8 (xor_index (padded 16 iv) frame_index) ≡ nonce_of iv frame_index
unfolding xor_index xor_with
take-xor_index (a ∷ b ∷ c ∷ d ∷ []) i h = refl
take-xor_index (a ∷ b ∷ c ∷ d ∷ e ∷ f ∷ g ∷ k ∷ []) i h = refl
take-xor_index _ i (inl h) = absurd (omega arith)
take-xor_index _ i (inr h) = absurd (omega arith)

length-padded : (iv : Bytes) → length (padded 16 iv) ≡ 16
length-padded iv = omega (
  arith,
  length-append (take 16 iv) (replicate (16 - length iv) 0),
  length-take 16 iv,
  length-replicate {A = ℕ} (16 - length iv) 0,
)

-- A frame in the wire format, whose ciphertext Salsa20 made of bytes with a key that is registered
-- under the frame's name and with the frame's nonce, is deciphered to those bytes. The IV has 4 or 8
-- bytes, and the name fits 64 bits.
pub decrypt_frame-sealed_bytes :
    (aes_ctr : Bytes → Bytes → Bytes → Result Bytes) (r : KeyRegistry) (name : ℕ)
    (key iv plain cipher : Bytes) (frame_index : ℕ)
    → name < 2 ^ 64
    → (length iv ≡ 4) ⊎ (length iv ≡ 8)
    → All IsByte plain
    → find r name ≡ some key
    → salsa20_xor plain key (nonce_of iv frame_index) ≡ ok cipher
    → decrypt_frame aes_ctr r (sealed_bytes name iv b'S' cipher) frame_index ≡ ok plain
unfolding decrypt_frame decipher
decrypt_frame-sealed_bytes aes_ctr r name key iv plain cipher frame_index small sizes bytes
      registered enciphered =
    let parsed = parse_sealed-sealed_bytes name iv b'S' cipher small sizes in
    let vector = xor_index (padded 16 iv) frame_index in
    let size = length-xor_index (padded 16 iv) frame_index (length-padded iv) in
    let nonce : front 8 vector ≡ ok (nonce_of iv frame_index) =
      front-take 8 vector (omega arith) ∙ ap ok (take-xor_index iv frame_index sizes) in
    let (_, _, plain_again) =
      salsa20_xor_twice plain key (nonce_of iv frame_index) cipher bytes enciphered in
    rw (parsed, registered, nonce) plain_again
