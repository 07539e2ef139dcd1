-- ===== src/Decrypt/Tests.antt =====
-- A vector of Salsa20 with a key of sixteen bytes, and the theorems at a registry with one key.
use go_casclib.Common.{
  ◌==◌, ◌≡◌, inl, inr, refl, arith, if◌then◌else◌, none, some, [], ◌∷◌, Result, ok, err, false,
  IsSafe, ok-IsSafe, length, take, replicate, All,
}
use go_casclib.Binary.{Bytes, IsByte}
use go_casclib.Compress.Tests.{run_codecs, run_codecs-IsCodecs}
use go_casclib.Datafile.Header.{Frame, no_hash}
use go_casclib.Datafile.Frame.{decode}
use go_casclib.Datafile.Encoder.{encode_frame}
use go_casclib.Decrypt.Salsa20.{salsa20_xor}
use go_casclib.Decrypt.Salsa20.Involution.{salsa20_xor_twice}
use go_casclib.Decrypt.Registry.{KeyRegistry, new_key_registry, add, find, xor_index, decrypt_frame}
use go_casclib.Decrypt.Registry.Laws.{IsValid, new_key_registry-IsValid, add_lem}
use go_casclib.Decrypt.Registry.Safety.{decrypt_frame-IsSafe}
use go_casclib.Decrypt.Registry.RoundTrip.{sealed_bytes, nonce_of}
use go_casclib.Decrypt.Frames.{keyed_decoder, decode-sealed_bytes}

abbrev first_key : Bytes
first_key = 0x80 ∷ replicate 15 0

abbrev bytes_or : Result Bytes → Bytes
bytes_or (ok b) = b
bytes_or (err _) = []

salsa20_vector :
    take 16 (bytes_or (salsa20_xor (replicate 64 0) first_key (replicate 8 0)))
    ≡ 0x4d ∷ 0xfa ∷ 0x5e ∷ 0x48 ∷ 0x1d ∷ 0xa2 ∷ 0x3e ∷ 0xa0 ∷ 0x9a ∷ 0x31 ∷ 0x02 ∷ 0x20 ∷ 0x50
      ∷ 0x85 ∷ 0x99 ∷ 0x36 ∷ []
unfolding salsa20_xor
salsa20_vector = refl

abbrev three_bytes : Bytes
three_bytes = 1 ∷ 2 ∷ 3 ∷ []

abbrev iv_four : Bytes
iv_four = 9 ∷ 8 ∷ 7 ∷ 6 ∷ []

-- The bytes of a raw frame, enciphered for the frame with index 2.
abbrev raw_body : Bytes
raw_body = b'N' ∷ three_bytes

abbrev raw_cipher : Bytes
raw_cipher = bytes_or (salsa20_xor raw_body first_key (nonce_of iv_four 2))

raw_cipher_made : salsa20_xor raw_body first_key (nonce_of iv_four 2) ≡ ok raw_cipher
unfolding salsa20_xor xor_index
raw_cipher_made = refl

salsa20_xor_twice_example :
    (length raw_cipher ≡ 4)
    × All IsByte raw_cipher
    × (salsa20_xor raw_cipher first_key (nonce_of iv_four 2) ≡ ok raw_body)
salsa20_xor_twice_example =
    salsa20_xor_twice raw_body first_key (nonce_of iv_four 2) raw_cipher (omega arith)
      raw_cipher_made

abbrev one_key : KeyRegistry
one_key = record { keys = λ other. if other == 7 then some first_key else none }

one_key_added : add new_key_registry 7 first_key ≡ ok one_key
unfolding add new_key_registry
one_key_added = refl

one_key-IsValid : IsValid one_key
one_key-IsValid =
    (add_lem new_key_registry 7 first_key one_key new_key_registry-IsValid one_key_added).1

abbrev same_bytes : Bytes → Bytes → Bytes → Result Bytes
same_bytes key iv b = ok b

decrypt_frame-IsSafe_example : IsSafe (decrypt_frame same_bytes one_key (8 ∷ three_bytes) 2)
decrypt_frame-IsSafe_example =
    decrypt_frame-IsSafe same_bytes (λ key iv b. ok-IsSafe b) one_key (8 ∷ three_bytes) 2
      one_key-IsValid

key_found : find one_key 7 ≡ some first_key
unfolding find
key_found = refl

abbrev third_frame : Frame
third_frame = record { index = 2; encoded_size = 20; content_size = 3; frame_hash = no_hash }

raw_body_encoded : encode_frame run_codecs b'N' three_bytes ≡ ok raw_body
unfolding encode_frame
raw_body_encoded = refl

decode-sealed_bytes_example :
    decode run_codecs
      (keyed_decoder run_codecs run_codecs-IsCodecs refl same_bytes one_key false)
      third_frame
      (b'E' ∷ sealed_bytes 7 iv_four b'S' raw_cipher)
    ≡ ok three_bytes
decode-sealed_bytes_example =
    decode-sealed_bytes run_codecs run_codecs-IsCodecs refl same_bytes one_key false third_frame
      b'N' three_bytes raw_body raw_cipher 7 first_key iv_four raw_body_encoded (omega arith)
      (omega arith) (inr refl) (omega arith) (inl refl) key_found raw_cipher_made
