-- ===== src/Decrypt/Registry.antt =====
-- internal/decrypt/decrypt.go: `KeyRegistry`. The map is a function; the locks make its calls a
-- sequence of steps. Go's AES in counter mode is a parameter, by key, IV and input.
pub mod Laws
pub mod Safety
pub mod RoundTrip
use go_casclib.Common.{
  ℕ, ◌+◌, ◌==◌, ◌||◌, leb, if◌then◌else◌, Option, none, some, [], ◌∷◌, ◌++◌, Result, ok, err, guard,
  ◌>>=◌, ◌>>◌, invalid_parameter, file_corrupt, not_supported, encrypted, length, take, drop,
}
use go_casclib.Binary.{Bytes, at, front, back, padded, le_uint64_at, put_le_uint32}
use go_casclib.Decrypt.Salsa20.{xor_with, salsa20_xor}

pub record KeyRegistry : Type 0 where
  pub keys : ℕ → Option Bytes

unfoldable pub new_key_registry : KeyRegistry
new_key_registry = record { keys = λ name. none }

unfoldable pub add : KeyRegistry → ℕ → Bytes → Result KeyRegistry
add r name key = do
  guard (length key == 16) invalid_parameter
  ok (record { keys = λ other. if other == name then some key else r.keys other })

unfoldable pub find : KeyRegistry → ℕ → Option Bytes
find r name = r.keys name

-- The fields before the ciphertext: the name of the key, the IV in sixteen bytes, the type, and
-- what follows.
pub record Sealed : Type 0 where
  pub key_name : ℕ
  pub iv : Bytes
  pub enc_type : ℕ
  pub rest : Bytes

-- The IV and the type, behind the name.
unfoldable pub parse_iv : ℕ → Bytes → Result Sealed
parse_iv key_name input = do
  iv_size ← at input 0
  guard (iv_size == 4 || iv_size == 8) not_supported
  after ← back 1 input
  guard (leb (iv_size + 1) (length after)) file_corrupt
  iv ← front iv_size after
  typed ← back iv_size after
  enc_type ← at typed 0
  rest ← back 1 typed
  ok (record { key_name = key_name; iv = padded 16 iv; enc_type = enc_type; rest = rest })

unfoldable pub read_name : ℕ → Bytes → Result ℕ
read_name name_size named = if name_size == 8 then le_uint64_at 0 named else ok 0

unfoldable pub parse_sealed : Bytes → Result Sealed
parse_sealed input = do
  guard (leb 1 (length input)) file_corrupt
  name_size ← at input 0
  guard (name_size == 0 || name_size == 8) not_supported
  named ← back 1 input
  guard (leb (name_size + 1) (length named)) file_corrupt
  key_name ← read_name name_size named
  behind ← back name_size named
  parse_iv key_name behind

-- `iv[i] ^= byte(frameIndex >> uint(i*8))` for `i` from 0 to 3.
unfoldable pub xor_index : Bytes → ℕ → Bytes
xor_index iv frame_index = xor_with (take 4 iv) (put_le_uint32 frame_index) ++ drop 4 iv

-- The switch on the type.
unfoldable pub decipher :
    (Bytes → Bytes → Bytes → Result Bytes) → Bytes → Bytes → ℕ → Bytes → Result Bytes
decipher aes_ctr key iv enc_type input =
    if enc_type == b'S'
    then (do nonce ← front 8 iv; salsa20_xor input key nonce)
    else if enc_type == b'A'
    then aes_ctr key iv input
    else err not_supported

-- Behind `Find`.
pub decipher_with :
    (Bytes → Bytes → Bytes → Result Bytes) → Option Bytes → Sealed → ℕ → Result Bytes
decipher_with aes_ctr none s frame_index = err encrypted
decipher_with aes_ctr (some key) s frame_index =
    decipher aes_ctr key (xor_index s.iv frame_index) s.enc_type s.rest

unfoldable pub decrypt_frame :
    (Bytes → Bytes → Bytes → Result Bytes) → KeyRegistry → Bytes → ℕ → Result Bytes
unfolding parse_sealed decipher_with
decrypt_frame aes_ctr r input frame_index = do
  s ← parse_sealed input
  decipher_with aes_ctr (find r s.key_name) s frame_index
