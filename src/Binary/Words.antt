-- ===== src/Binary/Words.antt =====
-- Integers as bytes, in both orders. The fields of the `|` chains do not overlap: `|` is a sum.
use go_casclib.Common.{
  ℕ, ◌+◌, ◌*◌, ◌/◌, ◌%◌, ◌^◌, ◌<◌, ◌≡◌, ap, [], ◌∷◌, ◌++◌, Result, ok, err, panic, ◌>>=◌, arith,
}
use go_casclib.Binary.Slices.{Bytes, slice}

-- `BEUint16`, and Go's `LittleEndian.Uint16`
abbrev pub be_uint16 : Bytes → Result ℕ
be_uint16 (a ∷ b ∷ _) = ok (a * 2 ^ 8 + b)
be_uint16 _ = err panic

abbrev pub be_uint24 : Bytes → Result ℕ
be_uint24 (a ∷ b ∷ c ∷ _) = ok (a * 2 ^ 16 + b * 2 ^ 8 + c)
be_uint24 _ = err panic

abbrev pub be_uint32 : Bytes → Result ℕ
be_uint32 (a ∷ b ∷ c ∷ d ∷ _) = ok (a * 2 ^ 24 + b * 2 ^ 16 + c * 2 ^ 8 + d)
be_uint32 _ = err panic

abbrev pub be_uint40 : Bytes → Result ℕ
be_uint40 (a ∷ b ∷ c ∷ d ∷ e ∷ _) = ok (a * 2 ^ 32 + b * 2 ^ 24 + c * 2 ^ 16 + d * 2 ^ 8 + e)
be_uint40 _ = err panic

abbrev pub be_uint48 : Bytes → Result ℕ
be_uint48 (a ∷ b ∷ c ∷ d ∷ e ∷ f ∷ _) =
    ok (a * 2 ^ 40 + b * 2 ^ 32 + c * 2 ^ 24 + d * 2 ^ 16 + e * 2 ^ 8 + f)
be_uint48 _ = err panic

abbrev pub le_uint16 : Bytes → Result ℕ
le_uint16 (a ∷ b ∷ _) = ok (a + b * 2 ^ 8)
le_uint16 _ = err panic

abbrev pub le_uint32 : Bytes → Result ℕ
le_uint32 (a ∷ b ∷ c ∷ d ∷ _) = ok (a + b * 2 ^ 8 + c * 2 ^ 16 + d * 2 ^ 24)
le_uint32 _ = err panic

abbrev pub le_uint64 : Bytes → Result ℕ
le_uint64 (a ∷ b ∷ c ∷ d ∷ e ∷ f ∷ g ∷ h ∷ _) =
    ok (a + b * 2 ^ 8 + c * 2 ^ 16 + d * 2 ^ 24 + e * 2 ^ 32 + f * 2 ^ 40 + g * 2 ^ 48 + h * 2 ^ 56)
le_uint64 _ = err panic

-- The same on `b[lo:lo+n]`.
abbrev pub be_uint16_at : ℕ → Bytes → Result ℕ
be_uint16_at lo b = slice lo 2 b >>= be_uint16

abbrev pub be_uint24_at : ℕ → Bytes → Result ℕ
be_uint24_at lo b = slice lo 3 b >>= be_uint24

abbrev pub be_uint32_at : ℕ → Bytes → Result ℕ
be_uint32_at lo b = slice lo 4 b >>= be_uint32

abbrev pub le_uint16_at : ℕ → Bytes → Result ℕ
le_uint16_at lo b = slice lo 2 b >>= le_uint16

abbrev pub le_uint32_at : ℕ → Bytes → Result ℕ
le_uint32_at lo b = slice lo 4 b >>= le_uint32

abbrev pub le_uint64_at : ℕ → Bytes → Result ℕ
le_uint64_at lo b = slice lo 8 b >>= le_uint64

-- `byte(v)`
abbrev pub byte : ℕ → ℕ
byte v = v % 256

-- `PutLEUint32`, and Go's `LittleEndian.PutUint32`: the four bytes written.
abbrev pub put_le_uint32 : ℕ → Bytes
put_le_uint32 v = byte v ∷ byte (v / 2 ^ 8) ∷ byte (v / 2 ^ 16) ∷ byte (v / 2 ^ 24) ∷ []

abbrev pub put_le_uint16 : ℕ → Bytes
put_le_uint16 v = byte v ∷ byte (v / 2 ^ 8) ∷ []

abbrev pub put_le_uint64 : ℕ → Bytes
put_le_uint64 v = put_le_uint32 v ++ put_le_uint32 (v / 2 ^ 32)

abbrev pub put_be_uint16 : ℕ → Bytes
put_be_uint16 v = byte (v / 2 ^ 8) ∷ byte v ∷ []

abbrev pub put_be_uint24 : ℕ → Bytes
put_be_uint24 v = byte (v / 2 ^ 16) ∷ byte (v / 2 ^ 8) ∷ byte v ∷ []

abbrev pub put_be_uint32 : ℕ → Bytes
put_be_uint32 v = byte (v / 2 ^ 24) ∷ byte (v / 2 ^ 16) ∷ byte (v / 2 ^ 8) ∷ byte v ∷ []

abbrev pub put_be_uint40 : ℕ → Bytes
put_be_uint40 v = byte (v / 2 ^ 32) ∷ put_be_uint32 v

pub le_uint32-put : (v : ℕ) (rest : Bytes) → v < 2 ^ 32 → le_uint32 (put_le_uint32 v ++ rest) ≡ ok v
le_uint32-put v rest h = ap ok (omega arith)

pub be_uint32-put : (v : ℕ) (rest : Bytes) → v < 2 ^ 32 → be_uint32 (put_be_uint32 v ++ rest) ≡ ok v
be_uint32-put v rest h = ap ok (omega arith)

pub be_uint24-put : (v : ℕ) (rest : Bytes) → v < 2 ^ 24 → be_uint24 (put_be_uint24 v ++ rest) ≡ ok v
be_uint24-put v rest h = ap ok (omega arith)

pub be_uint16-put : (v : ℕ) (rest : Bytes) → v < 2 ^ 16 → be_uint16 (put_be_uint16 v ++ rest) ≡ ok v
be_uint16-put v rest h = ap ok (omega arith)

pub be_uint40-put : (v : ℕ) (rest : Bytes) → v < 2 ^ 40 → be_uint40 (put_be_uint40 v ++ rest) ≡ ok v
be_uint40-put v rest h = ap ok (omega arith)

pub le_uint16-put : (v : ℕ) (rest : Bytes) → v < 2 ^ 16 → le_uint16 (put_le_uint16 v ++ rest) ≡ ok v
le_uint16-put v rest h = ap ok (omega arith)

pub le_uint64-put : (v : ℕ) (rest : Bytes) → v < 2 ^ 64 → le_uint64 (put_le_uint64 v ++ rest) ≡ ok v
le_uint64-put v rest h = ap ok (omega arith)
