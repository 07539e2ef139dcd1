-- ===== src/Cdn/ArchiveIndex/Widths.antt =====
-- Numbers of so many bytes: `beUintN` reads what `putBEUintN` wrote.
use go_casclib.Common.{
  ℕ, zero, suc, ◌+◌, ◌*◌, ◌/◌, ◌%◌, ◌^◌, ◌<◌, ◌≡◌, refl, arith, [], ◌∷◌, ◌++◌, length,
  length-append,
}
use go_casclib.Binary.{Bytes}
use go_casclib.Cdn.ArchiveIndex.{be_uint_from, be_uint_n}
use go_casclib.Cdn.ArchiveIndex.Writer.{put_be_uint_n}

be_uint_from-append :
    (b : Bytes) (v x : ℕ) → be_uint_from v (b ++ (x ∷ [])) ≡ be_uint_from v b * 256 % 2 ^ 64 + x
unfolding be_uint_from
be_uint_from-append [] v x = refl
be_uint_from-append (y ∷ b) v x = be_uint_from-append b (v * 256 % 2 ^ 64 + y) x

pub be_uint_n-put : (n v : ℕ) → v < 256 ^ n → v < 2 ^ 64 → be_uint_n (put_be_uint_n n v) ≡ v
unfolding be_uint_n put_be_uint_n be_uint_from
be_uint_n-put zero v h k = omega arith
be_uint_n-put (suc n) v h k =
    let last = be_uint_from-append (put_be_uint_n n (v / 256)) 0 (v % 256) in
    let front : be_uint_from 0 (put_be_uint_n n (v / 256)) ≡ v / 256 =
      be_uint_n-put n (v / 256) (omega arith) (omega arith) in
    omega (arith, last, front)

pub length-put_be_uint_n : (n v : ℕ) → length (put_be_uint_n n v) ≡ n
unfolding put_be_uint_n
length-put_be_uint_n zero v = refl
length-put_be_uint_n (suc n) v = omega (
  arith,
  length-append (put_be_uint_n n (v / 256)) (v % 256 ∷ []),
  length-put_be_uint_n n (v / 256),
)
