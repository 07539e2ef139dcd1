-- ===== src/Hashes/Tests.antt =====
-- The test vectors of lookup3.c, and the theorems at concrete keys.
use Prim.Native.Char.{code}
use Prim.Native.String.{String}
use go_casclib.Common.{◌≡◌, refl, arith, [], ◌∷◌}
use go_casclib.Binary.{Bytes}
use go_casclib.Hashes.{Words, hash_little, hash_little2}
use go_casclib.Hashes.Laws.{AreU32, mix-injective}

abbrev codes : String → Bytes
codes String.[] = []
codes (String.◌∷◌ c s) = code c ∷ codes s

hash_little_vector : hash_little (codes "Four score and seven years ago") 1 ≡ 0xcd628161
unfolding hash_little
hash_little_vector = refl

hash_little2_vector :
    hash_little2 (codes "Four score and seven years ago") 1 0 ≡ (0xcd628161, 0x6cbea4b3)
unfolding hash_little2
hash_little2_vector = refl

abbrev seeds : Words
seeds = record { a = 0xdead_beef; b = 7; c = 0xffff_ffff }

seeds_fit : AreU32 seeds
seeds_fit = record { a_fits = omega arith; b_fits = omega arith; c_fits = omega arith }

mix-injective_example : seeds ≡ seeds
mix-injective_example = mix-injective seeds seeds seeds_fit seeds_fit refl
