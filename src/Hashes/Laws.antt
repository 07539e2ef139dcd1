-- ===== src/Hashes/Laws.antt =====
-- `mix` loses nothing, every hash is a uint32, and hashlittle is half of hashlittle2.
use go_casclib.Common.{
  ℕ, ◌+◌, ◌/◌, ◌%◌, ◌^◌, ◌<◌, ◌≡◌, ap, ◌∙◌, sym, refl, arith, [], ◌∷◌, length, bit_xor,
}
use go_casclib.Binary.{Bytes}
use go_casclib.Bits.{
  IsU32, u32, add32, sub32, rotl32, add32-sub32, sub32-add32, bit_xor-IsU32, bit_xor_cancel,
}
use go_casclib.Hashes.{
  Words, mix_round, mix, absorb, absorb2, add_tail, add_tail2, finish, finish2, hash_little,
  hash_little2, hash_file_name,
}

pub record AreU32 (w : Words) : Type 0 where
  pub a_fits : IsU32 w.a
  pub b_fits : IsU32 w.b
  pub c_fits : IsU32 w.c

-- The rotation by `k` stays in the word; `omega` checks it at each `k` of the code.
abbrev Rotates : ℕ → Type 0
Rotates k = (x : ℕ) → IsU32 x → IsU32 (rotl32 x k)

mix_round-AreU32 : (k : ℕ) (w : Words) → Rotates k → AreU32 w → AreU32 (mix_round k w)
unfolding mix_round
mix_round-AreU32 k w r h = record {
  a_fits = h.b_fits;
  b_fits = omega arith;
  c_fits = bit_xor-IsU32 (sub32 w.a w.c) (rotl32 w.c k) (omega arith) (r w.c h.c_fits);
}

-- The three assignments of a round, undone from the last to the first.
mix_unround : ℕ → Words → Words
mix_unround k w =
    let z = sub32 w.b w.a in record { a = add32 (bit_xor w.c (rotl32 z k)) z; b = w.a; c = z }

mix_unround-mix_round :
    (k : ℕ) (w : Words) → Rotates k → AreU32 w → mix_unround k (mix_round k w) ≡ w
unfolding mix_round mix_unround
mix_unround-mix_round k w r h =
    let x = sub32 w.a w.c in
    rw (
      sub32-add32 w.c w.b h.c_fits h.b_fits,
      bit_xor_cancel 32 x (rotl32 w.c k) (omega arith) (r w.c h.c_fits),
      add32-sub32 w.a w.c h.a_fits h.c_fits,
    )

mix_round-injective :
    (k : ℕ) (v w : Words) → Rotates k → AreU32 v → AreU32 w → mix_round k v ≡ mix_round k w → v ≡ w
mix_round-injective k v w r h g e =
    sym (mix_unround-mix_round k v r h) ∙ ap (mix_unround k) e ∙ mix_unround-mix_round k w r g

rot4 : Rotates 4
rot4 x h = omega arith

rot6 : Rotates 6
rot6 x h = omega arith

rot8 : Rotates 8
rot8 x h = omega arith

rot16 : Rotates 16
rot16 x h = omega arith

rot19 : Rotates 19
rot19 x h = omega arith

-- The first `n` rounds, in the order of the code.
abbrev rounds1 : Words → Words
rounds1 w = mix_round 6 (mix_round 4 w)

abbrev rounds2 : Words → Words
rounds2 w = mix_round 16 (mix_round 8 (rounds1 w))

rounds1-AreU32 : (w : Words) → AreU32 w → AreU32 (rounds1 w)
rounds1-AreU32 w h = mix_round-AreU32 6 _ rot6 (mix_round-AreU32 4 w rot4 h)

rounds2-AreU32 : (w : Words) → AreU32 w → AreU32 (rounds2 w)
rounds2-AreU32 w h = mix_round-AreU32 16 _ rot16 (mix_round-AreU32 8 _ rot8 (rounds1-AreU32 w h))

pub mix-AreU32 : (w : Words) → AreU32 w → AreU32 (mix w)
unfolding mix
mix-AreU32 w h = mix_round-AreU32 4 _ rot4 (mix_round-AreU32 19 _ rot19 (rounds2-AreU32 w h))

-- `mix` loses nothing: words of 32 bits that it takes to the same words are the same.
pub mix-injective : (v w : Words) → AreU32 v → AreU32 w → mix v ≡ mix w → v ≡ w
unfolding mix
mix-injective v w h g e = mix_round-injective 4 v w rot4 h g (
    mix_round-injective 6 _ _ rot6 (mix_round-AreU32 4 v rot4 h) (mix_round-AreU32 4 w rot4 g) (
      mix_round-injective 8 _ _ rot8 (rounds1-AreU32 v h) (rounds1-AreU32 w g) (
        mix_round-injective 16 _ _ rot16 (mix_round-AreU32 8 _ rot8 (rounds1-AreU32 v h))
          (mix_round-AreU32 8 _ rot8 (rounds1-AreU32 w g))
          (mix_round-injective 19 _ _ rot19 (rounds2-AreU32 v h) (rounds2-AreU32 w g) (
            mix_round-injective 4 _ _ rot4 (mix_round-AreU32 19 _ rot19 (rounds2-AreU32 v h))
              (mix_round-AreU32 19 _ rot19 (rounds2-AreU32 w g)) e)))))

finish2-IsU32 : (k : Bytes) (w : Words) → AreU32 w → IsU32 (finish2 k w).0 × IsU32 (finish2 k w).1
unfolding finish2
finish2-IsU32 [] w h = (h.c_fits, h.b_fits)
finish2-IsU32 (x ∷ k) w h = omega arith

absorb2-AreU32 : (k : Bytes) (w : Words) → AreU32 w → AreU32 (absorb2 k w).1
unfolding absorb2
absorb2-AreU32 (k0 ∷ k1 ∷ k2 ∷ k3 ∷ k4 ∷ k5 ∷ k6 ∷ k7 ∷ k8 ∷ k9 ∷ k10 ∷ k11 ∷ k12 ∷ rest) w h =
    absorb2-AreU32 (k12 ∷ rest) _ (mix-AreU32 _ (omega arith))
absorb2-AreU32 _ w h = h

-- Both hashes are uint32s, whatever the key and the seeds.
pub hash_little2-IsU32 :
    (key : Bytes) (pc pb : ℕ) → IsU32 (hash_little2 key pc pb).0 × IsU32 (hash_little2 key pc pb).1
unfolding hash_little2
hash_little2-IsU32 key pc pb =
    let (k, w) = absorb2 key _ in finish2-IsU32 k w (absorb2-AreU32 key _ (omega arith))

-- The two loops read and mix the same blocks.
absorb-eq-absorb2 : (k : Bytes) (w : Words) → absorb k w ≡ absorb2 k w
unfolding absorb absorb2
absorb-eq-absorb2 (k0 ∷ k1 ∷ k2 ∷ k3 ∷ k4 ∷ k5 ∷ k6 ∷ k7 ∷ k8 ∷ k9 ∷ k10 ∷ k11 ∷ k12 ∷ rest) w =
    absorb-eq-absorb2 (k12 ∷ rest) _
absorb-eq-absorb2 _ w = refl

-- The two switches add the same bytes.
finish-eq-finish2 : (k : Bytes) (w : Words) → finish k w ≡ (finish2 k w).0
unfolding finish finish2 add_tail add_tail2
finish-eq-finish2 [] w = refl
finish-eq-finish2 (x ∷ k) w = refl

-- `HashLittle` is the first half of `HashLittle2` with a second seed of 0, for every key and seed:
-- the loops and switches of the two functions, which the code writes out twice, agree.
pub hash_little-eq-hash_little2 :
    (key : Bytes) (initval : ℕ) → hash_little key initval ≡ (hash_little2 key initval 0).0
unfolding hash_little hash_little2
hash_little-eq-hash_little2 key initval =
    let a = u32 (0xdead_beef + length key + initval) in
    let e : add32 a 0 ≡ a = omega arith in
    let start : Words = record { a = a; b = a; c = a } in
    let r = absorb2 key start in
    rw e (
      ap (λ (s : Bytes × Words). finish s.0 s.1) (absorb-eq-absorb2 key start)
      ∙ finish-eq-finish2 r.0 r.1)

pub hash_little-IsU32 : (key : Bytes) (initval : ℕ) → IsU32 (hash_little key initval)
hash_little-IsU32 key initval =
    rw (hash_little-eq-hash_little2 key initval) (hash_little2-IsU32 key initval 0).0

-- The hash of a name is a uint64, its low half is the first hash of `HashLittle2` with seeds of 0,
-- and its high half is the second.
pub hash_file_name_halves :
    (name : Bytes)
    → (hash_file_name name < 2 ^ 64)
      × (hash_file_name name % 2 ^ 32 ≡ (hash_little2 name 0 0).0)
      × (hash_file_name name / 2 ^ 32 ≡ (hash_little2 name 0 0).1)
unfolding hash_file_name
hash_file_name_halves name =
    let (c, b) = hash_little2-IsU32 name 0 0 in (omega arith, omega arith, omega arith)
