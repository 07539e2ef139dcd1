-- ===== src/Datafile/Encoder/Chunks.antt =====
-- The chunks of `Encode` are the content cut at multiples of the frame size.
use go_casclib.Common.{
  ℕ, zero, suc, ◌≤◌, ◌<◌, ◌≡◌, refl, arith, List, [], ◌∷◌, ◌++◌, length, All, drop,
  take-append-drop, length-take, length-drop,
}
use go_casclib.Binary.{Bytes}
use go_casclib.Datafile.Encoder.{chunk_loop, chunks_of}

abbrev pub joined : List Bytes → Bytes
joined [] = []
joined (x ∷ xs) = x ++ joined xs

chunk_loop-joined :
    (fuel size : ℕ) (bs : Bytes)
    → 0 < size
    → length bs ≤ fuel
    → joined (chunk_loop fuel size bs) ≡ bs
unfolding chunk_loop
chunk_loop-joined zero size [] h k = refl
chunk_loop-joined zero size (x ∷ bs) h k = absurd (omega arith)
chunk_loop-joined (suc fuel) size [] h k = refl
chunk_loop-joined (suc fuel) size (x ∷ bs) h k =
    let e =
      chunk_loop-joined fuel size (drop size (x ∷ bs)) h
        (omega (arith, length-drop size (x ∷ bs))) in
    rw e (take-append-drop size (x ∷ bs))

-- Frame after frame, the chunks hold the whole content, for a positive frame size.
pub chunks_of-joined : (size : ℕ) (bs : Bytes) → 0 < size → joined (chunks_of size bs) ≡ bs
unfolding chunks_of
chunks_of-joined size [] h = refl
chunks_of-joined size (x ∷ bs) h = chunk_loop-joined (length (x ∷ bs)) size (x ∷ bs) h (omega arith)

chunk_loop_bounds :
    (fuel size : ℕ) (bs : Bytes) → All (λ c. length c ≤ size) (chunk_loop fuel size bs)
unfolding chunk_loop
chunk_loop_bounds zero size bs = tt
chunk_loop_bounds (suc fuel) size [] = tt
chunk_loop_bounds (suc fuel) size (x ∷ bs) =
    (omega (arith, length-take size (x ∷ bs)), chunk_loop_bounds fuel size (drop size (x ∷ bs)))

pub chunks_of_bounds : (size : ℕ) (bs : Bytes) → All (λ c. length c ≤ size) (chunks_of size bs)
unfolding chunks_of
chunks_of_bounds size [] = omega arith
chunks_of_bounds size (x ∷ bs) = chunk_loop_bounds (length (x ∷ bs)) size (x ∷ bs)
