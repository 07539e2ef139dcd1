-- ===== src/Binary/Search.antt =====
-- `bytes.IndexByte`: the place of the first byte of a value.
use go_casclib.Common.{
  ℕ, suc, ◌<◌, ◌≡◌, refl, ◌==◌, ==_refl, if◌then◌else◌, Option, none, some, [], ◌∷◌, ◌++◌, length,
  arith, All, Bool, true, false,
}
use mathlib.Core.Option.{map as option_map}
use go_casclib.Binary.Slices.{Bytes}

-- `none` stands for -1.
abbrev pub index_byte : ℕ → Bytes → Option ℕ
index_byte c [] = none
index_byte c (b ∷ bs) = if b == c then some 0 else option_map suc (index_byte c bs)

-- No byte of a slice has the value.
abbrev pub Lacks : ℕ → Bytes → Type 0
Lacks c = All (λ b. (b == c) ≡ false)

pub index_byte-append :
    (c : ℕ) (name rest : Bytes)
    → Lacks c name
    → index_byte c (name ++ (c ∷ rest)) ≡ some (length name)
index_byte-append c [] rest h = rw (==_refl c)
index_byte-append c (b ∷ name) rest (e, h) = rw (e, index_byte-append c name rest h)

index_byte_lt_step :
    (found : Bool) (later : Option ℕ) (n i : ℕ)
    → ((k : ℕ) → later ≡ some k → k < n)
    → (if found then some 0 else option_map suc later) ≡ some i
    → i < suc n
index_byte_lt_step true later n i below h = let e : 0 ≡ i = cc in omega arith
index_byte_lt_step false none n i below h = absurd cc
index_byte_lt_step false (some k) n i below h =
    let e : suc k ≡ i = cc in let lt = below k refl in omega arith

pub index_byte_lt : (c : ℕ) (bs : Bytes) (i : ℕ) → index_byte c bs ≡ some i → i < length bs
index_byte_lt c [] i h = absurd cc
index_byte_lt c (b ∷ bs) i h =
    index_byte_lt_step (b == c) (index_byte c bs) (length bs) i (index_byte_lt c bs) h
