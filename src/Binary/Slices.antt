-- ===== src/Binary/Slices.antt =====
-- Go slices: `b[i]`, `b[:n]`, `b[n:]`, `b[lo:hi]`, `make` and `copy`.
use go_casclib.Common.{
  ℕ, zero, suc, ◌+◌, ◌-◌, ◌≤◌, ◌<◌, ◌≡◌, refl, ◌↔◌, Bool, true, false, ◌&&◌, ◌==◌, List, [], ◌∷◌,
  ◌++◌, Result, ok, err, panic, ◌>>=◌, IsSafe, ok-IsSafe, IsSafe-ok, length, take, drop, replicate,
  arith, length-drop, length-take,
}

abbrev pub Bytes : Type 0
Bytes = List ℕ

abbrev pub IsByte : ℕ → Type 0
IsByte b = b < 256

-- `b[i]`
abbrev pub at {ℓ} : {A : Type ℓ} → List A → ℕ → Result A
at [] i = err panic
at (x ∷ xs) zero = ok x
at (x ∷ xs) (suc i) = at xs i

-- `b[:n]`
abbrev pub front {ℓ} : {A : Type ℓ} → ℕ → List A → Result (List A)
front zero xs = ok []
front (suc n) [] = err panic
front (suc n) (x ∷ xs) = front n xs >>= λ ys. ok (x ∷ ys)

-- `b[n:]`
abbrev pub back {ℓ} : {A : Type ℓ} → ℕ → List A → Result (List A)
back zero xs = ok xs
back (suc n) [] = err panic
back (suc n) (x ∷ xs) = back n xs

-- `b[lo:lo+n]`
abbrev pub slice {ℓ} : {A : Type ℓ} → ℕ → ℕ → List A → Result (List A)
slice lo n xs = back lo xs >>= front n

-- The contents of `dst` after `copy(dst, src)` for a fresh `dst` of `n` zero bytes.
abbrev pub padded : ℕ → Bytes → Bytes
padded n src = take n src ++ replicate (n - length src) 0

module _ {ℓ} {A : Type ℓ} where
  pub front-take : (n : ℕ) (xs : List A) → n ≤ length xs → front n xs ≡ ok (take n xs)
  front-take zero xs h = refl
  front-take (suc n) [] h = absurd (omega arith)
  front-take (suc n) (x ∷ xs) h = ground (arith, front-take n xs)

  pub back-drop : (n : ℕ) (xs : List A) → n ≤ length xs → back n xs ≡ ok (drop n xs)
  back-drop zero xs h = refl
  back-drop (suc n) [] h = absurd (omega arith)
  back-drop (suc n) (x ∷ xs) h = back-drop n xs (omega arith)

  pub front-append : (n : ℕ) (xs ys : List A) → length xs ≡ n → front n (xs ++ ys) ≡ ok xs
  front-append zero [] ys h = refl
  front-append zero (x ∷ xs) ys h = absurd (omega arith)
  front-append (suc n) [] ys h = absurd (omega arith)
  front-append (suc n) (x ∷ xs) ys h = ground (arith, front-append n xs ys)

  pub back-append : (n : ℕ) (xs ys : List A) → length xs ≡ n → back n (xs ++ ys) ≡ ok ys
  back-append zero [] ys h = refl
  back-append zero (x ∷ xs) ys h = absurd (omega arith)
  back-append (suc n) [] ys h = absurd (omega arith)
  back-append (suc n) (x ∷ xs) ys h = back-append n xs ys (omega arith)

  pub slice-append :
      (lo n : ℕ) (xs ys zs : List A)
      → length xs ≡ lo
      → length ys ≡ n
      → slice lo n (xs ++ (ys ++ zs)) ≡ ok ys
  slice-append lo n xs ys zs h k =
      ground (arith, back-append lo xs (ys ++ zs), front-append n ys zs)

  pub back-back : (m n : ℕ) (xs : List A) → back (m + n) xs ≡ (back m xs >>= back n)
  back-back zero n xs = let e : 0 + n ≡ n = omega arith in rw e
  back-back (suc m) n [] = let e : suc m + n ≡ suc (m + n) = omega arith in rw e
  back-back (suc m) n (x ∷ xs) =
      let e : suc m + n ≡ suc (m + n) = omega arith in rw e (back-back m n xs)

  pub front-IsSafe : (n : ℕ) (xs : List A) → n ≤ length xs → IsSafe (front n xs)
  front-IsSafe n xs h = IsSafe-ok _ (front-take n xs h)

  pub back-IsSafe : (n : ℕ) (xs : List A) → n ≤ length xs → IsSafe (back n xs)
  back-IsSafe n xs h = IsSafe-ok _ (back-drop n xs h)

  pub at-IsSafe : (xs : List A) (i : ℕ) → i < length xs → IsSafe (at xs i)
  at-IsSafe [] i h = absurd (omega arith)
  at-IsSafe (x ∷ xs) zero h = ok-IsSafe x
  at-IsSafe (x ∷ xs) (suc i) h = at-IsSafe xs i (omega arith)

  pub slice-take-drop :
      (lo n : ℕ) (xs : List A) → lo + n ≤ length xs → slice lo n xs ≡ ok (take n (drop lo xs))
  slice-take-drop lo n xs h =
      rw (back-drop lo xs (omega arith))
        (front-take n (drop lo xs) (omega (arith, length-drop lo xs)))

  front-append_of_le : (n : ℕ) (xs ys : List A) → n ≤ length xs → front n (xs ++ ys) ≡ front n xs
  front-append_of_le zero xs ys h = refl
  front-append_of_le (suc n) [] ys h = absurd (omega arith)
  front-append_of_le (suc n) (x ∷ xs) ys h = rw (front-append_of_le n xs ys (omega arith))

  -- More bytes behind a slice do not change it.
  pub slice-append_of_le :
      (lo n : ℕ) (xs ys : List A) → lo + n ≤ length xs → slice lo n (xs ++ ys) ≡ slice lo n xs
  slice-append_of_le zero n xs ys h = front-append_of_le n xs ys (omega arith)
  slice-append_of_le (suc lo) n [] ys h = absurd (omega arith)
  slice-append_of_le (suc lo) n (x ∷ xs) ys h = slice-append_of_le lo n xs ys (omega arith)

-- Arrays and slices compare by their elements.
abbrev pub bytes_eq : Bytes → Bytes → Bool
bytes_eq [] [] = true
bytes_eq (x ∷ xs) (y ∷ ys) = x == y && bytes_eq xs ys
bytes_eq _ _ = false

pub bytes_eq_iff : (xs ys : Bytes) → (bytes_eq xs ys ≡ true) ↔ (xs ≡ ys)
bytes_eq_iff [] [] = ground arith
bytes_eq_iff (x ∷ xs) (y ∷ ys) = ground (arith, bytes_eq_iff xs ys)
bytes_eq_iff _ _ = ground arith

-- What was cut out has the length that was asked for.
pub slice_size :
    (lo n : ℕ) (bs : Bytes) {b : Bytes} → lo + n ≤ length bs → slice lo n bs ≡ ok b → length b ≡ n
slice_size lo n bs {b} h e =
    let same : take n (drop lo bs) ≡ b = cc (slice-take-drop lo n bs h) in
    rw (← same) (omega (arith, length-take n (drop lo bs), length-drop lo bs))

pub back_size :
    (lo : ℕ) (bs : Bytes) {b : Bytes}
    → lo ≤ length bs
    → back lo bs ≡ ok b
    → length b ≡ length bs - lo
back_size lo bs {b} h e =
    let same : drop lo bs ≡ b = cc (back-drop lo bs h) in rw (← same) (length-drop lo bs)

pub front_size : (n : ℕ) (bs : Bytes) {h : Bytes} → n ≤ length bs → front n bs ≡ ok h → length h ≡ n
front_size n bs {h} long e =
    let same : take n bs ≡ h = cc (front-take n bs long) in
    rw (← same) (omega (arith, length-take n bs))

pub slice-IsSafe : (lo n : ℕ) (bs : Bytes) → lo + n ≤ length bs → IsSafe (slice lo n bs)
slice-IsSafe lo n bs h = IsSafe-ok _ (slice-take-drop lo n bs h)
