-- ===== src/Common/Results.antt =====
-- The library's sentinel errors (internal/casc/errors.go) and the (value, error) pairs of Go.
use mathlib.Core.Path.{◌≡◌, refl, ap}
use mathlib.Core.Logic.{◌≢◌}
use go_casclib.Common.Tests.{if◌then◌else◌}
use mathlib.Core.Bool.{Bool, true, false}

-- `fmt.Errorf("%w: …", e)` is `e`. `panic` is no error value: a slice or an index out of range,
-- or a call of Go's `panic`. `foreign` is an error of code outside the repository.
pub data Error : Type 0 where
  file_not_found invalid_parameter invalid_handle bad_format file_corrupt : Error
  not_supported encrypted already_exists insufficient_buffer cancelled end_of_file : Error
  panic foreign : Error

pub data Result {ℓ} (A : Type ℓ) : Type ℓ where
  ok : A → Result A
  err : Error → Result A

infixl 5 ◌>>=◌
abbrev pub ◌>>=◌ {ℓ κ} : {A : Type ℓ} {B : Type κ} → Result A → (A → Result B) → Result B
err e >>= next = err e
ok a >>= next = next a

-- `if !b { return nil, e }`
abbrev pub guard : Bool → Error → Result (Unit {0})
guard false failure = err failure
guard true failure = ok tt

infixl 5 ◌>>◌
abbrev pub ◌>>◌ {ℓ} : {B : Type ℓ} → Result (Unit {0}) → Result B → Result B
first >> rest = first >>= λ _. rest

pub guard-eq-ok : (b : Bool) (e : Error) {u : Unit {0}} → guard b e ≡ ok u → b ≡ true
guard-eq-ok true e h = refl
guard-eq-ok false e h = cc

module _ {ℓ κ} {A : Type ℓ} {B : Type κ} where
  pub >>=-eq-ok :
      (action : Result A) (next : A → Result B) {last : B}
      → (action >>= next) ≡ ok last
      → (first : A) × (action ≡ ok first) × (next first ≡ ok last)
  >>=-eq-ok (err e) next done = cc
  >>=-eq-ok (ok first) next done = (first, refl, done)

-- The code neither slices nor indexes out of range, and does not call `panic`.
pub record IsSafe {ℓ} {A : Type ℓ} (m : Result A) : Type ℓ where
  pub ne_panic : m ≢ err panic

module _ {ℓ} {A : Type ℓ} where
  pub ok-IsSafe : (a : A) → IsSafe (ok a)
  ok-IsSafe a = record { ne_panic = λ e. cc }

  pub err-IsSafe : (e : Error) → e ≢ panic → IsSafe {A = A} (err e)
  err-IsSafe e h = record { ne_panic = λ p. h (err-injective p) }
    where
      err-injective : {e f : Error} → ◌≡◌ {A = Result A} (err e) (err f) → e ≡ f
      err-injective p = cc

  pub IsSafe-ok : {a : A} (m : Result A) → m ≡ ok a → IsSafe m
  IsSafe-ok m e = record { ne_panic = λ p. cc }

  -- `>>=-IsSafe` behind a test whose error is no panic.
  pub guard-IsSafe :
      (b : Bool) (e : Error) (k : Result A)
      → e ≢ panic
      → (b ≡ true → IsSafe k)
      → IsSafe (guard b e >> k)
  guard-IsSafe true e k s h = h refl
  guard-IsSafe false e k s h = err-IsSafe e s

  pub if-IsSafe :
      (b : Bool) (k l : Result A)
      → (b ≡ true → IsSafe k)
      → (b ≡ false → IsSafe l)
      → IsSafe (if b then k else l)
  if-IsSafe true k l h g = h refl
  if-IsSafe false k l h g = g refl

module _ {ℓ κ} {A : Type ℓ} {B : Type κ} where
  pub >>=-IsSafe :
      (m : Result A) (f : A → Result B)
      → IsSafe m
      → ((a : A) → m ≡ ok a → IsSafe (f a))
      → IsSafe (m >>= f)
  >>=-IsSafe (ok a) f s h = h a refl
  >>=-IsSafe (err e) f s h = err-IsSafe e (λ p. s.ne_panic (ap err p))
