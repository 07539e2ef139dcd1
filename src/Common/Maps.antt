-- ===== src/Common/Maps.antt =====
-- Go maps as association lists: an assignment is put in front, and the first entry of a key counts.
use mathlib.Core.Path.{◌≡◌}
use mathlib.Core.Logic.{inl, inr}
use mathlib.Core.Bool.{Bool, true}
use mathlib.Core.List.{List, [], ◌∷◌}
use mathlib.Core.Option.{Option, none, some}
use go_casclib.Common.Tests.{if◌then◌else◌, Bool-cases, Option-cases}

-- `m[key]`, the keys compared by `same`
abbrev pub lookup {ℓ κ} : {K : Type ℓ} {V : Type κ} → (K → K → Bool) → K → List (K × V) → Option V
lookup same key [] = none
lookup same key ((k, v) ∷ entries) = if same k key then some v else lookup same key entries

abbrev pub or_else {ℓ} : {V : Type ℓ} → Option V → Option V → Option V
or_else (some v) other = some v
or_else none other = other

-- `if _, exists := m[key]; !exists { m[key] = v }`, by what the map holds for the key
abbrev pub put_absent {ℓ κ} :
    {K : Type ℓ} {V : Type κ} → Option V → K → V → List (K × V) → List (K × V)
put_absent (some old) key v m = m
put_absent none key v m = (key, v) ∷ m

module _ {ℓ κ} {K : Type ℓ} {V : Type κ} (same : K → K → Bool)
    (sound : (a b : K) → same a b ≡ true → a ≡ b) where
  -- A lookup that falls back on `later`, behind such an assignment.
  pub or_else-put_absent :
      (new key : K) (v : V) (m : List (K × V)) (later : Option V)
      → or_else (lookup same key (put_absent (lookup same new m) new v m)) later
        ≡ or_else (lookup same key m) (if same new key then some v else later)
  or_else-put_absent new key v m later = elim (Option-cases (lookup same new m)) [
    | inl absent ↦ elim (Bool-cases (same new key)) [
      | inl equal ↦
          let there : lookup same key m ≡ none = rw (← sound new key equal) absent in
          rw (absent, equal, there)
      | inr other ↦ rw (absent, other)
    ]
    | inr (old, present) ↦ elim (Bool-cases (same new key)) [
      | inl equal ↦
          let there : lookup same key m ≡ some old = rw (← sound new key equal) present in
          rw (present, equal, there)
      | inr other ↦ rw (present, other)
    ]
  ]
