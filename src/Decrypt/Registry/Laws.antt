-- ===== src/Decrypt/Registry/Laws.antt =====
-- The registry: what `Add` does to `Find`.
use go_casclib.Common.{
  ℕ, ◌≡◌, ap, sym, subst, ◌∙◌, arith, ◌==◌, if◌then◌else◌, Bool-cases, inl, inr, Option, none, some,
  Result, ok, err, guard, >>=-eq-ok, guard-eq-ok, invalid_parameter, length,
}
use go_casclib.Binary.{Bytes}
use go_casclib.Decrypt.Registry.{KeyRegistry, new_key_registry, add, find}

-- Every key that is registered has sixteen bytes.
abbrev pub HasKeySize : Option Bytes → Type 0
HasKeySize none = Unit
HasKeySize (some key) = length key ≡ 16

abbrev pub IsValid : KeyRegistry → Type 0
IsValid r = (name : ℕ) → HasKeySize (find r name)

pub new_key_registry-IsValid : IsValid new_key_registry
unfolding find new_key_registry
new_key_registry-IsValid name = tt

find_added :
    (r : KeyRegistry) (name : ℕ) (key : Bytes) (other : ℕ) (r' : KeyRegistry)
    → add r name key ≡ ok r'
    → (length key ≡ 16) × (find r' other ≡ (if other == name then some key else find r other))
unfolding add find
find_added r name key other r' h =
    let (_, guarded, made) = >>=-eq-ok (guard (length key == 16) invalid_parameter) _ h in
    let long = guard-eq-ok (length key == 16) invalid_parameter guarded in
    (ground arith, ap (found other) (sym made))
  where
    found : ℕ → Result KeyRegistry → Option Bytes
    found other (ok r) = r.keys other
    found other (err _) = none

-- Where `Add` succeeds, `Find` gives the key under its name and what it gave before under every
-- other name, and if all keys had sixteen bytes, they still have.
pub add_lem :
    (r : KeyRegistry) (name : ℕ) (key : Bytes) (r' : KeyRegistry)
    → IsValid r
    → add r name key ≡ ok r'
    → ((other : ℕ) → find r' other ≡ (if other == name then some key else find r other))
      × IsValid r'
add_lem r name key r' v made = (
  λ other. (find_added r name key other r' made).1,
  λ other.
      let (long, e) = find_added r name key other r' made in
      elim (Bool-cases (other == name)) [
        | inl own ↦
            subst HasKeySize (sym (e ∙ ap (λ b. if b then some key else find r other) own)) long
        | inr foreign_name ↦
            subst HasKeySize (sym (e ∙ ap (λ b. if b then some key else find r other) foreign_name))
              (v other)
      ],
)
