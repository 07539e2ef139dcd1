-- ===== src/Common/Sorting.antt =====
-- `sort.Slice`, as insertion by the test that the source gives: no entry is lost.
use Prim.Native.Nat.{suc}
use mathlib.Core.Path.{◌≡◌, refl, ap, ◌∙◌, subst}
use mathlib.Core.Logic.{inl, inr}
use mathlib.Core.Bool.{Bool}
use mathlib.Core.List.{List, [], ◌∷◌}
use go_casclib.Common.Tests.{if◌then◌else◌, Bool-cases}
use go_casclib.Common.Lists.{length, All}

module _ {ℓ} {A : Type ℓ} (before : A → A → Bool) where
  abbrev pub insert_sorted : A → List A → List A
  insert_sorted e [] = e ∷ []
  insert_sorted e (x ∷ xs) = if before x e then x ∷ insert_sorted e xs else e ∷ x ∷ xs

  abbrev pub insertion_sort : List A → List A
  insertion_sort [] = []
  insertion_sort (e ∷ es) = insert_sorted e (insertion_sort es)

  length-insert_sorted : (e : A) (xs : List A) → length (insert_sorted e xs) ≡ suc (length xs)
  length-insert_sorted e [] = refl
  length-insert_sorted e (x ∷ xs) = elim (Bool-cases (before x e)) [
    | inl less ↦ rw less (ap suc (length-insert_sorted e xs))
    | inr other ↦ rw other
  ]

  pub length-insertion_sort : (es : List A) → length (insertion_sort es) ≡ length es
  length-insertion_sort [] = refl
  length-insertion_sort (e ∷ es) =
      length-insert_sorted e (insertion_sort es) ∙ ap suc (length-insertion_sort es)

  module _ {κ} (P : A → Type κ) where
    insert_sorted-All : (e : A) (es : List A) → All P (insert_sorted e es) → P e × All P es
    insert_sorted-All e [] h = h
    insert_sorted-All e (x ∷ xs) h = elim (Bool-cases (before x e)) [
      | inl less ↦
          let moved =
            subst (λ b. All P (if b then x ∷ insert_sorted e xs else e ∷ x ∷ xs)) less h in
          let (first, rest) = insert_sorted-All e xs moved.1 in (first, (moved.0, rest))
      | inr other ↦ subst (λ b. All P (if b then x ∷ insert_sorted e xs else e ∷ x ∷ xs)) other h
    ]

    -- What holds of the entries in their order holds of them as they were given.
    pub insertion_sort-All : (es : List A) → All P (insertion_sort es) → All P es
    insertion_sort-All [] h = tt
    insertion_sort-All (e ∷ es) h =
        let (first, rest) = insert_sorted-All e (insertion_sort es) h in
        (first, insertion_sort-All es rest)

    All-insert_sorted : (e : A) (es : List A) → P e → All P es → All P (insert_sorted e es)
    All-insert_sorted e [] p h = (p, tt)
    All-insert_sorted e (x ∷ xs) p (q, h) = elim (Bool-cases (before x e)) [
      | inl less ↦ rw less (q, All-insert_sorted e xs p h)
      | inr other ↦ rw other (p, (q, h))
    ]

    pub All-insertion_sort : (es : List A) → All P es → All P (insertion_sort es)
    All-insertion_sort [] h = tt
    All-insertion_sort (e ∷ es) (p, h) =
        All-insert_sorted e (insertion_sort es) p (All-insertion_sort es h)
