-- ===== src/Csv/Split.antt =====
-- The fields of a line.
use go_casclib.Common.{
  ℕ, ◌≡◌, refl, ap, ◌∙◌, ◌==◌, ==_refl, ==_iff, Bool-cases, inl, inr, false, List, [], ◌∷◌, ◌++◌,
  All, ◌↔◌, subst, sym,
}
use go_casclib.Binary.{Bytes, Lacks}
use go_casclib.Csv.{extend, split_line}

-- The fields with a separator between them.
abbrev pub join : ℕ → List Bytes → Bytes
join sep [] = []
join sep (field ∷ []) = field
join sep (field ∷ next ∷ fields) = field ++ (sep ∷ join sep (next ∷ fields))

-- There is a field, and no field has the separator.
abbrev pub AreFields : ℕ → List Bytes → Type 0
AreFields sep [] = ⊥
AreFields sep (field ∷ fields) = All (Lacks sep) (field ∷ fields)

join-extend :
    (sep b : ℕ) (fields : List Bytes)
    → AreFields sep fields
    → join sep (extend b fields) ≡ b ∷ join sep fields
join-extend sep b [] h = absurd h
join-extend sep b (field ∷ []) h = refl
join-extend sep b (field ∷ next ∷ fields) h = refl

extend-AreFields :
    (sep b : ℕ) (fields : List Bytes)
    → (b == sep) ≡ false
    → AreFields sep fields
    → AreFields sep (extend b fields)
extend-AreFields sep b [] e h = absurd h
extend-AreFields sep b (field ∷ fields) e (first, h) = ((e, first), h)

join-nil :
    (sep : ℕ) (fields : List Bytes)
    → AreFields sep fields
    → join sep ([] ∷ fields) ≡ sep ∷ join sep fields
join-nil sep [] h = absurd h
join-nil sep (field ∷ fields) h = refl

nil-AreFields : (sep : ℕ) (fields : List Bytes) → AreFields sep fields → AreFields sep ([] ∷ fields)
nil-AreFields sep [] h = absurd h
nil-AreFields sep (field ∷ fields) h = (tt, h)

split_line-AreFields : (sep : ℕ) (s : Bytes) → AreFields sep (split_line sep s)
unfolding split_line
split_line-AreFields sep [] = (tt, tt)
split_line-AreFields sep (b ∷ s) = elim (Bool-cases (b == sep)) [
  | inl same ↦ rw same (nil-AreFields sep (split_line sep s) (split_line-AreFields sep s))
  | inr other ↦
      rw other (extend-AreFields sep b (split_line sep s) other (split_line-AreFields sep s))
]

join-split_line : (sep : ℕ) (s : Bytes) → join sep (split_line sep s) ≡ s
unfolding split_line
join-split_line sep [] = refl
join-split_line sep (b ∷ s) = elim (Bool-cases (b == sep)) [
  | inl same ↦
      let e : b ≡ sep = (==_iff b sep).0 same in
      rw same (
        join-nil sep (split_line sep s) (split_line-AreFields sep s)
        ∙ rw (join-split_line sep s, e) refl)
  | inr other ↦ rw other (
      join-extend sep b (split_line sep s) (split_line-AreFields sep s)
      ∙ ap (λ t. b ∷ t) (join-split_line sep s))
]

split_line-field :
    (sep : ℕ) (field : Bytes)
    → All (λ b. (b == sep) ≡ false) field
    → split_line sep field ≡ field ∷ []
unfolding split_line
split_line-field sep [] h = refl
split_line-field sep (b ∷ field) (e, h) = rw (split_line-field sep field h, e)

split_line-append :
    (sep : ℕ) (field s : Bytes)
    → All (λ b. (b == sep) ≡ false) field
    → split_line sep (field ++ (sep ∷ s)) ≡ field ∷ split_line sep s
unfolding split_line
split_line-append sep [] s h = rw (==_refl sep)
split_line-append sep (b ∷ field) s (e, h) = rw (split_line-append sep field s h, e)

split_line-join :
    (sep : ℕ) (fields : List Bytes)
    → AreFields sep fields
    → split_line sep (join sep fields) ≡ fields
split_line-join sep [] h = absurd h
split_line-join sep (field ∷ []) (first, h) = split_line-field sep field first
split_line-join sep (field ∷ next ∷ fields) (first, h) =
    split_line-append sep field (join sep (next ∷ fields)) first
    ∙ ap (λ fs. field ∷ fs) (split_line-join sep (next ∷ fields) h)

-- The fields of a line are the one list of texts without the separator, at least one, that gives the
-- line when it is joined by the separator.
pub split_line_iff :
    (sep : ℕ) (s : Bytes) (fields : List Bytes)
    → (split_line sep s ≡ fields) ↔ ((join sep fields ≡ s) × AreFields sep fields)
split_line_iff sep s fields = (
  λ e.
      subst (λ fs. (join sep fs ≡ s) × AreFields sep fs) e
        (join-split_line sep s, split_line-AreFields sep s),
  λ (joined, h). ap (split_line sep) (sym joined) ∙ split_line-join sep fields h,
)
