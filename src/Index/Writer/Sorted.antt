-- ===== src/Index/Writer/Sorted.antt =====
-- `EncodeV1` writes the entries it was given, in the order of their keys.
use go_casclib.Common.{
  insert_sorted, insertion_sort, ℕ, zero, suc, ◌≡◌, refl, List, [], ◌∷◌, arith, Bool-cases, inl,
  inr, true, false,
}
use mathlib.Core.List.{Perm}
use mathlib.Core.List.Perm
use go_casclib.Binary.{Bytes}
use go_casclib.Index.Entry.{EKeyEntry}
use go_casclib.Index.Writer.{ekey_less, entry_before, sort_entries}

insert_sorted-Perm :
    (e : EKeyEntry) (es : List EKeyEntry) → Perm (insert_sorted entry_before e es) (e ∷ es)
insert_sorted-Perm e [] = Perm.refl _
insert_sorted-Perm e (x ∷ xs) = elim (Bool-cases (ekey_less 9 x.ekey e.ekey)) [
  | inl less ↦ rw less (Perm.trans (Perm.cons x (insert_sorted-Perm e xs)) (Perm.swap e x xs))
  | inr other ↦ rw other (Perm.refl _)
]

sort_entries-Perm : (es : List EKeyEntry) → Perm (sort_entries es) es
unfolding sort_entries
sort_entries-Perm [] = Perm.refl _
sort_entries-Perm (e ∷ es) =
    Perm.trans (insert_sorted-Perm e (insertion_sort entry_before es))
      (Perm.cons e (sort_entries-Perm es))

-- No neighbour is before the entry in front of it.
abbrev pub Leads : EKeyEntry → List EKeyEntry → Type 0
Leads x [] = Unit
Leads x (y ∷ ys) = ekey_less 9 y.ekey x.ekey ≡ false

abbrev pub InOrder : List EKeyEntry → Type 0
InOrder [] = Unit
InOrder (x ∷ xs) = Leads x xs × InOrder xs

ekey_less_asymm : (n : ℕ) (a b : Bytes) → ekey_less n a b ≡ true → ekey_less n b a ≡ false
unfolding ekey_less
ekey_less_asymm zero a b h = refl
ekey_less_asymm (suc n) [] [] h = refl
ekey_less_asymm (suc n) [] (y ∷ b) h = refl
ekey_less_asymm (suc n) (x ∷ a) [] h = refl
ekey_less_asymm (suc n) (x ∷ a) (y ∷ b) h = ground (arith, ekey_less_asymm n a b)

Leads-insert_sorted :
    (x e : EKeyEntry) (xs : List EKeyEntry)
    → ekey_less 9 x.ekey e.ekey ≡ true
    → Leads x xs
    → Leads x (insert_sorted entry_before e xs)
Leads-insert_sorted x e [] h l = ekey_less_asymm 9 x.ekey e.ekey h
Leads-insert_sorted x e (y ∷ ys) h l = elim (Bool-cases (ekey_less 9 y.ekey e.ekey)) [
  | inl less ↦ rw less l
  | inr other ↦ rw other (ekey_less_asymm 9 x.ekey e.ekey h)
]

insert_sorted-InOrder :
    (e : EKeyEntry) (xs : List EKeyEntry) → InOrder xs → InOrder (insert_sorted entry_before e xs)
insert_sorted-InOrder e [] h = (tt, tt)
insert_sorted-InOrder e (x ∷ xs) (l, h) = elim (Bool-cases (ekey_less 9 x.ekey e.ekey)) [
  | inl less ↦ rw less (Leads-insert_sorted x e xs less l, insert_sorted-InOrder e xs h)
  | inr other ↦ rw other (other, (l, h))
]

sort_entries_ordered : (es : List EKeyEntry) → InOrder (sort_entries es)
unfolding sort_entries
sort_entries_ordered [] = tt
sort_entries_ordered (e ∷ es) =
    insert_sorted-InOrder e (insertion_sort entry_before es) (sort_entries_ordered es)

-- The entries of the file are in the order of their keys, and are those that were given.
pub sort_entries-InOrder :
    (es : List EKeyEntry) → InOrder (sort_entries es) × Perm (sort_entries es) es
sort_entries-InOrder es = (sort_entries_ordered es, sort_entries-Perm es)
