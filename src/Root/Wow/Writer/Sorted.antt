-- ===== src/Root/Wow/Writer/Sorted.antt =====
-- `Encode` sorts the entries: the order is strict where it accepts them, and nothing is lost.
use go_casclib.Common.{
  insert_sorted, insertion_sort, insertion_sort-All, All-insertion_sort, length-insertion_sort, ℕ,
  ◌≤◌, ◌<◌, ◌≡◌, length, arith, ltb, Bool-cases, inl, inr, List, [], ◌∷◌, All, false,
}
use go_casclib.Root.Wow.Writer.{WriteEntry, id_before, sort_by_id, has_duplicate}
use go_casclib.Root.Wow.Writer.Entries.{Precedes, Ascending}

-- What holds of the entries in their order holds of them as they were given.
pub sort_by_id-All {κ} :
    (P : WriteEntry → Type κ) (es : List WriteEntry) → All P (sort_by_id es) → All P es
unfolding sort_by_id
sort_by_id-All P es h = insertion_sort-All id_before P es h

pub All-sort_by_id {κ} :
    (P : WriteEntry → Type κ) (es : List WriteEntry) → All P es → All P (sort_by_id es)
unfolding sort_by_id
All-sort_by_id P es h = All-insertion_sort id_before P es h

pub length-sort_by_id : (es : List WriteEntry) → length (sort_by_id es) ≡ length es
unfolding sort_by_id
length-sort_by_id es = length-insertion_sort id_before es

abbrev Leads : WriteEntry → List WriteEntry → Type 0
Leads x [] = Unit
Leads x (y ∷ ys) = x.file_data_id ≤ y.file_data_id

abbrev Ordered : List WriteEntry → Type 0
Ordered [] = Unit
Ordered (x ∷ xs) = Leads x xs × Ordered xs

Leads-insert_sorted :
    (x e : WriteEntry) (xs : List WriteEntry)
    → x.file_data_id ≤ e.file_data_id
    → Leads x xs
    → Leads x (insert_sorted id_before e xs)
Leads-insert_sorted x e [] h l = h
Leads-insert_sorted x e (y ∷ ys) h l = elim (Bool-cases (ltb y.file_data_id e.file_data_id)) [
  | inl less ↦ rw less l
  | inr other ↦ rw other h
]

insert_sorted-Ordered :
    (e : WriteEntry) (xs : List WriteEntry) → Ordered xs → Ordered (insert_sorted id_before e xs)
insert_sorted-Ordered e [] h = (tt, tt)
insert_sorted-Ordered e (x ∷ xs) (l, h) = elim (Bool-cases (ltb x.file_data_id e.file_data_id)) [
  | inl less ↦
      let first : x.file_data_id ≤ e.file_data_id = ground arith in
      rw less (Leads-insert_sorted x e xs first l, insert_sorted-Ordered e xs h)
  | inr other ↦
      let first : e.file_data_id ≤ x.file_data_id = ground arith in rw other (first, (l, h))
]

sort_by_id-Ordered : (es : List WriteEntry) → Ordered (sort_by_id es)
unfolding sort_by_id
sort_by_id-Ordered [] = tt
sort_by_id-Ordered (e ∷ es) =
    insert_sorted-Ordered e (insertion_sort id_before es) (sort_by_id-Ordered es)

Precedes-trans :
    (id next : ℕ) (es : List WriteEntry) → id < next → Precedes next es → Precedes id es
Precedes-trans id next [] h p = tt
Precedes-trans id next (e ∷ es) h (q, p) = (omega arith, Precedes-trans id next es h p)

Ordered-Ascending : (es : List WriteEntry) → Ordered es → has_duplicate es ≡ false → Ascending es
unfolding has_duplicate
Ordered-Ascending [] o h = tt
Ordered-Ascending (x ∷ []) o h = (tt, tt)
Ordered-Ascending (x ∷ y ∷ ys) (l, o) h =
    let other : x.file_data_id < y.file_data_id = ground arith in
    let rest : has_duplicate (y ∷ ys) ≡ false = ground arith in
    let (p, a) = Ordered-Ascending (y ∷ ys) o rest in
    ((other, Precedes-trans x.file_data_id y.file_data_id ys other p), (p, a))

pub sort_by_id-Ascending :
    (es : List WriteEntry) → has_duplicate (sort_by_id es) ≡ false → Ascending (sort_by_id es)
sort_by_id-Ascending es h = Ordered-Ascending (sort_by_id es) (sort_by_id-Ordered es) h
