-- ===== src/Storage/Merge.antt =====
-- The map of the keys against its reference: the first entry of the indices that has the key.
use go_casclib.Common.{
  ◌≡◌, refl, ap, ◌∙◌, sym, if◌then◌else◌, inl, inr, Bool-cases, Option, none, some, List, [], ◌∷◌,
  ◌++◌, lookup, or_else, or_else-put_absent,
}
use go_casclib.Binary.{Bytes, bytes_eq, bytes_eq_iff}
use go_casclib.Index.Entry.{EKeyEntry}
use go_casclib.Index.Reader.{IndexFile}
use go_casclib.Storage.Lookup.{
  Storage, ekey_of, merge_entries, merge_indexes, ekey_map, find_in_map, build_ekey_map,
  find_by_ekey,
}

abbrev pub first_entry : List EKeyEntry → Bytes → Option EKeyEntry
first_entry [] k = none
first_entry (e ∷ es) k = if bytes_eq (ekey_of e.ekey) k then some e else first_entry es k

-- The entries of the indices, in their order.
abbrev pub all_entries : List IndexFile → List EKeyEntry
all_entries [] = []
all_entries (idx ∷ rest) = idx.entries ++ all_entries rest

or_else-none : (o : Option EKeyEntry) → or_else o none ≡ o
or_else-none none = refl
or_else-none (some e) = refl

or_else_assoc : (a b d : Option EKeyEntry) → or_else (or_else a b) d ≡ or_else a (or_else b d)
or_else_assoc none b d = refl
or_else_assoc (some e) b d = refl

first_entry-append :
    (xs ys : List EKeyEntry) (k : Bytes)
    → first_entry (xs ++ ys) k ≡ or_else (first_entry xs k) (first_entry ys k)
first_entry-append [] ys k = refl
first_entry-append (x ∷ xs) ys k = elim (Bool-cases (bytes_eq (ekey_of x.ekey) k)) [
  | inl same ↦ rw same
  | inr other ↦ rw other (first_entry-append xs ys k)
]

merge_entries-lookup :
    (k : Bytes) (es : List EKeyEntry) (m : List (Bytes × EKeyEntry))
    → lookup bytes_eq k (merge_entries es m) ≡ or_else (lookup bytes_eq k m) (first_entry es k)
unfolding merge_entries
merge_entries-lookup k [] m = sym (or_else-none (lookup bytes_eq k m))
merge_entries-lookup k (e ∷ es) m =
    merge_entries-lookup k es _
    ∙ or_else-put_absent bytes_eq (λ a b. (bytes_eq_iff a b).0) (ekey_of e.ekey) k e m
        (first_entry es k)

merge_indexes-lookup :
    (k : Bytes) (idxs : List IndexFile) (m : List (Bytes × EKeyEntry))
    → lookup bytes_eq k (merge_indexes idxs m)
      ≡ or_else (lookup bytes_eq k m) (first_entry (all_entries idxs) k)
unfolding merge_indexes
merge_indexes-lookup k [] m = sym (or_else-none (lookup bytes_eq k m))
merge_indexes-lookup k (idx ∷ rest) m =
    merge_indexes-lookup k rest (merge_entries idx.entries m)
    ∙ ap (λ o. or_else o (first_entry (all_entries rest) k)) (merge_entries-lookup k idx.entries m)
    ∙ or_else_assoc (lookup bytes_eq k m) (first_entry idx.entries k)
        (first_entry (all_entries rest) k)
    ∙ ap (or_else (lookup bytes_eq k m)) (sym (first_entry-append idx.entries (all_entries rest) k))

-- Behind `buildEKeyMap`, a key is found as the first entry of the indices, in their order, that has
-- the same first nine bytes, and is not found where there is none.
pub find_by_ekey-build_ekey_map :
    {H : Type 0} (s : Storage H) (e : Bytes)
    → find_by_ekey (build_ekey_map s) e ≡ first_entry (all_entries s.indexes) (ekey_of e)
unfolding find_by_ekey build_ekey_map
find_by_ekey-build_ekey_map s e = by_indexes s.indexes
  where
    by_indexes :
        (idxs : List IndexFile)
        → find_in_map (ekey_map idxs) e ≡ first_entry (all_entries idxs) (ekey_of e)
    by_indexes [] = refl
    by_indexes (idx ∷ rest) = merge_indexes-lookup (ekey_of e) (idx ∷ rest) []
