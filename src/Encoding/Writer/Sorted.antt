-- ===== src/Encoding/Writer/Sorted.antt =====
-- `Encode` sorts the entries: none is lost, and `Find` finds each where equal keys have equal
-- entries.
use go_casclib.Common.{
  insertion_sort-All, All-insertion_sort, length-insertion_sort, ◌≡◌, refl, ap, ◌∙◌, sym,
  Bool-cases, inl, inr, none, some, List, [], ◌∷◌, map, All, All-imp, length, true, ◌⊎◌,
}
use go_casclib.Binary.{bytes_eq, bytes_eq_iff}
use go_casclib.Encoding.Reader.{CKeyEntry, find_in}
use go_casclib.Encoding.Writer.{ckey_before, sort_by_ckey}

module _ {κ} (P : CKeyEntry → Type κ) where
  pub sort_by_ckey-All : (es : List CKeyEntry) → All P (sort_by_ckey es) → All P es
  unfolding sort_by_ckey
  sort_by_ckey-All es h = insertion_sort-All ckey_before P es h

  pub All-sort_by_ckey : (es : List CKeyEntry) → All P es → All P (sort_by_ckey es)
  unfolding sort_by_ckey
  All-sort_by_ckey es h = All-insertion_sort ckey_before P es h

pub length-sort_by_ckey : (es : List CKeyEntry) → length (sort_by_ckey es) ≡ length es
unfolding sort_by_ckey
length-sort_by_ckey es = length-insertion_sort ckey_before es

-- Entries with equal keys are equal.
abbrev pub Agree : List CKeyEntry → CKeyEntry → Type 0
Agree es e = All (λ other. other.ckey ≡ e.ckey → other ≡ e) es

module _ (g : CKeyEntry → CKeyEntry) (keeps : (e : CKeyEntry) → (g e).ckey ≡ e.ckey) where
  -- What is found for a key is the entry that has it.
  find_in-cases :
      (e : CKeyEntry) (es : List CKeyEntry)
      → Agree es e
      → (find_in (map g es) e.ckey ≡ none) ⊎ (find_in (map g es) e.ckey ≡ some (g e))
  unfolding find_in
  find_in-cases e [] a = inl refl
  find_in-cases e (x ∷ xs) (same, a) = elim (find_in-cases e xs a) [
    | inr found ↦ inr (rw found)
    | inl absent ↦ elim (Bool-cases (bytes_eq (g x).ckey e.ckey)) [
      | inl equal ↦
          let key : x.ckey ≡ e.ckey = sym (keeps x) ∙ (bytes_eq_iff (g x).ckey e.ckey).0 equal in
          inr (rw (absent, equal) (ap some (ap g (same key))))
      | inr other ↦ inl (rw (absent, other))
    ]
  ]

  find_in-first :
      (e : CKeyEntry) (es : List CKeyEntry)
      → Agree es e
      → find_in (map g (e ∷ es)) e.ckey ≡ some (g e)
  unfolding find_in
  find_in-first e es a =
      let own : bytes_eq (g e).ckey e.ckey ≡ true = (bytes_eq_iff (g e).ckey e.ckey).1 (keeps e) in
      elim (find_in-cases e es a) [ inl absent ↦ rw (absent, own) | inr found ↦ rw found ]

  find_in-later :
      (x e : CKeyEntry) (es : List CKeyEntry)
      → find_in (map g es) e.ckey ≡ some (g e)
      → find_in (map g (x ∷ es)) e.ckey ≡ some (g e)
  unfolding find_in
  find_in-later x e es h = rw h

  -- Where entries with equal keys are equal, each is found by its key.
  pub find_in-map :
      (es : List CKeyEntry)
      → All (Agree es) es
      → All (λ e. find_in (map g es) e.ckey ≡ some (g e)) es
  find_in-map [] a = tt
  find_in-map (x ∷ xs) (first, a) =
      let rest = find_in-map xs (All-imp (Agree (x ∷ xs)) (Agree xs) (λ e p. p.1) xs a) in
      (
        find_in-first x xs first.1,
        All-imp (λ e. find_in (map g xs) e.ckey ≡ some (g e)) _ (λ e h. find_in-later x e xs h) xs
            rest,
      )

  -- The same of the sorted entries, for the entries as they were given.
  pub find_in-sorted :
      (es : List CKeyEntry)
      → All (Agree es) es
      → All (λ e. find_in (map g (sort_by_ckey es)) e.ckey ≡ some (g e)) es
  find_in-sorted es a =
      let sorted = sort_by_ckey es in
      let agree : All (Agree sorted) sorted = All-sort_by_ckey (Agree sorted) es (
        All-imp (Agree es) (Agree sorted)
          (λ e p. All-sort_by_ckey (λ other. other.ckey ≡ e.ckey → other ≡ e) es p) es a) in
      sort_by_ckey-All (λ e. find_in (map g sorted) e.ckey ≡ some (g e)) es
        (find_in-map sorted agree)
