-- ===== src/Buildcfg/Names.antt =====
-- The names of a configuration, in the order in which they first appear.
use go_casclib.Common.{
  ◌≡◌, refl, ◌∙◌, sym, ◌↔◌, Bool, Bool-cases, Option-cases, true, false, ◌||◌, inl, inr, Option,
  none, some, List, [], ◌∷◌, ◌++◌, lookup, ok, >>=-eq-ok, ℕ, ◌*◌, ◌==◌, subst,
}
use go_casclib.Binary.{Bytes, bytes_eq, bytes_eq_iff, index_byte}
use go_casclib.Text.{trim_space, text_fields, scan_lines}
use go_casclib.Buildcfg.{
  Config, assign, assign_named, add_pair_at, add_line, add_lines, empty_config, parse,
}

abbrev pub is_in : List Bytes → Bytes → Bool
is_in [] name = false
is_in (n ∷ names) name = bytes_eq n name || is_in names name

abbrev pub AreDistinct : List Bytes → Type 0
AreDistinct [] = Unit
AreDistinct (n ∷ names) = (is_in names n ≡ false) × AreDistinct names

-- The order has each name of the map once, and no other.
pub record IsOrdered (c : Config) : Type 0 where
  pub known :
      (name : Bytes) → (lookup bytes_eq name c.entries ≡ none) ↔ (is_in c.order name ≡ false)
  pub distinct : AreDistinct c.order

or-false : (a b : Bool) → b ≡ false → (a || b) ≡ a
or-false true b e = refl
or-false false b e = e

or-true : (a b : Bool) → b ≡ true → (a || b) ≡ true
or-true true b e = refl
or-true false b e = e

is_in-append :
    (names : List Bytes) (n name : Bytes)
    → is_in (names ++ (n ∷ [])) name ≡ (is_in names name || bytes_eq n name)
is_in-append [] n name = or-false (bytes_eq n name) false refl
is_in-append (m ∷ names) n name = elim (Bool-cases (bytes_eq m name)) [
  | inl same ↦ rw same
  | inr other ↦ rw other (is_in-append names n name)
]

bytes_eq-sym : (a b : Bytes) → bytes_eq a b ≡ false → bytes_eq b a ≡ false
bytes_eq-sym a b h = elim (Bool-cases (bytes_eq b a)) [
  | inl same ↦
      let e : bytes_eq a b ≡ true = (bytes_eq_iff a b).1 (sym ((bytes_eq_iff b a).0 same)) in
      absurd cc
  | inr other ↦ other
]

or_false_left : (a b : Bool) → (a || b) ≡ false → (a ≡ false) × (b ≡ false)
or_false_left true b h = absurd cc
or_false_left false b h = (refl, h)

AreDistinct-append :
    (names : List Bytes) (n : Bytes)
    → is_in names n ≡ false
    → AreDistinct names
    → AreDistinct (names ++ (n ∷ []))
AreDistinct-append [] n absent h = (refl, tt)
AreDistinct-append (m ∷ names) n absent (first, h) =
    let (other, later) = or_false_left (bytes_eq m n) (is_in names n) absent in
    (
      is_in-append names n m
          ∙ (or-false (is_in names m) (bytes_eq n m) (bytes_eq-sym m n other) ∙ first),
      AreDistinct-append names n later h,
    )

assign-IsOrdered :
    (c : Config) (n : Bytes) (values : List Bytes) → IsOrdered c → IsOrdered (assign c n values)
unfolding assign
assign-IsOrdered c n values h = elim (Option-cases (lookup bytes_eq n c.entries)) [
  | inl absent ↦ rw absent (record {
    known = new_name absent;
    distinct = AreDistinct-append c.order n ((h.known n).0 absent) h.distinct;
  })
  | inr (old, present) ↦ rw present (record { known = old_name old present; distinct = h.distinct })
]
  where
    new_name :
        lookup bytes_eq n c.entries ≡ none
        → (name : Bytes)
        → (lookup bytes_eq name ((n, values) ∷ c.entries) ≡ none)
          ↔ (is_in (c.order ++ (n ∷ [])) name ≡ false)
    new_name absent name = elim (Bool-cases (bytes_eq n name)) [
      | inl same ↦
          let there = is_in-append c.order n name ∙ or-true (is_in c.order name) _ same in
          rw (same, there) (λ e. absurd cc, λ e. absurd cc)
      | inr other ↦
          let there = is_in-append c.order n name ∙ or-false (is_in c.order name) _ other in
          rw (other, there) (h.known name)
    ]

    old_name :
        (old : List Bytes)
        → lookup bytes_eq n c.entries ≡ some old
        → (name : Bytes)
        → (lookup bytes_eq name ((n, values) ∷ c.entries) ≡ none) ↔ (is_in c.order name ≡ false)
    old_name old present name = elim (Bool-cases (bytes_eq n name)) [
      | inl same ↦
          let e : n ≡ name = (bytes_eq_iff n name).0 same in
          rw same (
            λ e. absurd cc,
            λ out.
                let none_there : lookup bytes_eq n c.entries ≡ none = rw e ((h.known name).1 out) in
                absurd cc,
          )
      | inr other ↦ rw other (h.known name)
    ]

assign_named-IsOrdered :
    (c : Config) (n rest : Bytes) → IsOrdered c → IsOrdered (assign_named c n rest)
unfolding assign_named
assign_named-IsOrdered c [] rest h = h
assign_named-IsOrdered c (b ∷ n) rest h = assign-IsOrdered c (b ∷ n) (text_fields rest) h

add_pair_at-IsOrdered :
    (c : Config) (line : Bytes) (eq : Option ℕ) → IsOrdered c → IsOrdered (add_pair_at c line eq)
add_pair_at-IsOrdered c line none h = h
add_pair_at-IsOrdered c line (some eq) h = assign_named-IsOrdered c _ _ h

add_line-IsOrdered : (c : Config) (line : Bytes) → IsOrdered c → IsOrdered (add_line c line)
add_line-IsOrdered c [] h = h
add_line-IsOrdered c (b ∷ s) h = elim (Bool-cases (b == b'#')) [
  | inl comment ↦ rw comment h
  | inr line ↦ rw line (add_pair_at-IsOrdered c (b ∷ s) (index_byte b'=' (b ∷ s)) h)
]

add_lines-IsOrdered :
    (c : Config) (lines : List Bytes) → IsOrdered c → IsOrdered (add_lines c lines)
unfolding add_lines
add_lines-IsOrdered c [] h = h
add_lines-IsOrdered c (line ∷ lines) h =
    add_lines-IsOrdered (add_line c (trim_space line)) lines
      (add_line-IsOrdered c (trim_space line) h)

-- The names that `Parse` lists are those that have values in the map, each once, however often a
-- name is assigned in the file.
pub parse-IsOrdered : (s : Bytes) (c : Config) → parse s ≡ ok c → IsOrdered c
unfolding parse
parse-IsOrdered s c h =
    let (lines, scanned, made) =
      >>=-eq-ok (scan_lines (4 * 1024 * 1024) s) (λ lines. ok (add_lines empty_config lines)) h in
    let e : add_lines empty_config lines ≡ c = cc in
    subst IsOrdered e (
      add_lines-IsOrdered empty_config lines
        (record { known = λ name. (λ e. refl, λ e. refl); distinct = tt }))
