-- ===== src/Text/Spaces.antt =====
-- `strings.TrimSpace` and `strings.Fields`. No lead byte is a byte of another character, so a white
-- space character is found by its bytes wherever it stands.
use go_casclib.Common.{
  ℕ, zero, suc, Bool, ◌||◌, ◌&&◌, leb, ◌==◌, if◌then◌else◌, List, [], ◌∷◌, ◌++◌, length, drop,
}
use go_casclib.Binary.{Bytes}

-- The white space characters of `unicode.IsSpace` that take one, two and three bytes.
abbrev pub is_space_1 : ℕ → Bool
is_space_1 a = (leb 9 a && leb a 13) || (a == 32)

abbrev pub is_space_2 : ℕ → ℕ → Bool
is_space_2 a b = (a == 0xc2) && ((b == 0x85) || (b == 0xa0))

abbrev pub is_space_3 : ℕ → ℕ → ℕ → Bool
is_space_3 a b c =
    ((a == 0xe1) && (b == 0x9a) && (c == 0x80))
    || ((a == 0xe2) && (b == 0x80) && (leb 0x80 c && leb c 0x8a))
    || ((a == 0xe2) && (b == 0x80) && ((c == 0xa8) || (c == 0xa9) || (c == 0xaf)))
    || ((a == 0xe2) && (b == 0x81) && (c == 0x9f))
    || ((a == 0xe3) && (b == 0x80) && (c == 0x80))

-- The number of bytes of the white space character in front, 0 if there is none.
abbrev pub space_width : Bytes → ℕ
space_width (a ∷ b ∷ c ∷ s) =
    if is_space_1 a then 1 else if is_space_2 a b then 2 else if is_space_3 a b c then 3 else 0
space_width (a ∷ b ∷ []) = if is_space_1 a then 1 else if is_space_2 a b then 2 else 0
space_width (a ∷ []) = if is_space_1 a then 1 else 0
space_width [] = 0

-- The same of a text from its end.
abbrev pub space_width_back : Bytes → ℕ
space_width_back (c ∷ b ∷ a ∷ s) =
    if is_space_1 c then 1 else if is_space_2 b c then 2 else if is_space_3 a b c then 3 else 0
space_width_back (b ∷ a ∷ []) = if is_space_1 b then 1 else if is_space_2 a b then 2 else 0
space_width_back (a ∷ []) = if is_space_1 a then 1 else 0
space_width_back [] = 0

-- Each round takes a byte at least, so the length is fuel enough.
unfoldable pub strip_front : (Bytes → ℕ) → ℕ → Bytes → Bytes
strip_front width zero s = s
strip_front width (suc n) s = elim (width s) [
  | zero ↦ s
  | suc w ↦ strip_front width n (drop (suc w) s)
]

abbrev pub backward : Bytes → Bytes
backward [] = []
backward (b ∷ bs) = backward bs ++ (b ∷ [])

unfoldable pub trim_space : Bytes → Bytes
unfolding strip_front
trim_space s =
    let t = strip_front space_width (length s) s in
    backward (strip_front space_width_back (length t) (backward t))

abbrev pub add_word : Bytes → List Bytes → List Bytes
add_word [] words = words
add_word (b ∷ word) words = (b ∷ word) ∷ words

pub fields_from : ℕ → Bytes → Bytes → List Bytes
fields_from zero word s = add_word word []
fields_from (suc n) word [] = add_word word []
fields_from (suc n) word (b ∷ s) = elim (space_width (b ∷ s)) [
  | zero ↦ fields_from n (word ++ (b ∷ [])) s
  | suc w ↦ add_word word (fields_from n [] (drop (suc w) (b ∷ s)))
]

unfoldable pub text_fields : Bytes → List Bytes
unfolding fields_from
text_fields s = fields_from (length s) [] s
