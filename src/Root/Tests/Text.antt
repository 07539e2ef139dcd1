-- ===== src/Root/Tests/Text.antt =====
-- The line "a|" with a key, and the name with a large letter.
use go_casclib.Common.{◌≡◌, refl, arith, some, [], ◌∷◌, ◌++◌, replicate, All-replicate}
use go_casclib.Binary.{Bytes, IsByte}
use go_casclib.Listfile.{normalized_char}
use go_casclib.Text.Visible.{trim_space-IsVisible}
use go_casclib.Cdn.ArchiveSet.{hex_string}
use go_casclib.Buildcfg.Keys.{IsKey}
use go_casclib.Root.Text.{Handler, put_line, lookup_by_name}
use go_casclib.Root.Text.Lines.{named_entry, lookup_by_name-put_line}

abbrev one_key : Bytes
one_key = 0x0a ∷ replicate 15 0xf1

one_key-IsKey : IsKey one_key
one_key-IsKey = record {
  size = refl;
  bytes = (omega arith, All-replicate IsByte 15 0xf1 (omega arith));
}

abbrev no_names : Handler
no_names = record { by_hash = [] }

small_is_large : normalized_char 65 ∷ [] ≡ normalized_char 97 ∷ []
unfolding normalized_char
small_is_large = refl

lookup_by_name-put_line_example :
    lookup_by_name (put_line no_names ((97 ∷ []) ++ (b'|' ∷ hex_string one_key))) (65 ∷ [])
    ≡ some (named_entry (97 ∷ []) one_key)
lookup_by_name-put_line_example =
    lookup_by_name-put_line no_names 97 [] one_key (65 ∷ []) one_key-IsKey refl (refl, tt)
      (trim_space-IsVisible (97 ∷ []) (record { above = omega arith; ascii = omega arith }, tt))
      small_is_large
