-- ===== src/Buildcfg/Tests.antt =====
-- A configuration of one line, and one with the hash of an archive.
use go_casclib.Common.{◌≡◌, refl, true, [], ◌∷◌, ok, replicate, arith, All-replicate}
use go_casclib.Binary.{Bytes, IsByte}
use go_casclib.Cdn.ArchiveSet.{hex_string}
use go_casclib.Text.{scan_lines, trim_space, text_fields}
use go_casclib.Buildcfg.{Config, assign, lookup_ckey, assign_named, parse}
use go_casclib.Buildcfg.Keys.{IsKey, lookup_ckey-assign}
use go_casclib.Buildcfg.Names.{IsOrdered, parse-IsOrdered}

-- "a = b c", a line end, "#" and "a=d" behind it
abbrev two_lines : Bytes
two_lines = 97 ∷ 32 ∷ 61 ∷ 32 ∷ 98 ∷ 32 ∷ 99 ∷ 10 ∷ 35 ∷ 10 ∷ 97 ∷ 61 ∷ 100 ∷ []

abbrev two_lines_config : Config
two_lines_config = record {
  entries = (97 ∷ [], (100 ∷ []) ∷ []) ∷ (97 ∷ [], (98 ∷ []) ∷ (99 ∷ []) ∷ []) ∷ [];
  order = (97 ∷ []) ∷ [];
}

two_lines_parsed : parse two_lines ≡ ok two_lines_config
unfolding parse scan_lines trim_space text_fields assign_named
two_lines_parsed = refl

parse-IsOrdered_example : IsOrdered two_lines_config
parse-IsOrdered_example = parse-IsOrdered two_lines two_lines_config two_lines_parsed

abbrev one_key : Bytes
one_key = 0x0a ∷ replicate 15 0xf1

one_key-IsKey : IsKey one_key
one_key-IsKey = record {
  size = refl;
  bytes = (omega arith, All-replicate IsByte 15 0xf1 (omega arith));
}

lookup_ckey-assign_example :
    lookup_ckey
      (assign two_lines_config (97 ∷ []) (hex_string one_key ∷ hex_string one_key ∷ []))
      (97 ∷ [])
    ≡ ok (record { ckey = one_key; ekey = one_key; has_ekey = true; content_size = 0 })
lookup_ckey-assign_example =
    lookup_ckey-assign two_lines_config (97 ∷ []) one_key one_key [] one_key-IsKey one_key-IsKey
