-- ===== src/Root/Tests/Install.antt =====
-- An INSTALL manifest with two entries and a tag.
use go_casclib.Common.{◌≡◌, refl, arith, [], ◌∷◌, ok, IsSafe, replicate, map, All}
use go_casclib.Binary.{Bytes}
use go_casclib.Root.Install.{Tag, Handler, parse}
use go_casclib.Root.Install.Safety.{install_parse-IsSafe}
use go_casclib.Root.Install.Writer.{Entry, encode}
use go_casclib.Root.Install.Writer.Parts.{loaded_tag}
use go_casclib.Root.Install.Writer.Entries.{loaded, FoundIn}
use go_casclib.Root.Install.Writer.RoundTrip.{Accepts, lookup-parse-encode_install}

abbrev setup : Entry
setup = record { name = 97 ∷ 47 ∷ 98 ∷ []; ckey = replicate 16 7; content_size = 1000 }

abbrev launcher : Entry
launcher = record { name = 99 ∷ []; ckey = replicate 16 8; content_size = 5 }

abbrev windows : Tag
windows = record { name = 87 ∷ []; tag_type = 1; bitmap = 0xC0 ∷ 0xFF ∷ [] }

accepted : Accepts (setup ∷ launcher ∷ []) (windows ∷ []) 0
accepted = record {
  fits = (
    record { name_lacks = (refl, (refl, (refl, tt))); ckey_size = refl; size_fits = omega arith },
    (record { name_lacks = (refl, tt); ckey_size = refl; size_fits = omega arith }, tt),
  );
  tags_fit = (record { name_lacks = (refl, tt); type_fits = omega arith }, tt);
  few_tags = omega arith;
  few_entries = omega arith;
  size_fits = omega arith;
}

lookup-parse-encode_install_example :
    (bs : Bytes) × (encode (setup ∷ launcher ∷ []) (windows ∷ []) 0 ≡ ok bs)
    × (h : Handler) × (parse bs ≡ ok h)
    × (h.tags ≡ map (loaded_tag 1) (windows ∷ []))
    × (h.all ≡ map (λ e. (e.name, loaded 16 e)) (setup ∷ launcher ∷ []))
    × All (FoundIn 16 h) (setup ∷ launcher ∷ [])
lookup-parse-encode_install_example =
    lookup-parse-encode_install (setup ∷ launcher ∷ []) (windows ∷ []) 0 accepted
      ((refl, tt), (tt, tt))

install_parse-IsSafe_example : IsSafe (parse (0x49 ∷ 0x4E ∷ 1 ∷ 16 ∷ replicate 30 1))
install_parse-IsSafe_example = install_parse-IsSafe (0x49 ∷ 0x4E ∷ 1 ∷ 16 ∷ replicate 30 1)
