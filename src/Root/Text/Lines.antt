-- ===== src/Root/Text/Lines.antt =====
-- A line that gives a name a key, and the lookup behind it.
use go_casclib.Common.{
  ℕ, suc, ◌/◌, ◌%◌, ◌<◌, ◌≡◌, refl, ap, ◌∙◌, sym, arith, ◌==◌, ==_refl, true, false, some, [], ◌∷◌,
  ◌++◌, map, length, length-append, drop, take-append, drop-append, append_assoc, All,
}
use go_casclib.Binary.{Bytes, IsByte, Lacks, index_byte, index_byte-append}
use go_casclib.Keys.{CKeyEntry, root_entry, invalid_id}
use go_casclib.Hashes.{hash_file_name}
use go_casclib.Listfile.{normalized_char, hash_normalized}
use go_casclib.Text.{trim_space}
use go_casclib.Text.Visible.{IsVisible, trim_space-IsVisible}
use go_casclib.Cdn.ArchiveSet.{hex_digit, hex_string}
use go_casclib.Buildcfg.Keys.{IsKey, decode_string-hex_string, length-hex_string}
use go_casclib.Root.Text.{Handler, put_name, put_pair, put_at, put_line, lookup_by_name}

hex_digit-IsVisible : (d : ℕ) → d < 16 → IsVisible (hex_digit d)
hex_digit-IsVisible d h = record { above = ground arith; ascii = ground arith }

hex_string-IsVisible : (k : Bytes) → All IsByte k → All IsVisible (hex_string k)
hex_string-IsVisible [] h = tt
hex_string-IsVisible (b ∷ k) (small, h) = (
  hex_digit-IsVisible (b / 16) (omega arith),
  (hex_digit-IsVisible (b % 16) (omega arith), hex_string-IsVisible k h),
)

-- The entry that a name and a key give.
abbrev pub named_entry : Bytes → Bytes → CKeyEntry
named_entry name ckey = root_entry ckey (hash_normalized name) 0 invalid_id 0 0

put_pair-hex_string :
    (h : Handler) (name ckey : Bytes)
    → IsKey ckey
    → put_pair h name (hex_string ckey) ≡ put_name h name ckey
unfolding put_pair
put_pair-hex_string h name ckey k =
    let long : (length (hex_string ckey) == 32) ≡ true =
      ground (arith, length-hex_string ckey, k.size) in
    rw (long, decode_string-hex_string ckey k.bytes)

put_at-pair :
    (h : Handler) (name ckey : Bytes)
    → IsKey ckey
    → trim_space name ≡ name
    → put_at h (name ++ (b'|' ∷ hex_string ckey)) (some (length name)) ≡ put_name h name ckey
unfolding put_at
put_at-pair h name ckey k trimmed =
    let before = take-append (length name) name (b'|' ∷ hex_string ckey) refl in
    let whole : drop (suc (length name)) (name ++ (b'|' ∷ hex_string ckey)) ≡ hex_string ckey =
      ap (drop (suc (length name))) (sym (append_assoc name (b'|' ∷ []) (hex_string ckey)))
      ∙ drop-append (suc (length name)) (name ++ (b'|' ∷ [])) (hex_string ckey)
          (omega (arith, length-append name (b'|' ∷ []))) in
    rw
      (
        before,
        whole,
        trimmed,
        trim_space-IsVisible (hex_string ckey) (hex_string-IsVisible ckey k.bytes),
      )
      (put_pair-hex_string h name ckey k)

hash_normalized-same :
    (s t : Bytes)
    → map normalized_char s ≡ map normalized_char t
    → hash_normalized s ≡ hash_normalized t
unfolding hash_normalized
hash_normalized-same s t e = ap hash_file_name e

-- A line with a name, a bar and a key of sixteen bytes in hexadecimal gives the entry of the key to
-- every spelling of the name: small and large letters, and the two slashes, are the same. The name
-- is not empty, does not begin with '#', has no bar and no white space at its ends. Whatever the
-- file gave the name before is replaced.
pub lookup_by_name-put_line :
    (h : Handler) (b : ℕ) (rest ckey spelling : Bytes)
    → IsKey ckey
    → (b == b'#') ≡ false
    → Lacks b'|' (b ∷ rest)
    → trim_space (b ∷ rest) ≡ b ∷ rest
    → map normalized_char spelling ≡ map normalized_char (b ∷ rest)
    → lookup_by_name (put_line h ((b ∷ rest) ++ (b'|' ∷ hex_string ckey))) spelling
      ≡ some (named_entry (b ∷ rest) ckey)
unfolding put_line put_name lookup_by_name
lookup_by_name-put_line h b rest ckey spelling k mark lacks trimmed same =
    let line = (b ∷ rest) ++ (b'|' ∷ hex_string ckey) in
    let place : index_byte b'|' line ≡ some (length (b ∷ rest)) =
      index_byte-append b'|' (b ∷ rest) (hex_string ckey) lacks in
    let put : put_line h line ≡ put_name h (b ∷ rest) ckey =
      rw (mark, place) (put_at-pair h (b ∷ rest) ckey k trimmed) in
    let hash : hash_normalized spelling ≡ hash_normalized (b ∷ rest) =
      hash_normalized-same spelling (b ∷ rest) same in
    rw (put, hash, ==_refl (hash_normalized (b ∷ rest)))
