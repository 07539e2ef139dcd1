-- ===== src/Buildcfg/Keys.antt =====
-- The keys in a configuration: texts of 32 digits.
use go_casclib.Common.{
  ℕ, ◌+◌, ◌*◌, ◌/◌, ◌%◌, ◌<◌, ◌≡◌, refl, ap, ◌∙◌, arith, ◌==◌, true, some, List, [], ◌∷◌, map,
  length, All, ok,
}
use go_casclib.Binary.{Bytes, IsByte, bytes_eq_iff}
use go_casclib.Cdn.ArchiveSet.{hex_digit, hex_string}
use go_casclib.Buildcfg.{
  Config, hex_value, decode_string, decode_key16, all_values, decode_all, archives_name, archives,
  assign, lookup_ckey,
}

-- The sixteen bytes of an MD5 hash
pub record IsKey (k : Bytes) : Type 0 where
  pub size : length k ≡ 16
  pub bytes : All IsByte k

hex_value-hex_digit : (d : ℕ) → d < 16 → hex_value (hex_digit d) ≡ some d
hex_value-hex_digit d h = ground arith

pub decode_string-hex_string : (k : Bytes) → All IsByte k → decode_string (hex_string k) ≡ ok k
decode_string-hex_string [] h = refl
decode_string-hex_string (b ∷ k) (small, h) =
    let high = hex_value-hex_digit (b / 16) (omega arith) in
    let low = hex_value-hex_digit (b % 16) (omega arith) in
    let whole : b / 16 * 16 + b % 16 ≡ b = omega arith in
    rw (high, low, decode_string-hex_string k h, whole)

pub length-hex_string : (k : Bytes) → length (hex_string k) ≡ length k + length k
length-hex_string [] = refl
length-hex_string (b ∷ k) = omega (arith, length-hex_string k)

decode_key16-hex_string : (k : Bytes) → IsKey k → decode_key16 (hex_string k) ≡ ok k
unfolding decode_key16
decode_key16-hex_string k h =
    let long : (length (hex_string k) == 32) ≡ true = ground (arith, length-hex_string k, h.size) in
    rw (long, decode_string-hex_string k h.bytes)

decode_all-hex_string : (ks : List Bytes) → All IsKey ks → decode_all (map hex_string ks) ≡ ok ks
decode_all-hex_string [] h = refl
decode_all-hex_string (k ∷ ks) (first, h) =
    rw (decode_key16-hex_string k first, decode_all-hex_string ks h)

all_values-assign :
    (c : Config) (name : Bytes) (values : List Bytes)
    → all_values (assign c name values) name ≡ values
unfolding all_values assign
all_values-assign c name values = let same = (bytes_eq_iff name name).1 refl in rw same

-- The hashes that were assigned to `archives` as texts in hexadecimal are what `Archives` returns,
-- whatever the configuration had for that name.
pub archives-assign :
    (c : Config) (hashes : List Bytes)
    → All IsKey hashes
    → archives (assign c archives_name (map hex_string hashes)) ≡ ok hashes
unfolding archives
archives-assign c hashes h =
    ap decode_all (all_values-assign c archives_name (map hex_string hashes))
    ∙ decode_all-hex_string hashes h

-- Two keys that were assigned to a name in hexadecimal are what `LookupCKey` returns for it, as the
-- CKey and the EKey, whatever stands behind them and the configuration had for that name.
pub lookup_ckey-assign :
    (c : Config) (name ckey ekey : Bytes) (more : List Bytes)
    → IsKey ckey
    → IsKey ekey
    → lookup_ckey (assign c name (hex_string ckey ∷ hex_string ekey ∷ more)) name
      ≡ ok (record { ckey = ckey; ekey = ekey; has_ekey = true; content_size = 0 })
unfolding lookup_ckey
lookup_ckey-assign c name ckey ekey more hc he = rw (
  all_values-assign c name (hex_string ckey ∷ hex_string ekey ∷ more),
  decode_key16-hex_string ckey hc,
  decode_key16-hex_string ekey he,
)
