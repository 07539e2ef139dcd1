-- ===== src/Root/Wow/Writer/Group.antt =====
-- The group that `Encode` wrote, read by `parseGroup`.
use go_casclib.Common.{
  ℕ, zero, suc, ◌+◌, ◌*◌, ◌^◌, ◌≤◌, ◌<◌, ◌≡◌, refl, ap, ◌∙◌, subst, arith, le→leb, ne→==, le→ltb,
  List, [], ◌++◌, ok, length, length-append, append_assoc, append-nil, All, Bool, true, false, not,
  some, none, if◌then◌else◌,
}
use go_casclib.Binary.{Bytes, slice, slice-append, le_uint32_at, put_le_uint32}
use go_casclib.Bits.{IsU32, u32}
use go_casclib.Root.Wow.{
  Handler, GroupHeader, no_name_hash, format_v2, parse_split, parse_files, parse_group,
  parse_group_header, parse_groups,
}
use go_casclib.Root.Wow.Writer.{
  WriteEntry, delta_bytes, ckey_bytes, hash_bytes, has_hash, group_bytes,
}
use go_casclib.Root.Wow.Writer.Entries.{
  Fits, load_all, add_v2-written, length-delta_bytes, length-ckey_bytes, length-hash_bytes,
}

abbrev pub hashes_size : Bool → ℕ → ℕ
hashes_size true n = n * 8
hashes_size false n = 0

module _ (locale content : ℕ) (es : List WriteEntry) (fits : All Fits es)
    (small : length es * 4 ≤ 2 ^ 32) where
  abbrev header_of : GroupHeader
  header_of = record {
    num_files = length es;
    group_content = content;
    group_locale = locale;
    header_size = 12;
  }

  parse_split-written :
      (hashed : Bool) (off : ℕ) (pre : Bytes) (h : Handler)
      → has_hash es ≡ hashed
      → no_name_hash content ≡ not hashed
      → length pre ≡ off
      → parse_split header_of
          (delta_bytes 0 es)
          off
          (pre ++ (ckey_bytes es ++ (if hashed then hash_bytes es else [])))
          h
        ≡ ok (load_all locale content es h, off + length es * 16 + hashes_size hashed (length es))
  unfolding parse_split
  parse_split-written true off pre h some_hash named at_off =
      let n = length es in
      let ks = ckey_bytes es in
      let hs = hash_bytes es in
      let kn = length-ckey_bytes es fits in
      let hn = length-hash_bytes es in
      let total : length (pre ++ (ks ++ hs)) ≡ off + n * 16 + n * 8 =
        omega (arith, length-append pre (ks ++ hs), length-append ks hs) in
      let i1 = le→leb (off + n * 16) (length (pre ++ (ks ++ hs))) (omega arith) in
      let i2 = le→leb (off + n * 16 + n * 8) (length (pre ++ (ks ++ hs))) (omega arith) in
      let e1 = slice-append off (n * 16) pre ks hs at_off kn in
      let e2 : slice (off + n * 16) (n * 8) (pre ++ (ks ++ hs)) ≡ ok hs =
        subst (λ (t : Bytes). slice (off + n * 16) (n * 8) t ≡ ok hs)
          (append_assoc pre ks (hs ++ []) ∙ ap (λ (t : Bytes). pre ++ (ks ++ t)) (append-nil hs))
          (slice-append (off + n * 16) (n * 8) (pre ++ ks) hs []
            (omega (arith, length-append pre ks)) hn) in
      let e3 =
        add_v2-written locale content es 0 0 [] [] (some hs) h (omega arith) refl refl (omega arith)
          fits ([], refl, refl) in
      rw (i1, e1, named, i2, e2, e3)
  parse_split-written false off pre h some_hash named at_off =
      let n = length es in
      let ks = ckey_bytes es in
      let kn = length-ckey_bytes es fits in
      let total : length (pre ++ (ks ++ [])) ≡ off + n * 16 =
        omega (arith, length-append pre (ks ++ []), length-append ks []) in
      let i1 = le→leb (off + n * 16) (length (pre ++ (ks ++ []))) (omega arith) in
      let e1 = slice-append off (n * 16) pre ks [] at_off kn in
      let e3 =
        add_v2-written locale content es 0 0 [] [] none h (omega arith) refl refl (omega arith) fits
          some_hash in
      let e4 : off + n * 16 ≡ off + n * 16 + 0 = omega arith in rw (i1, e1, named, e3, ← e4)

-- Behind the last group the loop ends.
pub parse_groups_end :
    (fuel off : ℕ) (bs : Bytes) (h : Handler)
    → length bs ≤ off
    → parse_groups fuel false off bs h ≡ ok h
unfolding parse_groups
parse_groups_end zero off bs h e = refl
parse_groups_end (suc fuel) off bs h e = let outside = le→ltb off (length bs) e in rw outside

-- The header of a group and its arrays
abbrev pub group_head : ℕ → ℕ → ℕ → Bytes
group_head n content locale = put_le_uint32 n ++ (put_le_uint32 content ++ put_le_uint32 locale)

pub length-group_bytes :
    (hashed : Bool) (es : List WriteEntry)
    → All Fits es
    → length (group_bytes hashed es) ≡ length es * 20 + hashes_size hashed (length es)
length-group_bytes true es fits = omega (
  arith,
  length-append (delta_bytes 0 es) (ckey_bytes es ++ hash_bytes es),
  length-append (ckey_bytes es) (hash_bytes es),
  length-delta_bytes es 0,
  length-ckey_bytes es fits,
  length-hash_bytes es,
)
length-group_bytes false es fits = omega (
  arith,
  length-append (delta_bytes 0 es) (ckey_bytes es ++ []),
  length-append (ckey_bytes es) [],
  length-delta_bytes es 0,
  length-ckey_bytes es fits,
)

pub hashes_size_le : (hashed : Bool) (n : ℕ) → hashes_size hashed n ≤ n * 8
hashes_size_le true n = omega arith
hashes_size_le false n = omega arith

-- A group whose header reads as the given one
parse_group_of :
    (n content locale : ℕ) (bs : Bytes) (h : Handler)
    → 12 ≤ length bs
    → 1 ≤ n
    → le_uint32_at 0 bs ≡ ok n
    → le_uint32_at 4 bs ≡ ok content
    → le_uint32_at 8 bs ≡ ok locale
    → parse_group false bs h
      ≡ parse_files
          (record {
            num_files = n;
            group_content = content;
            group_locale = locale;
            header_size = 12;
          })
          bs
          h
unfolding parse_group parse_group_header
parse_group_of n content locale bs h long filled e1 e2 e3 =
    let enough = le→leb 12 (length bs) long in
    let some_files = ne→== n 0 (omega arith) in rw (enough, e1, e2, e3, some_files)

parse_files_of :
    (g : GroupHeader) (bs fdids : Bytes) (h : Handler)
    → g.num_files ≤ u32 (length bs)
    → g.header_size + g.num_files * 4 ≤ length bs
    → slice g.header_size (g.num_files * 4) bs ≡ ok fdids
    → h.format ≡ format_v2
    → parse_files g bs h ≡ parse_split g fdids (g.header_size + g.num_files * 4) bs h
unfolding parse_files
parse_files_of g bs fdids h few long e v2 =
    let i1 = le→leb g.num_files (u32 (length bs)) few in
    let i2 = le→leb (g.header_size + g.num_files * 4) (length bs) long in rw (i1, i2, e, v2)

module _ (locale content : ℕ) (es : List WriteEntry) (hashed : Bool) (h : Handler)
    (fits : All Fits es) (filled : 1 ≤ length es) (small : 24 + length es * 28 < 2 ^ 32)
    (locale_fits : IsU32 locale) (content_fits : IsU32 content) (hashes : has_hash es ≡ hashed)
    (named : no_name_hash content ≡ not hashed) (v2 : h.format ≡ format_v2) where
  pub parse_group-written :
      parse_group false (group_head (length es) content locale ++ group_bytes hashed es) h
      ≡ ok (load_all locale content es h, 12 + length (group_bytes hashed es))
  parse_group-written =
      let n = length es in
      let ds = delta_bytes 0 es in
      let rest = ckey_bytes es ++ (if hashed then hash_bytes es else []) in
      let head = group_head n content locale in
      let g = header_of locale content es fits (omega arith) in
      let size = length-group_bytes hashed es fits in
      let few = hashes_size_le hashed n in
      let dn = length-delta_bytes es 0 in
      let total : length (head ++ (ds ++ rest)) ≡ 12 + length (group_bytes hashed es) =
        omega arith in
      let e1 =
        parse_group_of n content locale (head ++ (ds ++ rest)) h (omega arith) filled
          (ap ok (omega arith)) (ap ok (omega arith)) (ap ok (omega arith)) in
      let e2 =
        parse_files_of g (head ++ (ds ++ rest)) ds h (omega arith) (omega arith)
          (slice-append 12 (n * 4) head ds rest refl dn) v2 in
      let e3 =
        parse_split-written locale content es fits (omega arith) hashed (12 + n * 4) (head ++ ds) h
          hashes named (omega (arith, length-append head ds)) in
      let e4 : 12 + n * 4 + n * 16 + hashes_size hashed n ≡ 12 + length (group_bytes hashed es) =
        omega arith in
      e1 ∙ e2 ∙ e3 ∙ ap (λ (k : ℕ). ok (load_all locale content es h, k)) e4
