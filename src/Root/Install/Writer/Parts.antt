-- ===== src/Root/Install/Writer/Parts.antt =====
-- The names and the tags that `Encode` wrote, read by `Parse`.
use go_casclib.Common.{
  ℕ, ◌+◌, ◌-◌, ◌^◌, ◌≤◌, ◌<◌, ◌≡◌, refl, ap, ◌∙◌, sym, subst, arith, le→leb, List, [], ◌∷◌, ◌++◌,
  ok, length, length-append, length-take, length-replicate, take, replicate, append_assoc, All, map,
}
use go_casclib.Binary.{
  Bytes, padded, slice, back-append, slice-append, index_byte-append, Lacks, be_uint16_at,
  be_uint16_at-put, put_be_uint16,
}
use go_casclib.Root.Install.{Tag, read_name, parse_tag, parse_tags}
use go_casclib.Root.Install.Writer.{tag_record, tag_bytes}

module _ (off : ℕ) (pre name : Bytes) (at_off : length pre ≡ off) (lacks : Lacks 0 name) where
  pub read_name-written :
      (rest : Bytes)
      → read_name off (pre ++ (name ++ (0 ∷ rest))) ≡ ok (name, off + length name + 1)
  unfolding read_name
  read_name-written rest = rw (
    back-append off pre (name ++ (0 ∷ rest)) at_off,
    index_byte-append 0 name rest lacks,
    slice-append off (length name) pre name (0 ∷ rest) at_off refl,
  )

  -- What stands in front of the bytes behind the name
  abbrev pub with_name : Bytes
  with_name = pre ++ (name ++ (0 ∷ []))

  pub with_name_eq : (rest : Bytes) → with_name ++ rest ≡ pre ++ (name ++ (0 ∷ rest))
  with_name_eq rest =
      append_assoc pre (name ++ (0 ∷ [])) rest ∙ ap (◌++◌ pre) (append_assoc name (0 ∷ []) rest)

  pub length-with_name : length with_name ≡ off + length name + 1
  length-with_name =
      omega (arith, length-append pre (name ++ (0 ∷ [])), length-append name (0 ∷ []))

parse_tag_of :
    (bitmap_len off place tag_type : ℕ) (name bitmap bs : Bytes)
    → read_name off bs ≡ ok (name, place)
    → place + 2 + bitmap_len ≤ length bs
    → be_uint16_at place bs ≡ ok tag_type
    → slice (place + 2) bitmap_len bs ≡ ok bitmap
    → parse_tag bitmap_len off bs
      ≡ ok (record { name = name; tag_type = tag_type; bitmap = bitmap }, place + 2 + bitmap_len)
unfolding parse_tag
parse_tag_of bitmap_len off place tag_type name bitmap bs named fits typed cut =
    let inside = le→leb (place + 2 + bitmap_len) (length bs) fits in rw (named, inside, typed, cut)

pub length-padded : (n : ℕ) (bs : Bytes) → length (padded n bs) ≡ n
length-padded n bs = omega (
  arith,
  length-append (take n bs) (replicate (n - length bs) 0),
  length-take n bs,
  length-replicate {A = ℕ} (n - length bs) 0,
)

-- A tag that a manifest can hold
pub record TagFits (t : Tag) : Type 0 where
  pub name_lacks : Lacks 0 t.name
  pub type_fits : t.tag_type < 2 ^ 16

abbrev pub loaded_tag : ℕ → Tag → Tag
loaded_tag bitmap_len t = record {
  name = t.name;
  tag_type = t.tag_type;
  bitmap = padded bitmap_len t.bitmap;
}

parse_tag-written :
    (t : Tag) (bitmap_len off : ℕ) (pre rest : Bytes)
    → length pre ≡ off
    → TagFits t
    → parse_tag bitmap_len off (pre ++ (tag_record bitmap_len t ++ rest))
      ≡ ok (loaded_tag bitmap_len t, off + length t.name + 1 + 2 + bitmap_len)
parse_tag-written t bitmap_len off pre rest at_off fits =
    let place = off + length t.name + 1 in
    let typed = put_be_uint16 t.tag_type in
    let bitmap = padded bitmap_len t.bitmap in
    let front = with_name off pre t.name at_off fits.name_lacks in
    let whole = with_name_eq off pre t.name at_off fits.name_lacks in
    let len = length-with_name off pre t.name at_off fits.name_lacks in
    let e1 = read_name-written off pre t.name at_off fits.name_lacks (typed ++ (bitmap ++ rest)) in
    let size = length-padded bitmap_len t.bitmap in
    let fit : place + 2 + bitmap_len ≤ length (front ++ (typed ++ (bitmap ++ rest))) =
      omega (arith, length-append front (typed ++ (bitmap ++ rest)), length-append bitmap rest) in
    let e2 = be_uint16_at-put place front (bitmap ++ rest) t.tag_type len fits.type_fits in
    let e3 : slice (place + 2) bitmap_len (front ++ (typed ++ (bitmap ++ rest))) ≡ ok bitmap =
      rw (← append_assoc front typed (bitmap ++ rest)) (
        slice-append (place + 2) bitmap_len (front ++ typed) bitmap rest
          (omega (arith, length-append front typed)) size) in
    let inner = append_assoc t.name (0 ∷ (typed ++ bitmap)) rest in
    let same = whole (typed ++ (bitmap ++ rest)) ∙ ap (◌++◌ pre) (sym inner) in
    parse_tag_of bitmap_len off place t.tag_type t.name bitmap
      (pre ++ (tag_record bitmap_len t ++ rest))
      (subst (λ (b : Bytes). read_name off (pre ++ b) ≡ ok (t.name, place)) (sym inner) e1)
      (subst (λ (b : Bytes). place + 2 + bitmap_len ≤ length b) same fit)
      (subst (λ (b : Bytes). be_uint16_at place b ≡ ok t.tag_type) same e2)
      (subst (λ (b : Bytes). slice (place + 2) bitmap_len b ≡ ok bitmap) same e3)

length-tag_record :
    (t : Tag) (bitmap_len : ℕ)
    → length (tag_record bitmap_len t) ≡ length t.name + 1 + 2 + bitmap_len
length-tag_record t bitmap_len = omega (
  arith,
  length-append t.name (0 ∷ (put_be_uint16 t.tag_type ++ padded bitmap_len t.bitmap)),
  length-padded bitmap_len t.bitmap,
)

pub parse_tags-written :
    (ts : List Tag) (bitmap_len off : ℕ) (pre rest : Bytes)
    → length pre ≡ off
    → All TagFits ts
    → parse_tags (length ts) bitmap_len off (pre ++ (tag_bytes bitmap_len ts ++ rest))
      ≡ ok (map (loaded_tag bitmap_len) ts, off + length (tag_bytes bitmap_len ts))
unfolding parse_tags
parse_tags-written [] bitmap_len off pre rest at_off fits = ap (λ (k : ℕ). ok ([], k)) (omega arith)
parse_tags-written (t ∷ ts) bitmap_len off pre rest at_off (f, fits) =
    let others = tag_bytes bitmap_len ts in
    let one = tag_record bitmap_len t in
    let size = length-tag_record t bitmap_len in
    let step = off + length t.name + 1 + 2 + bitmap_len in
    let first = parse_tag-written t bitmap_len off pre (others ++ rest) at_off f in
    let more : parse_tags (length ts) bitmap_len step (pre ++ (one ++ (others ++ rest)))
        ≡ ok (map (loaded_tag bitmap_len) ts, step + length others) =
      rw (← append_assoc pre one (others ++ rest)) (
        parse_tags-written ts bitmap_len step (pre ++ one) rest
          (omega (arith, length-append pre one)) fits) in
    let total : step + length others ≡ off + length (one ++ others) =
      omega (arith, length-append one others) in
    rw (append_assoc one others rest, first, more, total)
