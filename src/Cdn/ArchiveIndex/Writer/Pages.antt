-- ===== src/Cdn/ArchiveIndex/Writer/Pages.antt =====
-- The pages that `EncodeArchiveIndex` wrote, read by the loops of `ParseArchiveIndex`.
use go_casclib.Common.{
  ℕ, zero, suc, ◌+◌, ◌-◌, ◌*◌, ◌≤◌, ◌≡◌, refl, ap, ◌∙◌, sym, subst, arith, leb, le→leb, Bool-cases,
  leb→le, inl, inr, List, [], ◌∷◌, ◌++◌, map, ok, length, length-append, length-take, length-drop,
  length-replicate, append_assoc, take, drop, replicate, All, All-take, All-drop,
}
use native.Mathlib.Nat.{mul-le-mul_right}
use go_casclib.Binary.{Bytes, front, front-append, slice, slice-append, padded, back-append}
use go_casclib.Compress.{Codecs, IsCodecs}
use go_casclib.Cdn.ArchiveIndex.{
  ArchiveIndexFooter, ArchiveIndexEntry, page_length, item_length, page_stride, parse_page,
  parse_pages,
}
use go_casclib.Cdn.ArchiveIndex.Writer.{items_per_page, page_of, pages_bytes}
use go_casclib.Cdn.ArchiveIndex.Writer.Records.{
  front-replicate, padded-replicate, IsValid, Fits, trimmed, record_of, records_of, length-key,
  length-record_of, length-records_of, records_bytes-records_of, record_entry-record_of,
}

module _ (f : ArchiveIndexFooter) (v : IsValid f) where
  -- One record, behind any bytes.
  parse_page-record_of :
      (e : ArchiveIndexEntry) (fuel o : ℕ) (page : Bytes) {rest : List ArchiveIndexEntry}
      → Fits f e
      → o + item_length f ≤ length page
      → slice o (item_length f) page ≡ ok (record_of f v e)
      → parse_page f fuel (o + item_length f) page ≡ ok rest
      → parse_page f (suc fuel) o page ≡ ok (trimmed f e ∷ rest)
  unfolding parse_page
  parse_page-record_of e fuel o page fits inside cut next =
      let i = le→leb (o + item_length f) (length page) inside in
      let key : front f.ekey_length (record_of f v e) ≡ ok (take f.ekey_length e.ekey) =
        front-append f.ekey_length (take f.ekey_length e.ekey) _ (length-key f v e fits) in
      let entry = record_entry-record_of f v (padded 16 (take f.ekey_length e.ekey)) e fits in
      rw (i, cut, key, fits.key_some, entry, next)

  -- Zeros end a page, or are too few for a record.
  zeros_end :
      (fuel o m : ℕ) (pre : Bytes)
      → length pre ≡ o
      → parse_page f fuel o (pre ++ replicate m 0) ≡ ok []
  unfolding parse_page
  zeros_end zero o m pre h = refl
  zeros_end (suc fuel) o m pre h =
      elim (Bool-cases (leb (o + item_length f) (length (pre ++ replicate m 0)))) [
        | inl inside ↦
            let fits = leb→le (o + item_length f) (length (pre ++ replicate m 0)) inside in
            let len = length-replicate {A = ℕ} m 0 in
            let enough : item_length f ≤ m = omega (arith, length-append pre (replicate m 0)) in
            let cut : slice o (item_length f) (pre ++ replicate m 0)
                ≡ ok (replicate (item_length f) 0) =
              rw (back-append o pre (replicate m 0) h)
                (front-replicate (item_length f) m 0 enough) in
            let key = front-replicate f.ekey_length (item_length f) 0 (omega arith) in
            let zeros = padded-replicate f.ekey_length v.key_high in rw (inside, cut, key, zeros)
        | inr outside ↦ rw outside
      ]

  parse_page-records_of :
      (es : List ArchiveIndexEntry) (fuel o m : ℕ) (pre : Bytes)
      → length pre ≡ o
      → All (Fits f) es
      → length es ≤ fuel
      → parse_page f fuel o (pre ++ (records_of f v es ++ replicate m 0)) ≡ ok (map (trimmed f) es)
  parse_page-records_of [] fuel o m pre h fits k = zeros_end fuel o m pre h
  parse_page-records_of (e ∷ es) zero o m pre h fits k = absurd (omega arith)
  parse_page-records_of (e ∷ es) (suc fuel) o m pre h (g, fits) k =
      let one = record_of f v e in
      let others = records_of f v es in
      let zeros : Bytes = replicate m 0 in
      let size = length-record_of f v e g in
      let same : pre ++ (one ++ (others ++ zeros)) ≡ pre ++ ((one ++ others) ++ zeros) =
        ap (◌++◌ pre) (sym (append_assoc one others zeros)) in
      let inside : o + item_length f ≤ length (pre ++ (one ++ (others ++ zeros))) = omega (
        arith,
        length-append pre (one ++ (others ++ zeros)),
        length-append one (others ++ zeros),
      ) in
      let cut = slice-append o (item_length f) pre one (others ++ zeros) h size in
      let next : parse_page f fuel (o + item_length f) (pre ++ (one ++ (others ++ zeros)))
          ≡ ok (map (trimmed f) es) =
        rw (← append_assoc pre one (others ++ zeros)) (
          parse_page-records_of es fuel (o + item_length f) m (pre ++ one)
            (omega (arith, length-append pre one)) fits (omega arith)) in
      subst (λ (page : Bytes). parse_page f (suc fuel) o page ≡ ok (map (trimmed f) (e ∷ es))) same
        (parse_page-record_of e fuel o (pre ++ (one ++ (others ++ zeros))) g inside cut next)

  -- Records for one page at most
  module _ (es : List ArchiveIndexEntry) (fits : All (Fits f) es)
      (few : length es ≤ items_per_page f) where
    records_fit : length (records_of f v es) ≤ page_length f
    records_fit =
        let size = length-records_of f v es fits in
        let bound : items_per_page f * item_length f ≤ page_length f = omega (arith, v.key_low) in
        let product : length es * item_length f ≤ items_per_page f * item_length f =
          mul-le-mul_right (item_length f) few in
        omega arith

    length-page_of : length (page_of f (records_of f v es)) ≡ page_length f
    length-page_of =
        let len = length-replicate {A = ℕ} (page_length f - length (records_of f v es)) 0 in
        omega (
          arith,
          records_fit,
          length-append (records_of f v es)
              (replicate (page_length f - length (records_of f v es)) 0),
        )

    parse_page-page_of_records :
        parse_page f (length (page_of f (records_of f v es))) 0 (page_of f (records_of f v es))
        ≡ ok (map (trimmed f) es)
    parse_page-page_of_records =
        parse_page-records_of es (length (page_of f (records_of f v es))) 0
          (page_length f - length (records_of f v es)) [] refl fits
          (omega (arith, length-page_of, length-records_of f v es fits, v.key_low))

  map-take-drop :
      (n : ℕ) (es : List ArchiveIndexEntry)
      → map (trimmed f) (take n es) ++ map (trimmed f) (drop n es) ≡ map (trimmed f) es
  map-take-drop zero es = refl
  map-take-drop (suc n) [] = refl
  map-take-drop (suc n) (e ∷ es) = ap (◌∷◌ (trimmed f e)) (map-take-drop n es)

module _ (c : Codecs) (laws : IsCodecs c) (f : ArchiveIndexFooter) (v : IsValid f) where
  -- The pages with their hashes
  pub pages_of : ℕ → List ArchiveIndexEntry → Bytes
  pages_of zero es = []
  pages_of (suc n) es =
      let page = page_of f (records_of f v (take (items_per_page f) es)) in
      page ++ (c.md5 page ++ pages_of n (drop (items_per_page f) es))

  pub pages_bytes-pages_of :
      (n : ℕ) (es : List ArchiveIndexEntry)
      → All (Fits f) es
      → pages_bytes f c n es ≡ ok (pages_of n es)
  unfolding pages_bytes pages_of
  pages_bytes-pages_of zero es fits = refl
  pages_bytes-pages_of (suc n) es fits = rw (
    records_bytes-records_of f v (take (items_per_page f) es)
        (All-take (Fits f) (items_per_page f) es fits),
    pages_bytes-pages_of n (drop (items_per_page f) es)
        (All-drop (Fits f) (items_per_page f) es fits),
  )

  few_taken : (es : List ArchiveIndexEntry) → length (take (items_per_page f) es) ≤ items_per_page f
  few_taken es = omega (arith, length-take (items_per_page f) es)

  pub length-pages_of :
      (n : ℕ) (es : List ArchiveIndexEntry)
      → All (Fits f) es
      → length (pages_of n es) ≡ n * page_stride f
  unfolding pages_of
  length-pages_of zero es fits = omega arith
  length-pages_of (suc n) es fits =
      let now = take (items_per_page f) es in
      let page = page_of f (records_of f v now) in
      let size =
        length-page_of f v now (All-take (Fits f) (items_per_page f) es fits) (few_taken es) in
      let rest =
        length-pages_of n (drop (items_per_page f) es)
          (All-drop (Fits f) (items_per_page f) es fits) in
      omega (
        arith,
        length-append page (c.md5 page ++ pages_of n (drop (items_per_page f) es)),
        length-append (c.md5 page) (pages_of n (drop (items_per_page f) es)),
        laws.length-md5 page,
      )

  pub parse_pages-pages_of :
      (n p : ℕ) (es : List ArchiveIndexEntry) (pre rest : Bytes)
      → length pre ≡ p * page_stride f
      → All (Fits f) es
      → length es ≤ n * items_per_page f
      → parse_pages f n p (pre ++ (pages_of n es ++ rest)) ≡ ok (map (trimmed f) es)
  unfolding parse_pages pages_of
  parse_pages-pages_of zero p [] pre rest h fits few = refl
  parse_pages-pages_of zero p (e ∷ es) pre rest h fits few = absurd (omega arith)
  parse_pages-pages_of (suc n) p es pre rest h fits few =
      let items = items_per_page f in
      let now = take items es in
      let later = drop items es in
      let page = page_of f (records_of f v now) in
      let hash = c.md5 page in
      let fits_now = All-take (Fits f) items es fits in
      let size = length-page_of f v now fits_now (few_taken es) in
      let hash_size = laws.length-md5 page in
      let whole : pre ++ ((page ++ (hash ++ pages_of n later)) ++ rest)
          ≡ pre ++ (page ++ (hash ++ (pages_of n later ++ rest))) =
        ap (◌++◌ pre) (
          append_assoc page (hash ++ pages_of n later) rest
          ∙ ap (◌++◌ page) (append_assoc hash (pages_of n later) rest)) in
      let cut =
        slice-append (p * page_stride f) (page_length f) pre page
          (hash ++ (pages_of n later ++ rest)) h size in
      let found = parse_page-page_of_records f v now fits_now (few_taken es) in
      let next : parse_pages f n (suc p) (pre ++ (page ++ (hash ++ (pages_of n later ++ rest))))
          ≡ ok (map (trimmed f) later) =
        subst (λ (b : Bytes). parse_pages f n (suc p) b ≡ ok (map (trimmed f) later))
          (append_assoc pre (page ++ hash) (pages_of n later ++ rest)
            ∙ ap (◌++◌ pre) (append_assoc page hash (pages_of n later ++ rest)))
          (parse_pages-pages_of n (suc p) later (pre ++ (page ++ hash)) rest
            (omega (arith, length-append pre (page ++ hash), length-append page hash))
            (All-drop (Fits f) items es fits) (omega (arith, length-drop items es))) in
      rw (whole, cut, found, next, map-take-drop f v items es)
