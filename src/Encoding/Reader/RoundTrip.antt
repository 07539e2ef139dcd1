-- ===== src/Encoding/Reader/RoundTrip.antt =====
-- A page that the writer laid out, read by `Parse`.
use go_casclib.Common.{
  ℕ, zero, suc, ◌+◌, ◌-◌, ◌*◌, ◌%◌, ◌^◌, ◌≤◌, ◌<◌, ◌≡◌, refl, ap, ◌∙◌, arith, ◌==◌, leb, le→leb,
  Bool-cases, inl, inr, List, [], ◌∷◌, ◌++◌, Result, ok, length, length-append, append_assoc,
  replicate, All, false,
}
use go_casclib.Binary.{
  Bytes, slice, slice-append, le_uint16_at, be_uint32_at, le_uint16_at-put, be_uint32_at-put,
  put_le_uint16, put_be_uint32,
}
use go_casclib.Encoding.Reader.{CKeyEntry, read_ekeys, page_record, parse_page}
use go_casclib.Encoding.Writer.{ekeys_bytes, record_bytes, records_bytes, page_of}

-- An entry that a record can hold. An entry without keys would end the page for `Parse`.
pub record Fits (e : CKeyEntry) : Type 0 where
  pub has_key : 1 ≤ length e.ekeys
  pub count_fits : length e.ekeys < 2 ^ 16
  pub size_fits : e.content_size < 2 ^ 32
  pub ckey_size : length e.ckey ≡ 16
  pub ekey_sizes : All (λ k. length k ≡ 16) e.ekeys

length-ekeys_bytes :
    (ks : List Bytes) → All (λ k. length k ≡ 16) ks → length (ekeys_bytes ks) ≡ length ks * 16
length-ekeys_bytes [] h = refl
length-ekeys_bytes (k ∷ ks) (e, h) =
    omega (arith, length-append k (ekeys_bytes ks), e, length-ekeys_bytes ks h)

pub length-record_bytes :
    (e : CKeyEntry) → Fits e → length (record_bytes e) ≡ 22 + length e.ekeys * 16
length-record_bytes e f = omega (
  arith,
  length-append e.ckey (ekeys_bytes e.ekeys),
  f.ckey_size,
  length-ekeys_bytes e.ekeys f.ekey_sizes,
)

read_ekeys-ekeys_bytes :
    (ks : List Bytes) (off : ℕ) (pre rest : Bytes)
    → length pre ≡ off
    → All (λ k. length k ≡ 16) ks
    → read_ekeys (length ks) off (pre ++ (ekeys_bytes ks ++ rest)) ≡ ok ks
unfolding read_ekeys
read_ekeys-ekeys_bytes [] off pre rest h s = refl
read_ekeys-ekeys_bytes (k ∷ ks) off pre rest h (e, s) =
    let first = slice-append off 16 pre k (ekeys_bytes ks ++ rest) h e in
    let others : read_ekeys (length ks) (off + 16) (pre ++ (k ++ (ekeys_bytes ks ++ rest)))
        ≡ ok ks =
      rw (← append_assoc pre k (ekeys_bytes ks ++ rest)) (
        read_ekeys-ekeys_bytes ks (off + 16) (pre ++ k) rest (omega (arith, length-append pre k))
          s) in
    rw (append_assoc k (ekeys_bytes ks) rest, first, others)

-- The fields of a record, behind any bytes.
page_record-record_bytes :
    (e : CKeyEntry) (p size : ℕ) (pre rest : Bytes) (next : Result (List CKeyEntry))
    {es : List CKeyEntry}
    → length pre ≡ p
    → Fits e
    → p + (22 + length e.ekeys * 16) ≤ size
    → next ≡ ok es
    → page_record (length e.ekeys) p size (pre ++ (record_bytes e ++ rest)) next ≡ ok (e ∷ es)
unfolding page_record
page_record-record_bytes e p size pre rest next h f fits g =
    let a = put_le_uint16 (length e.ekeys % 2 ^ 16) in
    let b = put_be_uint32 (e.content_size % 2 ^ 32) in
    let keys = ekeys_bytes e.ekeys in
    let whole : pre ++ (record_bytes e ++ rest) ≡ pre ++ (a ++ (b ++ (e.ckey ++ (keys ++ rest)))) =
      ap (λ (t : Bytes). pre ++ (a ++ (b ++ t))) (append_assoc e.ckey keys rest) in
    let small : e.content_size % 2 ^ 32 ≡ e.content_size = omega (arith, f.size_fits) in
    let e1 : be_uint32_at (p + 2) (pre ++ (a ++ (b ++ (e.ckey ++ (keys ++ rest)))))
        ≡ ok e.content_size =
      rw (← append_assoc pre a (b ++ (e.ckey ++ (keys ++ rest)))) (
        be_uint32_at-put (p + 2) (pre ++ a) (e.ckey ++ (keys ++ rest)) (e.content_size % 2 ^ 32)
          (omega (arith, length-append pre a)) (omega arith)
        ∙ ap ok small) in
    let e2 : slice (p + 6) 16 (pre ++ ((a ++ b) ++ (e.ckey ++ (keys ++ rest)))) ≡ ok e.ckey =
      rw (← append_assoc pre (a ++ b) (e.ckey ++ (keys ++ rest))) (
        slice-append (p + 6) 16 (pre ++ (a ++ b)) e.ckey (keys ++ rest)
          (omega (arith, length-append pre (a ++ b))) f.ckey_size) in
    let e3 : read_ekeys (length e.ekeys) (p + 22) (pre ++ (((a ++ b) ++ e.ckey) ++ (keys ++ rest)))
        ≡ ok e.ekeys =
      rw (← append_assoc pre ((a ++ b) ++ e.ckey) (keys ++ rest)) (
        read_ekeys-ekeys_bytes e.ekeys (p + 22) (pre ++ ((a ++ b) ++ e.ckey)) rest
          (omega (arith, length-append pre ((a ++ b) ++ e.ckey), f.ckey_size)) f.ekey_sizes) in
    let inside = le→leb (p + (22 + length e.ekeys * 16)) size fits in
    rw (whole, inside, e1, e2, e3, g)

-- A count of 0 ends a page.
count_stops :
    (fuel p size : ℕ) (page : Bytes)
    → le_uint16_at p page ≡ ok 0
    → parse_page (suc fuel) p size page ≡ ok []
unfolding parse_page
count_stops fuel p size page read = elim (Bool-cases (leb (p + 6) size)) [
  | inl inside ↦ rw (inside, read)
  | inr outside ↦ rw outside
]

-- The zeros behind the records end the page, or are too few for a record.
zeros_end :
    (fuel p size n : ℕ) (pre : Bytes)
    → length pre ≡ p
    → p + n ≡ size
    → parse_page fuel p size (pre ++ replicate n 0) ≡ ok []
unfolding parse_page
zeros_end zero p size n pre h e = refl
zeros_end (suc fuel) p size zero pre h e =
    let outside : leb (p + 6) size ≡ false = ground arith in rw outside
zeros_end (suc fuel) p size (suc zero) pre h e =
    let outside : leb (p + 6) size ≡ false = ground arith in rw outside
zeros_end (suc fuel) p size (suc (suc n)) pre h e =
    count_stops fuel p size (pre ++ replicate (suc (suc n)) 0)
      (le_uint16_at-put p pre (replicate n 0) 0 h (omega arith))

parse_page-records_bytes :
    (es : List CKeyEntry) (fuel p size n : ℕ) (pre : Bytes)
    → length pre ≡ p
    → All Fits es
    → length es ≤ fuel
    → p + length (records_bytes es) + n ≡ size
    → parse_page fuel p size (pre ++ (records_bytes es ++ replicate n 0)) ≡ ok es
unfolding parse_page
parse_page-records_bytes [] fuel p size n pre h fits k e =
    zeros_end fuel p size n pre h (omega arith)
parse_page-records_bytes (x ∷ es) zero p size n pre h fits k e = absurd (omega arith)
parse_page-records_bytes (x ∷ es) (suc fuel) p size n pre h (fit, fits) k e =
    let zeros : Bytes = replicate n 0 in
    let rest : Bytes = records_bytes es ++ zeros in
    let count = length x.ekeys in
    let len = length-record_bytes x fit in
    let sum = length-append (record_bytes x) (records_bytes es) in
    let whole : pre ++ ((record_bytes x ++ records_bytes es) ++ zeros)
        ≡ pre ++ (record_bytes x ++ rest) =
      ap (◌++◌ pre) (append_assoc (record_bytes x) (records_bytes es) zeros) in
    let inside = le→leb (p + 6) size (omega (arith, sum, len)) in
    let small : count % 2 ^ 16 ≡ count = omega (arith, fit.count_fits) in
    let read : le_uint16_at p (pre ++ (record_bytes x ++ rest)) ≡ ok count =
      le_uint16_at-put p pre _ (count % 2 ^ 16) h (omega arith) ∙ ap ok small in
    let some_keys : (count == 0) ≡ false = ground (arith, fit.has_key) in
    let next : parse_page fuel (p + (22 + count * 16)) size (pre ++ (record_bytes x ++ rest))
        ≡ ok es =
      rw (← append_assoc pre (record_bytes x) rest) (
        parse_page-records_bytes es fuel (p + (22 + count * 16)) size n (pre ++ record_bytes x)
          (omega (arith, length-append pre (record_bytes x), len)) fits (omega arith)
          (omega (arith, sum, len))) in
    rw (whole, inside, read, some_keys)
      (page_record-record_bytes x p size pre rest _ h fit (omega (arith, sum, len)) next)

length-records_bytes : (es : List CKeyEntry) → length es ≤ length (records_bytes es)
length-records_bytes [] = omega arith
length-records_bytes (e ∷ es) =
    omega (arith, length-append (record_bytes e) (records_bytes es), length-records_bytes es)

-- The loop of `Parse` over a page reads back the entries that the writer put into it, in their
-- order: each has a key and fewer than 2 ^ 16, keys of 16 bytes and a size of 32 bits, and their
-- records fit the page.
pub parse_page-page_of :
    (es : List CKeyEntry) (page_size : ℕ)
    → All Fits es
    → length (records_bytes es) ≤ page_size
    → parse_page page_size 0 page_size (page_of page_size es) ≡ ok es
parse_page-page_of es page_size fits h =
    parse_page-records_bytes es page_size 0 page_size (page_size - length (records_bytes es)) []
      refl fits (omega (arith, length-records_bytes es)) (omega arith)

-- A page whose first entry has no keys is empty for `Parse`, whatever entries follow: the count of
-- 0 in the record that the writer gives it ends the page.
pub parse_page-page_of_no_keys :
    (e : CKeyEntry) (es : List CKeyEntry) (page_size : ℕ)
    → e.ekeys ≡ []
    → length (records_bytes (e ∷ es)) ≤ page_size
    → parse_page page_size 0 page_size (page_of page_size (e ∷ es)) ≡ ok []
unfolding parse_page
parse_page-page_of_no_keys e es zero none_left h = refl
parse_page-page_of_no_keys e es (suc n) none_left h =
    let zero_count : length e.ekeys % 2 ^ 16 ≡ 0 = rw none_left in
    let read : le_uint16_at 0 (page_of (suc n) (e ∷ es)) ≡ ok 0 =
      ap ok (omega (arith, zero_count)) in
    count_stops n 0 (suc n) (page_of (suc n) (e ∷ es)) read
