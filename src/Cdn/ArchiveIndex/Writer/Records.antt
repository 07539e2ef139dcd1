-- ===== src/Cdn/ArchiveIndex/Writer/Records.antt =====
-- The records that `EncodeArchiveIndex` wrote, read one by one.
use go_casclib.Common.{
  ℕ, zero, suc, ◌+◌, ◌-◌, ◌*◌, ◌^◌, ◌≤◌, ◌<◌, ◌≡◌, refl, ap, ◌∙◌, subst, arith, List, [], ◌∷◌, ◌++◌,
  ok, length, length-append, length-take, length-replicate, append_assoc, append-nil, take,
  take_all, replicate, All, false,
}
use go_casclib.Binary.{Bytes, front, front-take, slice, slice-append, padded, bytes_eq}
use go_casclib.Keys.{zero_key}
use go_casclib.Cdn.ArchiveIndex.{ArchiveIndexFooter, ArchiveIndexEntry, item_length, record_entry}
use go_casclib.Cdn.ArchiveIndex.Widths.{be_uint_n-put, length-put_be_uint_n}
use go_casclib.Cdn.ArchiveIndex.Writer.{put_be_uint_n, record_bytes, records_bytes}

replicate-append : (m n : ℕ) (x : ℕ) → replicate m x ++ replicate n x ≡ replicate (m + n) x
replicate-append zero n x = ap (λ k. replicate k x) (omega arith)
replicate-append (suc m) n x =
    let e : suc m + n ≡ suc (m + n) = omega arith in rw (e, replicate-append m n x)

pub front-replicate : (n m x : ℕ) → n ≤ m → front n (replicate m x) ≡ ok (replicate n x)
front-replicate zero m x h = refl
front-replicate (suc n) zero x h = absurd (omega arith)
front-replicate (suc n) (suc m) x h = rw (front-replicate n m x (omega arith))

pub padded-replicate : (n : ℕ) → n ≤ 16 → padded 16 (replicate n 0) ≡ zero_key
padded-replicate n h =
    let len = length-replicate {A = ℕ} n 0 in
    let all = take_all {A = ℕ} 16 (replicate n 0) (omega arith) in
    let sum : n + (16 - n) ≡ 16 = omega arith in rw (all, len, replicate-append n (16 - n) 0, sum)

-- A footer that `ParseArchiveIndex` accepts
pub record IsValid (f : ArchiveIndexFooter) : Type 0 where
  pub page_low : 1 ≤ f.page_size_kb
  pub page_high : f.page_size_kb < 256
  pub key_low : 1 ≤ f.ekey_length
  pub key_high : f.ekey_length ≤ 16
  pub offset_low : 1 ≤ f.offset_bytes
  pub offset_high : f.offset_bytes ≤ 8
  pub size_low : 1 ≤ f.size_bytes
  pub size_high : f.size_bytes ≤ 8

-- The entry that is read back: its key has the bytes that the index keeps.
abbrev pub trimmed : ArchiveIndexFooter → ArchiveIndexEntry → ArchiveIndexEntry
trimmed f e = record e { ekey = padded 16 (take f.ekey_length e.ekey) }

-- An entry that an index can hold. A zero key would end the page.
pub record Fits (f : ArchiveIndexFooter) (e : ArchiveIndexEntry) : Type 0 where
  pub key_size : length e.ekey ≡ 16
  pub key_some : bytes_eq (padded 16 (take f.ekey_length e.ekey)) zero_key ≡ false
  pub offset_word : e.offset < 2 ^ 64
  pub offset_fits : e.offset < 256 ^ f.offset_bytes
  pub size_word : e.encoded_size < 2 ^ 64
  pub size_fits : e.encoded_size < 256 ^ f.size_bytes

module _ (f : ArchiveIndexFooter) (v : IsValid f) where
  abbrev pub record_of : ArchiveIndexEntry → Bytes
  record_of e =
      take f.ekey_length e.ekey
      ++ (put_be_uint_n f.size_bytes e.encoded_size ++ put_be_uint_n f.offset_bytes e.offset)

  abbrev pub records_of : List ArchiveIndexEntry → Bytes
  records_of [] = []
  records_of (e ∷ es) = record_of e ++ records_of es

  pub length-key :
      (e : ArchiveIndexEntry) → Fits f e → length (take f.ekey_length e.ekey) ≡ f.ekey_length
  length-key e fits = omega (arith, length-take f.ekey_length e.ekey, fits.key_size, v.key_high)

  pub length-record_of : (e : ArchiveIndexEntry) → Fits f e → length (record_of e) ≡ item_length f
  length-record_of e fits =
      let s = put_be_uint_n f.size_bytes e.encoded_size in
      let o = put_be_uint_n f.offset_bytes e.offset in
      omega (
        arith,
        length-key e fits,
        length-append (take f.ekey_length e.ekey) (s ++ o),
        length-append s o,
        length-put_be_uint_n f.size_bytes e.encoded_size,
        length-put_be_uint_n f.offset_bytes e.offset,
      )

  pub length-records_of :
      (es : List ArchiveIndexEntry)
      → All (Fits f) es
      → length (records_of es) ≡ length es * item_length f
  length-records_of [] fits = omega arith
  length-records_of (e ∷ es) (g, fits) =
      let a = length-record_of e g in
      let b = length-records_of es fits in
      let s = length-append (record_of e) (records_of es) in omega arith

  record_bytes-record_of : (e : ArchiveIndexEntry) → Fits f e → record_bytes f e ≡ ok (record_of e)
  unfolding record_bytes
  record_bytes-record_of e fits =
      rw (front-take f.ekey_length e.ekey (omega (arith, fits.key_size, v.key_high)))

  pub records_bytes-records_of :
      (es : List ArchiveIndexEntry) → All (Fits f) es → records_bytes f es ≡ ok (records_of es)
  unfolding records_bytes
  records_bytes-records_of [] fits = refl
  records_bytes-records_of (e ∷ es) (g, fits) =
      rw (record_bytes-record_of e g, records_bytes-records_of es fits)

  pub record_entry-record_of :
      (ek : Bytes) (e : ArchiveIndexEntry)
      → Fits f e
      → record_entry f ek (record_of e) ≡ ok (record e { ekey = ek })
  unfolding record_entry
  record_entry-record_of ek e fits =
      let k = take f.ekey_length e.ekey in
      let s = put_be_uint_n f.size_bytes e.encoded_size in
      let o = put_be_uint_n f.offset_bytes e.offset in
      let sn = length-put_be_uint_n f.size_bytes e.encoded_size in
      let on = length-put_be_uint_n f.offset_bytes e.offset in
      let kn = length-key e fits in
      let e1 : slice f.ekey_length f.size_bytes (k ++ (s ++ o)) ≡ ok s =
        slice-append f.ekey_length f.size_bytes k s o kn sn in
      let e2 : slice (f.ekey_length + f.size_bytes) f.offset_bytes (k ++ (s ++ o)) ≡ ok o =
        subst (λ (b : Bytes). slice (f.ekey_length + f.size_bytes) f.offset_bytes b ≡ ok o)
          (append_assoc k s (o ++ []) ∙ ap (λ (b : Bytes). k ++ (s ++ b)) (append-nil o))
          (slice-append (f.ekey_length + f.size_bytes) f.offset_bytes (k ++ s) o []
            (omega (arith, length-append k s)) on) in
      let e3 = be_uint_n-put f.size_bytes e.encoded_size fits.size_fits fits.size_word in
      let e4 = be_uint_n-put f.offset_bytes e.offset fits.offset_fits fits.offset_word in
      rw (e1, e2, e3, e4)
