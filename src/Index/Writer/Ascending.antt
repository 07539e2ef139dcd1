-- ===== src/Index/Writer/Ascending.antt =====
-- The order of an index file, by the numbers that the keys are.
use go_casclib.Common.{
  ℕ, zero, suc, ◌+◌, ◌-◌, ◌*◌, ◌^◌, ◌<◌, ◌≤◌, ◌≡◌, refl, ap, arith, ◌==◌, ==_iff, Bool-cases, false,
  inl, inr, List, [], ◌∷◌, ◌++◌, ok, map, length, length-take, take, take_all, replicate, All,
  All-imp, All-insertion_sort,
}
use native.Mathlib.Nat.{mul-le-mul_right}
use mathlib.Core.List.{Perm}
use mathlib.Core.List.Perm
use go_casclib.Binary.{Bytes, IsByte}
use go_casclib.Index.Entry.{EKeyEntry}
use go_casclib.Index.Entry.RoundTrip.{Fits, trimmed}
use go_casclib.Index.Reader.{IndexFile, parse}
use go_casclib.Index.Reader.RoundTrip.{v1_header}
use go_casclib.Index.Writer.{WriteOptions, ekey_less, entry_before, sort_entries, encode_v1}
use go_casclib.Index.Writer.Sorted.{Leads, InOrder, sort_entries-InOrder}
use go_casclib.Index.Writer.RoundTrip.{effective_segment_size, parse-encode_v1}

-- The first `n` bytes of a key as a number, the first byte the most significant.
abbrev pub key_value : ℕ → Bytes → ℕ
key_value zero k = 0
key_value (suc n) [] = 0
key_value (suc n) (x ∷ k) = x * 256 ^ n + key_value n k

key_value_lt : (n : ℕ) (k : Bytes) → All IsByte k → key_value n k < 256 ^ n
key_value_lt zero k h = omega arith
key_value_lt (suc n) [] h = omega (arith, key_value_lt n [] h)
key_value_lt (suc n) (x ∷ k) (small, h) =
    let top : x * 256 ^ n ≤ 255 * 256 ^ n = mul-le-mul_right (256 ^ n) (omega arith) in
    omega (arith, key_value_lt n k h)

key_value_le :
    (n : ℕ) (a b : Bytes)
    → n ≤ length a
    → n ≤ length b
    → All IsByte a
    → ekey_less n b a ≡ false
    → key_value n a ≤ key_value n b
unfolding ekey_less
key_value_le zero a b ha hb bytes h = omega arith
key_value_le (suc n) [] b ha hb bytes h = omega arith
key_value_le (suc n) (x ∷ a) [] ha hb bytes h = omega arith
key_value_le (suc n) (x ∷ a) (y ∷ b) ha hb (small, bytes) h = elim (Bool-cases (y == x)) [
  | inl same ↦
      let e : y ≡ x = (==_iff y x).0 same in
      let rest = key_value_le n a b (omega arith) (omega arith) bytes (rw same at h) in
      rw e (omega (arith, rest))
  | inr other ↦
      let step : x + 1 ≤ y = ground (arith, other, h) in
      let top : (x + 1) * 256 ^ n ≤ y * 256 ^ n = mul-le-mul_right (256 ^ n) step in
      omega (arith, key_value_lt n a bytes)
]

key_value-take :
    (n : ℕ) (k rest : Bytes) → n ≤ length k → key_value n (take n k ++ rest) ≡ key_value n k
key_value-take zero k rest h = refl
key_value-take (suc n) [] rest h = absurd (omega arith)
key_value-take (suc n) (x ∷ k) rest h =
    ap (λ (v : ℕ). x * 256 ^ n + v) (key_value-take n k rest (omega arith))

abbrev entry_value : EKeyEntry → ℕ
entry_value e = key_value 9 e.ekey

entry_value-trimmed : (e : EKeyEntry) → Fits e → entry_value (trimmed e) ≡ entry_value e
entry_value-trimmed e fits =
    let key = e.ekey in
    let nine : length (take 9 key) ≡ 9 = omega (arith, length-take 9 key, fits.key_size) in
    let all : take 16 (take 9 key) ≡ take 9 key = take_all 16 (take 9 key) (omega arith) in
    rw all
      (key_value-take 9 key (replicate (16 - length (take 9 key)) 0) (omega (arith, fits.key_size)))

-- The numbers of the first nine bytes do not fall, from `v` on.
abbrev pub Ascends : ℕ → List EKeyEntry → Type 0
Ascends v [] = Unit
Ascends v (e ∷ es) = (v ≤ key_value 9 e.ekey) × Ascends (key_value 9 e.ekey) es

-- An entry of an index file: sixteen bytes of key, and fields that fit.
pub record IsEntry (e : EKeyEntry) : Type 0 where
  pub fits : Fits e
  pub bytes : All IsByte e.ekey

trimmed-Ascends :
    (v : ℕ) (e : EKeyEntry) (es : List EKeyEntry)
    → v ≤ entry_value e
    → IsEntry e
    → All IsEntry es
    → Leads e es
    → InOrder es
    → Ascends v (map trimmed (e ∷ es))
trimmed-Ascends v e [] h i hs lead order = (rw (entry_value-trimmed e i.fits) h, tt)
trimmed-Ascends v e (d ∷ es) h i (j, hs) lead (next, order) =
    let up : entry_value e ≤ entry_value d =
      key_value_le 9 e.ekey d.ekey (omega (arith, i.fits.key_size)) (omega (arith, j.fits.key_size))
        i.bytes lead in
    let own = entry_value-trimmed e i.fits in
    (rw own h, trimmed-Ascends (entry_value (trimmed e)) d es (omega (arith, own)) j hs next order)

sorted-Ascends : (es : List EKeyEntry) → All IsEntry es → InOrder es → Ascends 0 (map trimmed es)
sorted-Ascends [] h order = tt
sorted-Ascends (e ∷ es) (i, hs) (lead, order) = trimmed-Ascends 0 e es (omega arith) i hs lead order

-- `Parse` reads from the file of `EncodeV1` each given entry once, with the first nine bytes of its
-- key, in ascending order of the numbers that these nine bytes are, the first byte being the most
-- significant. The keys have 16 bytes, the archive indices fit 10 bits, the offsets 30, the encoded
-- sizes and the number of entries 32, and the segment size 64.
pub parse-encode_v1-Ascends :
    (entries : List EKeyEntry) (o : WriteOptions)
    → All IsEntry entries
    → o.segment_size < 2 ^ 64
    → length entries < 2 ^ 32
    → (idx : IndexFile) × (parse (encode_v1 entries o) o.bucket_index ≡ ok idx)
      × Ascends 0 idx.entries
      × Perm idx.entries (map trimmed entries)
unfolding sort_entries
parse-encode_v1-Ascends entries o good small few =
    let sorted = sort_entries entries in
    let (order, same) = sort_entries-InOrder entries in
    let all : All IsEntry sorted = All-insertion_sort entry_before IsEntry entries good in
    let idx : IndexFile = record {
      header = v1_header o.bucket_index (effective_segment_size o) (length entries);
      entries = map trimmed sorted;
    } in
    let fits : All Fits entries = All-imp IsEntry Fits (λ e i. i.fits) entries good in
    (
      idx,
      parse-encode_v1 entries o fits small few,
      sorted-Ascends sorted all order,
      Perm.map trimmed same,
    )
