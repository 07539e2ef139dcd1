-- ===== src/Index/Entry/RoundTrip.antt =====
-- `decodeEntry` reads back what `writeEntryV1` wrote.
use go_casclib.Common.{
  ℕ, zero, suc, ◌+◌, ◌*◌, ◌/◌, ◌%◌, ◌^◌, ◌<◌, ◌≡◌, refl, ap, ◌∙◌, arith, [], ◌∷◌, ◌++◌, ok, take,
  length, length-append, append_assoc, length-take, bit_or,
}
use go_casclib.Bits.{bit_or_fields}
use go_casclib.Binary.{Bytes, slice, padded, front-append, slice-append}
use go_casclib.Index.Entry.{EKeyEntry, EntryFields, read_be, write_be, decode_entry, write_entry_v1}

-- The fields of a local index.
abbrev pub v1_fields : EntryFields
v1_fields = record {
  ekey_length = 9;
  storage_offset_length = 5;
  encoded_size_length = 4;
  file_offset_bits = 30;
}

-- An archive index of 10 bits and an offset of 30 bits share the five bytes of the storage offset.
pub record Fits (e : EKeyEntry) : Type 0 where
  pub key_size : length e.ekey ≡ 16
  pub index_fits : e.archive_index < 2 ^ 10
  pub offs_fits : e.archive_offs < 2 ^ 30
  pub size_fits : e.encoded_size < 2 ^ 32

-- An index holds the first nine bytes of a key.
abbrev pub trimmed : EKeyEntry → EKeyEntry
trimmed e = record e { ekey = padded 16 (take 9 e.ekey) }

read_be-write_be_5 : (v : ℕ) → v < 2 ^ 40 → read_be (write_be 5 v) ≡ v
unfolding read_be write_be
read_be-write_be_5 v h = omega arith

read_be-write_be_4 : (v : ℕ) → v < 2 ^ 32 → read_be (write_be 4 v) ≡ v
unfolding read_be write_be
read_be-write_be_4 v h = omega arith

length-write_be : (n v : ℕ) → length (write_be n v) ≡ n
unfolding write_be
length-write_be zero v = refl
length-write_be (suc n) v =
    omega (arith, length-append (write_be n (v / 256)) (v % 256 ∷ []), length-write_be n (v / 256))

abbrev storage_of : EKeyEntry → ℕ
storage_of e = bit_or (e.archive_index * 2 ^ 30 % 2 ^ 64) e.archive_offs

storage_of_sum : (e : EKeyEntry) → Fits e → storage_of e ≡ e.archive_index * 2 ^ 30 + e.archive_offs
storage_of_sum e fits =
    let small : e.archive_index * 2 ^ 30 % 2 ^ 64 ≡ e.archive_index * 2 ^ 30 = omega arith in
    rw small (bit_or_fields 30 e.archive_index e.archive_offs fits.offs_fits)

pub length-write_entry_v1 : (e : EKeyEntry) → Fits e → length (write_entry_v1 e v1_fields) ≡ 18
length-write_entry_v1 e fits =
    let k = take 9 e.ekey in
    let a = write_be 5 (storage_of e) in
    let b = write_be 4 e.encoded_size in
    unfold write_entry_v1 in
    omega (
      arith,
      length-append k (a ++ b),
      length-append a b,
      length-write_be 5 (storage_of e),
      length-write_be 4 e.encoded_size,
      length-take 9 e.ekey,
    )

write_entry_bytes :
    (e : EKeyEntry) (rest : Bytes)
    → write_entry_v1 e v1_fields ++ rest
      ≡ take 9 e.ekey ++ (write_be 5 (storage_of e) ++ (write_be 4 e.encoded_size ++ rest))
unfolding write_entry_v1
write_entry_bytes e rest =
    let k = take 9 e.ekey in
    let a = write_be 5 (storage_of e) in
    let b = write_be 4 e.encoded_size in
    append_assoc k (a ++ b) rest ∙ ap (◌++◌ k) (append_assoc a b rest)

-- `decodeEntry` reads back the place and the size of what `writeEntryV1` wrote, and the key's first
-- nine bytes, where the key has 16 bytes, the archive index fits 10 bits, the offset 30 and the size
-- 32, whatever follows the entry.
pub decode_entry-write_entry_v1 :
    (e : EKeyEntry) (rest : Bytes)
    → Fits e
    → decode_entry (write_entry_v1 e v1_fields ++ rest) v1_fields ≡ ok (trimmed e)
unfolding decode_entry
decode_entry-write_entry_v1 e rest fits =
    let k = take 9 e.ekey in
    let v = storage_of e in
    let a = write_be 5 v in
    let b = write_be 4 e.encoded_size in
    let nine : length k ≡ 9 = omega (arith, length-take 9 e.ekey) in
    let e1 = front-append 9 k (a ++ (b ++ rest)) nine in
    let e2 = slice-append 9 5 k a (b ++ rest) nine (length-write_be 5 v) in
    let e3 : slice 14 4 (k ++ (a ++ (b ++ rest))) ≡ ok b = rw (← append_assoc k a (b ++ rest)) (
      slice-append 14 4 (k ++ a) b rest (omega (arith, length-append k a, length-write_be 5 v))
        (length-write_be 4 e.encoded_size)) in
    let sum = storage_of_sum e fits in
    let r5 = read_be-write_be_5 v (omega arith) in
    let r4 = read_be-write_be_4 e.encoded_size fits.size_fits in
    let whole : write_entry_v1 e v1_fields ++ rest ≡ k ++ (a ++ (b ++ rest)) =
      write_entry_bytes e rest in
    let index : v / 2 ^ 30 % 2 ^ 32 ≡ e.archive_index = omega arith in
    let offs : v % 2 ^ 30 % 2 ^ 32 ≡ e.archive_offs = omega arith in
    let size : e.encoded_size % 2 ^ 32 ≡ e.encoded_size = omega arith in
    rw (whole, e1, e2, e3, r5, r4, index, offs, size)
