-- ===== src/Index/Header/Lengths.antt =====
-- The lengths that a header which was accepted gives to the fields of an entry.
use go_casclib.Common.{
  ◌>>=◌, refl, Bool, true, false, Error, ◌>>◌, ℕ, subst, ◌*◌, ◌≡◌, true, ◌==◌, ◌&&◌, not, leb,
  arith, [], ◌∷◌, ◌++◌, ok, err, Result, guard, length, bad_format, not_supported,
}
use go_casclib.Binary.{Bytes, at, front, le_uint16_at, le_uint32_at, le_uint64_at}
use go_casclib.Hashes.{hash_little}
use go_casclib.Index.Entry.{EntryFields, entry_length}
use go_casclib.Index.Header.{
  Header, check_block, capture_v1, parse_header_v1, capture_guarded_block1, parse_header_v2,
}

-- The lengths that both versions of the header ask for: an entry has 18 bytes.
pub record HasLengths (f : EntryFields) : Type 0 where
  pub nine : f.ekey_length ≡ 9
  pub five : f.storage_offset_length ≡ 5
  pub four : f.encoded_size_length ≡ 4

pub entry_length_18 : (f : EntryFields) → HasLengths f → entry_length f ≡ 18
entry_length_18 f l = omega (arith, l.nine, l.five, l.four)

abbrev pub FieldsHold : Result Header → Type 0
FieldsHold (ok hdr) = HasLengths hdr.fields
FieldsHold (err _) = Unit

read_holds :
    {A : Type 0} (m : Result A) (next : A → Result Header)
    → ((a : A) → m ≡ ok a → FieldsHold (next a))
    → FieldsHold (m >>= next)
read_holds (ok a) next h = h a refl
read_holds (err _) next h = tt

test_holds :
    (b : Bool) (e : Error) (next : Result Header)
    → (b ≡ true → FieldsHold next)
    → FieldsHold (guard b e >> next)
test_holds true e next h = h refl
test_holds false e next h = tt

three_tests : (a b c : ℕ) → (a == 4 && b == 5 && c == 9) ≡ true → (a ≡ 4) × (b ≡ 5) × (c ≡ 9)
three_tests a b c h = ground arith

capture_v1-FieldsHold : (bs h : Bytes) (bucket : ℕ) → FieldsHold (capture_v1 bs h bucket)
unfolding capture_v1
capture_v1-FieldsHold bs h bucket = read_holds (le_uint16_at 0 h) _ λ version _.
    test_holds (version == 5) bad_format _ λ _. read_holds (at h 2) _ λ stored _.
      test_holds (stored == bucket) bad_format _ λ _. read_holds (le_uint64_at 8 h) _ λ field8 _.
        test_holds (not (field8 == 0)) bad_format _ λ _.
          read_holds (le_uint64_at 16 h) _ λ segment _. read_holds (at h 24) _ λ a _.
            read_holds (at h 25) _ λ b _. read_holds (at h 26) _ λ c _.
              read_holds (at h 27) _ λ d _.
                test_holds (a == 4 && b == 5 && c == 9) not_supported _ λ tested.
                  let (four, five, nine) = three_tests a b c tested in
                  read_holds (le_uint32_at 28 h) _ λ count1 _.
                    read_holds (le_uint32_at 32 h) _ λ count2 _.
                      read_holds (le_uint32_at 44 bs) _ λ hash _.
                        read_holds (front 44 bs) _ λ hashed _.
                          test_holds (hash_little (hashed ++ (0 ∷ 0 ∷ 0 ∷ 0 ∷ [])) 0 == hash)
                            bad_format _ λ _. record { nine = nine; five = five; four = four }

parse_header_v1-FieldsHold : (bs : Bytes) (bucket : ℕ) → FieldsHold (parse_header_v1 bs bucket)
unfolding parse_header_v1
parse_header_v1-FieldsHold bs bucket = test_holds (leb 48 (length bs)) bad_format _ λ _.
    read_holds (front 48 bs) _ λ h _. read_holds (capture_v1 bs h bucket) _ λ hdr read.
      read_holds (le_uint32_at 28 h) _ λ count1 _. read_holds (le_uint32_at 32 h) _ λ count2 _.
        read_holds (le_uint32_at 36 bs) _ λ hash1 _. read_holds (le_uint32_at 40 bs) _ λ hash2 _.
          read_holds (check_block bs 48 (count1 * entry_length hdr.fields) hash1) _ λ off _.
            read_holds (check_block bs off (count2 * entry_length hdr.fields) hash2) _
              λ end _. subst FieldsHold read (capture_v1-FieldsHold bs h bucket)

pub parse_header_v2-FieldsHold : (bs : Bytes) (bucket : ℕ) → FieldsHold (parse_header_v2 bs bucket)
unfolding parse_header_v2
parse_header_v2-FieldsHold bs bucket = read_holds (capture_guarded_block1 bs) _ λ h _.
    test_holds (leb 16 (length h)) bad_format _ λ _. read_holds (le_uint16_at 0 h) _ λ version _.
      read_holds (at h 2) _ λ stored _. read_holds (at h 3) _ λ extra _.
        test_holds (version == 7 && stored == bucket && extra == 0) bad_format _ λ _.
          read_holds (at h 4) _ λ a _. read_holds (at h 5) _ λ b _. read_holds (at h 6) _ λ c _.
            read_holds (at h 7) _ λ d _.
              test_holds (a == 4 && b == 5 && c == 9) bad_format _ λ tested.
                let (four, five, nine) = three_tests a b c tested in
                read_holds (le_uint64_at 8 h) _
                  λ segment _. record { nine = nine; five = five; four = four }

pub parse_header_v1-HasLengths :
    (bs : Bytes) (bucket : ℕ) {hdr : Header}
    → parse_header_v1 bs bucket ≡ ok hdr
    → HasLengths hdr.fields
parse_header_v1-HasLengths bs bucket e = subst FieldsHold e (parse_header_v1-FieldsHold bs bucket)
