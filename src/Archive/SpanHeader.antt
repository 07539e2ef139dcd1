-- ===== src/Archive/SpanHeader.antt =====
-- internal/archive/writer.go: `buildEncodedHeader`, the 30 bytes before a span.
pub mod Checksum
use go_casclib.Common.{
  ℕ, zero, suc, ◌+◌, ◌-◌, ◌%◌, ◌^◌, List, [], ◌∷◌, ◌++◌, get_or, set, take, bit_and, bit_xor,
}
use go_casclib.Binary.{Bytes, put_le_uint32}
use go_casclib.Hashes.{hash_little}

abbrev pub jenkins_initval : ℕ
jenkins_initval = 0x3d6b_e971

abbrev pub encoded_offset_table : List ℕ
encoded_offset_table =
    0x0493_96b8 ∷ 0x72a8_2a9b ∷ 0xee62_6cca ∷ 0x9917_754f ∷ 0x15de_40b1 ∷ 0xf5a8_a9b6 ∷ 0x421e_ac7e
    ∷ 0xa9d5_5c9a ∷ 0x317f_d40c ∷ 0x04fa_f80d ∷ 0x3d6b_e971 ∷ 0x5293_3cfd ∷ 0x27f6_4b7d
    ∷ 0xc6f5_c11b ∷ 0xd575_7e3a ∷ 0x6c38_8745 ∷ []

-- `hdr[i] = ekey[15-i]` for the sixteen bytes of an EKey.
abbrev pub reversed : Bytes → Bytes
reversed e =
    let at = λ (i : ℕ). get_or e i 0 in
    at 15
    ∷ at 14
    ∷ at 13
    ∷ at 12
    ∷ at 11
    ∷ at 10
    ∷ at 9
    ∷ at 8
    ∷ at 7
    ∷ at 6
    ∷ at 5
    ∷ at 4
    ∷ at 3
    ∷ at 2
    ∷ at 1
    ∷ at 0
    ∷ []

-- `hashed[i&3] ^= hdr[i]`, from index `i` on.
pub xor_lanes : ℕ → Bytes → Bytes → Bytes
xor_lanes i [] hashed = hashed
xor_lanes i (x ∷ hdr) hashed =
    let lane = bit_and i 3 in
    xor_lanes (i + 1) hdr (set hashed lane (bit_xor (get_or hashed lane 0) x))

abbrev pub no_lanes : Bytes
no_lanes = 0 ∷ 0 ∷ 0 ∷ 0 ∷ []

-- `uint32(headerOffset) + EncodedHeaderSize`, and its four bytes behind the table.
abbrev pub signature_offset : ℕ → ℕ
signature_offset header_offset = (header_offset % 2 ^ 32 + 30) % 2 ^ 32

abbrev pub encoded_offset_bytes : ℕ → Bytes
encoded_offset_bytes header_offset =
    let offset = signature_offset header_offset in
    put_le_uint32 (bit_xor (get_or encoded_offset_table (offset % 16) 0) offset)

-- Bytes 0 to 21, and those up to 25.
abbrev pub hashed_part : Bytes → ℕ → Bytes
hashed_part ekey blte_size = reversed ekey ++ (put_le_uint32 blte_size ++ (0 ∷ 0 ∷ []))

abbrev pub checked_part : Bytes → ℕ → Bytes
checked_part ekey blte_size =
    let hdr = hashed_part ekey blte_size in hdr ++ put_le_uint32 (hash_little hdr jenkins_initval)

-- `hdr[i] = hashed[i&3] ^ encodedOffsetBytes[i&3]` for `i` from 26 to 29.
abbrev pub checksum : Bytes → Bytes → Bytes
checksum hashed offset =
    let at = λ (j : ℕ). bit_xor (get_or hashed j 0) (get_or offset j 0) in
    at 2 ∷ at 3 ∷ at 0 ∷ at 1 ∷ []

unfoldable pub build_encoded_header : Bytes → ℕ → ℕ → Bytes
unfolding xor_lanes
build_encoded_header ekey blte_size header_offset =
    let hdr = checked_part ekey blte_size in
    hdr ++ checksum (xor_lanes 0 hdr no_lanes) (encoded_offset_bytes header_offset)
