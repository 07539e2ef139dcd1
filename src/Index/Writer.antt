-- ===== src/Index/Writer.antt =====
-- internal/index/writer.go: `EncodeV1`.
pub mod Sorted
pub mod RoundTrip
pub mod Ascending
use go_casclib.Common.{
  insertion_sort, ℕ, zero, suc, ◌+◌, ◌-◌, ◌%◌, ◌^◌, ◌==◌, ◌||◌, ltb, List, [], ◌∷◌, ◌++◌, length,
  take, drop, get_or, if◌then◌else◌, Bool, true, false, min,
}
use go_casclib.Binary.{Bytes, byte, put_le_uint16, put_le_uint32, put_le_uint64}
use go_casclib.Hashes.{hash_little}
use go_casclib.Index.Entry.{EKeyEntry, EntryFields, write_entry_v1}
use go_casclib.Index.Entry.RoundTrip.{v1_fields}

-- `block1_count` 0 stands for every count that is not positive.
pub record WriteOptions : Type 0 where
  pub bucket_index : ℕ
  pub segment_size : ℕ
  pub block1_count : ℕ

-- `ekeyLess`: the keys compare by their first `n` bytes.
pub ekey_less : ℕ → Bytes → Bytes → Bool
ekey_less zero a b = false
ekey_less (suc n) (x ∷ a) (y ∷ b) = if x == y then ekey_less n a b else ltb x y
ekey_less (suc n) _ _ = false

abbrev pub entry_before : EKeyEntry → EKeyEntry → Bool
entry_before x e = ekey_less 9 x.ekey e.ekey

unfoldable pub sort_entries : List EKeyEntry → List EKeyEntry
unfolding ekey_less
sort_entries = insertion_sort entry_before

abbrev pub write_entries : List EKeyEntry → Bytes
write_entries [] = []
write_entries (e ∷ es) = write_entry_v1 e v1_fields ++ write_entries es

abbrev pub block1_of : ℕ → ℕ → ℕ
block1_of wanted n = if wanted == 0 || ltb n wanted then n else wanted

-- The 36 bytes before the hashes. `field_8` is a constant; the segment size follows it.
abbrev pub header_head : ℕ → ℕ → ℕ → ℕ → Bytes
header_head bucket segment_size block1 block2 =
    put_le_uint16 5
    ++ (bucket
        ∷ 0
        ∷ (put_le_uint32 0
            ++ (put_le_uint64 0x4000_0000
                ++ (put_le_uint64 segment_size
                    ++ (4
                        ∷ 5
                        ∷ 9
                        ∷ 30
                        ∷ (put_le_uint32 (block1 % 2 ^ 32) ++ put_le_uint32 (block2 % 2 ^ 32)))))))

abbrev pub hashed_header : ℕ → ℕ → List EKeyEntry → List EKeyEntry → Bytes
hashed_header bucket segment_size first second =
    header_head bucket segment_size (length first) (length second)
    ++ (put_le_uint32 (hash_little (write_entries first) 0)
        ++ put_le_uint32 (hash_little (write_entries second) 0))

-- The file for the two key blocks.
abbrev pub write_blocks : ℕ → ℕ → List EKeyEntry → List EKeyEntry → Bytes
write_blocks bucket segment_size first second =
    let head = hashed_header bucket segment_size first second in
    head
    ++ (put_le_uint32 (hash_little (head ++ (0 ∷ 0 ∷ 0 ∷ 0 ∷ [])) 0)
        ++ (write_entries first ++ write_entries second))

abbrev pub default_segment_size : ℕ
default_segment_size = 0x4000_0000

unfoldable pub encode_v1 : List EKeyEntry → WriteOptions → Bytes
unfolding sort_entries
encode_v1 entries o =
    let segment_size = if o.segment_size == 0 then default_segment_size else o.segment_size in
    let sorted = sort_entries entries in
    let block1 = block1_of o.block1_count (length sorted) in
    write_blocks o.bucket_index segment_size (take block1 sorted) (drop block1 sorted)
