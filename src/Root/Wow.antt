-- ===== src/Root/Wow.antt =====
-- internal/root/wow/wow.go: the root file of World of Warcraft, with its three formats.
pub mod Writer
pub mod Safety
use go_casclib.Common.{
  ℕ, zero, suc, ◌+◌, ◌*◌, ◌/◌, ◌%◌, ◌^◌, bit_or, ◌==◌, leb, ltb, if◌then◌else◌, Bool, true, false,
  not, ◌&&◌, Option, none, some, List, [], ◌∷◌, ◌++◌, Result, ok, err, guard, ◌>>=◌, ◌>>◌,
  bad_format, length, lookup,
}
use go_casclib.Binary.{Bytes, at, back, slice, le_uint32, le_uint32_at, le_uint64_at}
use go_casclib.Bits.{u32, add32}
use go_casclib.Keys.{CKeyEntry, root_entry}
use go_casclib.Listfile.{hash_normalized}

-- `wowMagic`, 'MFST' in little endian
abbrev pub wow_magic : ℕ
wow_magic = 0x4D465354

-- `contentFlags & cflagNoNameHash != 0`: the mask is the bit 28.
abbrev pub no_name_hash : ℕ → Bool
no_name_hash content = content / 2 ^ 28 % 2 == 1

pub data Format : Type 0 where
  format_v1 format_v2 format_v3 : Format

pub record Handler : Type 0 where
  pub by_id : List (ℕ × CKeyEntry)
  pub by_hash : List (ℕ × CKeyEntry)
  pub all : List (ℕ × CKeyEntry)
  pub format : Format

-- One entry into the two maps and the list.
unfoldable pub add_entry : CKeyEntry → Handler → Handler
add_entry e h = record {
  by_id = (e.file_data_id, e) ∷ h.by_id;
  by_hash = if e.file_name_hash == 0 then h.by_hash else (e.file_name_hash, e) ∷ h.by_hash;
  all = h.all ++ ((e.file_data_id, e) ∷ []);
  format = h.format;
}

-- `binary.LittleEndian.Uint32(fdids[i*4:])`; the product of the `uint32` wraps.
abbrev pub read_delta : ℕ → Bytes → Result ℕ
read_delta i fdids = back (u32 (i * 4)) fdids >>= le_uint32

-- `nil` for `hashes` is `none`.
abbrev pub read_hash : ℕ → Option Bytes → Result ℕ
read_hash i none = ok 0
read_hash i (some hashes) = le_uint64_at (i * 8) hashes

module _ (fdids : Bytes) (locale content : ℕ) where
  -- The first argument counts the entries that are left, the second is `i`, the third `fdid`.
  pub add_v1 : ℕ → ℕ → ℕ → Bytes → Handler → Result Handler
  add_v1 zero i fdid entries h = ok h
  add_v1 (suc n) i fdid entries h = do
    delta ← read_delta i fdids
    ckey ← slice (i * 24) 16 entries
    hash ← le_uint64_at (i * 24 + 16) entries
    add_v1 n (suc i) (add32 (add32 fdid delta) 1) entries
        (add_entry (root_entry ckey hash 0 (add32 fdid delta) locale content) h)

  pub add_v2 : ℕ → ℕ → ℕ → Bytes → Option Bytes → Handler → Result Handler
  add_v2 zero i fdid ckeys hashes h = ok h
  add_v2 (suc n) i fdid ckeys hashes h = do
    delta ← read_delta i fdids
    ckey ← slice (i * 16) 16 ckeys
    hash ← read_hash i hashes
    add_v2 n (suc i) (add32 (add32 fdid delta) 1) ckeys hashes
        (add_entry (root_entry ckey hash 0 (add32 fdid delta) locale content) h)

pub record GroupHeader : Type 0 where
  pub num_files : ℕ
  pub group_content : ℕ
  pub group_locale : ℕ
  pub header_size : ℕ

-- The flag is `groupHeaderVersion == 2`.
unfoldable pub parse_group_header : Bool → Bytes → Result GroupHeader
parse_group_header true bs = do
  guard (leb 17 (length bs)) bad_format
  num_files ← le_uint32_at 0 bs
  locale ← le_uint32_at 4 bs
  cf1 ← le_uint32_at 8 bs
  cf2 ← le_uint32_at 12 bs
  cf3 ← at bs 16
  ok (record {
    num_files = num_files;
    group_content = bit_or (bit_or cf1 cf2) (u32 (cf3 * 2 ^ 17));
    group_locale = locale;
    header_size = 17;
  })
parse_group_header false bs = do
  guard (leb 12 (length bs)) bad_format
  num_files ← le_uint32_at 0 bs
  content ← le_uint32_at 4 bs
  locale ← le_uint32_at 8 bs
  ok (record {
    num_files = num_files;
    group_content = content;
    group_locale = locale;
    header_size = 12;
  })

-- The handler and the number of bytes consumed.
abbrev pub Parsed : Type 0
Parsed = Handler × ℕ

-- The content keys and the hashes behind the FDIDs; `off` is their place.
unfoldable pub parse_split : GroupHeader → Bytes → ℕ → Bytes → Handler → Result Parsed
unfolding add_v2
parse_split g fdids off bs h = do
  let n = g.num_files
  guard (leb (off + n * 16) (length bs)) bad_format
  ckeys ← slice off (n * 16) bs
  let hash_off = off + n * 16
  if no_name_hash g.group_content
      then (do
        done ← add_v2 fdids g.group_locale g.group_content n 0 0 ckeys none h
        ok (done, hash_off))
      else (do
        guard (leb (hash_off + n * 8) (length bs)) bad_format
        hashes ← slice hash_off (n * 8) bs
        done ← add_v2 fdids g.group_locale g.group_content n 0 0 ckeys (some hashes) h
        ok (done, hash_off + n * 8))

-- The records of version 1 behind the FDIDs
unfoldable pub parse_joined : GroupHeader → Bytes → ℕ → Bytes → Handler → Result Parsed
unfolding add_v1
parse_joined g fdids off bs h = do
  let n = g.num_files
  guard (leb (off + n * 24) (length bs)) bad_format
  entries ← slice off (n * 24) bs
  done ← add_v1 fdids g.group_locale g.group_content n 0 0 entries h
  ok (done, off + n * 24)

abbrev pub parse_bodies : Format → GroupHeader → Bytes → ℕ → Bytes → Handler → Result Parsed
parse_bodies format_v1 = parse_joined
parse_bodies _ = parse_split

unfoldable pub parse_files : GroupHeader → Bytes → Handler → Result Parsed
parse_files g bs h = do
  guard (leb g.num_files (u32 (length bs))) bad_format
  let off = g.header_size + g.num_files * 4
  guard (leb off (length bs)) bad_format
  fdids ← slice g.header_size (g.num_files * 4) bs
  parse_bodies h.format g fdids off bs h

unfoldable pub parse_group : Bool → Bytes → Handler → Result Parsed
parse_group packed bs h = do
  g ← parse_group_header packed bs
  if g.num_files == 0 then ok (h, g.header_size) else parse_files g bs h

-- The loop over the groups, on the fuel of the length of the file: each round moves `off`.
unfoldable pub parse_groups : ℕ → Bool → ℕ → Bytes → Handler → Result Handler
unfolding parse_group
parse_groups zero packed off bs h = ok h
parse_groups (suc fuel) packed off bs h =
    let next = λ (p : Parsed). parse_groups fuel packed (off + p.1) bs p.0 in
    if ltb off (length bs)
    then (do
      rest ← back off bs
      group ← parse_group packed rest h
      if group.1 == 0 then ok group.0 else next group)
    else ok h

abbrev pub empty_handler : Format → Handler
empty_handler f = record { by_id = []; by_hash = []; all = []; format = f }

-- The test for the header of version 3: `none`, or the offset of the groups with the flag of the
-- packed group headers.
abbrev pub v3_groups : ℕ → ℕ → ℕ → ℕ → Option (ℕ × Bool)
v3_groups size_of_header version total_files with_hash =
    if leb 20 size_of_header && leb size_of_header 0x100 && leb with_hash total_files
    then some (size_of_header, version == 2)
    else none

unfoldable pub detect_v3 : Bytes → Result (Option (ℕ × Bool))
detect_v3 bs =
    if leb 20 (length bs)
    then (do
      size_of_header ← le_uint32_at 4 bs
      version ← le_uint32_at 8 bs
      total_files ← le_uint32_at 12 bs
      with_hash ← le_uint32_at 16 bs
      ok (v3_groups size_of_header version total_files with_hash))
    else ok none

unfoldable pub parse_v2 : Bytes → Result Handler
parse_v2 bs = do
  guard (leb 12 (length bs)) bad_format
  total_files ← le_uint32_at 4 bs
  with_hash ← le_uint32_at 8 bs
  guard (leb with_hash total_files) bad_format
  parse_groups (length bs) false 12 bs (empty_handler format_v2)

abbrev pub parse_detected : Bytes → Option (ℕ × Bool) → Result Handler
parse_detected bs (some (off, packed)) =
    parse_groups (length bs) packed off bs (empty_handler format_v3)
parse_detected bs none = parse_v2 bs

-- `len(data) >= 4 && binary.LittleEndian.Uint32(data[0:4]) == wowMagic`
unfoldable pub is_mfst : Bytes → Result Bool
is_mfst bs =
    if leb 4 (length bs) then (le_uint32_at 0 bs >>= λ magic. ok (magic == wow_magic)) else ok false

unfoldable pub parse : Bytes → Result Handler
parse bs = do
  mfst ← is_mfst bs
  if mfst
      then (detect_v3 bs >>= parse_detected bs)
      else parse_groups (length bs) false 0 bs (empty_handler format_v1)

-- `Probe` accepts the files with the magic only.
unfoldable pub probe : Bytes → Result Handler
unfolding parse
probe bs = do mfst ← is_mfst bs; if mfst then parse bs else err bad_format

unfoldable pub lookup_by_file_data_id : Handler → ℕ → Option CKeyEntry
lookup_by_file_data_id h id = lookup ◌==◌ id h.by_id

unfoldable pub lookup_by_name : Handler → Bytes → Option CKeyEntry
unfolding hash_normalized
lookup_by_name h name = lookup ◌==◌ (hash_normalized name) h.by_hash
