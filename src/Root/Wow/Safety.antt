-- ===== src/Root/Wow/Safety.antt =====
-- `Parse` on any bytes: it never reads out of range.
use go_casclib.Common.{
  ℕ, zero, suc, ◌+◌, ◌*◌, ◌≤◌, ◌≡◌, ◌==◌, leb, ltb, ltb→lt, leb→le, arith, Bool, true, false,
  Option, none, some, IsSafe, IsSafe-ok, ok-IsSafe, guard-IsSafe, if-IsSafe, >>=-IsSafe, length,
  bad_format,
}
use go_casclib.Binary.{
  Bytes, at, back, slice, le_uint32_reads, le_uint32_at, le_uint32_at-IsSafe, le_uint64_at,
  le_uint64_at-IsSafe, at-IsSafe, back-IsSafe, back_size, slice-IsSafe, slice_size,
}
use go_casclib.Bits.{u32, add32}
use go_casclib.Root.Wow.{
  Handler, GroupHeader, Format, format_v1, format_v2, format_v3, no_name_hash, read_delta,
  read_hash, add_v1, add_v2, parse_group_header, parse_split, parse_joined, parse_bodies,
  parse_files, parse_group, parse_groups, detect_v3, parse_v2, parse_detected, is_mfst, parse,
  empty_handler,
}

read_delta-IsSafe : (i : ℕ) (fdids : Bytes) → i * 4 + 4 ≤ length fdids → IsSafe (read_delta i fdids)
read_delta-IsSafe i fdids h =
    let below : u32 (i * 4) ≤ i * 4 = omega arith in
    >>=-IsSafe (back (u32 (i * 4)) fdids) _ (back-IsSafe (u32 (i * 4)) fdids (omega arith)) λ b cut.
      let size = back_size (u32 (i * 4)) fdids (omega arith) cut in
      let (v, e) = le_uint32_reads b (omega arith) in IsSafe-ok _ e

-- The hashes reach to those of the entry `n`, or there are none.
abbrev Hashes : ℕ → Option Bytes → Type 0
Hashes n none = Unit
Hashes n (some hashes) = n * 8 ≤ length hashes

read_hash-IsSafe :
    (i n : ℕ) (hashes : Option Bytes) → suc i ≤ n → Hashes n hashes → IsSafe (read_hash i hashes)
read_hash-IsSafe i n none h k = ok-IsSafe 0
read_hash-IsSafe i n (some hashes) h k = le_uint64_at-IsSafe (i * 8) hashes (omega arith)

module _ (fdids : Bytes) (locale content total : ℕ) (size : total * 4 ≤ length fdids) where
  add_v1-IsSafe :
      (n i fdid : ℕ) (entries : Bytes) (h : Handler)
      → i + n ≡ total
      → total * 24 ≤ length entries
      → IsSafe (add_v1 fdids locale content n i fdid entries h)
  unfolding add_v1
  add_v1-IsSafe zero i fdid entries h e k = ok-IsSafe h
  add_v1-IsSafe (suc n) i fdid entries h e k =
      >>=-IsSafe (read_delta i fdids) _ (read_delta-IsSafe i fdids (omega arith)) λ delta _.
        >>=-IsSafe (slice (i * 24) 16 entries) _ (slice-IsSafe (i * 24) 16 entries (omega arith))
          λ ckey _.
            >>=-IsSafe (le_uint64_at (i * 24 + 16) entries) _
              (le_uint64_at-IsSafe (i * 24 + 16) entries (omega arith))
              λ hash _.
                add_v1-IsSafe n (suc i) (add32 (add32 fdid delta) 1) entries _ (omega arith) k

  add_v2-IsSafe :
      (n i fdid : ℕ) (ckeys : Bytes) (hashes : Option Bytes) (h : Handler)
      → i + n ≡ total
      → total * 16 ≤ length ckeys
      → Hashes total hashes
      → IsSafe (add_v2 fdids locale content n i fdid ckeys hashes h)
  unfolding add_v2
  add_v2-IsSafe zero i fdid ckeys hashes h e k g = ok-IsSafe h
  add_v2-IsSafe (suc n) i fdid ckeys hashes h e k g =
      >>=-IsSafe (read_delta i fdids) _ (read_delta-IsSafe i fdids (omega arith)) λ delta _.
        >>=-IsSafe (slice (i * 16) 16 ckeys) _ (slice-IsSafe (i * 16) 16 ckeys (omega arith))
          λ ckey _.
            >>=-IsSafe (read_hash i hashes) _ (read_hash-IsSafe i total hashes (omega arith) g)
              λ hash _.
                add_v2-IsSafe n (suc i) (add32 (add32 fdid delta) 1) ckeys hashes _ (omega arith) k
                  g

module _ (g : GroupHeader) (fdids bs : Bytes) (off : ℕ) (h : Handler)
    (size : g.num_files * 4 ≤ length fdids) where
  parse_joined-IsSafe : IsSafe (parse_joined g fdids off bs h)
  unfolding parse_joined
  parse_joined-IsSafe =
      guard-IsSafe (leb (off + g.num_files * 24) (length bs)) bad_format _ (λ e. cc)
        λ inside.
          let fits = leb→le (off + g.num_files * 24) (length bs) inside in
          >>=-IsSafe (slice off (g.num_files * 24) bs) _
            (slice-IsSafe off (g.num_files * 24) bs fits)
            λ entries cut.
              let long = slice_size off (g.num_files * 24) bs fits cut in
              >>=-IsSafe _ _
                (add_v1-IsSafe fdids g.group_locale g.group_content g.num_files size g.num_files 0 0
                  entries h (omega arith) (omega arith))
                λ done _. ok-IsSafe _

  parse_split-IsSafe : IsSafe (parse_split g fdids off bs h)
  unfolding parse_split
  parse_split-IsSafe =
      guard-IsSafe (leb (off + g.num_files * 16) (length bs)) bad_format _ (λ e. cc)
        λ inside.
          let fits = leb→le (off + g.num_files * 16) (length bs) inside in
          >>=-IsSafe (slice off (g.num_files * 16) bs) _
            (slice-IsSafe off (g.num_files * 16) bs fits)
            λ ckeys cut.
              let long = slice_size off (g.num_files * 16) bs fits cut in
              if-IsSafe (no_name_hash g.group_content) _ _
                (λ _.
                  >>=-IsSafe _ _
                    (add_v2-IsSafe fdids g.group_locale g.group_content g.num_files size g.num_files
                      0 0 ckeys none h (omega arith) (omega arith) tt)
                    λ done _. ok-IsSafe _)
                (λ _.
                  guard-IsSafe (leb (off + g.num_files * 16 + g.num_files * 8) (length bs))
                    bad_format _ (λ e. cc)
                    λ further.
                      let fits2 =
                        leb→le (off + g.num_files * 16 + g.num_files * 8) (length bs) further in
                      >>=-IsSafe (slice (off + g.num_files * 16) (g.num_files * 8) bs) _
                        (slice-IsSafe (off + g.num_files * 16) (g.num_files * 8) bs fits2)
                        λ hashes cut2.
                          let long2 =
                            slice_size (off + g.num_files * 16) (g.num_files * 8) bs fits2 cut2 in
                          >>=-IsSafe _ _
                            (add_v2-IsSafe fdids g.group_locale g.group_content g.num_files size
                              g.num_files 0 0 ckeys (some hashes) h (omega arith) (omega arith)
                              (omega arith))
                            λ done _. ok-IsSafe _)

  parse_bodies-IsSafe : (f : Format) → IsSafe (parse_bodies f g fdids off bs h)
  parse_bodies-IsSafe format_v1 = parse_joined-IsSafe
  parse_bodies-IsSafe format_v2 = parse_split-IsSafe
  parse_bodies-IsSafe format_v3 = parse_split-IsSafe

parse_files-IsSafe : (g : GroupHeader) (bs : Bytes) (h : Handler) → IsSafe (parse_files g bs h)
unfolding parse_files
parse_files-IsSafe g bs h =
    guard-IsSafe (leb g.num_files (u32 (length bs))) bad_format _ (λ e. cc)
      λ few.
        guard-IsSafe (leb (g.header_size + g.num_files * 4) (length bs)) bad_format _ (λ e. cc)
          λ inside.
            let fits = leb→le (g.header_size + g.num_files * 4) (length bs) inside in
            >>=-IsSafe (slice g.header_size (g.num_files * 4) bs) _
              (slice-IsSafe g.header_size (g.num_files * 4) bs fits)
              λ fdids cut.
                let long = slice_size g.header_size (g.num_files * 4) bs fits cut in
                parse_bodies-IsSafe g fdids bs (g.header_size + g.num_files * 4) h (omega arith)
                  h.format

parse_group_header-IsSafe : (packed : Bool) (bs : Bytes) → IsSafe (parse_group_header packed bs)
unfolding parse_group_header
parse_group_header-IsSafe true bs =
    guard-IsSafe (leb 17 (length bs)) bad_format _ (λ e. cc)
      λ enough.
        let long = leb→le 17 (length bs) enough in
        >>=-IsSafe (le_uint32_at 0 bs) _ (le_uint32_at-IsSafe 0 bs (omega arith)) λ a _.
          >>=-IsSafe (le_uint32_at 4 bs) _ (le_uint32_at-IsSafe 4 bs (omega arith)) λ b _.
            >>=-IsSafe (le_uint32_at 8 bs) _ (le_uint32_at-IsSafe 8 bs (omega arith)) λ c _.
              >>=-IsSafe (le_uint32_at 12 bs) _ (le_uint32_at-IsSafe 12 bs (omega arith))
                λ d _. >>=-IsSafe (at bs 16) _ (at-IsSafe bs 16 (omega arith)) λ e _. ok-IsSafe _
parse_group_header-IsSafe false bs =
    guard-IsSafe (leb 12 (length bs)) bad_format _ (λ e. cc)
      λ enough.
        let long = leb→le 12 (length bs) enough in
        >>=-IsSafe (le_uint32_at 0 bs) _ (le_uint32_at-IsSafe 0 bs (omega arith)) λ a _.
          >>=-IsSafe (le_uint32_at 4 bs) _ (le_uint32_at-IsSafe 4 bs (omega arith)) λ b _.
            >>=-IsSafe (le_uint32_at 8 bs) _ (le_uint32_at-IsSafe 8 bs (omega arith))
              λ c _. ok-IsSafe _

parse_group-IsSafe : (packed : Bool) (bs : Bytes) (h : Handler) → IsSafe (parse_group packed bs h)
unfolding parse_group
parse_group-IsSafe packed bs h =
    >>=-IsSafe (parse_group_header packed bs) _ (parse_group_header-IsSafe packed bs)
      λ g _. if-IsSafe (g.num_files == 0) _ _ (λ _. ok-IsSafe _) (λ _. parse_files-IsSafe g bs h)

parse_groups-IsSafe :
    (fuel : ℕ) (packed : Bool) (off : ℕ) (bs : Bytes) (h : Handler)
    → IsSafe (parse_groups fuel packed off bs h)
unfolding parse_groups
parse_groups-IsSafe zero packed off bs h = ok-IsSafe h
parse_groups-IsSafe (suc fuel) packed off bs h =
    if-IsSafe (ltb off (length bs)) _ _
      (λ more.
        let below = ltb→lt off (length bs) more in
        >>=-IsSafe (back off bs) _ (back-IsSafe off bs (omega arith)) λ rest _.
          >>=-IsSafe (parse_group packed rest h) _ (parse_group-IsSafe packed rest h) λ group _.
            if-IsSafe (group.1 == 0) _ _ (λ _. ok-IsSafe _)
              (λ _. parse_groups-IsSafe fuel packed (off + group.1) bs group.0))
      (λ _. ok-IsSafe h)

parse_v2-IsSafe : (bs : Bytes) → IsSafe (parse_v2 bs)
unfolding parse_v2
parse_v2-IsSafe bs =
    guard-IsSafe (leb 12 (length bs)) bad_format _ (λ e. cc)
      λ enough.
        let long = leb→le 12 (length bs) enough in
        >>=-IsSafe (le_uint32_at 4 bs) _ (le_uint32_at-IsSafe 4 bs (omega arith)) λ total _.
          >>=-IsSafe (le_uint32_at 8 bs) _ (le_uint32_at-IsSafe 8 bs (omega arith)) λ with_hash _.
            guard-IsSafe (leb with_hash total) bad_format _ (λ e. cc)
              λ _. parse_groups-IsSafe (length bs) false 12 bs (empty_handler format_v2)

parse_detected-IsSafe : (bs : Bytes) (o : Option (ℕ × Bool)) → IsSafe (parse_detected bs o)
parse_detected-IsSafe bs none = parse_v2-IsSafe bs
parse_detected-IsSafe bs (some (off, packed)) =
    parse_groups-IsSafe (length bs) packed off bs (empty_handler format_v3)

detect_v3-IsSafe : (bs : Bytes) → IsSafe (detect_v3 bs)
unfolding detect_v3
detect_v3-IsSafe bs =
    if-IsSafe (leb 20 (length bs)) _ _
      (λ enough.
        let long = leb→le 20 (length bs) enough in
        >>=-IsSafe (le_uint32_at 4 bs) _ (le_uint32_at-IsSafe 4 bs (omega arith)) λ a _.
          >>=-IsSafe (le_uint32_at 8 bs) _ (le_uint32_at-IsSafe 8 bs (omega arith)) λ b _.
            >>=-IsSafe (le_uint32_at 12 bs) _ (le_uint32_at-IsSafe 12 bs (omega arith)) λ c _.
              >>=-IsSafe (le_uint32_at 16 bs) _ (le_uint32_at-IsSafe 16 bs (omega arith))
                λ d _. ok-IsSafe _)
      (λ _. ok-IsSafe none)

is_mfst-IsSafe : (bs : Bytes) → IsSafe (is_mfst bs)
unfolding is_mfst
is_mfst-IsSafe bs =
    if-IsSafe (leb 4 (length bs)) _ _
      (λ enough.
        let long = leb→le 4 (length bs) enough in
        >>=-IsSafe (le_uint32_at 0 bs) _ (le_uint32_at-IsSafe 0 bs (omega arith))
          λ magic _. ok-IsSafe _)
      (λ _. ok-IsSafe false)

-- Whatever the bytes of a root file are, `Parse` of the World of Warcraft root does not panic.
pub wow_parse-IsSafe : (bs : Bytes) → IsSafe (parse bs)
unfolding parse
wow_parse-IsSafe bs = >>=-IsSafe (is_mfst bs) _ (is_mfst-IsSafe bs) λ mfst _.
    if-IsSafe mfst _ _
      (λ _. >>=-IsSafe (detect_v3 bs) _ (detect_v3-IsSafe bs) λ o _. parse_detected-IsSafe bs o)
      (λ _. parse_groups-IsSafe (length bs) false 0 bs (empty_handler format_v1))
