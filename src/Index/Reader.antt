-- ===== src/Index/Reader.antt =====
-- internal/index/index.go: `Parse` and the loops over the entries.
pub mod RoundTrip
pub mod Safety
pub mod Fuel
use go_casclib.Common.{
  ℕ, zero, suc, ◌+◌, ◌-◌, ◌*◌, ◌/◌, leb, ltb, min, List, [], ◌∷◌, ◌++◌, Error, Result, ok, err,
  guard, ◌>>=◌, ◌>>◌, file_corrupt, panic, length, if◌then◌else◌, Bool, true, false,
}
use go_casclib.Binary.{Bytes, back, slice}
use go_casclib.Index.Entry.{EKeyEntry, EntryFields, entry_length, decode_entry}
use go_casclib.Index.Header.{
  Header, parse_header_v1, parse_header_v2, capture_guarded_block2, capture_guarded_block3,
}

pub record IndexFile : Type 0 where
  pub header : Header
  pub entries : List EKeyEntry

-- The entries from offset `off` on; the first argument counts those that are left.
pub load_loop : ℕ → ℕ → Bytes → EntryFields → Result (List EKeyEntry)
load_loop zero off bs f = ok []
load_loop (suc n) off bs f = do
  bytes ← slice off (entry_length f) bs
  e ← decode_entry bytes f
  rest ← load_loop n (off + entry_length f) bs f
  ok (e ∷ rest)

unfoldable pub load_entries_v1 : Bytes → Header → Result (List EKeyEntry)
unfolding load_loop
load_entries_v1 bs h = do
  let off = h.header_length + h.header_padding
  guard (leb (off + h.ekey_count * entry_length h.fields) (length bs)) file_corrupt
  load_loop h.ekey_count off bs h.fields

-- The entries of one guarded block, from entry `i` on.
pub load_block : ℕ → ℕ → Bytes → EntryFields → Result (List EKeyEntry)
load_block zero i payload f = ok []
load_block (suc n) i payload f = do
  bytes ← back (i * entry_length f) payload
  e ← decode_entry bytes f
  rest ← load_block n (i + 1) payload f
  ok (e ∷ rest)

-- What the loop over a page does with a guarded entry: it stops at the first bad one. `next` is
-- the loop from the next place on.
pub page_entry : Result Bytes → EntryFields → Result (List EKeyEntry) → Result (List EKeyEntry)
page_entry (err panic) f next = err panic
page_entry (err _) f next = ok []
page_entry (ok bytes) f next = do e ← decode_entry bytes f; rest ← next; ok (e ∷ rest)

-- `(h.EntryLength + 3) &^ 3`
abbrev pub aligned_entry : EntryFields → ℕ
aligned_entry f = (entry_length f + 3) / 4 * 4

-- The loop over `p`. Each round moves `p` by 4 at least.
pub load_page : ℕ → ℕ → ℕ → Bytes → EntryFields → Result (List EKeyEntry)
load_page zero p page_end bs f = ok []
load_page (suc fuel) p page_end bs f =
    let next = load_page fuel (p + 4 + aligned_entry f) page_end bs f in
    if leb (p + 4 + entry_length f) page_end
    then (do
      window ← slice p (page_end - p) bs
      page_entry (capture_guarded_block3 window (entry_length f)) f next)
    else ok []

-- The loop over `pageStart`. Each round moves it by a page.
pub load_pages : ℕ → ℕ → Bytes → EntryFields → Result (List EKeyEntry)
load_pages zero start bs f = ok []
load_pages (suc fuel) start bs f =
    let rest = load_pages fuel (start + 0x1000) bs f in
    if ltb start (length bs)
    then (do
      page ← load_page (length bs) start (min (start + 0x1000) (length bs)) bs f
      others ← rest
      ok (page ++ others))
    else ok []

-- Behind the attempt at a single guarded block.
pub load_paged : Bytes → Header → Result (List EKeyEntry)
load_paged bs h = do
  guard (leb (0x1000 + 0x7800) (length bs)) file_corrupt
  load_pages (length bs) 0x1000 bs h.fields

pub load_captured : Result Bytes → Bytes → Header → Result (List EKeyEntry)
load_captured (ok payload) bs h =
    load_block (length payload / entry_length h.fields) 0 payload h.fields
load_captured (err panic) bs h = err panic
load_captured (err _) bs h = load_paged bs h

unfoldable pub load_entries_v2 : Bytes → Header → Result (List EKeyEntry)
unfolding load_captured load_paged load_block load_page load_pages page_entry
load_entries_v2 bs h =
    let off = h.header_length + h.header_padding in
    if ltb off (length bs)
    then (do
      block ← back off bs
      load_captured (capture_guarded_block2 block (entry_length h.fields)) bs h)
    else load_paged bs h

-- The fall back to V1 is taken on an error of the V2 header, which a panic is not.
pub parse_from : Result Header → Bytes → ℕ → Result IndexFile
parse_from (ok hdr) bs bucket = do
  entries ← load_entries_v2 bs hdr
  ok (record { header = hdr; entries = entries })
parse_from (err panic) bs bucket = err panic
parse_from (err _) bs bucket = do
  hdr ← parse_header_v1 bs bucket
  entries ← load_entries_v1 bs hdr
  ok (record { header = hdr; entries = entries })

unfoldable pub parse : Bytes → ℕ → Result IndexFile
unfolding parse_from
parse bs bucket = parse_from (parse_header_v2 bs bucket) bs bucket
