-- ===== src/Encoding/Writer/Layout.antt =====
-- The pages of `layoutCKeyPages`: each fits its size, and together they hold the entries in order.
use go_casclib.Common.{
  ℕ, zero, suc, ◌+◌, ◌≤◌, ◌≡◌, refl, ap, ◌∙◌, sym, arith, leb, ltb, le→leb, leb→le, Bool-cases, inl,
  inr, List, [], ◌∷◌, ◌++◌, map, All, length, length-append, length-take, true,
}
use go_casclib.Encoding.Reader.{CKeyEntry}
use go_casclib.Encoding.Reader.RoundTrip.{Fits, length-record_bytes}
use go_casclib.Encoding.Writer.{
  record_bytes, records_bytes, record_size, truncated, fill_page, Page, layout_ckey_pages,
}

-- The entries of all pages
abbrev pub contents : List Page → List CKeyEntry
contents [] = []
contents (p ∷ ps) = p.content ++ contents ps

-- The records of a page fit it.
pub record PageFits (page_size : ℕ) (p : Page) : Type 0 where
  pub first_size : length p.first ≡ 16
  pub all_fit : All Fits p.content
  pub size_fits : length (records_bytes p.content) ≤ page_size

module _ (page_size : ℕ) where
  abbrev pub kept_all : List CKeyEntry → List CKeyEntry
  kept_all = map (truncated page_size)

  -- An entry whose record, cut to its first key where it has to be, is one that a page holds.
  abbrev pub KeptFits : CKeyEntry → Type 0
  KeptFits e = Fits (truncated page_size e)

  fill_page_kept :
      (off : ℕ) (es : List CKeyEntry)
      → (fill_page page_size off es).0 ++ kept_all (fill_page page_size off es).1 ≡ kept_all es
  unfolding fill_page
  fill_page_kept off [] = refl
  fill_page_kept off (e ∷ es) =
      let kept = truncated page_size e in
      elim (Bool-cases (leb (off + record_size kept) page_size)) [
        | inl inside ↦ rw inside (ap (◌∷◌ kept) (fill_page_kept (off + record_size kept) es))
        | inr full ↦ rw full
      ]

  fill_page_size :
      (off : ℕ) (es : List CKeyEntry)
      → off ≤ page_size
      → All KeptFits es
      → off + length (records_bytes (fill_page page_size off es).0) ≤ page_size
  unfolding fill_page
  fill_page_size off [] h fits = omega arith
  fill_page_size off (e ∷ es) h (g, fits) =
      let kept = truncated page_size e in
      elim (Bool-cases (leb (off + record_size kept) page_size)) [
        | inl inside ↦
            let next = fill_page page_size (off + record_size kept) es in
            let bound =
              fill_page_size (off + record_size kept) es
                (leb→le (off + record_size kept) page_size inside) fits in
            rw inside (
              omega (
                arith,
                bound,
                length-record_bytes kept g,
                length-append (record_bytes kept) (records_bytes next.0),
              ))
        | inr full ↦ rw full (omega arith)
      ]

  fill_page-All :
      (off : ℕ) (es : List CKeyEntry)
      → All KeptFits es
      → All Fits (fill_page page_size off es).0 × All KeptFits (fill_page page_size off es).1
  unfolding fill_page
  fill_page-All off [] fits = (tt, tt)
  fill_page-All off (e ∷ es) (g, fits) =
      let kept = truncated page_size e in
      elim (Bool-cases (leb (off + record_size kept) page_size)) [
        | inl inside ↦
            let (a, b) = fill_page-All (off + record_size kept) es fits in rw inside ((g, a), b)
        | inr full ↦ rw full (tt, (g, fits))
      ]

  fill_page_shorter :
      (off : ℕ) (es : List CKeyEntry) → length (fill_page page_size off es).1 ≤ length es
  unfolding fill_page
  fill_page_shorter off [] = omega arith
  fill_page_shorter off (e ∷ es) =
      let kept = truncated page_size e in
      elim (Bool-cases (leb (off + record_size kept) page_size)) [
        | inl inside ↦ rw inside (omega (arith, fill_page_shorter (off + record_size kept) es))
        | inr full ↦ rw full (omega arith)
      ]

  pub truncated-ckey : (e : CKeyEntry) → (truncated page_size e).ckey ≡ e.ckey
  unfolding truncated
  truncated-ckey e = elim (Bool-cases (ltb page_size (record_size e))) [
    | inl large ↦ rw large
    | inr fits ↦ rw fits
  ]

  -- A record with at most one key fits the smallest page.
  truncated_size :
      (e : CKeyEntry) → 1024 ≤ page_size → record_size (truncated page_size e) ≤ page_size
  unfolding truncated
  truncated_size e h = elim (Bool-cases (ltb page_size (record_size e))) [
    | inl large ↦ rw large (omega (arith, length-take 1 e.ekeys))
    | inr fits ↦ let small : record_size e ≤ page_size = ground arith in rw fits small
  ]

  -- The first entry of a page always finds room.
  fill_page_takes :
      (e : CKeyEntry) (es : List CKeyEntry)
      → 1024 ≤ page_size
      → length (fill_page page_size 0 (e ∷ es)).1 ≤ length es
  unfolding fill_page
  fill_page_takes e es h =
      let kept = truncated page_size e in
      let room : leb (0 + record_size kept) page_size ≡ true =
        le→leb (0 + record_size kept) page_size (omega (arith, truncated_size e h)) in
      rw room (fill_page_shorter (0 + record_size kept) es)

  pub contents-layout :
      (fuel : ℕ) (es : List CKeyEntry)
      → 1024 ≤ page_size
      → length es ≤ fuel
      → contents (layout_ckey_pages fuel page_size es) ≡ kept_all es
  unfolding layout_ckey_pages
  contents-layout zero [] h k = refl
  contents-layout zero (e ∷ es) h k = absurd (omega arith)
  contents-layout (suc fuel) [] h k = refl
  contents-layout (suc fuel) (e ∷ es) h k =
      let filled = fill_page page_size 0 (e ∷ es) in
      ap (◌++◌ filled.0) (contents-layout fuel filled.1 h (omega (arith, fill_page_takes e es h)))
      ∙ fill_page_kept 0 (e ∷ es)

  pub layout-PageFits :
      (fuel : ℕ) (es : List CKeyEntry)
      → All KeptFits es
      → All (PageFits page_size) (layout_ckey_pages fuel page_size es)
  unfolding layout_ckey_pages
  layout-PageFits zero es fits = tt
  layout-PageFits (suc fuel) [] fits = tt
  layout-PageFits (suc fuel) (e ∷ es) fits =
      let first : length e.ckey ≡ 16 = ap length (sym (truncated-ckey e)) ∙ fits.0.ckey_size in
      let filled = fill_page page_size 0 (e ∷ es) in
      let (now, later) = fill_page-All 0 (e ∷ es) fits in
      let bound = fill_page_size 0 (e ∷ es) (omega arith) fits in
      (
        record { first_size = first; all_fit = now; size_fits = omega arith },
        layout-PageFits fuel filled.1 later,
      )

  pub length-layout :
      (fuel : ℕ) (es : List CKeyEntry) → length (layout_ckey_pages fuel page_size es) ≤ fuel
  unfolding layout_ckey_pages
  length-layout zero es = omega arith
  length-layout (suc fuel) [] = omega arith
  length-layout (suc fuel) (e ∷ es) =
      omega (arith, length-layout fuel (fill_page page_size 0 (e ∷ es)).1)
