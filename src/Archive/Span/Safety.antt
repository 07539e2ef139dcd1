-- ===== src/Archive/Span/Safety.antt =====
-- `DecodeSpan` on any bytes: where it panics.
use go_casclib.Common.{
  ℕ, ◌+◌, ◌≤◌, ◌<◌, ◌≡◌, ◌≢◌, ◌↔◌, refl, ◌==◌, ne→==, leb, arith, Bool, Bool-cases, true, false, ok,
  err, panic, ◌>>=◌, Option, List, [], ◌∷◌, Result, IsSafe, IsSafe-ok, ok-IsSafe, guard-IsSafe,
  if-IsSafe, >>=-IsSafe, length, bad_format, file_corrupt, inl, inr, ◌⊎◌,
}
use go_casclib.Binary.{
  Bytes, back, slice, le_uint32_at, le_uint32_at-IsSafe, back-IsSafe, slice-take-drop,
}
use go_casclib.Compress.{Codecs}
use go_casclib.Datafile.Header.{Frame, Header, blte_signature, single_frame, parse_header}
use go_casclib.Datafile.Header.Safety.{parse_header-IsSafe, parse_header_lem, HasTable}
use go_casclib.Datafile.Frame.{FrameDecoder, decode}
use go_casclib.Datafile.Frame.Safety.{AreSafe, decode-IsSafe}
use go_casclib.Archive.Span.{
  strip_encoded_header, decode_frames, decode_single, decode_table, decode_span, total_content_size,
  max_alloc,
}

strip_encoded_header-IsSafe : (span : Bytes) → IsSafe (strip_encoded_header span)
unfolding strip_encoded_header
strip_encoded_header-IsSafe span =
    guard-IsSafe (leb 4 (length span)) bad_format _ (λ e. cc)
      λ long.
        >>=-IsSafe (le_uint32_at 0 span) _ (le_uint32_at-IsSafe 0 span (ground arith)) λ first _.
          if-IsSafe (first == blte_signature) _ _ (λ _. ok-IsSafe span)
            λ _.
              guard-IsSafe (leb 34 (length span)) bad_format _ (λ e. cc)
                λ longer.
                  >>=-IsSafe (le_uint32_at 30 span) _ (le_uint32_at-IsSafe 30 span (ground arith))
                    λ second _.
                      guard-IsSafe (second == blte_signature) bad_format _ (λ e. cc)
                        λ _. back-IsSafe 30 span (ground arith)

-- A span whose frame table declares more content than can be allocated.
pub record Overflows (span : Bytes) : Type 0 where
  pub body : Bytes
  pub header : Header
  pub stripped : strip_encoded_header span ≡ ok body
  pub parsed : parse_header body ≡ ok header
  pub has_table : header.header_size ≢ 0
  pub too_large : max_alloc < total_content_size header.frames

>>=-panics :
    {A B : Type 0} (m : Result A) (next : A → Result B)
    → IsSafe m
    → (m >>= next) ≡ err panic
    → (a : A) × (m ≡ ok a) × (next a ≡ err panic)
>>=-panics (ok a) next safe h = (a, refl, h)
>>=-panics (err e) next safe h = absurd (safe.ne_panic cc)

module _ (c : Codecs) (keys : Option (Bytes → ℕ → Result Bytes)) (safe : AreSafe c keys)
    (overcome : Bool) where
  abbrev decoder : FrameDecoder
  decoder = record { decrypt = keys; verify_hashes = true; overcome_encrypted = overcome }

  decode_frames-IsSafe :
      (frames : List Frame) (cursor : ℕ) (body : Bytes)
      → IsSafe (decode_frames c decoder frames cursor body)
  unfolding decode_frames
  decode_frames-IsSafe [] cursor body = ok-IsSafe []
  decode_frames-IsSafe (fr ∷ frames) cursor body =
      guard-IsSafe (leb (cursor + fr.encoded_size) (length body)) file_corrupt _ (λ e. cc)
        λ fits.
          >>=-IsSafe (slice cursor fr.encoded_size body) _
            (IsSafe-ok _ (slice-take-drop cursor fr.encoded_size body (ground arith)))
            λ encoded _.
              >>=-IsSafe (decode c decoder fr encoded) _
                (decode-IsSafe c keys safe true overcome fr encoded)
                λ decoded _.
                  >>=-IsSafe (decode_frames c decoder frames (cursor + fr.encoded_size) body) _
                    (decode_frames-IsSafe frames (cursor + fr.encoded_size) body)
                    λ rest _. ok-IsSafe _

  single :
      (body : Bytes) (hdr : Header)
      → hdr.header_size ≡ 0
      → ((hdr ≡ single_frame) × (8 ≤ length body)) ⊎ HasTable body hdr
      → IsSafe (decode_single c decoder hdr body)
  unfolding decode_single
  single body hdr e (inl (s, long)) = rw s (
      >>=-IsSafe (back 8 body) _ (back-IsSafe 8 body long)
        λ rest _. decode-IsSafe c keys safe true overcome _ rest)
  single body hdr e (inr t) = absurd (omega (arith, t.has_prefix))

  -- `DecodeSpan` panics for a span exactly where its header is accepted, has a frame table, and the
  -- content sizes in the table sum to more than the 2 ^ 48 bytes that Go can allocate; on no other
  -- bytes. The codecs and the key registry do not panic.
  pub decode_span_panics_iff :
      (span : Bytes) → (decode_span c keys overcome span ≡ err panic) ↔ Overflows span
  unfolding decode_span decode_table
  decode_span_panics_iff span = (panics, overflows)
    where
      table :
          (body : Bytes) (hdr : Header)
          → strip_encoded_header span ≡ ok body
          → parse_header body ≡ ok hdr
          → (hdr.header_size == 0) ≡ false
          → decode_table c decoder hdr body ≡ err panic
          → Overflows span
      table body hdr stripped parsed more h =
          elim (Bool-cases (leb (total_content_size hdr.frames) max_alloc)) [
            | inl small ↦
                let safe = decode_frames-IsSafe hdr.frames hdr.data_offset body in
                absurd (safe.ne_panic (rw small at h))
            | inr large ↦ record {
              body = body;
              header = hdr;
              stripped = stripped;
              parsed = parsed;
              has_table = λ e. ground (arith, more, e);
              too_large = ground (arith, large);
            }
          ]

      panics : decode_span c keys overcome span ≡ err panic → Overflows span
      panics h =
          let (body, stripped, h1) =
            >>=-panics (strip_encoded_header span) _ (strip_encoded_header-IsSafe span) h in
          let (hdr, parsed, h2) = >>=-panics (parse_header body) _ (parse_header-IsSafe body) h1 in
          elim (Bool-cases (hdr.header_size == 0)) [
            | inl bare ↦
                let safe =
                  single body hdr (ground (arith, bare)) (parse_header_lem body hdr parsed) in
                absurd (safe.ne_panic (rw bare at h2))
            | inr more ↦ table body hdr stripped parsed more (rw more at h2)
          ]

      overflows : Overflows span → decode_span c keys overcome span ≡ err panic
      overflows o =
          let more : (o.header.header_size == 0) ≡ false = ne→== _ 0 o.has_table in
          let large : leb (total_content_size o.header.frames) max_alloc ≡ false =
            ground (arith, o.too_large) in
          rw (o.stripped, o.parsed, more, large)
