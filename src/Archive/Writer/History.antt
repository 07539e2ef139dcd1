-- ===== src/Archive/Writer/History.antt =====
-- The archive as a store that only grows: a step relation on the writer, the data files and a log of
-- what was written, in the order newest first.
use go_casclib.Common.{
  ℕ, ◌+◌, ◌^◌, ◌<◌, ◌≤◌, ◌≡◌, Bool, Option, none, List, [], ◌∷◌, Result, ok, err, length, All, inl,
  inr,
}
use go_casclib.Binary.{Bytes}
use go_casclib.Compress.{Codecs, IsCodecs}
use go_casclib.Datafile.Encoder.{EncodeOptions, Encoded, encode, chunks_of, effective_frame_size}
use go_casclib.Index.Entry.{EKeyEntry}
use go_casclib.Archive.Span.{max_alloc}
use go_casclib.Archive.Span.Strip.{StartsWithBlte}
use go_casclib.Archive.Writer.{Disk, Writer, new_writer, close, write_span, read_span}
use go_casclib.Archive.Writer.Healthy.{
  healthy, IsValid, Accepts-cases, write_span_lem, write_span_refuses,
}
use go_casclib.Archive.Writer.Reads.{read_span-write_span, read_span_later}

pub record Snapshot : Type 0 where
  pub writer : Writer
  pub disk : Disk
  pub log : List (EKeyEntry × Bytes)

-- What is logged of a call: the entry it returned, with the content that it was for.
abbrev pub logged : Result EKeyEntry → Bytes → List (EKeyEntry × Bytes) → List (EKeyEntry × Bytes)
logged (ok entry) content log = (entry, content) ∷ log
logged (err _) content log = log

-- A content that the encoder turned into a span, within the bounds of the format.
pub record Encodes (c : Codecs) (content : Bytes) (e : Encoded) : Type 0 where
  pub options : EncodeOptions
  pub encoded : encode c content options ≡ ok e
  pub frame_fits : effective_frame_size options + 1 < 2 ^ 32
  pub count_fits : length (chunks_of (effective_frame_size options) content) < 2 ^ 24
  pub memory_fits : length content ≤ max_alloc
  pub plain_ekey : ¬ StartsWithBlte e.ekey

abbrev pub after_write : Snapshot → Bytes → Encoded → Snapshot
after_write s content e =
    let o = write_span healthy s.writer s.disk e.out e.ekey in
    record { writer = o.writer; disk = o.disk; log = logged o.result content s.log }

pub data Step (c : Codecs) : Snapshot → Snapshot → Type 0 where
  write :
      (s : Snapshot) (content : Bytes) (e : Encoded)
      → Encodes c content e
      → ((n : ℕ) → length (s.disk n) + (30 + length e.out) < 2 ^ 32)
      → Step c s (after_write s content e)
  shut : (s : Snapshot) → Step c s (record s { writer = (close healthy s.writer).0 })
  reopen : (s : Snapshot) (size : ℕ) → Step c s (record s { writer = new_writer size })

pub data Reach (c : Codecs) (s : Snapshot) : Snapshot → Type 0 where
  here : Reach c s s
  next : {t u : Snapshot} → Reach c s t → Step c t u → Reach c s u

-- The writer is at the end of its file, and every logged entry reads as its content.
pub record IsFaithful (c : Codecs) (keys : Option (Bytes → ℕ → Result Bytes)) (overcome : Bool)
    (s : Snapshot) : Type 0 where
  pub valid : IsValid s.writer s.disk
  pub readable : All (λ p. read_span c keys overcome s.disk p.0 ≡ ok p.1) s.log

module _ (c : Codecs) (laws : IsCodecs c) (no_lzma : c.lzma_decoder ≡ none)
    (keys : Option (Bytes → ℕ → Result Bytes)) (overcome : Bool) where
  still_readable :
      (w : Writer) (disk : Disk) (blte ekey : Bytes) (log : List (EKeyEntry × Bytes))
      → IsValid w disk
      → All (λ p. read_span c keys overcome disk p.0 ≡ ok p.1) log
      → All
          (λ p. read_span c keys overcome (write_span healthy w disk blte ekey).disk p.0 ≡ ok p.1)
          log
  still_readable w disk blte ekey [] v h = tt
  still_readable w disk blte ekey ((entry, content) ∷ log) v (h, hs) = (
    read_span_later c keys overcome w disk blte ekey entry content v h,
    still_readable w disk blte ekey log v hs,
  )

  after_write-IsFaithful :
      (s : Snapshot) (content : Bytes) (e : Encoded)
      → Encodes c content e
      → ((n : ℕ) → length (s.disk n) + (30 + length e.out) < 2 ^ 32)
      → IsFaithful c keys overcome s
      → IsFaithful c keys overcome (after_write s content e)
  after_write-IsFaithful s content e enc small f =
      let old = still_readable s.writer s.disk e.out e.ekey s.log f.valid f.readable in
      elim (Accepts-cases s.writer e.out) [
        | inl a ↦
            let (entry, returned, reads) =
              read_span-write_span c laws keys overcome content enc.options e s.writer s.disk
                no_lzma enc.encoded enc.frame_fits enc.count_fits enc.memory_fits enc.plain_ekey
                f.valid a small in
            record {
              valid = (write_span_lem s.writer s.disk e.out e.ekey f.valid a).valid;
              readable = rw returned (reads, old);
            }
        | inr r ↦
            let (same_writer, same_disk, (_, refused)) =
              write_span_refuses healthy s.writer s.disk e.out e.ekey r in
            record { valid = rw (same_writer, same_disk) f.valid; readable = rw refused old }
      ]

  Step-IsFaithful :
      {s t : Snapshot} → Step c s t → IsFaithful c keys overcome s → IsFaithful c keys overcome t
  unfolding close new_writer
  Step-IsFaithful (write s content e enc small) f = after_write-IsFaithful s content e enc small f
  Step-IsFaithful (shut s) f = record { valid = tt; readable = f.readable }
  Step-IsFaithful (reopen s size) f = record { valid = tt; readable = f.readable }

  -- The archive refines the log of its writes, as long as no call of the system fails: in every state
  -- that is reached from a faithful one by writes, accepted or refused, by `Close` and by `NewWriter`
  -- on the same files, every entry that a write has returned reads as its content, and an open
  -- segment is open at its end. Each content is written as `Encode` gives it, has at most 2 ^ 48
  -- bytes, fewer than 2 ^ 24 frames and a frame size below 2 ^ 32 - 1, its EKey does not end in
  -- "ETLB", and every file has fewer than 2 ^ 32 bytes with the span behind it. The codecs are as
  -- documented with no LZMA decoder.
  pub Reach-IsFaithful :
      {s t : Snapshot} → IsFaithful c keys overcome s → Reach c s t → IsFaithful c keys overcome t
  Reach-IsFaithful f here = f
  Reach-IsFaithful f (next r st) = Step-IsFaithful st (Reach-IsFaithful f r)
