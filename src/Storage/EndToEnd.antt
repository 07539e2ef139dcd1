-- ===== src/Storage/EndToEnd.antt =====
-- The archive, its index and the storage together: what was written is read by its encoded key.
use go_casclib.Common.{
  ℕ, ◌-◌, ◌^◌, ◌<◌, ◌≡◌, refl, ap, ◌∙◌, sym, arith, Bool, Bool-cases, inl, inr, Option, none, some,
  List, [], ◌∷◌, append-nil, map, Result, ok, length, length-map, take, length-take, take-append,
  take_all, All, All-imp, insertion_sort-All, All-insertion_sort, replicate,
}
use go_casclib.Binary.{Bytes, bytes_eq, bytes_eq_iff}
use go_casclib.Compress.{Codecs, IsCodecs}
use go_casclib.Index.Entry.{EKeyEntry}
use go_casclib.Index.Entry.RoundTrip.{Fits, trimmed}
use go_casclib.Index.Reader.{IndexFile, parse}
use go_casclib.Index.Reader.RoundTrip.{v1_header}
use go_casclib.Index.Writer.{WriteOptions, entry_before, sort_entries, encode_v1}
use go_casclib.Index.Writer.RoundTrip.{effective_segment_size, parse-encode_v1}
use go_casclib.Archive.Writer.{Disk, read_span}
use go_casclib.Archive.Writer.History.{Snapshot, Reach, IsFaithful, Reach-IsFaithful}
use go_casclib.Storage.Lookup.{Storage, ekey_of, build_ekey_map, find_by_ekey, read_by_ekey}
use go_casclib.Storage.Keeps.{read_by_ekey-found}
use go_casclib.Storage.Merge.{first_entry, find_by_ekey-build_ekey_map}

-- Entries with the same first nine bytes of their keys are equal.
abbrev pub AgreeOn : List EKeyEntry → EKeyEntry → Type 0
AgreeOn es e = All (λ other. ekey_of other.ekey ≡ ekey_of e.ekey → other ≡ e) es

-- The first nine bytes are those that the index keeps.
ekey_of-trimmed : (e : EKeyEntry) → Fits e → ekey_of (trimmed e).ekey ≡ ekey_of e.ekey
ekey_of-trimmed e fits =
    let nine : length (take 9 e.ekey) ≡ 9 = omega (arith, length-take 9 e.ekey, fits.key_size) in
    let all : take 16 (take 9 e.ekey) ≡ take 9 e.ekey = take_all 16 (take 9 e.ekey) (omega arith) in
    rw all (take-append 9 (take 9 e.ekey) (replicate (16 - length (take 9 e.ekey)) 0) nine)

-- The first entry itself is found, and those behind it where it has another key.
first_entry-first :
    (e : EKeyEntry) (es : List EKeyEntry)
    → Fits e
    → first_entry (map trimmed (e ∷ es)) (ekey_of e.ekey) ≡ some (trimmed e)
first_entry-first e es f =
    let own = (bytes_eq_iff (ekey_of (trimmed e).ekey) (ekey_of e.ekey)).1 (ekey_of-trimmed e f) in
    rw own

first_entry-later :
    (x e : EKeyEntry) (es : List EKeyEntry)
    → AgreeOn (x ∷ es) e
    → Fits x
    → first_entry (map trimmed es) (ekey_of e.ekey) ≡ some (trimmed e)
    → first_entry (map trimmed (x ∷ es)) (ekey_of e.ekey) ≡ some (trimmed e)
first_entry-later x e es (same, a) f h =
    elim (Bool-cases (bytes_eq (ekey_of (trimmed x).ekey) (ekey_of e.ekey))) [
      | inl equal ↦
          let key : ekey_of x.ekey ≡ ekey_of e.ekey =
            sym (ekey_of-trimmed x f)
            ∙ (bytes_eq_iff (ekey_of (trimmed x).ekey) (ekey_of e.ekey)).0 equal in
          rw equal (ap (λ (y : EKeyEntry). some (trimmed y)) (same key))
      | inr other ↦ rw other h
    ]

first_entry-map :
    (es : List EKeyEntry)
    → All Fits es
    → All (AgreeOn es) es
    → All (λ e. first_entry (map trimmed es) (ekey_of e.ekey) ≡ some (trimmed e)) es
first_entry-map [] fits a = tt
first_entry-map (x ∷ xs) (f, fits) (first, a) =
    let inner =
      first_entry-map xs fits (All-imp (AgreeOn (x ∷ xs)) (AgreeOn xs) (λ e p. p.1) xs a) in
    (first_entry-first x xs f, later xs a inner)
  where
    later :
        (ys : List EKeyEntry)
        → All (AgreeOn (x ∷ xs)) ys
        → All (λ e. first_entry (map trimmed xs) (ekey_of e.ekey) ≡ some (trimmed e)) ys
        → All (λ e. first_entry (map trimmed (x ∷ xs)) (ekey_of e.ekey) ≡ some (trimmed e)) ys
    later [] agree found = tt
    later (y ∷ ys) (agree, more) (found, rest) =
        (first_entry-later x y xs agree f found, later ys more rest)

-- The same of the sorted entries of the index file, for the entries as they were given.
first_entry-sorted :
    (es : List EKeyEntry)
    → All Fits es
    → All (AgreeOn es) es
    → All (λ e. first_entry (map trimmed (sort_entries es)) (ekey_of e.ekey) ≡ some (trimmed e)) es
unfolding sort_entries
first_entry-sorted es fits a =
    let sorted = sort_entries es in
    let agree : All (AgreeOn sorted) sorted = All-insertion_sort entry_before (AgreeOn sorted) es (
      All-imp (AgreeOn es) (AgreeOn sorted)
        (λ e p.
          All-insertion_sort entry_before (λ other. ekey_of other.ekey ≡ ekey_of e.ekey → other ≡ e)
            es p)
        es a) in
    insertion_sort-All entry_before
      (λ e. first_entry (map trimmed sorted) (ekey_of e.ekey) ≡ some (trimmed e)) es
      (first_entry-map sorted (All-insertion_sort entry_before Fits es fits) agree)

-- A read does not look at the key.
read_span-trimmed :
    (c : Codecs) (keys : Option (Bytes → ℕ → Result Bytes)) (overcome : Bool) (disk : Disk)
    (e : EKeyEntry)
    → read_span c keys overcome disk (trimmed e) ≡ read_span c keys overcome disk e
unfolding read_span
read_span-trimmed c keys overcome disk e = refl

module _ {H : Type 0} (c : Codecs) (st : Storage H) where
  -- The storage with one index and the data files.
  abbrev pub mount : IndexFile → Disk → Storage H
  mount idx disk = build_ekey_map (record st { indexes = idx ∷ []; data_files = some disk })

  -- The entries that the archive's writes returned, newest first
  abbrev pub written_entries : Snapshot → List EKeyEntry
  written_entries s = map (λ p. p.0) s.log

  reads_each :
      (fails : Bool) (idx : IndexFile) (disk : Disk) (log : List (EKeyEntry × Bytes))
      → All (λ e. find_by_ekey (mount idx disk) e.ekey ≡ some (trimmed e)) (map (λ p. p.0) log)
      → All (λ p. read_span c st.keys st.overcome_encrypted disk p.0 ≡ ok p.1) log
      → All (λ p. (read_by_ekey c fails (mount idx disk) p.0.ekey).1 ≡ ok p.1) log
  unfolding build_ekey_map
  reads_each fails idx disk [] found reads = tt
  reads_each fails idx disk ((e, content) ∷ log) (f, found) (r, reads) = (
    read_by_ekey-found c fails (mount idx disk) e.ekey (trimmed e) disk f refl
        ∙ (read_span-trimmed c st.keys st.overcome_encrypted disk e ∙ r),
    reads_each fails idx disk log found reads,
  )

  -- What the archive's writer has taken is read by its encoded key through the index, as long as no
  -- call of the operating system fails: after any writes, accepted or refused, `Close` and `NewWriter`
  -- from a state that is faithful to its log, the index that `EncodeV1` makes of the entries is
  -- parsed, and the storage that has it and the data files returns the content of every logged entry
  -- for its EKey. Each content is written as `Encode` gives it, has at most 2 ^ 48 bytes, fewer than
  -- 2 ^ 24 frames and a frame size below 2 ^ 32 - 1, its EKey does not end in "ETLB", and every file
  -- has fewer than 2 ^ 32 bytes with the span behind it. The codecs are as documented with no LZMA
  -- decoder; the entries fit the index, no two different ones share the first nine bytes of their
  -- keys, there are fewer than 2 ^ 32, and the segment size of the index has 64 bits.
  pub read_by_ekey-Reach :
      (laws : IsCodecs c) (no_lzma : c.lzma_decoder ≡ none) (start s : Snapshot) (o : WriteOptions)
      (fails : Bool)
      → IsFaithful c st.keys st.overcome_encrypted start
      → Reach c start s
      → All Fits (written_entries s)
      → All (AgreeOn (written_entries s)) (written_entries s)
      → o.segment_size < 2 ^ 64
      → length s.log < 2 ^ 32
      → (idx : IndexFile) × (parse (encode_v1 (written_entries s) o) o.bucket_index ≡ ok idx)
        × All (λ p. (read_by_ekey c fails (mount idx s.disk) p.0.ekey).1 ≡ ok p.1) s.log
  unfolding build_ekey_map
  read_by_ekey-Reach laws no_lzma start s o fails faithful reached fits agree small few =
      let es = written_entries s in
      let count = length-map (λ (p : EKeyEntry × Bytes). p.0) s.log in
      let now = Reach-IsFaithful c laws no_lzma st.keys st.overcome_encrypted faithful reached in
      let idx : IndexFile = record {
        header = v1_header o.bucket_index (effective_segment_size o) (length es);
        entries = map trimmed (sort_entries es);
      } in
      let found : All (λ e. find_by_ekey (mount idx s.disk) e.ekey ≡ some (trimmed e)) es =
        All-imp
          (λ e. first_entry (map trimmed (sort_entries es)) (ekey_of e.ekey) ≡ some (trimmed e)) _
          (λ e h.
            find_by_ekey-build_ekey_map (record st { indexes = idx ∷ []; data_files = some s.disk })
              e.ekey
            ∙ ap (λ xs. first_entry xs (ekey_of e.ekey))
                (append-nil (map trimmed (sort_entries es)))
            ∙ h)
          es (first_entry-sorted es fits agree) in
      (
        idx,
        parse-encode_v1 es o fits small (omega arith),
        reads_each fails idx s.disk s.log found now.readable,
      )
