-- ===== src/Lib.antt =====
-- A model of go-casclib: lookup3, the BLTE container, encrypted frames, the data files and index files
-- of a CASC archive, the ENCODING file, the WoW, INSTALL and text root files, the configurations, the
-- tables and the list of names, the indices of a CDN, and the storage that reads a content by its
-- encoded key.
--
-- A content goes through `datafile.Encode` (Datafile/Encoder), which cuts it into frames and writes
-- a BLTE stream; `archive.Writer.WriteSpan` (Archive/Writer) puts a header of 30 bytes before the
-- stream (Archive/SpanHeader) and appends both to a data file; `index.EncodeV1` (Index/Writer) writes
-- the entries that `WriteSpan` returned. The way back is `index.Parse` (Index/Reader), the map of
-- the keys that `buildEKeyMap` makes (Storage/Lookup), `Pool.ReadSpan` (Archive/Writer), `DecodeSpan`
-- (Archive/Span), `ParseHeader` and `FrameDecoder.Decode` (Datafile). `ReadByEKey` (Storage/Lookup)
-- runs that way, and asks the CDN (Cdn) where it ends early. The hashes of index and span headers
-- are lookup3 (Hashes). The loading of a storage reads the ENCODING file (Encoding) by its EKey and
-- then the root file by the EKey that ENCODING has for it (Storage/Loading); the root file is parsed
-- by the first handler that knows it (Root).
--
--   Common    Boolean tests, lists over the native numbers, insertion sort, association lists, the
--             errors and results of Go (internal/casc/errors.go)
--   Binary    byte slices with Go's range checks, integers as bytes (internal/casc/binary.go)
--   Bits      uint32 arithmetic, rotations, exclusive or
--   Hashes    internal/hashes/jenkins.go: rot, mix, final, HashLittle, HashLittle2, HashFileName
--   Compress  internal/compress: the dispatch to the codecs
--   Decrypt   internal/decrypt/salsa20.go (Salsa20: salsa20XOR, salsa20Block) and decrypt.go (Registry:
--             KeyRegistry, DecryptFrame); Frames: the decoder of Datafile with a registry
--   Datafile  internal/datafile/blte.go (Header: ParseHeader; Frame: FrameDecoder) and encoder.go
--             (Encoder: Encode, encodeFrame)
--   Encoding  internal/encoding/encoding.go (Reader: Parse, Find) and writer.go (Writer: Encode,
--             layoutCKeyPages, layoutEKeyPages)
--   Archive   internal/archive/archive.go (Span: DecodeSpan, stripEncodedHeader; Writer:
--             ReadSpanWithOptions) and writer.go (SpanHeader: buildEncodedHeader; Writer: Writer,
--             NewWriter, Close, WriteSpan, openSegment)
--   Index     internal/index/index.go (Header: parseHeaderV1, parseHeaderV2, the guarded blocks;
--             Entry: decodeEntry; Reader: Parse, loadEntriesV1, loadEntriesV2) and writer.go (Entry:
--             writeEntryV1; Writer: EncodeV1)
--   Keys      internal/casc/types.go: the entry that a root handler has for a file
--   Text      the functions of Go's bufio and strings packages that the text parsers call
--   Csv       internal/csv/csv.go (Parse, splitLine, Column, Get)
--   Buildcfg  internal/buildcfg/buildcfg.go (Parse, LookupCKey, Archives)
--   Listfile  internal/listfile/listfile.go: HashFileName, Load, Add, Lookup, LookupName
--   Root      internal/root/wow (Wow: Parse, parseGroup, addV1, addV2, the lookups; Wow/Writer: Encode)
--             internal/root/install (Install: Parse, Probe, LookupByName; Install/Writer: Encode) and
--             internal/root/text (Text: Parse, Probe, LookupByName)
--   Cdn       internal/cdn/archive_index.go (ArchiveIndex: ParseArchiveIndex; its Writer:
--             EncodeArchiveIndex) and archive_set.go (ArchiveSet: Add, Lookup)
--   Storage   internal/storage: cache.go (Cache), lookup.go and the reads of cdn_archives.go (Lookup:
--             buildEKeyMap, FindByEKey, ReadByEKey; Loading: LoadEncoding, LoadRoot, LoadAll, Init, with
--             Detect of internal/root/root.go)
--
-- A pair of a value and an error is a `Result`; an index or a slice out of range, where Go panics, is
-- the error `panic`. Wrapped errors stand for the sentinel error they wrap. A byte slice is a list of
-- numbers. Integers of 32 and 64 bits wrap where the code can exceed them; `int` is taken to be wide
-- enough for lengths and offsets of files, as it is on a 64-bit machine. An allocation of a size that
-- the input declares panics above the 2 ^ 48 bytes of such a machine (`max_alloc`), where a declared
-- size can pass that; running out of memory below it is not modelled.
--
-- The state of the archive's writer is a record, and a data file is a list of bytes with the position
-- of the open handle; what the operating system does in one call is the argument `Faults`. The mutex
-- of the writer makes its calls a sequence of steps.
--
-- Parameters, with what their documentation promises in `IsCodecs`: MD5, the zlib reader and writer,
-- bzip2, and an LZMA decoder that another package may register. Go's AES in counter mode is a
-- parameter too. `decode_span` takes the registry's `DecryptFrame` as an argument. `sort.Slice` does
-- not fix the order of entries with equal keys; the model's sort is one that its documentation
-- allows.
--
-- Loops are structural. `decodeStep` counts its five depths down. The chunk loop of `Encode` has the
-- length of the content as fuel, `salsa20XOR` that of its input, the loop over an ENCODING page the
-- size of the page, and the loops over index pages, CDN index pages and the groups of a WoW root file
-- the length of the data: each round takes a byte at least. The layout of the pages of an ENCODING
-- file has the number of entries as fuel, since a page takes one at least. The scan of lines and the
-- trim of white space have the length of the text.
--
-- The state of a storage is a record; the network is a record of two functions, the cache directory a
-- map from paths to contents, and the registered probes a list of functions. A read returns the
-- storage behind it, since it may write to the cache.
--
-- Not modelled: `Open`, which finds and lists directories; the DOWNLOAD manifest and the network
-- client; the TVFS, Diablo III, MNDX and Overwatch root files, with the generated key tables of the
-- last; the public API, which stages writes above these parts; the names of files and the calls that
-- only open, close or list them.
pub mod Common
pub mod Binary
pub mod Bits
pub mod Keys
pub mod Hashes
pub mod Compress
pub mod Decrypt
pub mod Datafile
pub mod Encoding
pub mod Archive
pub mod Index
pub mod Listfile
pub mod Text
pub mod Csv
pub mod Buildcfg
pub mod Root
pub mod Cdn
pub mod Storage
