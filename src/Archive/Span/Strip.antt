-- ===== src/Archive/Span/Strip.antt =====
-- `stripEncodedHeader` on the two forms of a span.
use go_casclib.Common.{ℕ, ◌+◌, ◌*◌, ◌^◌, ◌≡◌, arith, ◌++◌, ok, get_or}
use go_casclib.Binary.{Bytes, put_le_uint32}
use go_casclib.Datafile.Header.{blte_signature}
use go_casclib.Archive.Span.{strip_encoded_header}
use go_casclib.Archive.SpanHeader.{build_encoded_header}

abbrev pub with_magic : Bytes → Bytes
with_magic rest = put_le_uint32 blte_signature ++ rest

-- The first four bytes of the header are the last four of the EKey. They are taken for the
-- signature of a bare stream where the EKey ends in "ETLB".
abbrev pub StartsWithBlte : Bytes → Type 0
StartsWithBlte ekey =
    get_or ekey 15 0
      + get_or ekey 14 0 * 2 ^ 8
      + get_or ekey 13 0 * 2 ^ 16
      + get_or ekey 12 0 * 2 ^ 24
    ≡ blte_signature

pub strip_bare : (rest : Bytes) → strip_encoded_header (with_magic rest) ≡ ok (with_magic rest)
unfolding strip_encoded_header
strip_bare rest = ground arith

pub strip-build_encoded_header :
    (ekey : Bytes) (n off : ℕ) (rest : Bytes)
    → ¬ StartsWithBlte ekey
    → strip_encoded_header (build_encoded_header ekey n off ++ with_magic rest)
      ≡ ok (with_magic rest)
unfolding strip_encoded_header build_encoded_header
strip-build_encoded_header ekey n off rest h = ground arith
