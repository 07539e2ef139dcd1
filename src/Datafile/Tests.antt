-- ===== src/Datafile/Tests.antt =====
-- Two encoded files, and the theorems of the container at them.
use go_casclib.Common.{
  ◌≡◌, ◌≤◌, refl, ◌⊎◌, arith, List, [], ◌∷◌, ok, err, true, false, none, Result, length, All,
}
use go_casclib.Binary.{Bytes}
use go_casclib.Compress.Tests.{run_codecs}
use go_casclib.Datafile.Header.{Frame, single_frame, parse_header}
use go_casclib.Datafile.Header.Safety.{parse_header_lem, HasTable}
use go_casclib.Datafile.Frame.{FrameDecoder}
use go_casclib.Datafile.Encoder.{
  EncodeOptions, EncFrame, Encoded, encode, encode_chunks, encode_frame, chunks_of, write_frames,
}
use go_casclib.Datafile.Encoder.HeaderRoundTrip.{Fits, header_of, parse_header-write_frames}

abbrev pub plain_content : Bytes
plain_content = 0 ∷ 0 ∷ 0 ∷ 0 ∷ 5 ∷ 6 ∷ 7 ∷ []

-- Frames of four bytes: the first is compressed, the second is raw.
abbrev pub small_frames : EncodeOptions
small_frames = record { mode = 0; frame_size = 4; single_frame_no_header = false }

abbrev encoded_or : Encoded → Result Encoded → Encoded
encoded_or e (ok x) = x
encoded_or e (err _) = e

abbrev no_file : Encoded
no_file = record { out = []; ckey = []; ekey = [] }

abbrev pub encoded_content : Encoded
encoded_content = encoded_or no_file (encode run_codecs plain_content small_frames)

pub encoded_content-Encodes : encode run_codecs plain_content small_frames ≡ ok encoded_content
unfolding encode encode_chunks chunks_of
encoded_content-Encodes = refl

length-encoded_content : length encoded_content.out ≡ 67
unfolding encode encode_chunks chunks_of
length-encoded_content = refl

abbrev two_frames : List EncFrame
two_frames =
    record { body = 0x5a ∷ 0x78 ∷ 4 ∷ []; content_size = 4; hash = run_codecs.md5 [] }
    ∷ record { body = 0x4e ∷ 5 ∷ 6 ∷ 7 ∷ []; content_size = 3; hash = run_codecs.md5 [] }
    ∷ []

two_frames_fit : All Fits two_frames
two_frames_fit = (
  record { body_size = omega arith; content_size = omega arith; hash_size = refl },
  (record { body_size = omega arith; content_size = omega arith; hash_size = refl }, tt),
)

parse_header-write_frames_example :
    parse_header (write_frames two_frames) ≡ ok (header_of two_frames)
parse_header-write_frames_example =
    parse_header-write_frames two_frames two_frames_fit (omega arith)

parse_header_lem_example :
    ((header_of two_frames ≡ single_frame) × (8 ≤ length (write_frames two_frames)))
    ⊎ HasTable (write_frames two_frames) (header_of two_frames)
parse_header_lem_example =
    parse_header_lem (write_frames two_frames) (header_of two_frames)
      (parse_header-write_frames two_frames two_frames_fit (omega arith))

abbrev no_keys : FrameDecoder
no_keys = record { decrypt = none; verify_hashes = true; overcome_encrypted = false }

abbrev first_frame : Frame
first_frame = record {
  index = 0;
  encoded_size = 3;
  content_size = 4;
  frame_hash = run_codecs.md5 [];
}

abbrev four_zeros : Bytes
four_zeros = 0 ∷ 0 ∷ 0 ∷ 0 ∷ []

four_zeros_encode : encode_frame run_codecs 0x5a four_zeros ≡ ok (0x5a ∷ 0x78 ∷ 4 ∷ [])
unfolding encode_frame
four_zeros_encode = refl
