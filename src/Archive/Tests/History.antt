-- ===== src/Archive/Tests/History.antt =====
-- A history of one write, a `Close` and a `NewWriter`, from the writer with one file.
use go_casclib.Common.{refl, none, false, [], arith}
use go_casclib.Compress.Tests.{run_codecs, run_codecs-IsCodecs}
use go_casclib.Datafile.Tests.{
  plain_content, small_frames, encoded_content, encoded_content-Encodes,
}
use go_casclib.Archive.Writer.{new_writer}
use go_casclib.Archive.Writer.History.{
  Snapshot, Encodes, Reach, after_write, write, reopen, here, next, IsFaithful, Reach-IsFaithful,
}
use go_casclib.Archive.Tests.{open_writer, one_file, not_blte, chunk_count, one_file_small}

abbrev pub start : Snapshot
start = record { writer = open_writer 111; disk = one_file; log = [] }

content-Encodes : Encodes run_codecs plain_content encoded_content
content-Encodes = record {
  options = small_frames;
  encoded = encoded_content-Encodes;
  frame_fits = omega arith;
  count_fits = chunk_count;
  memory_fits = omega arith;
  plain_ekey = not_blte;
}

abbrev pub written : Snapshot
written = after_write start plain_content encoded_content

pub written_reached : Reach run_codecs start written
written_reached =
    next here (write start plain_content encoded_content content-Encodes one_file_small)

pub start-IsFaithful : IsFaithful run_codecs none false start
start-IsFaithful = record { valid = (refl, refl); readable = tt }

Reach-IsFaithful_example :
    IsFaithful run_codecs none false (record written { writer = new_writer 90 })
Reach-IsFaithful_example =
    Reach-IsFaithful run_codecs run_codecs-IsCodecs refl none false start-IsFaithful
      (next written_reached (reopen written 90))
