-- ===== src/Compress/Tests.antt =====
-- Codecs for the tests: a stream is 0x78, the number of zeros that the content starts with, and
-- what follows them.
use go_casclib.Common.{
  ℕ, zero, suc, ◌≡◌, refl, ap, [], ◌∷◌, ◌++◌, ok, err, foreign, none, replicate, Result, sym,
  IsSafe, ok-IsSafe, err-IsSafe,
}
use go_casclib.Binary.{Bytes}
use go_casclib.Compress.{Codecs, IsCodecs}

abbrev zeros : Bytes → ℕ
zeros (zero ∷ b) = suc (zeros b)
zeros _ = 0

abbrev behind_zeros : Bytes → Bytes
behind_zeros (zero ∷ b) = behind_zeros b
behind_zeros b = b

abbrev read_run : Bytes → Result Bytes
read_run (_ ∷ n ∷ b) = ok (replicate n 0 ++ b)
read_run _ = err foreign

abbrev pub run_codecs : Codecs
run_codecs = record {
  md5 = λ b. replicate 16 7;
  deflate = λ b. ok (0x78 ∷ zeros b ∷ behind_zeros b);
  zlib_read = read_run;
  bzip2_read = λ b. err foreign;
  lzma_decoder = none;
}

zeros-behind_zeros : (b : Bytes) → replicate (zeros b) 0 ++ behind_zeros b ≡ b
zeros-behind_zeros [] = refl
zeros-behind_zeros (zero ∷ b) = ap (◌∷◌ 0) (zeros-behind_zeros b)
zeros-behind_zeros (suc x ∷ b) = refl

payload : Result Bytes → Bytes
payload (ok b) = b
payload (err e) = []

stream : (b z : Bytes) → run_codecs.deflate b ≡ ok z → 0x78 ∷ zeros b ∷ behind_zeros b ≡ z
unfolding payload
stream b z h = ap payload h

pub run_codecs-IsCodecs : IsCodecs run_codecs
run_codecs-IsCodecs = record {
  length-md5 = λ b. refl;
  read-deflate = λ b z h. rw (← stream b z h) (ap ok (zeros-behind_zeros b));
  zlib_magic = λ b z h. (zeros b ∷ behind_zeros b, sym (stream b z h));
}

pub read_run-IsSafe : (b : Bytes) → IsSafe (run_codecs.zlib_read b)
read_run-IsSafe [] = err-IsSafe foreign (λ e. cc)
read_run-IsSafe (x ∷ []) = err-IsSafe foreign (λ e. cc)
read_run-IsSafe (x ∷ n ∷ b) = ok-IsSafe _
