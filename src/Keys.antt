-- ===== src/Keys.antt =====
-- internal/casc/types.go: the entry of one file, which the root files and the storage share.
use go_casclib.Common.{ℕ, replicate}
use go_casclib.Binary.{Bytes}

-- `EKey` and `CKey` are arrays of sixteen bytes.
abbrev pub zero_key : Bytes
zero_key = replicate 16 0

abbrev pub invalid_id : ℕ
invalid_id = 0xFFFFFFFF

abbrev pub ce_flag_has_ckey : ℕ
ce_flag_has_ckey = 4

abbrev pub ce_flag_has_ekey : ℕ
ce_flag_has_ekey = 8

pub record CKeyEntry : Type 0 where
  pub ckey : Bytes
  pub ekey : Bytes
  pub storage_offs : ℕ
  pub tag_bit_mask : ℕ
  pub file_name_hash : ℕ
  pub content_size : ℕ
  pub encoded_size : ℕ
  pub archive_index : ℕ
  pub archive_offs : ℕ
  pub file_data_id : ℕ
  pub locale_flags : ℕ
  pub content_flags : ℕ
  pub span_count : ℕ
  pub flags : ℕ

-- The composite literal of a root handler: the fields that it leaves out are zero.
abbrev pub root_entry : Bytes → ℕ → ℕ → ℕ → ℕ → ℕ → CKeyEntry
root_entry ckey hash size id locale content = record {
  ckey = ckey;
  ekey = zero_key;
  storage_offs = 0;
  tag_bit_mask = 0;
  file_name_hash = hash;
  content_size = size;
  encoded_size = 0;
  archive_index = 0;
  archive_offs = 0;
  file_data_id = id;
  locale_flags = locale;
  content_flags = content;
  span_count = 0;
  flags = ce_flag_has_ckey;
}
