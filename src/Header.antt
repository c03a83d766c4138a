-- ===== src/Header.antt =====
-- src/core/header.c: the 32-byte header of a .trp file.
pub mod Fields
pub mod RoundTrip
pub mod Refuse
pub mod Bytes
use triepack.Base.{ℕ, ◌==◌, not, ◌||◌, if◌then◌else◌, Bool}
use triepack.Outcome.{bad_magic, version, M, pure, throw, ◌>>=◌, ◌>>◌}
use triepack.Reader.{Reader, read_u8, read_u16, read_u32}
use triepack.Writer.{Writer, write_u8, write_u16, write_u32}

pub record Header : Type 0 where
  pub magic_0 : ℕ
  pub magic_1 : ℕ
  pub magic_2 : ℕ
  pub magic_3 : ℕ
  pub version_major : ℕ
  pub version_minor : ℕ
  pub flags : ℕ
  pub num_keys : ℕ
  pub trie_data_offset : ℕ
  pub value_store_offset : ℕ
  pub suffix_table_offset : ℕ
  pub total_data_bits : ℕ
  pub reserved : ℕ

unfoldable pub write : (ℕ → Bool) → Header → M Writer (Unit {0})
write grants h = do
  write_u8 grants h.magic_0
  write_u8 grants h.magic_1
  write_u8 grants h.magic_2
  write_u8 grants h.magic_3
  write_u8 grants h.version_major
  write_u8 grants h.version_minor
  write_u16 grants h.flags
  write_u32 grants h.num_keys
  write_u32 grants h.trie_data_offset
  write_u32 grants h.value_store_offset
  write_u32 grants h.suffix_table_offset
  write_u32 grants h.total_data_bits
  write_u32 grants h.reserved

-- "TRP\0"
abbrev pub is_bad_magic : ℕ → ℕ → ℕ → ℕ → Bool
is_bad_magic m0 m1 m2 m3 =
    not (m0 == 0x54) || (not (m1 == 0x52) || (not (m2 == 0x50) || not (m3 == 0x00)))

-- What follows the version.
unfoldable pub read_tail : ℕ → ℕ → ℕ → ℕ → ℕ → ℕ → M Reader Header
read_tail m0 m1 m2 m3 major minor = do
  flags ← read_u16
  num_keys ← read_u32
  trie_data_offset ← read_u32
  value_store_offset ← read_u32
  suffix_table_offset ← read_u32
  total_data_bits ← read_u32
  reserved ← read_u32
  pure (record {
    magic_0 = m0;
    magic_1 = m1;
    magic_2 = m2;
    magic_3 = m3;
    version_major = major;
    version_minor = minor;
    flags = flags;
    num_keys = num_keys;
    trie_data_offset = trie_data_offset;
    value_store_offset = value_store_offset;
    suffix_table_offset = suffix_table_offset;
    total_data_bits = total_data_bits;
    reserved = reserved;
  })

-- What follows the magic bytes.
unfoldable pub read_version : ℕ → ℕ → ℕ → ℕ → M Reader Header
read_version m0 m1 m2 m3 = do
  major ← read_u8
  minor ← read_u8
  if not (major == 1) then throw version else read_tail m0 m1 m2 m3 major minor

unfoldable pub read : M Reader Header
read = do
  m0 ← read_u8
  m1 ← read_u8
  m2 ← read_u8
  m3 ← read_u8
  if is_bad_magic m0 m1 m2 m3 then throw bad_magic else read_version m0 m1 m2 m3
