-- ===== src/Header/RoundTrip.antt =====
-- src/core/header.c: the layout of a header, for `tp_header_write` and `tp_header_read`.
use triepack.Base.{ℕ, ◌^◌, ◌<◌, ◌≡◌, arith, List, [], ◌∷◌, length, Bool, false, not, ◌==◌}
use triepack.Reader.Ahead.{Reads, read_u8-field, read_u16-field, read_u32-field}
use triepack.Writer.Writes.{Writes}
use triepack.Writer.Fields.{write_u8-Writes, write_u16-Writes, write_u32-Writes}
use triepack.Header.{Header, write, read, read_version, read_tail, is_bad_magic}
use triepack.Header.Fields.{
  field_bits, read_end, read_field, write_field, write_last, length-field_bits,
}

-- Every field fits its width; the magic bytes and the major version are those of the format.
pub record IsHeader (h : Header) : Type 0 where
  pub trp : (h.magic_0 ≡ 0x54) × (h.magic_1 ≡ 0x52) × (h.magic_2 ≡ 0x50) × (h.magic_3 ≡ 0x00)
  pub one : h.version_major ≡ 1
  pub minor : h.version_minor < 2 ^ 8
  pub flag_word : h.flags < 2 ^ 16
  pub words :
      (h.num_keys < 2 ^ 32)
      × (h.trie_data_offset < 2 ^ 32)
      × (h.value_store_offset < 2 ^ 32)
      × (h.suffix_table_offset < 2 ^ 32)
      × (h.total_data_bits < 2 ^ 32)
      × (h.reserved < 2 ^ 32)

-- The layout: widths and fields in the order of the file.
abbrev pub layout : Header → List (ℕ × ℕ)
layout h =
    (8, h.magic_0)
    ∷ (8, h.magic_1)
    ∷ (8, h.magic_2)
    ∷ (8, h.magic_3)
    ∷ (8, h.version_major)
    ∷ (8, h.version_minor)
    ∷ (16, h.flags)
    ∷ (32, h.num_keys)
    ∷ (32, h.trie_data_offset)
    ∷ (32, h.value_store_offset)
    ∷ (32, h.suffix_table_offset)
    ∷ (32, h.total_data_bits)
    ∷ (32, h.reserved)
    ∷ []

-- 32 bytes.
pub length-layout : (h : Header) → length (field_bits (layout h)) ≡ 256
length-layout h = length-field_bits (layout h)

-- `tp_header_write` appends the fields in the order of the layout.
pub write-Writes :
    (grants : ℕ → Bool) (h : Header) → Writes grants (field_bits (layout h)) (write grants h)
unfolding write
write-Writes grants h = write_field grants 8 h.magic_0 _ _ _ (write_u8-Writes grants h.magic_0) (
    write_field grants 8 h.magic_1 _ _ _ (write_u8-Writes grants h.magic_1) (
      write_field grants 8 h.magic_2 _ _ _ (write_u8-Writes grants h.magic_2) (
        write_field grants 8 h.magic_3 _ _ _ (write_u8-Writes grants h.magic_3) (
          write_field grants 8 h.version_major _ _ _ (write_u8-Writes grants h.version_major) (
            write_field grants 8 h.version_minor _ _ _ (write_u8-Writes grants h.version_minor) (
              write_field grants 16 h.flags _ _ _ (write_u16-Writes grants h.flags) (
                write_field grants 32 h.num_keys _ _ _ (write_u32-Writes grants h.num_keys) (
                  write_field grants 32 h.trie_data_offset _ _ _
                    (write_u32-Writes grants h.trie_data_offset)
                    (write_field grants 32 h.value_store_offset _ _ _
                      (write_u32-Writes grants h.value_store_offset)
                      (write_field grants 32 h.suffix_table_offset _ _ _
                        (write_u32-Writes grants h.suffix_table_offset)
                        (write_field grants 32 h.total_data_bits _ _ _
                          (write_u32-Writes grants h.total_data_bits)
                          (write_last grants 32 h.reserved _
                            (write_u32-Writes grants h.reserved)))))))))))))

abbrev tail_layout : Header → List (ℕ × ℕ)
tail_layout h =
    (16, h.flags)
    ∷ (32, h.num_keys)
    ∷ (32, h.trie_data_offset)
    ∷ (32, h.value_store_offset)
    ∷ (32, h.suffix_table_offset)
    ∷ (32, h.total_data_bits)
    ∷ (32, h.reserved)
    ∷ []

read_tail-Reads :
    (h : Header)
    → IsHeader h
    → Reads
        (field_bits (tail_layout h))
        h
        (read_tail h.magic_0 h.magic_1 h.magic_2 h.magic_3 h.version_major h.version_minor)
unfolding read_tail
read_tail-Reads h v = read_field 16 h.flags _ h _ _ (read_u16-field h.flags v.flag_word) (
    read_field 32 h.num_keys _ h _ _ (read_u32-field h.num_keys v.words.0) (
      read_field 32 h.trie_data_offset _ h _ _ (read_u32-field h.trie_data_offset v.words.1) (
        read_field 32 h.value_store_offset _ h _ _ (read_u32-field h.value_store_offset v.words.2) (
          read_field 32 h.suffix_table_offset _ h _ _
            (read_u32-field h.suffix_table_offset v.words.3)
            (read_field 32 h.total_data_bits _ h _ _ (read_u32-field h.total_data_bits v.words.4) (
              read_field 32 h.reserved _ h _ _ (read_u32-field h.reserved v.words.5)
                (read_end h)))))))

right_version : (h : Header) → IsHeader h → not (h.version_major == 1) ≡ false
right_version h v = ground (arith, v.one)

abbrev version_layout : Header → List (ℕ × ℕ)
version_layout h = (8, h.version_major) ∷ (8, h.version_minor) ∷ tail_layout h

read_version-Reads :
    (h : Header)
    → IsHeader h
    → Reads (field_bits (version_layout h)) h (read_version h.magic_0 h.magic_1 h.magic_2 h.magic_3)
unfolding read_version
read_version-Reads h v =
    read_field 8 h.version_major _ h _ _ (read_u8-field h.version_major (omega (arith, v.one))) (
      read_field 8 h.version_minor _ h _ _ (read_u8-field h.version_minor v.minor)
        (rw (right_version h v) (read_tail-Reads h v)))

right_magic :
    (h : Header) → IsHeader h → is_bad_magic h.magic_0 h.magic_1 h.magic_2 h.magic_3 ≡ false
right_magic h v = ground (arith, v.trp)

-- `tp_header_read` reads back a header from the layout.
pub read-Reads : (h : Header) → IsHeader h → Reads (field_bits (layout h)) h read
unfolding read
read-Reads h v = read_field 8 h.magic_0 _ h _ _ (read_u8-field h.magic_0 (omega (arith, v.trp))) (
    read_field 8 h.magic_1 _ h _ _ (read_u8-field h.magic_1 (omega (arith, v.trp))) (
      read_field 8 h.magic_2 _ h _ _ (read_u8-field h.magic_2 (omega (arith, v.trp))) (
        read_field 8 h.magic_3 (version_layout h) h _ _
          (read_u8-field h.magic_3 (omega (arith, v.trp)))
          (rw (right_magic h v) (read_version-Reads h v)))))
