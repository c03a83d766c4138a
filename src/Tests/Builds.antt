-- ===== src/Tests/Builds.antt =====
-- src/core/encoder.c, `tp_encoder_build`, against tests/fixtures/shared_prefix.trp.
use triepack.Base.{ℕ, ◌≡◌, refl, List, [], ◌∷◌, take, Option, none, some}
use triepack.Outcome.{Out, ok, err, fault, hang}
use triepack.Value.{Value, uint, blob}
use triepack.Encoder.{Entry}
use triepack.Encoder.Options.{Encoder, fresh, defaults}
use triepack.Buffer.{write_bit_msb}
use triepack.Crc.{crc32, crc_loop, crc_round}
use triepack.Encoder.{dedup_entries, same_key, same_bytes, size_loop, varint_bits}
use triepack.Encoder.Analyze.{
  analyze_symbols, width_loop, count_loop, mark_keys, mark_key, assign_loop,
}
use triepack.Encoder.Build.{
  build, with_symbols, compose, any_value, ctrl_loop, finish, patch, placeholder, store_u32,
  table_loop, values_loop, write_config, write_keys,
}
use triepack.Encoder.Sort.{sort_entries}
use triepack.Header
use triepack.Trie.{
  all_have, branch_size, char_at, children, children_size, common_end, common_loop, has_terminal,
  runs_at, symbols_loop, terminal_size, trie_subtree_size, trie_write, write_branch, write_children,
  write_terminal,
}
use triepack.Value.{encode, encode_data, tag, write_payload}
use triepack.Varint.{write_groups, write_varint_s, write_varint_u, zigzag}
use triepack.Writer.{
  create, write_u8, write_bits, ensure_capacity, write_loop, align_to_byte, byte_loop,
  detach_buffer, detached, grow_loop, resize, set_bit, write_bit, write_bytes, write_u16, write_u32,
  write_u64,
}
use triepack.Tests.Data.{full}

abbrev pub entry : List ℕ → Value → Entry
entry key val = record { key = key; val = val }

abbrev shared_prefix : Encoder
shared_prefix = record (fresh defaults) {
  entries =
      entry (b'a' ∷ b'b' ∷ b'c' ∷ []) (uint 10)
      ∷ entry (b'a' ∷ b'b' ∷ b'd' ∷ []) (uint 20)
      ∷ entry (b'x' ∷ b'y' ∷ b'z' ∷ []) (uint 30)
      ∷ [];
}

abbrev pub file_of : Out Encoder (List ℕ × ℕ) → Option (List ℕ)
file_of (ok (buf, len) enc) = some (take len buf)
file_of (err e enc) = none
file_of fault = none
file_of hang = none

-- The 66 bytes of the fixture.
abbrev pub shared_prefix_trp : List ℕ
shared_prefix_trp =
    84 ∷ 82 ∷ 80 ∷ 0 ∷ 1 ∷ 0 ∷ 0 ∷ 1 ∷ 0 ∷ 0 ∷ 0 ∷ 3 ∷ 0 ∷ 0 ∷ 0 ∷ 92 ∷ 0 ∷ 0 ∷ 0 ∷ 204 ∷ 0 ∷ 0 ∷ 0
    ∷ 0 ∷ 0 ∷ 0 ∷ 0 ∷ 240 ∷ 0 ∷ 0 ∷ 0 ∷ 0 ∷ 64 ∷ 208 ∷ 18 ∷ 52 ∷ 86 ∷ 22 ∷ 38 ∷ 54 ∷ 71 ∷ 135 ∷ 151
    ∷ 165 ∷ 2 ∷ 36 ∷ 6 ∷ 117 ∷ 2 ∷ 33 ∷ 8 ∷ 16 ∷ 9 ∷ 16 ∷ 26 ∷ 188 ∷ 16 ∷ 35 ∷ 10 ∷ 49 ∷ 67 ∷ 30 ∷ 5
    ∷ 22 ∷ 234 ∷ 71 ∷ []

-- The build gives the fixture, byte for byte.
shared_prefix_file : file_of (build full (λ es. es) shared_prefix) ≡ some shared_prefix_trp
unfolding build defaults write_bit_msb crc32 crc_loop crc_round dedup_entries same_key same_bytes
    size_loop varint_bits analyze_symbols width_loop count_loop mark_keys mark_key assign_loop
    with_symbols compose any_value ctrl_loop finish patch placeholder store_u32 table_loop
    values_loop write_config write_keys sort_entries Header.write all_have branch_size char_at
    children children_size common_end common_loop has_terminal runs_at symbols_loop terminal_size
    trie_subtree_size trie_write write_branch write_children write_terminal encode encode_data tag
    write_payload write_groups write_varint_s write_varint_u zigzag create write_u8 write_bits
    ensure_capacity write_loop align_to_byte byte_loop detach_buffer detached grow_loop resize
    set_bit write_bit write_bytes write_u16 write_u32 write_u64
shared_prefix_file = refl

-- Two keys, the second of which has three bytes as its value.
abbrev two_keys : Encoder
two_keys = record (fresh defaults) {
  entries =
      entry (b'a' ∷ []) (uint 1_048_704)
      ∷ entry (b'b' ∷ []) (blob (record { ptr = some (1 ∷ 2 ∷ 3 ∷ []); len = 3 }))
      ∷ [];
}

abbrev pub two_keys_trp : List ℕ
two_keys_trp =
    84 ∷ 82 ∷ 80 ∷ 0 ∷ 1 ∷ 0 ∷ 0 ∷ 1 ∷ 0 ∷ 0 ∷ 0 ∷ 2 ∷ 0 ∷ 0 ∷ 0 ∷ 46 ∷ 0 ∷ 0 ∷ 0 ∷ 96 ∷ 0 ∷ 0 ∷ 0
    ∷ 0 ∷ 0 ∷ 0 ∷ 0 ∷ 160 ∷ 0 ∷ 0 ∷ 0 ∷ 0 ∷ 48 ∷ 128 ∷ 83 ∷ 149 ∷ 133 ∷ 138 ∷ 129 ∷ 32 ∷ 236 ∷ 64
    ∷ 57 ∷ 1 ∷ 56 ∷ 8 ∷ 20 ∷ 7 ∷ 3 ∷ 1 ∷ 2 ∷ 3 ∷ 63 ∷ 122 ∷ 35 ∷ 189 ∷ []

two_keys_file : file_of (build full (λ es. es) two_keys) ≡ some two_keys_trp
unfolding build defaults write_bit_msb crc32 crc_loop crc_round dedup_entries same_key same_bytes
    size_loop varint_bits analyze_symbols width_loop count_loop mark_keys mark_key assign_loop
    with_symbols compose any_value ctrl_loop finish patch placeholder store_u32 table_loop
    values_loop write_config write_keys sort_entries Header.write all_have branch_size char_at
    children children_size common_end common_loop has_terminal runs_at symbols_loop terminal_size
    trie_subtree_size trie_write write_branch write_children write_terminal encode encode_data tag
    write_payload write_groups write_varint_s write_varint_u zigzag create write_u8 write_bits
    ensure_capacity write_loop align_to_byte byte_loop detach_buffer detached grow_loop resize
    set_bit write_bit write_bytes write_u16 write_u32 write_u64
two_keys_file = refl
