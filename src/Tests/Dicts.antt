-- ===== src/Tests/Dicts.antt =====
-- src/core/decoder.c at concrete files.
use triepack.Base.{◌^◌, ◌<◌, ◌≤◌, ◌≡◌, refl, arith, true, false, [], ◌∷◌, length, All}
use triepack.Outcome.{Out, ok, err, fault, hang, not_found}
use triepack.Bits.{IsByte}
use triepack.Value.{Value, null, uint}
use triepack.Encoder.Build.{placeholder}
use triepack.Buffer.{read_bit_msb}
use triepack.Rom.{read_loop, read_bits_at}
use triepack.Reader
use triepack.Reader.{read_bits, read_u8, read_u16, read_u32, peek_bits, seek, advance, direct_ptr}
use triepack.Varint.{read_groups, read_varint_u}
use triepack.Crc.{crc_round, crc_loop, crc32}
use triepack.Header
use triepack.Value
use triepack.Value.{decode_data, read_payload}
use triepack.Dict.{
  Dict, ctrl_loop, table_loop, read_tables, read_count, parse_trie_config, load_u32, verify_crc,
  dict_of, open_on, reader_on, open_impl,
}
use triepack.Dict.Lookup.{
  read_skip, pass_child, child_loop, at_end, at_end_val, at_branch, at_symbol, on_symbol,
  lookup_loop, skip_values, value_of, lookup_n,
}
use triepack.Dict.Ending.{Ends, lookup_n-Ends}
use triepack.Dict.Opening.{open_impl-Ends}
use triepack.Dict.Accepts.{IsOpened, open_impl-IsOpened}
use triepack.Tests.Builds.{shared_prefix_trp, two_keys_trp}
use triepack.Tests.Data.{all_small-IsByte, two_symbols}

-- The dictionary that is opened; another one after an error.
abbrev pub opened : Out (Unit {0}) Dict → Dict
opened (ok d u) = d
opened (err e u) = dict_of [] (placeholder 0 false) two_symbols
opened fault = dict_of [] (placeholder 0 false) two_symbols
opened hang = dict_of [] (placeholder 0 false) two_symbols

abbrev pub shared_prefix_dict : Dict
shared_prefix_dict = opened (open_impl true shared_prefix_trp)

shared_prefix_opens : open_impl true shared_prefix_trp ≡ ok shared_prefix_dict tt
unfolding open_impl open_on Header.read read_u8 read_bits reader_on read_bits_at read_loop
    read_bit_msb Header.read_version Header.read_tail read_u16 read_u32 verify_crc load_u32 crc32
    crc_loop crc_round ctrl_loop dict_of parse_trie_config read_count read_tables table_loop
    Reader.create read_groups read_varint_u
shared_prefix_opens = refl

key_abd : lookup_n shared_prefix_dict (b'a' ∷ b'b' ∷ b'd' ∷ []) true ≡ ok (uint 20) tt
unfolding open_impl open_on Header.read read_u8 read_bits reader_on read_bits_at read_loop
    read_bit_msb Header.read_version Header.read_tail read_u16 read_u32 verify_crc load_u32 crc32
    crc_loop crc_round ctrl_loop dict_of parse_trie_config read_count read_tables table_loop
    Reader.create read_groups read_varint_u lookup_n lookup_loop seek peek_bits advance read_skip
    pass_child child_loop at_end at_end_val at_branch at_symbol on_symbol skip_values value_of
    Value.decode decode_data read_payload direct_ptr Reader.align_to_byte
key_abd = refl

key_abf : lookup_n shared_prefix_dict (b'a' ∷ b'b' ∷ b'f' ∷ []) true ≡ err not_found tt
unfolding open_impl open_on Header.read read_u8 read_bits reader_on read_bits_at read_loop
    read_bit_msb Header.read_version Header.read_tail read_u16 read_u32 verify_crc load_u32 crc32
    crc_loop crc_round ctrl_loop dict_of parse_trie_config read_count read_tables table_loop
    Reader.create read_groups read_varint_u lookup_n lookup_loop seek peek_bits advance read_skip
    pass_child child_loop at_end at_end_val at_branch at_symbol on_symbol skip_values value_of
    Value.decode decode_data read_payload direct_ptr Reader.align_to_byte
key_abf = refl

abbrev pub two_keys_dict : Dict
two_keys_dict = opened (open_impl true two_keys_trp)

key_a : lookup_n two_keys_dict (b'a' ∷ []) true ≡ ok (uint 1_048_704) tt
unfolding open_impl open_on Header.read read_u8 read_bits reader_on read_bits_at read_loop
    read_bit_msb Header.read_version Header.read_tail read_u16 read_u32 verify_crc load_u32 crc32
    crc_loop crc_round ctrl_loop dict_of parse_trie_config read_count read_tables table_loop
    Reader.create read_groups read_varint_u lookup_n lookup_loop seek peek_bits advance read_skip
    pass_child child_loop at_end at_end_val at_branch at_symbol on_symbol skip_values value_of
    Value.decode decode_data read_payload direct_ptr Reader.align_to_byte
key_a = refl

-- The key "ba" is not in the file.
key_ba : lookup_n two_keys_dict (b'b' ∷ b'a' ∷ []) true ≡ ok null tt
unfolding open_impl open_on Header.read read_u8 read_bits reader_on read_bits_at read_loop
    read_bit_msb Header.read_version Header.read_tail read_u16 read_u32 verify_crc load_u32 crc32
    crc_loop crc_round ctrl_loop dict_of parse_trie_config read_count read_tables table_loop
    Reader.create read_groups read_varint_u lookup_n lookup_loop seek peek_bits advance read_skip
    pass_child child_loop at_end at_end_val at_branch at_symbol on_symbol skip_values value_of
    Value.decode decode_data read_payload direct_ptr Reader.align_to_byte
key_ba = refl

shared_prefix-IsByte : All IsByte shared_prefix_trp
shared_prefix-IsByte = all_small-IsByte shared_prefix_trp refl

open_impl-Ends_example : Ends (open_impl true shared_prefix_trp)
open_impl-Ends_example = open_impl-Ends true shared_prefix_trp shared_prefix-IsByte (omega arith)

open_impl-IsOpened_example :
    (32 ≤ length shared_prefix_trp) × IsOpened true shared_prefix_trp shared_prefix_dict
open_impl-IsOpened_example =
    open_impl-IsOpened true shared_prefix_trp shared_prefix_dict shared_prefix-IsByte (omega arith)
      shared_prefix_opens

shared_prefix-small : length shared_prefix_dict.buf < 2 ^ 60
unfolding open_impl open_on Header.read read_u8 read_bits reader_on read_bits_at read_loop
    read_bit_msb Header.read_version Header.read_tail read_u16 read_u32 verify_crc load_u32 crc32
    crc_loop crc_round ctrl_loop dict_of parse_trie_config read_count read_tables table_loop
    Reader.create read_groups read_varint_u
shared_prefix-small = omega arith

lookup_n-Ends_example : Ends (lookup_n shared_prefix_dict (b'a' ∷ b'b' ∷ b'd' ∷ []) true)
lookup_n-Ends_example =
    lookup_n-Ends shared_prefix_dict (b'a' ∷ b'b' ∷ b'd' ∷ []) true shared_prefix-small
