-- ===== src/Tests/Iters.antt =====
-- The iterator and the prefix search (src/core/decoder.c) at concrete files.
use triepack.Base.{ℕ, zero, suc, ◌≡◌, ◌∙◌, ap, refl, true, List, [], ◌∷◌}
use triepack.Outcome.{Out, ok, err, fault, hang, eof}
use triepack.Value
use triepack.Value.{Value, uint}
use triepack.Buffer.{read_bit_msb}
use triepack.Rom.{read_loop, read_bits_at}
use triepack.Reader
use triepack.Reader.{Reader, read_bits, read_u8, read_u16, read_u32, seek, direct_ptr}
use triepack.Varint.{read_groups, read_varint_u}
use triepack.Crc.{crc_round, crc_loop, crc32}
use triepack.Header
use triepack.Value.{decode_data, read_payload}
use triepack.Dict.{
  Dict, closed, ctrl_loop, table_loop, read_tables, read_count, parse_trie_config, load_u32,
  verify_crc, dict_of, open_on, reader_on, open_impl,
}
use triepack.Dict.Lookup.{skip_values}
use triepack.Iter.{
  Iterator, iter_reset, at_cursor, to_index, value_at, key_reserve, push_key, iterate,
}
use triepack.Iter.Next.{
  unwind, push_frame, push_branch, enter, at_frame, enter_child, next_sibling, branch_behind,
  at_terminal, on_code, walk_down, walk_loop, start, iter_next,
}
use triepack.Iter.Prefix.{
  child_bounds, child_at, branch_after_end, at_children, at_literal, at_code, descend,
  descend_to_prefix, seeded, find_prefix_n,
}
use triepack.Tests.Dicts.{opened, shared_prefix_dict}
use triepack.Tests.Data.{full}

abbrev next_of : Out (Unit {0}) Iterator → Out Iterator (List ℕ × Value)
next_of (ok it u) = iter_next full it
next_of (err e u) = fault
next_of fault = fault
next_of hang = hang

abbrev again : Out Iterator (List ℕ × Value) → Out Iterator (List ℕ × Value)
again (ok kv it) = iter_next full it
again (err e it) = err e it
again fault = fault
again hang = hang

abbrev shown : Out Iterator (List ℕ × Value) → Out (Unit {0}) (List ℕ × Value)
shown (ok kv it) = ok kv tt
shown (err e it) = err e tt
shown fault = fault
shown hang = hang

abbrev listing : Out (Unit {0}) Iterator
listing = iterate full shared_prefix_dict

first_key : shown (next_of listing) ≡ ok (b'a' ∷ b'b' ∷ b'c' ∷ [], uint 10) tt
unfolding open_impl open_on Header.read read_u8 read_bits reader_on read_bits_at read_loop
    read_bit_msb Header.read_version Header.read_tail read_u16 read_u32 verify_crc load_u32 crc32
    crc_loop crc_round ctrl_loop dict_of parse_trie_config read_count read_tables table_loop
    Reader.create read_groups read_varint_u seek iterate iter_reset iter_next start walk_loop
    next_sibling at_frame enter_child enter unwind walk_down on_code at_terminal branch_behind
    push_branch push_frame push_key key_reserve value_at at_cursor to_index skip_values Value.decode
    decode_data read_payload direct_ptr Reader.align_to_byte
first_key = refl

third_key : shown (again (again (next_of listing))) ≡ ok (b'x' ∷ b'y' ∷ b'z' ∷ [], uint 30) tt
unfolding open_impl open_on Header.read read_u8 read_bits reader_on read_bits_at read_loop
    read_bit_msb Header.read_version Header.read_tail read_u16 read_u32 verify_crc load_u32 crc32
    crc_loop crc_round ctrl_loop dict_of parse_trie_config read_count read_tables table_loop
    Reader.create read_groups read_varint_u seek iterate iter_reset iter_next start walk_loop
    next_sibling at_frame enter_child enter unwind walk_down on_code at_terminal branch_behind
    push_branch push_frame push_key key_reserve value_at at_cursor to_index skip_values Value.decode
    decode_data read_payload direct_ptr Reader.align_to_byte
third_key = refl

no_fourth_key : shown (again (again (again (next_of listing)))) ≡ err eof tt
unfolding open_impl open_on Header.read read_u8 read_bits reader_on read_bits_at read_loop
    read_bit_msb Header.read_version Header.read_tail read_u16 read_u32 verify_crc load_u32 crc32
    crc_loop crc_round ctrl_loop dict_of parse_trie_config read_count read_tables table_loop
    Reader.create read_groups read_varint_u seek iterate iter_reset iter_next start walk_loop
    next_sibling at_frame enter_child enter unwind walk_down on_code at_terminal branch_behind
    push_branch push_frame push_key key_reserve value_at at_cursor to_index skip_values Value.decode
    decode_data read_payload direct_ptr Reader.align_to_byte
no_fourth_key = refl

abbrev under_ab : Out (Unit {0}) Iterator
under_ab = find_prefix_n full 9 shared_prefix_dict (b'a' ∷ b'b' ∷ [])

second_under_ab : shown (again (next_of under_ab)) ≡ ok (b'a' ∷ b'b' ∷ b'd' ∷ [], uint 20) tt
unfolding open_impl open_on Header.read read_u8 read_bits reader_on read_bits_at read_loop
    read_bit_msb Header.read_version Header.read_tail read_u16 read_u32 verify_crc load_u32 crc32
    crc_loop crc_round ctrl_loop dict_of parse_trie_config read_count read_tables table_loop
    Reader.create read_groups read_varint_u seek iterate iter_reset iter_next start walk_loop
    next_sibling at_frame enter_child enter unwind walk_down on_code at_terminal branch_behind
    push_branch push_frame push_key key_reserve value_at at_cursor to_index skip_values Value.decode
    decode_data read_payload direct_ptr Reader.align_to_byte find_prefix_n descend_to_prefix descend
    seeded at_code at_literal at_children branch_after_end child_at child_bounds
second_under_ab = refl

no_third_under_ab : shown (again (again (next_of under_ab))) ≡ err eof tt
unfolding open_impl open_on Header.read read_u8 read_bits reader_on read_bits_at read_loop
    read_bit_msb Header.read_version Header.read_tail read_u16 read_u32 verify_crc load_u32 crc32
    crc_loop crc_round ctrl_loop dict_of parse_trie_config read_count read_tables table_loop
    Reader.create read_groups read_varint_u seek iterate iter_reset iter_next start walk_loop
    next_sibling at_frame enter_child enter unwind walk_down on_code at_terminal branch_behind
    push_branch push_frame push_key key_reserve value_at at_cursor to_index skip_values Value.decode
    decode_data read_payload direct_ptr Reader.align_to_byte find_prefix_n descend_to_prefix descend
    seeded at_code at_literal at_children branch_after_end child_at child_bounds
no_third_under_ab = refl

-- A file with a good checksum whose root's first child has a SKIP distance that wraps to the root.
abbrev crafted_trp : List ℕ
crafted_trp =
    84 ∷ 82 ∷ 80 ∷ 0 ∷ 1 ∷ 0 ∷ 0 ∷ 0 ∷ 0 ∷ 0 ∷ 0 ∷ 2 ∷ 0 ∷ 0 ∷ 0 ∷ 38 ∷ 0 ∷ 0 ∷ 0 ∷ 141 ∷ 0 ∷ 0 ∷ 0
    ∷ 0 ∷ 0 ∷ 0 ∷ 0 ∷ 141 ∷ 0 ∷ 0 ∷ 0 ∷ 0 ∷ 48 ∷ 112 ∷ 83 ∷ 149 ∷ 132 ∷ 80 ∷ 37 ∷ 63 ∷ 255 ∷ 255
    ∷ 255 ∷ 255 ∷ 255 ∷ 255 ∷ 255 ∷ 254 ∷ 3 ∷ 128 ∷ 40 ∷ 71 ∷ 223 ∷ 163 ∷ []

abbrev crafted : Dict
crafted = opened (open_impl true crafted_trp)

crafted_opens : open_impl true crafted_trp ≡ ok crafted tt
unfolding open_impl open_on Header.read read_u8 read_bits reader_on read_bits_at read_loop
    read_bit_msb Header.read_version Header.read_tail read_u16 read_u32 verify_crc load_u32 crc32
    crc_loop crc_round ctrl_loop dict_of parse_trie_config read_count read_tables table_loop
    Reader.create read_groups read_varint_u
crafted_opens = refl

-- The reader when the walk is back at the root.
abbrev back : Reader
back = record (reader_on crafted_trp) { pos = 294 }

back_again :
    (fuel : ℕ)
    → descend crafted.sym (suc fuel) 294 397 (b'z' ∷ []) back
      ≡ descend crafted.sym fuel 294 397 (b'z' ∷ []) back
unfolding open_impl open_on Header.read read_u8 read_bits reader_on read_bits_at read_loop
    read_bit_msb Header.read_version Header.read_tail read_u16 read_u32 verify_crc load_u32 crc32
    crc_loop crc_round ctrl_loop dict_of parse_trie_config read_count read_tables table_loop
    Reader.create read_groups read_varint_u seek find_prefix_n descend_to_prefix descend seeded
    at_code at_literal at_children branch_after_end child_at child_bounds
back_again fuel = refl

never_done : (fuel : ℕ) → descend crafted.sym fuel 294 397 (b'z' ∷ []) back ≡ hang
never_done zero = unfold descend in refl
never_done (suc fuel) = back_again fuel ∙ never_done fuel

first_round :
    (fuel : ℕ)
    → descend_to_prefix (suc fuel) crafted (b'z' ∷ [])
      ≡ closed (descend crafted.sym fuel 294 397 (b'z' ∷ []) back)
unfolding open_impl open_on Header.read read_u8 read_bits reader_on read_bits_at read_loop
    read_bit_msb Header.read_version Header.read_tail read_u16 read_u32 verify_crc load_u32 crc32
    crc_loop crc_round ctrl_loop dict_of parse_trie_config read_count read_tables table_loop
    Reader.create read_groups read_varint_u seek find_prefix_n descend_to_prefix descend seeded
    at_code at_literal at_children branch_after_end child_at child_bounds
first_round fuel = refl

-- On this file the search for the prefix "z" never ends, however many rounds it is given.
descend_to_prefix-hangs : (fuel : ℕ) → descend_to_prefix fuel crafted (b'z' ∷ []) ≡ hang
descend_to_prefix-hangs zero = unfold descend_to_prefix in unfold descend in refl
descend_to_prefix-hangs (suc fuel) = first_round fuel ∙ ap closed (never_done fuel)
