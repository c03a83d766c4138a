-- ===== src/Iter/Prefix.antt =====
-- src/core/decoder.c: `descend_to_prefix`, `tp_dict_find_prefix` and `tp_dict_find_fuzzy`.
use triepack.Base.{
  ℕ, zero, suc, ◌+◌, ltb, leb, ◌==◌, not, ◌&&◌, ◌||◌, if◌then◌else◌, Bool, true, none, some, List,
  [], ◌∷◌, ◌++◌, length, drop, u32, u64,
}
use triepack.Outcome.{
  Out, ok, err, fault, hang, alloc, corrupt, not_found, unsupported, M, pure, throw, ◌>>=◌, ◌>>◌,
}
use triepack.Alphabet.{SymbolInfo, ctrl_end, ctrl_end_val, ctrl_skip, ctrl_branch}
use triepack.Reader.{Reader, read_bits, seek}
use triepack.Varint.{read_varint_u}
use triepack.Dict.{Dict, reader_on}
use triepack.Rom.{read_bits_at}
use triepack.Encoder.Add.{c_string}
use triepack.Dict.{closed}
use triepack.Dict.Lookup.{is_not_found}
use triepack.Iter.{Iterator, key_reserve, iter_reset, iterate}

abbrev here : M Reader ℕ
here r = ok r.pos r

-- `tp_bs_read_bits_at`, which does not use the reader.
abbrev peek_at : ℕ → ℕ → M Reader ℕ
peek_at start n r = elim (read_bits_at r.buf start n) [
  | ok v u ↦ ok v r
  | err e u ↦ err e r
  | fault ↦ fault
  | hang ↦ hang
]

module _ (sym : SymbolInfo) where
  -- The start and the end of a child, from its preamble on; the next child begins at that end.
  unfoldable pub child_bounds : Bool → ℕ → ℕ → M Reader (ℕ × ℕ)
  child_bounds has_skip child_preamble end =
      if has_skip
      then (do
        skip_sym ← read_bits sym.bits_per_symbol
        if not (u32 skip_sym == sym.ctrl_codes ctrl_skip) then throw corrupt else (do
          dist ← read_varint_u
          child_start ← here
          pure (child_start, u64 (child_start + dist))))
      else pure (child_preamble, end)

  -- The rounds over the children, `left` of which are still to come: the bounds of the child whose
  -- first symbol is `want`.
  unfoldable pub child_at : ℕ → ℕ → ℕ → ℕ → M Reader (ℕ × ℕ)
  child_at want end zero child_preamble = throw not_found
  child_at want end (suc left) child_preamble = do
    seek child_preamble
    (child_start, child_end) ← child_bounds (ltb 0 left) child_preamble end
    first ← peek_at child_start sym.bits_per_symbol
    let rest = child_at want end left child_end
    if u32 first == want then pure (child_start, child_end) else rest

  -- Behind the END of a shorter key: only a BRANCH inside the subtree goes on.
  unfoldable pub branch_after_end : ℕ → M Reader (Unit {0})
  branch_after_end end = do
    p ← here
    if leb end p then throw not_found else (do
      raw ← read_bits sym.bits_per_symbol
      if not (u32 raw == sym.ctrl_codes ctrl_branch) then throw corrupt else pure tt)

  -- `loop` is the rest of the loop, from a position to an end, with what is left of the prefix.
  module _ (loop : ℕ → ℕ → List ℕ → M Reader (ℕ × ℕ)) where
    unfoldable pub at_children : ℕ → ℕ → List ℕ → M Reader (ℕ × ℕ)
    at_children end ch prefix = do
      nchildren ← read_varint_u
      child_preamble ← here
      (child_start, child_end) ← child_at (sym.symbol_map ch) end nchildren child_preamble
      loop child_start child_end (ch ∷ prefix)

    unfoldable pub at_literal : ℕ → ℕ → ℕ → List ℕ → M Reader (ℕ × ℕ)
    at_literal code end ch prefix =
        if ltb code 256 && sym.code_is_ctrl code
        then throw corrupt
        else if not ((if ltb code 256 then sym.reverse_map code else 0) == ch)
        then throw not_found
        else (do p ← here; loop p end prefix)

    unfoldable pub at_code : ℕ → ℕ → ℕ → List ℕ → M Reader (ℕ × ℕ)
    at_code code end ch prefix =
        if code == sym.ctrl_codes ctrl_end
        then (do branch_after_end end; at_children end ch prefix)
        else if code == sym.ctrl_codes ctrl_end_val
        then (do vi ← read_varint_u; branch_after_end end; at_children end ch prefix)
        else if code == sym.ctrl_codes ctrl_branch
        then at_children end ch prefix
        else at_literal code end ch prefix

  -- The `for (;;)` loop, for `fuel` rounds: the bounds of the subtree of the prefix.
  unfoldable pub descend : ℕ → ℕ → ℕ → List ℕ → M Reader (ℕ × ℕ)
  descend zero pos end prefix = λ r. hang
  descend (suc fuel) pos end [] = pure (pos, end)
  descend (suc fuel) pos end (ch ∷ prefix) = if leb end pos then throw not_found else (do
    seek pos
    raw ← read_bits sym.bits_per_symbol
    at_code (descend fuel) (u32 raw) end ch prefix)

unfoldable pub descend_to_prefix : ℕ → Dict → List ℕ → Out (Unit {0}) (ℕ × ℕ)
descend_to_prefix fuel d prefix =
    closed (descend d.sym fuel d.trie_start d.value_start prefix (reader_on d.buf))

-- `memcpy` to the start of the buffer.
abbrev pub over : List ℕ → List ℕ → List ℕ
over prefix buf = prefix ++ drop (length prefix) buf

module _ (grants : ℕ → Bool) (fuel : ℕ) where
  unfoldable pub seeded : List ℕ → ℕ × ℕ → Iterator → Out (Unit {0}) Iterator
  seeded prefix (sub_pos, sub_end) it = elim (key_reserve grants (length prefix) it) [
    | ok u it' ↦
        ok
          (iter_reset (record it' {
            key_buf = over prefix it'.key_buf;
            root_pos = sub_pos;
            root_end = sub_end;
            root_key_len = length prefix;
          }))
          tt
    | err e it' ↦ err alloc tt
    | fault ↦ fault
    | hang ↦ hang
  ]

  unfoldable pub find_prefix_n : Dict → List ℕ → Out (Unit {0}) Iterator
  find_prefix_n d prefix = elim (iterate grants d) [
    | ok it u ↦
        if (length prefix == 0) || (d.info.num_keys == 0)
        then ok it tt
        else elim (descend_to_prefix fuel d prefix) [
          | ok sub u ↦ seeded prefix sub it
          | err e u ↦ if is_not_found e then ok (record it { done = true }) tt else err e tt
          | fault ↦ fault
          | hang ↦ hang
        ]
    | err e u ↦ err e tt
    | fault ↦ fault
    | hang ↦ hang
  ]

  -- A string without a NUL is read beyond its end.
  unfoldable pub find_prefix : Dict → List ℕ → Out (Unit {0}) Iterator
  find_prefix d prefix = elim (c_string prefix) [ none ↦ fault | some s ↦ find_prefix_n d s ]

unfoldable pub find_fuzzy : Dict → List ℕ → ℕ → Out (Unit {0}) Iterator
find_fuzzy d query max_dist = err unsupported tt
