-- ===== src/Tests/Lookups.antt =====
-- The loop of `tp_dict_lookup_n` (src/core/decoder.c) over the trie of the keys "a" and "b".
use triepack.Base.{ℕ, ◌≤◌, ◌≡◌, refl, arith, false, Option, none, some, List, [], ◌∷◌, ◌++◌, All}
use triepack.Bits.{IsByte, all_bits}
use triepack.Buffer.Laws.{all_bits-IsBit}
use triepack.Varint.Groups.{varint_bytes}
use triepack.Alphabet.{SymbolInfo}
use triepack.Value.{null}
use triepack.Encoder.{Entry}
use triepack.Encoder.Compare.{compare_bytes, compare_keys, entry_cmp, IsAscending}
use triepack.Encoder.Analyze.{
  mark_key, mark_keys, count_loop, width_loop, assign_loop, analyze_symbols,
}
use triepack.Encoder.Analyze.Tables.{analyze_symbols-IsTable}
use triepack.Reader.{Reader}
use triepack.Reader.Ahead.{Ahead}
use triepack.Trie.{char_at, all_have, common_loop, common_end, runs_at, has_terminal, children}
use triepack.Trie.Tree.{
  Node, count, label_bits, ending_bits, branch_head, preamble, node_bits, slice, grow, grow_kids,
}
use triepack.Trie.Find.{IsTable, find}
use triepack.Trie.Good.{IsSpelt}
use triepack.Trie.Held.{held}
use triepack.Trie.Grown.{find-grow}
use triepack.Dict.Lookup.{lookup_loop}
use triepack.Dict.Walk.{Answers, Halts}
use triepack.Dict.Entries.{lookup_loop-held}
use triepack.Tests.Data.{reading, two_symbols}
use triepack.Tests.Builds.{entry}

abbrev a : Entry
a = entry (b'a' ∷ []) null

abbrev b_null : Entry
b_null = entry (b'b' ∷ []) null

abbrev made : Option SymbolInfo → SymbolInfo
made none = two_symbols
made (some info) = info

abbrev info : SymbolInfo
info = made (analyze_symbols 0 (a ∷ b_null ∷ []))

made_of_two : analyze_symbols 0 (a ∷ b_null ∷ []) ≡ some info
unfolding analyze_symbols width_loop count_loop mark_keys mark_key
made_of_two = refl

few_symbols : info.symbol_count ≤ 255
unfolding analyze_symbols width_loop count_loop mark_keys mark_key
few_symbols = omega arith

ascending : IsAscending (a ∷ b_null ∷ [])
unfolding entry_cmp compare_keys compare_bytes
ascending = (refl, tt)

are_bytes : All (λ e. All IsByte e.key) (a ∷ b_null ∷ [])
are_bytes = ((omega arith, tt), ((omega arith, tt), tt))

abbrev tree : Node
tree = grow false 2 0 a (b_null ∷ []) 0

-- Behind the trie a SKIP symbol and three bits.
abbrev behind : List ℕ
behind = 0 ∷ 1 ∷ 0 ∷ 0 ∷ 0 ∷ 0 ∷ []

abbrev trie_bytes : Reader
trie_bytes = reading (160 ∷ 72 ∷ 27 ∷ 14 ∷ 16 ∷ []) 40 0

trie_bits : node_bits info tree ++ behind ≡ all_bits trie_bytes.buf
unfolding node_bits label_bits ending_bits branch_head preamble count varint_bytes grow grow_kids
    slice char_at has_terminal children runs_at common_end common_loop all_have analyze_symbols
    width_loop count_loop mark_keys mark_key assign_loop
trie_bits = refl

trie_bytes-Ahead : Ahead trie_bytes (node_bits info tree ++ behind)
trie_bytes-Ahead = rw trie_bits (record {
  stands = record { front = []; rest = []; whole = refl; start = refl };
  within = omega arith;
  word = omega arith;
  binary = all_bits-IsBit trie_bytes.buf;
})

behind-Halts : Halts info behind
unfolding analyze_symbols width_loop count_loop mark_keys mark_key
behind-Halts = (
  2,
  0 ∷ 0 ∷ 0 ∷ [],
  record {
    fits = omega arith;
    ne_end = λ e. omega arith;
    ne_end_val = λ e. omega arith;
    ne_branch = λ e. omega arith;
  },
  refl,
)

-- The key "ba", which no entry has and which extends the last key.
lookup_loop-held_example :
    Answers trie_bytes
      (held false 0 (a ∷ b_null ∷ []) 0 (b'b' ∷ b'a' ∷ []))
      (lookup_loop info 200 false (b'b' ∷ b'a' ∷ []) trie_bytes)
lookup_loop-held_example =
    lookup_loop-held info false a (b_null ∷ []) 200 (b'b' ∷ b'a' ∷ []) trie_bytes behind ascending
      are_bytes (omega arith) made_of_two few_symbols trie_bytes-Ahead (omega arith)
      (λ e. behind-Halts)

find-grow_example :
    find (grow false 2 0 a (b_null ∷ []) 0) (b'b' ∷ [])
    ≡ held false 0 (a ∷ b_null ∷ []) 0 (b'b' ∷ [])
find-grow_example = find-grow false a (b_null ∷ []) 0 (b'b' ∷ []) ascending

analyze_symbols-IsTable_example : IsTable info × All (IsSpelt info) (a ∷ b_null ∷ [])
analyze_symbols-IsTable_example =
    analyze_symbols-IsTable (a ∷ b_null ∷ []) info are_bytes made_of_two few_symbols
