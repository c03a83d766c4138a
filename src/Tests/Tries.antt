-- ===== src/Tests/Tries.antt =====
-- The encoder's order, symbol tables and trie (src/core/encoder.c) at concrete entries.
use Prim.Native.Nat.Ordering.{lt, eq, gt}
use triepack.Base.{
  ℕ, ◌+◌, ◌^◌, ◌<◌, ◌≤◌, ◌≡◌, ◌≢◌, ◌↔◌, refl, arith, true, some, [], ◌∷◌, length, All,
}
use triepack.Bits.{IsByte}
use triepack.Alphabet.{SymbolInfo}
use triepack.Value.{uint}
use triepack.Encoder.{Entry, dedup_entries}
use triepack.Encoder.Compare.{
  compare_bytes, compare_keys, entry_cmp, entry_cmp_lem, Less, IsAscending, IsSorted,
}
use triepack.Encoder.Sort.{dedup_entries-IsAscending}
use triepack.Encoder.Analyze.{analyze_symbols}
use triepack.Encoder.Analyze.Coding.{IsCoded, KeepsOrder, analyze_symbols_lem}
use triepack.Trie.{
  char_at, all_have, common_loop, common_end, runs_at, has_terminal, children, trie_write,
  trie_subtree_size,
}
use triepack.Varint.Groups.{varint_bytes}
use triepack.Trie.Tree.{
  count, label_bits, ending_bits, branch_head, preamble, node_bits, slice, grow, grow_kids,
}
use triepack.Trie.Agree.{trie_write-trie_subtree_size}
use triepack.Writer.Giving.{Gave}
use triepack.Tests.Data.{full, started, three_bits, started-Holds, two_symbols}
use triepack.Tests.Builds.{entry}

abbrev ab : Entry
ab = entry (b'a' ∷ b'b' ∷ []) (uint 1)

abbrev b_2 : Entry
b_2 = entry (b'b' ∷ []) (uint 2)

abbrev b_3 : Entry
b_3 = entry (b'b' ∷ []) (uint 3)

entry_cmp_lem_example :
    ((entry_cmp ab b_2 ≡ lt) ↔ Less ab.key b_2.key)
    × ((entry_cmp ab b_2 ≡ eq) ↔ (ab.key ≡ b_2.key))
    × ((entry_cmp ab b_2 ≡ gt) ↔ Less b_2.key ab.key)
entry_cmp_lem_example = entry_cmp_lem ab b_2

sorted : IsSorted (ab ∷ b_2 ∷ b_3 ∷ [])
unfolding entry_cmp compare_keys compare_bytes
sorted = (λ e. cc, (λ e. cc, tt))

dedup_entries-IsAscending_example : IsAscending (dedup_entries (ab ∷ b_2 ∷ b_3 ∷ []))
dedup_entries-IsAscending_example = dedup_entries-IsAscending (ab ∷ b_2 ∷ b_3 ∷ []) sorted

are_bytes : All (λ e. All IsByte e.key) (ab ∷ b_2 ∷ [])
are_bytes = ((omega arith, (omega arith, tt)), ((omega arith, tt), tt))

analyze_symbols_lem_example :
    (s : SymbolInfo) × (analyze_symbols 0 (ab ∷ b_2 ∷ []) ≡ some s)
    × All (λ e. All (IsCoded s) e.key) (ab ∷ b_2 ∷ [])
    × KeepsOrder s (ab ∷ b_2 ∷ [])
    × (◌≢◌ {A = ℕ} 0 0 → s.bits_per_symbol ≡ 0)
    × (◌≡◌ {A = ℕ} 0 0
        → (1 ≤ s.bits_per_symbol)
          × (s.symbol_count ≤ 2 ^ s.bits_per_symbol)
          × ((k : ℕ) → 1 ≤ k → k < s.bits_per_symbol → 2 ^ k < s.symbol_count))
analyze_symbols_lem_example = analyze_symbols_lem 0 (ab ∷ b_2 ∷ []) are_bytes

ascending : IsAscending (ab ∷ b_2 ∷ [])
unfolding entry_cmp compare_keys compare_bytes
ascending = (refl, tt)

room : 3 + length (node_bits two_symbols (grow true 2 0 ab (b_2 ∷ []) 0)) + 7 < 2 ^ 64
unfolding node_bits label_bits ending_bits branch_head preamble count varint_bytes grow grow_kids
    slice char_at has_terminal children runs_at common_end common_loop all_have
room = omega arith

trie_write-trie_subtree_size_example :
    Gave full three_bits
      (node_bits two_symbols (grow true 2 0 ab (b_2 ∷ []) 0))
      2
      (trie_write two_symbols true full 2 0 ab (b_2 ∷ []) 0 started)
    × (trie_subtree_size two_symbols true 2 0 ab (b_2 ∷ []) 0
        ≡ some (length (node_bits two_symbols (grow true 2 0 ab (b_2 ∷ []) 0)), 2))
trie_write-trie_subtree_size_example =
    trie_write-trie_subtree_size two_symbols true full ab (b_2 ∷ []) 0 three_bits started
      (omega arith) (omega arith) ascending (omega arith) started-Holds room
