-- ===== src/Dict/Entries.antt =====
-- src/core/decoder.c: `tp_dict_lookup_n` against the entries that `tp_encoder_build` writes.
use triepack.Base.{
  ℕ, suc, ◌*◌, ◌^◌, ◌≤◌, ◌<◌, ◌≡◌, arith, Bool, true, false, some, List, ◌∷◌, ◌++◌, length, All,
}
use mathlib.Core.Path.{subst}
use triepack.Alphabet.{SymbolInfo}
use triepack.Encoder.{Entry}
use triepack.Encoder.Compare.{IsAscending}
use triepack.Reader.{Reader}
use triepack.Reader.Ahead.{Ahead}
use triepack.Trie.Tree.{Node, node, node_bits, grow}
use triepack.Trie.Find.{find, runs_off, IsTable}
use triepack.Trie.Held.{held}
use triepack.Trie.Grown.{find-grow}
use triepack.Trie.Overrun.{extends, last_key, runs_off-grow}
use triepack.Trie.Good.{IsGood, IsSpelt, grow-IsGood}
use triepack.Trie.Agree.{IsAscending-Chain, Enough-whole}
use triepack.Bits.{IsByte}
use triepack.Encoder.Analyze.{analyze_symbols}
use triepack.Encoder.Analyze.Tables.{analyze_symbols-IsTable}
use triepack.Dict.Lookup.{lookup_loop}
use triepack.Dict.Walk.{Answers, Halts}
use triepack.Dict.Found.{lookup_loop-find}

at_tree :
    (info : SymbolInfo) (tree : Node) (fuel : ℕ) (key : List ℕ) (r : Reader) (after : List ℕ)
    (t : IsTable info)
    → IsGood info tree
    → Ahead r (node_bits info tree ++ after)
    → suc (length key) * suc r.bit_len ≤ fuel
    → (runs_off tree key ≡ true → Halts info after)
    → Answers r (find tree key) (lookup_loop info fuel false key r)
at_tree info (node label e ts) fuel key r after t (codes, ending, few, good) ahead enough halts =
    lookup_loop-find info label e ts fuel key r after t codes ending few good ahead enough halts

over_table :
    (info : SymbolInfo) (has_values : Bool) (first : Entry) (others : List Entry) (fuel : ℕ)
    (key : List ℕ) (r : Reader) (after : List ℕ) (t : IsTable info)
    → IsAscending (first ∷ others)
    → All (IsSpelt info) (first ∷ others)
    → suc (length others) < 2 ^ 32
    → Ahead r (node_bits info (grow has_values (suc (length others)) 0 first others 0) ++ after)
    → suc (length key) * suc r.bit_len ≤ fuel
    → (extends (last_key (first ∷ others)) key ≡ true → Halts info after)
    → Answers r (held has_values 0 (first ∷ others) 0 key) (lookup_loop info fuel false key r)
over_table info has_values first others fuel key r after t ascending spelt few ahead enough halts =
    let tree = grow has_values (suc (length others)) 0 first others 0 in
    let found = find-grow has_values first others 0 key ascending in
    let good : IsGood info tree =
      grow-IsGood info has_values (suc (length others)) 0 first others
        (Enough-whole first others ascending)
        (omega arith, IsAscending-Chain first others ascending) spelt 0 (omega arith) in
    subst (λ e. Answers r e (lookup_loop info fuel false key r)) found
      (at_tree info tree fuel key r after t good ahead enough
        (λ off. halts (runs_off-grow has_values first others 0 key ascending off)))

-- Take fewer than 2^32 entries in ascending order, with keys of bytes, numbered from 0; the symbol table
-- that `analyze_symbols` makes of them, where the width is left to it, with at most 255 symbols, as
-- `tp_encoder_build` demands; a reader before the bits that the encoder writes for the entries; and as
-- many rounds as the stream has bits, and one more, for each byte of the key and once more. If the key
-- does not begin with the last entry's key or is not longer than that, the loop of `tp_dict_lookup_n`
-- finds the number of the entry with that key, or that the entry has no value, or that no entry has the
-- key. If it begins with that key and is longer, the loop finds that no entry has it, provided that the
-- bits behind the trie begin with a symbol that ends no key and opens no branch.
pub lookup_loop-held :
    (info : SymbolInfo) (has_values : Bool) (first : Entry) (others : List Entry) (fuel : ℕ)
    (key : List ℕ) (r : Reader) (after : List ℕ)
    → IsAscending (first ∷ others)
    → All (λ e. All IsByte e.key) (first ∷ others)
    → suc (length others) < 2 ^ 32
    → (made : analyze_symbols 0 (first ∷ others) ≡ some info) (few : info.symbol_count ≤ 255)
    → Ahead r (node_bits info (grow has_values (suc (length others)) 0 first others 0) ++ after)
    → suc (length key) * suc r.bit_len ≤ fuel
    → (extends (last_key (first ∷ others)) key ≡ true → Halts info after)
    → Answers r (held has_values 0 (first ∷ others) 0 key) (lookup_loop info fuel false key r)
lookup_loop-held info has_values first others fuel key r after ascending bytes number made few ahead
      enough halts =
    let (t, spelt) = analyze_symbols-IsTable (first ∷ others) info bytes made few in
    over_table info has_values first others fuel key r after t ascending spelt number ahead enough
      halts
