-- ===== src/Trie/Agree.antt =====
-- src/core/encoder.c: `trie_subtree_size` against `trie_write`.
use triepack.Base.{ℕ, suc, ◌+◌, ◌^◌, ◌≤◌, ◌<◌, ◌≡◌, arith, Bool, some, List, [], ◌∷◌, length}
use triepack.Alphabet.{SymbolInfo}
use triepack.Encoder.{Entry}
use triepack.Encoder.Compare.{IsAscending, entry_cmp_lem}
use triepack.Writer.{Writer}
use triepack.Writer.Holds.{Holds}
use triepack.Writer.Giving.{Gave}
use triepack.Trie.{trie_subtree_size, trie_write}
use triepack.Trie.Tree.{node_bits, grow, Enough}
use triepack.Trie.Size.{trie_subtree_size_lem}
use triepack.Trie.Order.{Chain}
use triepack.Trie.Depth.{Enough_lem}
use triepack.Trie.Writing.{trie_write-Gives}

pub IsAscending-Chain :
    (first : Entry) (others : List Entry) → IsAscending (first ∷ others) → Chain 0 first others
IsAscending-Chain first [] h = tt
IsAscending-Chain first (e ∷ es) h = ((entry_cmp_lem first e).0.0 h.0, IsAscending-Chain e es h.1)

pub Enough-whole :
    (first : Entry) (others : List Entry)
    → IsAscending (first ∷ others)
    → Enough (suc (length others)) 0 first others
Enough-whole first others h =
    Enough_lem (suc (length others)) 0 first others (omega arith)
      (omega arith, IsAscending-Chain first others h)

-- For entries in ascending order, numbered from `i`, both recursions end within as many levels as there
-- are entries. `trie_write` appends the bits of the entries' tree, or stops where the allocator
-- refuses; `trie_subtree_size` returns exactly the number of those bits; and both count every entry
-- once. So every SKIP distance in the stream is the length of the subtree behind it.
pub trie_write-trie_subtree_size :
    (sym_info : SymbolInfo) (has_values : Bool) (grants : ℕ → Bool) (first : Entry)
    (others : List Entry) (i : ℕ) (bs : List ℕ) (w : Writer)
    → 0 < sym_info.bits_per_symbol
    → sym_info.bits_per_symbol ≤ 64
    → IsAscending (first ∷ others)
    → i + suc (length others) < 2 ^ 32
    → Holds w bs
    → length bs
        + length (node_bits sym_info (grow has_values (suc (length others)) 0 first others i))
        + 7
      < 2 ^ 64
    → Gave grants bs
        (node_bits sym_info (grow has_values (suc (length others)) 0 first others i))
        (i + suc (length others))
        (trie_write sym_info has_values grants (suc (length others)) 0 first others i w)
      × (trie_subtree_size sym_info has_values (suc (length others)) 0 first others i
          ≡ some (
            length (node_bits sym_info (grow has_values (suc (length others)) 0 first others i)),
            i + suc (length others),
          ))
trie_write-trie_subtree_size sym_info has_values grants first others i bs w lo hi h small held
      fits =
    let enough = Enough-whole first others h in
    (
      trie_write-Gives sym_info has_values grants lo hi (suc (length others)) 0 first others i
          enough small (omega arith) bs w held fits,
      trie_subtree_size_lem sym_info has_values (suc (length others)) 0 first others i enough small
          (omega arith),
    )
