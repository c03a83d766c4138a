-- ===== src/Dict/Found.antt =====
-- src/core/decoder.c: `tp_dict_lookup_n` on a buffer that holds the bits of a trie.
use triepack.Base.{
  ℕ, suc, ◌*◌, ◌^◌, ◌≤◌, ◌<◌, ◌≡◌, refl, arith, true, false, List, ◌++◌, length, append_assoc, All,
}
use mathlib.Core.Path.{subst}
use triepack.Alphabet.{SymbolInfo}
use triepack.Reader.{Reader}
use triepack.Reader.Ahead.{Ahead}
use triepack.Trie.Tree.{
  Ending, node, Kids, count, label_bits, ending_bits, branch_head, node_bits, kids_bits,
}
use triepack.Trie.Find.{find, runs_off, IsTable, IsLabel, IsEnding, AreGood}
use triepack.Dict.Lookup.{lookup_loop}
use triepack.Dict.Rounds.{more_left}
use triepack.Dict.Walk.{Answers, Halts, at_label}
use triepack.Dict.Siblings.{kids_walk}

regroup : (a b c d e : List ℕ) → (a ++ (b ++ (c ++ d))) ++ e ≡ a ++ (b ++ ((c ++ d) ++ e))
regroup a b c d e = simp append_assoc

-- On a reader before the bits of a trie the loop of `tp_dict_lookup_n`, with as many rounds as it has,
-- finds for a key what the trie holds under it: the index of the key's value, a key without a
-- value, or that there is no such key. The symbol table must tell the control symbols apart and give
-- every byte of the trie a code of its own, children must have labels, and a node without children
-- must end a key. For a key that leads on behind the trie's last node this needs that the bits behind the
-- trie begin with a symbol that ends no key and opens no branch.
pub lookup_loop-find :
    (info : SymbolInfo) (label : List ℕ) (e : Ending) (ts : Kids) (fuel : ℕ) (key : List ℕ)
    (r : Reader) (after : List ℕ)
    → (t : IsTable info) → All (IsLabel info) label
    → IsEnding e ts
    → count ts < 2 ^ 32
    → AreGood info ts
    → Ahead r (node_bits info (node label e ts) ++ after)
    → suc (length key) * suc r.bit_len ≤ fuel
    → (runs_off (node label e ts) key ≡ true → Halts info after)
    → Answers r (find (node label e ts) key) (lookup_loop info fuel false key r)
unfolding find runs_off node_bits
lookup_loop-find info label e ts fuel key r after t codes good few kids ahead enough halts =
    at_label info t label e ts fuel key r after (kids_walk info t ts kids) codes good few
      (subst (λ b. Ahead r b)
        (regroup (label_bits info label) (ending_bits info e) (branch_head info ts)
          (kids_bits info ts) after)
        ahead)
      (omega (arith, more_left (length key) r.bit_len r.bit_len r.pos refl)) halts
