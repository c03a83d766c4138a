-- ===== src/Trie/Tree.antt =====
-- The trie as a tree, its bits in the stream, and the tree that a list of entries has.
use triepack.Base.{ℕ, zero, suc, ◌+◌, ◌-◌, if◌then◌else◌, Bool, List, [], ◌∷◌, ◌++◌, length}
use triepack.Bits.{all_bits, to_bits}
use triepack.Alphabet.{SymbolInfo, ctrl_end, ctrl_end_val, ctrl_skip, ctrl_branch}
use triepack.Encoder.{Entry}
use triepack.Varint.Groups.{varint_bytes}
use triepack.Trie.{char_at, common_end, has_terminal, children, indexed}

-- What ends at a node: no key, a key without a value, or a key with its index in the value store.
pub data Ending : Type 0 where
  no_key : Ending
  key_only : Ending
  key_value : ℕ → Ending

-- The bytes that lead to the node's end, what ends there, and the children.
mutual
  pub data Node : Type 0 where
    node : List ℕ → Ending → Kids → Node

  pub data Kids : Type 0 where
    nil : Kids
    kid : Node → Kids → Kids

unfoldable pub count : Kids → ℕ
count nil = 0
count (kid t ts) = suc (count ts)

module _ (sym : SymbolInfo) where
  abbrev pub code_bits : ℕ → List ℕ
  code_bits code = to_bits sym.bits_per_symbol code

  unfoldable pub label_bits : List ℕ → List ℕ
  label_bits [] = []
  label_bits (ch ∷ chs) = code_bits (sym.symbol_map ch) ++ label_bits chs

  unfoldable pub ending_bits : Ending → List ℕ
  ending_bits no_key = []
  ending_bits key_only = code_bits (sym.ctrl_codes ctrl_end)
  ending_bits (key_value i) = code_bits (sym.ctrl_codes ctrl_end_val) ++ all_bits (varint_bytes 9 i)

  unfoldable pub branch_head : Kids → List ℕ
  branch_head nil = []
  branch_head (kid t ts) =
      code_bits (sym.ctrl_codes ctrl_branch) ++ all_bits (varint_bytes 9 (suc (count ts)))

  -- What stands in front of a child of `n` bits, by the children behind it.
  unfoldable pub preamble : Kids → ℕ → List ℕ
  preamble nil n = []
  preamble (kid t ts) n = code_bits (sym.ctrl_codes ctrl_skip) ++ all_bits (varint_bytes 9 n)

  unfoldable mutual
    pub node_bits : Node → List ℕ
    node_bits (node label e ts) =
        label_bits label ++ (ending_bits e ++ (branch_head ts ++ kids_bits ts))

    pub kids_bits : Kids → List ℕ
    kids_bits nil = []
    kids_bits (kid t ts) = preamble ts (length (node_bits t)) ++ (node_bits t ++ kids_bits ts)

-- `n` bytes of a key from byte `i` on.
unfoldable pub slice : List ℕ → ℕ → ℕ → List ℕ
slice key zero i = []
slice key (suc n) i = char_at key i ∷ slice key n (i + 1)

abbrev pub ending_of : Bool → Entry → ℕ → Ending
ending_of has_values e i = if indexed has_values e then key_value i else key_only

abbrev pub runs_length : List (Entry × List Entry) → ℕ
runs_length [] = 0
runs_length ((e, es) ∷ runs) = suc (length es) + runs_length runs

-- The children grown by `sub`, the indices running on through them.
unfoldable pub grow_kids : (Entry → List Entry → ℕ → Node) → List (Entry × List Entry) → ℕ → Kids
grow_kids sub [] i = nil
grow_kids sub ((e, es) ∷ runs) i = kid (sub e es i) (grow_kids sub runs (i + suc (length es)))

-- The tree of the entries' keys behind their first `prefix_len` bytes; the entries are numbered from `i`.
unfoldable pub grow : Bool → ℕ → ℕ → Entry → List Entry → ℕ → Node
grow has_values zero prefix_len first others i = node [] no_key nil
grow has_values (suc fuel) prefix_len first others i =
    let common = common_end prefix_len first others in
    let sub = grow has_values fuel common in
    let runs = children common first others in
    node (slice first.key (common - prefix_len) prefix_len)
      (if has_terminal common first then ending_of has_values first i else no_key)
      (grow_kids sub runs (if has_terminal common first then i + 1 else i))

abbrev pub AllRuns : (Entry → List Entry → Type 0) → List (Entry × List Entry) → Type 0
AllRuns P [] = Unit {0}
AllRuns P ((e, es) ∷ runs) = P e es × AllRuns P runs

pub AllRuns-map :
    (P Q : Entry → List Entry → Type 0)
    → ((e : Entry) (es : List Entry) → P e es → Q e es)
    → (runs : List (Entry × List Entry)) → AllRuns P runs
    → AllRuns Q runs
AllRuns-map P Q f [] h = tt
AllRuns-map P Q f ((e, es) ∷ runs) h = (f e es h.0, AllRuns-map P Q f runs h.1)

-- The tree is finished within `fuel` levels.
unfoldable pub Enough : ℕ → ℕ → Entry → List Entry → Type 0
Enough zero prefix_len first others = ⊥
Enough (suc fuel) prefix_len first others =
    let common = common_end prefix_len first others in
    AllRuns (Enough fuel common) (children common first others)
