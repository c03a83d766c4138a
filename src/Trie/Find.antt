-- ===== src/Trie/Find.antt =====
-- The keys of the trie as a tree: where a key ends, and the trees and tables that a lookup can follow.
use triepack.Base.{
  ℕ, ◌^◌, ◌<◌, ◌≤◌, ◌≡◌, ◌≢◌, ◌==◌, if◌then◌else◌, Bool, true, false, Option, none, some, List, [],
  ◌∷◌, All,
}
use triepack.Alphabet.{SymbolInfo, ctrl_end, ctrl_end_val, ctrl_skip, ctrl_branch}
use triepack.Trie.Tree.{Ending, no_key, key_only, key_value, Node, node, Kids, nil, kid, count}

-- What is left of a key behind a label.
unfoldable pub strip : List ℕ → List ℕ → Option (List ℕ)
strip [] key = some key
strip (x ∷ label) [] = none
strip (x ∷ label) (ch ∷ key) = if x == ch then strip label key else none

abbrev pub starts : List ℕ → List ℕ → Bool
starts [] key = false
starts (x ∷ label) [] = false
starts (x ∷ label) (ch ∷ key) = x == ch

-- Where the key ends here, what ends here; else what is below.
abbrev pub here_or : Ending → Ending → Option (List ℕ) → Ending
here_or e below none = no_key
here_or e below (some []) = e
here_or e below (some (ch ∷ key)) = below

abbrev pub rest_of : Option (List ℕ) → List ℕ
rest_of none = []
rest_of (some key) = key

unfoldable pub find_kids : Kids → List ℕ → Ending
find_kids nil key = no_key
find_kids (kid (node label e ts) us) key =
    let below = here_or e (find_kids ts (rest_of (strip label key))) (strip label key) in
    let others = find_kids us key in if starts label key then below else others

-- What ends where the key leads.
unfoldable pub find : Node → List ℕ → Ending
find (node label e ts) key = here_or e (find_kids ts (rest_of (strip label key))) (strip label key)

abbrev pub goes_on : Bool → Option (List ℕ) → Bool
goes_on below none = false
goes_on below (some []) = false
goes_on below (some (ch ∷ key)) = below

-- Whether the key leads on behind the last node of all, where the trie's bits end.
unfoldable pub runs_off_kids : Kids → List ℕ → Bool
runs_off_kids nil key = true
runs_off_kids (kid (node label e ts) nil) key =
    let below = goes_on (runs_off_kids ts (rest_of (strip label key))) (strip label key) in
    if starts label key then below else false
runs_off_kids (kid (node label e ts) (kid u us)) key = runs_off_kids (kid u us) key

unfoldable pub runs_off : Node → List ℕ → Bool
runs_off (node label e ts) key =
    goes_on (runs_off_kids ts (rest_of (strip label key))) (strip label key)

abbrev pub NonEmpty : List ℕ → Type 0
NonEmpty [] = ⊥
NonEmpty (x ∷ xs) = Unit {0}

-- A node without children ends a key; an index fits its field.
abbrev pub IsEnding : Ending → Kids → Type 0
IsEnding no_key nil = ⊥
IsEnding no_key (kid t ts) = Unit {0}
IsEnding key_only ts = Unit {0}
IsEnding (key_value i) ts = i < 2 ^ 32

module _ (sym : SymbolInfo) where
  -- Symbols that fit their field, and are told apart.
  pub record IsTable : Type 0 where
    pub some_bits : 1 ≤ sym.bits_per_symbol
    pub few_bits : sym.bits_per_symbol ≤ 64
    pub narrow : 2 ^ sym.bits_per_symbol ≤ 2 ^ 32
    pub end_fits : sym.ctrl_codes ctrl_end < 2 ^ sym.bits_per_symbol
    pub end_val_fits : sym.ctrl_codes ctrl_end_val < 2 ^ sym.bits_per_symbol
    pub skip_fits : sym.ctrl_codes ctrl_skip < 2 ^ sym.bits_per_symbol
    pub branch_fits : sym.ctrl_codes ctrl_branch < 2 ^ sym.bits_per_symbol
    pub end_val_ne_end : sym.ctrl_codes ctrl_end_val ≢ sym.ctrl_codes ctrl_end
    pub branch_ne_end : sym.ctrl_codes ctrl_branch ≢ sym.ctrl_codes ctrl_end
    pub branch_ne_end_val : sym.ctrl_codes ctrl_branch ≢ sym.ctrl_codes ctrl_end_val
    pub skip_ne_end : sym.ctrl_codes ctrl_skip ≢ sym.ctrl_codes ctrl_end
    pub skip_ne_end_val : sym.ctrl_codes ctrl_skip ≢ sym.ctrl_codes ctrl_end_val
    pub skip_ne_branch : sym.ctrl_codes ctrl_skip ≢ sym.ctrl_codes ctrl_branch

  -- A code that ends no key and opens no branch.
  pub record IsPlainCode (code : ℕ) : Type 0 where
    pub fits : code < 2 ^ sym.bits_per_symbol
    pub ne_end : code ≢ sym.ctrl_codes ctrl_end
    pub ne_end_val : code ≢ sym.ctrl_codes ctrl_end_val
    pub ne_branch : code ≢ sym.ctrl_codes ctrl_branch

  -- A byte with a code of its own.
  pub record IsLabel (x : ℕ) : Type 0 where
    pub plain : IsPlainCode (sym.symbol_map x)
    pub byte_code : sym.symbol_map x < 256
    pub not_ctrl : sym.code_is_ctrl (sym.symbol_map x) ≡ false
    pub own : (ch : ℕ) → sym.symbol_map ch ≡ sym.symbol_map x → ch ≡ x

  -- Every byte has a code, every node without children ends a key, and the labels of the children are
  -- not empty.
  pub data AreGood : Kids → Type 0 where
    no_kids : AreGood nil
    good_kid :
        {label : List ℕ} {e : Ending} {ts us : Kids}
        → NonEmpty label
        → All IsLabel label
        → IsEnding e ts
        → count ts < 2 ^ 32
        → AreGood ts
        → AreGood us
        → AreGood (kid (node label e ts) us)
