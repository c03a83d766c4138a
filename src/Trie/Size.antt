-- ===== src/Trie/Size.antt =====
-- src/core/encoder.c: `trie_subtree_size` counts the bits of the tree.
use mathlib.Core.Path.{ap₂}
use triepack.Base.{
  ℕ, zero, suc, ◌+◌, ◌-◌, ◌*◌, ◌^◌, ◌<◌, ◌≡◌, refl, ap, ◌∙◌, arith, if◌then◌else◌, Bool, true,
  false, Bool-cases, inl, inr, Option, some, List, [], ◌∷◌, ◌++◌, append-nil, length, length-append,
  u32, u64,
}
use triepack.Bits.{all_bits, to_bits}
use triepack.Bits.Codes.{length-to_bits}
use triepack.Alphabet.{SymbolInfo, ctrl_end, ctrl_end_val, ctrl_skip, ctrl_branch}
use triepack.Encoder.{Entry, varint_bits}
use triepack.Encoder.Size.{varint_bits_lem}
use triepack.Varint.Groups.{varint_bytes}
use triepack.Trie.{
  char_at, common_end, has_terminal, children, indexed, opt_then, terminal_size, children_size,
  branch_size, trie_subtree_size,
}
use triepack.Trie.Tree.{
  key_only, key_value, Node, count, label_bits, ending_bits, branch_head, preamble, node_bits,
  kids_bits, slice, ending_of, runs_length, grow_kids, grow, AllRuns, AllRuns-map, Enough,
}
use triepack.Trie.Runs.{length-le-runs_length, count-grow_kids, runs_length-children}

module _ (sym_info : SymbolInfo) where
  pub length-label_bits :
      (key : List ℕ) (n i : ℕ)
      → length (label_bits sym_info (slice key n i)) ≡ n * sym_info.bits_per_symbol
  unfolding label_bits slice
  length-label_bits key zero i = omega arith
  length-label_bits key (suc n) i =
      let code = sym_info.symbol_map (char_at key i) in
      grind (
        arith,
        length-append (to_bits sym_info.bits_per_symbol code)
            (label_bits sym_info (slice key n (i + 1))),
        length-to_bits sym_info.bits_per_symbol code,
        length-label_bits key n (i + 1),
      )

  size_of : ℕ → ℕ
  size_of v = length (all_bits (varint_bytes 9 v))

  counted : (a b c d : ℕ) → a ≡ b → c ≡ d → ◌≡◌ {A = Option (ℕ × ℕ)} (some (a, c)) (some (b, d))
  counted a b c d p q = ap₂ (λ x y. some (x, y)) p q

  ending_size :
      (b : Bool) (bits i : ℕ)
      → i + 1 < 2 ^ 32
      → bits + length (ending_bits sym_info (if b then key_value i else key_only)) < 2 ^ 64
      → (if b
          then opt_then {B = ℕ × ℕ}
              (varint_bits i)
              (λ n. some (u64 (bits + sym_info.bits_per_symbol + n), u32 (i + 1)))
          else some (u64 (bits + sym_info.bits_per_symbol), u32 (i + 1)))
        ≡ some (bits + length (ending_bits sym_info (if b then key_value i else key_only)), i + 1)
  unfolding ending_bits
  ending_size true bits i small fits =
      let code = to_bits sym_info.bits_per_symbol (sym_info.ctrl_codes ctrl_end_val) in
      let len = length-append code (all_bits (varint_bytes 9 i)) in
      let one = length-to_bits sym_info.bits_per_symbol (sym_info.ctrl_codes ctrl_end_val) in
      rw (varint_bits_lem i (omega arith)) (counted _ _ _ _ (omega (arith, len, one)) (omega arith))
  ending_size false bits i small fits =
      let one = length-to_bits sym_info.bits_per_symbol (sym_info.ctrl_codes ctrl_end) in
      counted _ _ _ _ (omega (arith, one)) (omega arith)

  module _ (has_values : Bool) where
    terminal_size_lem :
        (first : Entry) (bits i : ℕ)
        → i + 1 < 2 ^ 32
        → bits + length (ending_bits sym_info (ending_of has_values first i)) < 2 ^ 64
        → terminal_size sym_info has_values first bits i
          ≡ some (bits + length (ending_bits sym_info (ending_of has_values first i)), i + 1)
    unfolding terminal_size
    terminal_size_lem first bits i small fits =
        ending_size (indexed has_values first) bits i small fits

    abbrev pub Sized :
        (Entry → List Entry → ℕ → Option (ℕ × ℕ))
        → (Entry → List Entry → ℕ → Node)
        → Entry
        → List Entry
        → Type 0
    Sized sub tree e es =
        (i : ℕ)
        → i + suc (length es) < 2 ^ 32
        → length (node_bits sym_info (tree e es i)) < 2 ^ 64
        → sub e es i ≡ some (length (node_bits sym_info (tree e es i)), i + suc (length es))

    children_size_lem :
        (sub : Entry → List Entry → ℕ → Option (ℕ × ℕ)) (tree : Entry → List Entry → ℕ → Node)
        (runs : List (Entry × List Entry)) (bits i : ℕ)
        → AllRuns (Sized sub tree) runs
        → i + runs_length runs < 2 ^ 32
        → bits + length (kids_bits sym_info (grow_kids tree runs i)) < 2 ^ 64
        → children_size sym_info has_values sub runs bits i
          ≡ some (bits + length (kids_bits sym_info (grow_kids tree runs i)), i + runs_length runs)
    unfolding children_size kids_bits grow_kids preamble
    children_size_lem sub tree [] bits i h small fits = counted _ _ _ _ (omega arith) (omega arith)
    children_size_lem sub tree ((e, es) ∷ []) bits i h small fits =
        let bits_of = node_bits sym_info (tree e es i) in
        let len : length (bits_of ++ []) ≡ length bits_of = ap length (append-nil bits_of) in
        rw (h.0 i (omega arith) (omega (arith, len)))
          (counted _ _ _ _ (omega (arith, len)) (omega arith))
    children_size_lem sub tree ((e, es) ∷ (f, fs) ∷ runs) bits i h small fits =
        let one = node_bits sym_info (tree e es i) in
        let i' = i + suc (length es) in
        let rest = kids_bits sym_info (grow_kids tree ((f, fs) ∷ runs) i') in
        let skip = to_bits sym_info.bits_per_symbol (sym_info.ctrl_codes ctrl_skip) in
        let width : length skip ≡ sym_info.bits_per_symbol =
          length-to_bits sym_info.bits_per_symbol (sym_info.ctrl_codes ctrl_skip) in
        let n = length (all_bits (varint_bytes 9 (length one))) in
        let head = skip ++ all_bits (varint_bytes 9 (length one)) in
        let head_len : length head ≡ sym_info.bits_per_symbol + n =
          omega (arith, length-append skip (all_bits (varint_bytes 9 (length one))), width) in
        let total : length (head ++ (one ++ rest))
            ≡ sym_info.bits_per_symbol + n + length one + length rest =
          omega (arith, length-append head (one ++ rest), length-append one rest, head_len) in
        let wraps : u64 (bits + sym_info.bits_per_symbol + n + length one)
            ≡ bits + sym_info.bits_per_symbol + n + length one =
          omega (arith, total) in
        rw
          (
            h.0 i (omega arith) (omega (arith, total)),
            varint_bits_lem (length one) (omega (arith, total)),
            wraps,
          )
          (children_size_lem sub tree ((f, fs) ∷ runs)
              (bits + sym_info.bits_per_symbol + n + length one) i' h.1 (omega arith)
              (omega (arith, total))
            ∙ counted _ _ _ _ (omega (arith, total)) (omega arith))

    branch_size_lem :
        (sub : Entry → List Entry → ℕ → Option (ℕ × ℕ)) (tree : Entry → List Entry → ℕ → Node)
        (runs : List (Entry × List Entry)) (bits i : ℕ)
        → AllRuns (Sized sub tree) runs
        → i + runs_length runs < 2 ^ 32
        → bits
            + length (
                branch_head sym_info (grow_kids tree runs i)
                ++ kids_bits sym_info (grow_kids tree runs i))
          < 2 ^ 64
        → branch_size sym_info has_values sub runs bits i
          ≡ some (
            bits
                + length (
                    branch_head sym_info (grow_kids tree runs i)
                    ++ kids_bits sym_info (grow_kids tree runs i)),
            i + runs_length runs,
          )
    unfolding branch_size branch_head grow_kids
    branch_size_lem sub tree [] bits i h small fits =
        unfold kids_bits in counted _ _ _ _ (omega arith) (omega arith)
    branch_size_lem sub tree ((e, es) ∷ runs) bits i h small fits =
        let kids = kids_bits sym_info (grow_kids tree ((e, es) ∷ runs) i) in
        let code = to_bits sym_info.bits_per_symbol (sym_info.ctrl_codes ctrl_branch) in
        let k = suc (length runs) in
        let same : suc (count (grow_kids tree runs (i + suc (length es)))) ≡ k =
          ap suc (count-grow_kids tree runs (i + suc (length es))) in
        let few : u32 k ≡ k = omega (arith, length-le-runs_length runs) in
        let width : length code ≡ sym_info.bits_per_symbol =
          length-to_bits sym_info.bits_per_symbol (sym_info.ctrl_codes ctrl_branch) in
        let n = length (all_bits (varint_bytes 9 k)) in
        let head = code ++ all_bits (varint_bytes 9 k) in
        let total : length (head ++ kids) ≡ sym_info.bits_per_symbol + n + length kids = omega (
          arith,
          length-append head kids,
          length-append code (all_bits (varint_bytes 9 k)),
          width,
        ) in
        let fits' : bits + length (head ++ kids) < 2 ^ 64 = rw same at fits in
        let wraps : u64 (bits + sym_info.bits_per_symbol + n)
            ≡ bits + sym_info.bits_per_symbol + n =
          omega (arith, total) in
        rw (same, few, varint_bits_lem k (omega (arith, length-le-runs_length runs)), wraps)
          (children_size_lem sub tree ((e, es) ∷ runs) (bits + sym_info.bits_per_symbol + n) i h
              small (omega (arith, total))
            ∙ counted _ _ _ _ (omega (arith, total)) refl)

    -- `trie_subtree_size` returns the number of bits of the tree, and the index behind its entries.
    pub trie_subtree_size_lem :
        (fuel prefix_len : ℕ) (first : Entry) (others : List Entry) (i : ℕ)
        → Enough fuel prefix_len first others
        → i + suc (length others) < 2 ^ 32
        → length (node_bits sym_info (grow has_values fuel prefix_len first others i)) < 2 ^ 64
        → trie_subtree_size sym_info has_values fuel prefix_len first others i
          ≡ some (
            length (node_bits sym_info (grow has_values fuel prefix_len first others i)),
            i + suc (length others),
          )
    unfolding trie_subtree_size grow node_bits Enough ending_bits
    trie_subtree_size_lem zero prefix_len first others i h small fits = absurd h
    trie_subtree_size_lem (suc fuel) prefix_len first others i h small fits =
        let common = common_end prefix_len first others in
        let n = common - prefix_len in
        let runs = children common first others in
        let label = label_bits sym_info (slice first.key n prefix_len) in
        let label_len = length-label_bits first.key n prefix_len in
        let subs =
          AllRuns-map (Enough fuel common)
            (Sized (trie_subtree_size sym_info has_values fuel common)
              (grow has_values fuel common))
            (λ e es k j s f. trie_subtree_size_lem fuel common e es j k s f) runs h in
        let left = runs_length-children common first others i in
        let rest = λ (j : ℕ).
          branch_head sym_info (grow_kids (grow has_values fuel common) runs j)
          ++ kids_bits sym_info (grow_kids (grow has_values fuel common) runs j) in
        elim (Bool-cases (has_terminal common first)) [
          | inl t ↦
              let ending = ending_bits sym_info (ending_of has_values first i) in
              let fits' : length (label ++ (ending ++ rest (i + 1))) < 2 ^ 64 = rw t at fits in
              let left' : i + 1 + runs_length runs ≡ i + suc (length others) = rw t at left in
              let total : length (label ++ (ending ++ rest (i + 1)))
                  ≡ n * sym_info.bits_per_symbol + length ending + length (rest (i + 1)) =
                omega (
                  arith,
                  length-append label (ending ++ rest (i + 1)),
                  length-append ending (rest (i + 1)),
                  label_len,
                ) in
              let wraps : u64 (n * sym_info.bits_per_symbol) ≡ n * sym_info.bits_per_symbol =
                omega (arith, total) in
              rw
                (
                  t,
                  wraps,
                  terminal_size_lem first (n * sym_info.bits_per_symbol) i (omega arith)
                      (omega (arith, total)),
                )
                (branch_size_lem _ _ runs (n * sym_info.bits_per_symbol + length ending) (i + 1)
                    subs (omega (arith, left')) (omega (arith, total))
                  ∙ counted _ _ _ _ (omega (arith, total)) left')
          | inr t ↦
              let fits' : length (label ++ rest i) < 2 ^ 64 = rw t at fits in
              let left' : i + runs_length runs ≡ i + suc (length others) = rw t at left in
              let total : length (label ++ rest i)
                  ≡ n * sym_info.bits_per_symbol + length (rest i) =
                omega (arith, length-append label (rest i), label_len) in
              let wraps : u64 (n * sym_info.bits_per_symbol) ≡ n * sym_info.bits_per_symbol =
                omega (arith, total) in
              rw (t, wraps)
                (branch_size_lem _ _ runs (n * sym_info.bits_per_symbol) i subs
                    (omega (arith, left')) (omega (arith, total))
                  ∙ counted _ _ _ _ (omega (arith, total)) left')
        ]
