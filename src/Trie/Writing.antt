-- ===== src/Trie/Writing.antt =====
-- src/core/encoder.c: `trie_write` appends the bits of the tree.
use mathlib.Core.Path.{subst}
use triepack.Base.{
  ℕ, zero, suc, ◌+◌, ◌-◌, ◌^◌, ◌≤◌, ◌<◌, ◌≡◌, ap, arith, Bool, Bool-cases, inl, inr, Option, List,
  [], ◌∷◌, ◌++◌, append-nil, append_assoc, length, length-append, u32,
}
use triepack.Outcome.{M, pure, ◌>>=◌, ◌>>◌}
use triepack.Bits.{all_bits, to_bits}
use triepack.Alphabet.{SymbolInfo, ctrl_end, ctrl_end_val, ctrl_skip, ctrl_branch}
use triepack.Encoder.{Entry}
use triepack.Varint.Groups.{varint_bytes, write_varint_u-Writes}
use triepack.Writer.{Writer, write_bits}
use triepack.Writer.Writes.{Writes, Writes-seq, Writes-nothing, write_bits-Writes}
use triepack.Writer.Giving.{Gives, Gives-pure, Gives-bind, Gives-seq}
use triepack.Trie.{
  char_at, common_end, has_terminal, children, indexed, symbols_loop, write_terminal, write_skip,
  write_children, write_branch, trie_subtree_size, trie_write,
}
use triepack.Trie.Tree.{
  Node, count, label_bits, ending_bits, branch_head, preamble, node_bits, kids_bits, slice,
  ending_of, runs_length, grow_kids, grow, AllRuns, AllRuns-map, Enough,
}
use triepack.Trie.Runs.{length-le-runs_length, count-grow_kids, runs_length-children}
use triepack.Trie.Size.{Sized, trie_subtree_size_lem}

module _ (sym_info : SymbolInfo) (has_values : Bool) (grants : ℕ → Bool)
    (wide : 0 < sym_info.bits_per_symbol) (narrow : sym_info.bits_per_symbol ≤ 64) where
  write_code-Writes :
      (code : ℕ)
      → Writes grants
          (to_bits sym_info.bits_per_symbol code)
          (write_bits grants code sym_info.bits_per_symbol)
  write_code-Writes code = write_bits-Writes grants code sym_info.bits_per_symbol wide narrow

  symbols_loop-Writes :
      (key : List ℕ) (n i : ℕ)
      → Writes grants
          (label_bits sym_info (slice key n i))
          (symbols_loop sym_info has_values grants key n i)
  unfolding symbols_loop label_bits slice
  symbols_loop-Writes key zero i = Writes-nothing grants
  symbols_loop-Writes key (suc n) i =
      Writes-seq grants _ _ _ _ (write_code-Writes (sym_info.symbol_map (char_at key i)))
        (symbols_loop-Writes key n (i + 1))

  write_terminal-Writes :
      (first : Entry) (i : ℕ)
      → i < 2 ^ 64
      → Writes grants
          (ending_bits sym_info (ending_of has_values first i))
          (write_terminal sym_info has_values grants first i)
  unfolding write_terminal ending_bits
  write_terminal-Writes first i h = elim (Bool-cases (indexed has_values first)) [
    | inl t ↦ rw t (
        Writes-seq grants _ _ _ _ (write_code-Writes (sym_info.ctrl_codes ctrl_end_val))
          (write_varint_u-Writes grants i h))
    | inr t ↦ rw t (write_code-Writes (sym_info.ctrl_codes ctrl_end))
  ]

  abbrev Given :
      (Entry → List Entry → ℕ → M Writer ℕ)
      → (Entry → List Entry → ℕ → Node)
      → Entry
      → List Entry
      → Type 0
  Given sub tree e es =
      (i : ℕ)
      → i + suc (length es) < 2 ^ 32
      → length (node_bits sym_info (tree e es i)) < 2 ^ 64
      → Gives grants (node_bits sym_info (tree e es i)) (i + suc (length es)) (sub e es i)

  module _ (sub : Entry → List Entry → ℕ → M Writer ℕ)
      (size : Entry → List Entry → ℕ → Option (ℕ × ℕ)) (tree : Entry → List Entry → ℕ → Node) where
    write_children-Gives :
        (runs : List (Entry × List Entry)) (i : ℕ)
        → AllRuns (Given sub tree) runs
        → AllRuns (Sized sym_info has_values size tree) runs
        → i + runs_length runs < 2 ^ 32
        → length (kids_bits sym_info (grow_kids tree runs i)) < 2 ^ 64
        → Gives grants
            (kids_bits sym_info (grow_kids tree runs i))
            (i + runs_length runs)
            (write_children sym_info has_values grants sub size runs i)
    unfolding write_children kids_bits grow_kids preamble
    write_children-Gives [] i h k small fits =
        subst (λ j. Gives grants [] j (pure i)) (omega arith) (Gives-pure grants i)
    write_children-Gives ((e, es) ∷ []) i h k small fits =
        let one = node_bits sym_info (tree e es i) in
        let same : i + suc (length es) ≡ i + (suc (length es) + 0) = omega arith in
        let len : length (one ++ []) ≡ length one = ap length (append-nil one) in
        subst (λ j. Gives grants (one ++ []) j (sub e es i)) same
          (rw (append-nil one) (h.0 i (omega arith) (omega (arith, len))))
    write_children-Gives ((e, es) ∷ (f, fs) ∷ runs) i h k small fits =
        let one = node_bits sym_info (tree e es i) in
        let i' = i + suc (length es) in
        let rest = kids_bits sym_info (grow_kids tree ((f, fs) ∷ runs) i') in
        let head =
          to_bits sym_info.bits_per_symbol (sym_info.ctrl_codes ctrl_skip)
          ++ all_bits (varint_bytes 9 (length one)) in
        let total : length (head ++ (one ++ rest)) ≡ length head + (length one + length rest) =
          omega (arith, length-append head (one ++ rest), length-append one rest) in
        let last : i' + runs_length ((f, fs) ∷ runs) ≡ i + runs_length ((e, es) ∷ (f, fs) ∷ runs) =
          omega arith in
        subst
          (λ j. Gives grants (head ++ (one ++ rest)) j (do
            write_skip sym_info has_values grants (size e es i)
            vi ← sub e es i
            write_children sym_info has_values grants sub size ((f, fs) ∷ runs) vi))
          last
          (rw (k.0 i (omega arith) (omega (arith, total))) (
            Gives-seq grants head (one ++ rest) _ _ _
              (Writes-seq grants _ _ _ _ (write_code-Writes (sym_info.ctrl_codes ctrl_skip))
                (write_varint_u-Writes grants (length one) (omega (arith, total))))
              (Gives-bind grants one rest i' _ (sub e es i) _
                (h.0 i (omega arith) (omega (arith, total)))
                (write_children-Gives ((f, fs) ∷ runs) i' h.1 k.1 (omega arith)
                  (omega (arith, total))))))

    write_branch-Gives :
        (runs : List (Entry × List Entry)) (i : ℕ)
        → AllRuns (Given sub tree) runs
        → AllRuns (Sized sym_info has_values size tree) runs
        → i + runs_length runs < 2 ^ 32
        → length (kids_bits sym_info (grow_kids tree runs i)) < 2 ^ 64
        → Gives grants
            (branch_head sym_info (grow_kids tree runs i)
              ++ kids_bits sym_info (grow_kids tree runs i))
            (i + runs_length runs)
            (write_branch sym_info has_values grants sub size runs i)
    unfolding write_branch branch_head grow_kids
    write_branch-Gives [] i h k small fits =
        unfold kids_bits in
        subst (λ j. Gives grants [] j (pure i)) (omega arith) (Gives-pure grants i)
    write_branch-Gives ((e, es) ∷ runs) i h k small fits =
        let n = suc (length runs) in
        let same : suc (count (grow_kids tree runs (i + suc (length es)))) ≡ n =
          ap suc (count-grow_kids tree runs (i + suc (length es))) in
        let few : u32 n ≡ n = omega (arith, length-le-runs_length runs) in
        let code = to_bits sym_info.bits_per_symbol (sym_info.ctrl_codes ctrl_branch) in
        let kids = kids_bits sym_info (grow_kids tree ((e, es) ∷ runs) i) in
        rw (same, few, append_assoc code (all_bits (varint_bytes 9 n)) kids)
          (Gives-seq grants code (all_bits (varint_bytes 9 n) ++ kids) _ _ _
            (write_code-Writes (sym_info.ctrl_codes ctrl_branch))
            (Gives-seq grants (all_bits (varint_bytes 9 n)) kids _ _ _
              (write_varint_u-Writes grants n (omega (arith, length-le-runs_length runs)))
              (write_children-Gives ((e, es) ∷ runs) i h k small fits)))

  pub trie_write-Gives :
      (fuel prefix_len : ℕ) (first : Entry) (others : List Entry) (i : ℕ)
      → Enough fuel prefix_len first others
      → i + suc (length others) < 2 ^ 32
      → length (node_bits sym_info (grow has_values fuel prefix_len first others i)) < 2 ^ 64
      → Gives grants
          (node_bits sym_info (grow has_values fuel prefix_len first others i))
          (i + suc (length others))
          (trie_write sym_info has_values grants fuel prefix_len first others i)
  unfolding trie_write grow node_bits Enough ending_bits
  trie_write-Gives zero prefix_len first others i h small fits = absurd h
  trie_write-Gives (suc fuel) prefix_len first others i h small fits =
      let common = common_end prefix_len first others in
      let n = common - prefix_len in
      let runs = children common first others in
      let label = label_bits sym_info (slice first.key n prefix_len) in
      let tree = grow has_values fuel common in
      let size = trie_subtree_size sym_info has_values fuel common in
      let sub = trie_write sym_info has_values grants fuel common in
      let subs =
        AllRuns-map (Enough fuel common) (Given sub tree)
          (λ e es k j s f. trie_write-Gives fuel common e es j k s f) runs h in
      let sizes =
        AllRuns-map (Enough fuel common) (Sized sym_info has_values size tree)
          (λ e es k j s f. trie_subtree_size_lem sym_info has_values fuel common e es j k s f) runs
          h in
      let left = runs_length-children common first others i in
      let kids = λ (j : ℕ). kids_bits sym_info (grow_kids tree runs j) in
      let rest = λ (j : ℕ). branch_head sym_info (grow_kids tree runs j) ++ kids j in
      let rest_len =
        λ (j : ℕ). length-append (branch_head sym_info (grow_kids tree runs j)) (kids j) in
      elim (Bool-cases (has_terminal common first)) [
        | inl t ↦
            let ending = ending_bits sym_info (ending_of has_values first i) in
            let fits' : length (label ++ (ending ++ rest (i + 1))) < 2 ^ 64 = rw t at fits in
            let left' : i + 1 + runs_length runs ≡ i + suc (length others) = rw t at left in
            let wraps : u32 (i + 1) ≡ i + 1 = omega arith in
            let total : length (kids (i + 1)) ≤ length (label ++ (ending ++ rest (i + 1))) = omega (
              arith,
              rest_len (i + 1),
              length-append label (ending ++ rest (i + 1)),
              length-append ending (rest (i + 1)),
            ) in
            rw (t, wraps, ← left')
              (Gives-seq grants label (ending ++ rest (i + 1)) _ _ _
                (symbols_loop-Writes first.key n prefix_len)
                (Gives-seq grants ending (rest (i + 1)) _ _ _
                  (write_terminal-Writes first i (omega arith))
                  (write_branch-Gives sub size tree runs (i + 1) subs sizes (omega (arith, left'))
                    (omega (arith, total)))))
        | inr t ↦
            let fits' : length (label ++ rest i) < 2 ^ 64 = rw t at fits in
            let left' : i + runs_length runs ≡ i + suc (length others) = rw t at left in
            let total : length (kids i) ≤ length (label ++ rest i) =
              omega (arith, rest_len i, length-append label (rest i)) in
            rw (t, ← left')
              (Gives-seq grants label (rest i) _ _ _ (symbols_loop-Writes first.key n prefix_len) (
                write_branch-Gives sub size tree runs i subs sizes (omega (arith, left'))
                  (omega (arith, total))))
      ]
