-- ===== src/Dict/Siblings.antt =====
-- src/core/decoder.c: the loop over the children in `tp_dict_lookup_n`, over the bits of a trie.
use mathlib.Core.Path.{subst}
use triepack.Base.{
  ℕ, suc, ◌+◌, ◌*◌, ◌^◌, ◌<◌, ◌≡◌, refl, ap, arith, ltb, lt→ltb, ◌==◌, ==_iff, true, false,
  Bool-cases, inl, inr, List, [], ◌∷◌, ◌++◌, append_assoc, append-nil, length, length-append,
}
use triepack.Outcome.{◌>>◌}
use triepack.Bits.{all_bits}
use triepack.Alphabet.{SymbolInfo, ctrl_skip}
use triepack.Reader.{Reader}
use triepack.Reader.Ahead.{Ahead, Ahead-append, moved}
use triepack.Reader.Peek.{advance-Ahead}
use triepack.Varint.Groups.{varint_bytes}
use triepack.Trie.Tree.{
  Ending, Node, node, Kids, nil, kid, count, code_bits, label_bits, ending_bits, branch_head,
  preamble, node_bits, kids_bits,
}
use triepack.Trie.Find.{
  strip, here_or, rest_of, find_kids, goes_on, runs_off_kids, IsTable, IsPlainCode, AreGood,
  no_kids, good_kid,
}
use triepack.Dict.Lookup.{pass_child, child_loop, lookup_loop}
use triepack.Dict.Children.{skip_of, child_round}
use triepack.Dict.Walk.{regroup, Answers, absent, Answers-moved, Halts, Below, missed, at_label}

regroup_kids : (a b c d : List ℕ) → (a ++ (b ++ c)) ++ d ≡ a ++ (b ++ (c ++ d))
regroup_kids a b c d = simp append_assoc

regroup_node :
    (a b c d e f : List ℕ) → ((a ++ b) ++ (c ++ (d ++ e))) ++ f ≡ a ++ (b ++ (c ++ ((d ++ e) ++ f)))
regroup_node a b c d e f = simp append_assoc

-- The first child whose label starts with the byte is the one taken.
module _ (x ch : ℕ) (label key : List ℕ) (e : Ending) (ts us : Kids) where
  hit_kid :
      (x == ch) ≡ true
      → find_kids (kid (node (x ∷ label) e ts) us) (ch ∷ key)
        ≡ here_or e (find_kids ts (rest_of (strip label key))) (strip label key)
  unfolding find_kids strip
  hit_kid m = rw m refl

  miss_kid :
      (x == ch) ≡ false
      → find_kids (kid (node (x ∷ label) e ts) us) (ch ∷ key) ≡ find_kids us (ch ∷ key)
  unfolding find_kids
  miss_kid m = rw m refl

module _ (info : SymbolInfo) (t : IsTable info) where
  -- Past a child that does not match.
  pass_on :
      (x : ℕ) (label : List ℕ) (e : Ending) (ts us : Kids) (fuel ch : ℕ) (key : List ℕ) (s : Reader)
      (body after : List ℕ)
      → Below info t us
      → Ahead s (body ++ (kids_bits info us ++ after))
      → length key * suc s.bit_len + s.bit_len < fuel
      → (runs_off_kids (kid (node (x ∷ label) e ts) us) (ch ∷ key) ≡ true → Halts info after)
      → Answers s (find_kids us (ch ∷ key)) (
          ((pass_child info (ltb 0 (count us)) (skip_of us (length body))
                >> child_loop info ch (count us))
              >> lookup_loop info fuel false key)
            s)
  unfolding pass_child runs_off_kids
  pass_on x label e ts nil fuel ch key s body after below ahead enough halts =
      unfold find_kids in unfold count in unfold child_loop in absent refl refl
  pass_on x label e ts (kid u us) fuel ch key s body after below ahead enough halts =
      let (one, two) = Ahead-append s body (kids_bits info (kid u us) ++ after) ahead in
      let more : ltb 0 (count (kid u us)) ≡ true = unfold count in lt→ltb 0 _ (omega arith) in
      rw (more, advance-Ahead body s one)
        (Answers-moved (length body)
          (below fuel ch key (moved s (length body)) after two enough halts))

  skip_plain : IsPlainCode info (info.ctrl_codes ctrl_skip)
  skip_plain = record {
    fits = t.skip_fits;
    ne_end = t.skip_ne_end;
    ne_end_val = t.skip_ne_end_val;
    ne_branch = t.skip_ne_branch;
  }

  -- In front of a child stands a SKIP symbol or the first byte of its label.
  kids-Halts :
      {u : Node} {us : Kids} (after : List ℕ)
      → AreGood info (kid u us)
      → Halts info (kids_bits info (kid u us) ++ after)
  unfolding kids_bits node_bits label_bits preamble
  kids-Halts after (good_kid {label = []} ne codes good few gts gus) = absurd ne
  kids-Halts after (good_kid {label = x ∷ label} {e} {ts} {us = nil} ne codes good few gts gus) = (
    info.symbol_map x,
    (label_bits info label ++ (ending_bits info e ++ (branch_head info ts ++ kids_bits info ts)))
        ++ after,
    codes.0.plain,
    simp (append_assoc, append-nil),
  )
  kids-Halts after
        (good_kid {label = x ∷ label} {e} {ts} {us = kid v vs} ne codes good few gts gus) =
      (
        info.ctrl_codes ctrl_skip,
        size ++ ((one ++ kids_bits info (kid v vs)) ++ after),
        skip_plain,
        regroup (code_bits info (info.ctrl_codes ctrl_skip)) size (one ++ kids_bits info (kid v vs))
            after,
      )
    where
      one : List ℕ
      one = node_bits info (node (x ∷ label) e ts)

      size : List ℕ
      size = all_bits (varint_bytes 9 (length one))

  -- What comes behind the child taken stops a key that is longer.
  next-Halts :
      (x ch : ℕ) (label : List ℕ) (e : Ending) (ts us : Kids) (key after : List ℕ)
      → (x == ch) ≡ true
      → AreGood info us
      → (runs_off_kids (kid (node (x ∷ label) e ts) us) (ch ∷ key) ≡ true → Halts info after)
      → goes_on (runs_off_kids ts (rest_of (strip label key))) (strip label key) ≡ true
      → Halts info (kids_bits info us ++ after)
  unfolding kids_bits runs_off_kids strip
  next-Halts x ch label e ts nil key after m good halts off = (rw m at halts) off
  next-Halts x ch label e ts (kid u us) key after m good halts off = kids-Halts after good

  -- The loop over the children, and what follows, find what the tree says.
  pub kids_walk : (ts : Kids) → AreGood info ts → Below info t ts
  unfolding count
  kids_walk nil no_kids fuel ch key r after ahead enough halts =
      unfold find_kids in unfold child_loop in absent refl refl
  kids_walk (kid (node [] e ts) us) (good_kid ne codes good few gts gus) fuel ch key r after ahead
        enough halts =
      absurd ne
  kids_walk (kid (node (x ∷ label) e ts) us) (good_kid ne codes good few gts gus) fuel ch key r
        after ahead enough halts =
      let one = node_bits info (node (x ∷ label) e ts) in
      let n = length one in
      let pre = preamble info us n in
      let code = code_bits info (info.symbol_map x) in
      let inner = ending_bits info e ++ (branch_head info ts ++ kids_bits info ts) in
      let rest = kids_bits info us ++ after in
      let bits : Ahead r (pre ++ (one ++ rest)) =
        subst (λ b. Ahead r b) (regroup_kids pre one (kids_bits info us) after)
          (unfold kids_bits in ahead) in
      let inner_bits : Ahead r (
          pre
          ++ (code
              ++ (label_bits info label
                  ++ (ending_bits info e
                      ++ ((branch_head info ts ++ kids_bits info ts) ++ rest))))) =
        subst (λ b. Ahead r (pre ++ b))
          (regroup_node code (label_bits info label) (ending_bits info e) (branch_head info ts)
            (kids_bits info ts) rest)
          (unfold node_bits in unfold label_bits in bits) in
      let small : n < 2 ^ 64 =
        omega (
          arith,
          bits.within,
          bits.word,
          length-append pre (one ++ rest),
          length-append one rest,
        ) in
      let round = child_round info t ch x us n _ r small codes.0 inner_bits in
      let (_, at_child) = Ahead-append r pre (one ++ rest) bits in
      let (_, at_code) = Ahead-append r pre _ inner_bits in
      let (_, at_rest) = Ahead-append (moved r (length pre)) code _ at_code in
      let loop = lookup_loop info fuel false key in
      elim (Bool-cases (x == ch)) [
        | inl m ↦
            let hit : (info.symbol_map x == info.symbol_map ch) ≡ true =
              (==_iff _ _).1 (ap info.symbol_map ((==_iff x ch).0 m)) in
            let found = hit_kid x ch label key e ts us m in
            rw (round, hit, found)
              (Answers-moved (length pre) (
                Answers-moved (length code) (
                  at_label info t label e ts fuel key (moved (moved r (length pre)) (length code))
                    rest (kids_walk ts gts) codes.1 good few at_rest (omega arith)
                    (next-Halts x ch label e ts us key after m gus halts))))
        | inr m ↦
            let miss = missed info t x ch codes.0 m in
            let found = miss_kid x ch label key e ts us m in
            rw (round, miss, found)
              (Answers-moved (length pre) (
                pass_on x label e ts us fuel ch key (moved r (length pre)) one after
                  (kids_walk us gus) at_child enough halts))
      ]
