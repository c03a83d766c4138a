-- ===== src/Trie/Good.antt =====
-- src/core/encoder.c: the tree of sorted entries is one that a lookup can follow.
use mathlib.Core.Path.{subst}
use triepack.Base.{
  ℕ, zero, suc, ◌+◌, ◌-◌, ◌^◌, ◌≤◌, ◌<◌, ◌≡◌, sym, arith, if◌then◌else◌, Bool, true, false,
  Bool-cases, inl, inr, List, [], ◌∷◌, length, drop, All, All-split,
}
use triepack.Alphabet.{SymbolInfo}
use triepack.Encoder.{Entry}
use triepack.Trie.{char_at, common_end, has_terminal, children, runs_at, indexed}
use triepack.Trie.Tree.{
  Node, node, kid, count, slice, grow_kids, grow, runs_length, AllRuns, AllRuns-map, Enough,
}
use triepack.Trie.Runs.{count-grow_kids, runs_length-runs_at, length-le-runs_length}
use triepack.Trie.Find.{IsLabel, IsEnding, AreGood, no_kids, good_kid}
use triepack.Trie.Order.{Part, first_run}
use triepack.Trie.Depth.{Stop, both_runs, children_parts, common_end-Stop, first_byte}
use triepack.Trie.Groups.{flat, Groups, flat-runs_at, runs_at-Groups, label}
use triepack.Trie.Grown.{
  Labelled, grow-Labelled, Groups-others, ends_here, goes_on, end_at, kids_at,
}

AllRuns-flat :
    (P : Entry → Type 0) (runs : List (Entry × List Entry))
    → All P (flat runs)
    → AllRuns (λ e es. All P (e ∷ es)) runs
unfolding flat
AllRuns-flat P [] h = tt
AllRuns-flat P ((e, es) ∷ runs) h =
    let (own, more) = All-split P es (flat runs) h.1 in ((h.0, own), AllRuns-flat P runs more)

All-char_at :
    (P : ℕ → Type 0) (key : List ℕ) (i : ℕ) → i < length key → All P key → P (char_at key i)
unfolding char_at
All-char_at P [] i l h = absurd (omega arith)
All-char_at P (x ∷ key) zero l h = h.0
All-char_at P (x ∷ key) (suc i) l h = All-char_at P key i (omega arith) h.1

All-slice :
    (P : ℕ → Type 0) (key : List ℕ) (n i : ℕ)
    → n + i ≤ length key
    → All P key
    → All P (slice key n i)
unfolding slice
All-slice P key zero i l h = tt
All-slice P key (suc n) i l h =
    (All-char_at P key i (omega arith) h, All-slice P key n (i + 1) (omega arith) h)

module _ (info : SymbolInfo) where
  -- A node that a lookup can follow.
  abbrev pub IsGood : Node → Type 0
  IsGood (node label e ts) =
      All (IsLabel info) label × IsEnding e ts × (count ts < 2 ^ 32) × AreGood info ts

  abbrev pub IsSpelt : Entry → Type 0
  IsSpelt e = All (IsLabel info) e.key

  IsSpelt-children :
      (c : ℕ) (first : Entry) (others : List Entry)
      → All IsSpelt (first ∷ others)
      → AllRuns (λ e es. All IsSpelt (e ∷ es)) (children c first others)
  unfolding children
  IsSpelt-children c first others h = elim (Bool-cases (has_terminal c first)) [
    | inl t ↦ rw t (
        AllRuns-flat IsSpelt (runs_at c others)
          (subst (All IsSpelt) (sym (flat-runs_at c others)) h.1))
    | inr t ↦ rw t (
        AllRuns-flat IsSpelt (runs_at c (first ∷ others))
          (subst (All IsSpelt) (sym (flat-runs_at c (first ∷ others))) h))
  ]

  abbrev Grows : (Entry → List Entry → ℕ → Node) → Entry → List Entry → Type 0
  Grows sub e es = (i : ℕ) → i + suc (length es) < 2 ^ 32 → IsGood (sub e es i)

  kids-AreGood :
      (sub : Entry → List Entry → ℕ → Node) (c : ℕ) (runs : List (Entry × List Entry)) (i : ℕ)
      → Groups c runs
      → AllRuns (Labelled sub c) runs
      → AllRuns (Grows sub) runs
      → i + runs_length runs < 2 ^ 32
      → AreGood info (grow_kids sub runs i)
  unfolding grow_kids
  kids-AreGood sub c [] i groups labelled grows small = no_kids
  kids-AreGood sub c ((e, es) ∷ runs) i ((b, headed, inside, behind), groups) labelled grows small =
      let (more, end, ts, is) = labelled.0 b i headed inside in
      let (codes, ending, few, below) = subst IsGood is (grows.0 i (omega arith)) in
      let rest =
        kids-AreGood sub c runs (i + suc (length es)) groups labelled.1 grows.1 (omega arith) in
      subst (λ t. AreGood info (kid t (grow_kids sub runs (i + suc (length es))))) (sym is)
        (good_kid tt codes ending few below rest)

  module _ (has_values : Bool) where
    module _ (sub : Entry → List Entry → ℕ → Node) (c i : ℕ) (first : Entry) (others : List Entry)
        (stop : Stop c first others) (small : i + suc (length others) < 2 ^ 32) where
      abbrev Follows : Bool → Type 0
      Follows t =
          AllRuns (Labelled sub c) (runs_at c (if t then others else first ∷ others))
          → AllRuns (Grows sub) (runs_at c (if t then others else first ∷ others))
          → IsEnding (end_at has_values t first i) (kids_at has_values sub c t first others i)
            × (count (kids_at has_values sub c t first others i) < 2 ^ 32)
            × AreGood info (kids_at has_values sub c t first others i)

      few_runs : (es : List Entry) → length (runs_at c es) ≤ length es
      few_runs es = omega (arith, length-le-runs_length (runs_at c es), runs_length-runs_at c es)

      Follows-end : Follows true
      Follows-end labelled grows = (
        elim (Bool-cases (indexed has_values first)) [
          | inl t ↦ rw t (omega arith)
          | inr t ↦ rw t tt
        ],
        omega (arith, count-grow_kids sub (runs_at c others) (i + 1), few_runs others),
        kids-AreGood sub c (runs_at c others) (i + 1)
            (Groups-others has_values c first others stop.0) labelled grows
            (omega (arith, runs_length-runs_at c others)),
      )

      Follows-on : (b : ℕ) (xs : List ℕ) → drop c first.key ≡ b ∷ xs → Follows false
      unfolding grow_kids
      Follows-on b xs d labelled grows =
          let (own, more, run) = first_run c first others in
          let groups =
            runs_at-Groups c b xs first others d (first_byte c b xs first.key d) stop.0 in
          (
            rw run tt,
            omega (
              arith,
              count-grow_kids sub (runs_at c (first ∷ others)) i,
              few_runs (first ∷ others),
            ),
            kids-AreGood sub c (runs_at c (first ∷ others)) i groups labelled grows
                (omega (arith, runs_length-runs_at c (first ∷ others))),
          )

      follows : Follows (has_terminal c first)
      follows = elim stop.2 [
        | inl h ↦ rw (ends_here c first h) Follows-end
        | inr (b, xs, d, lt, n) ↦ rw (goes_on c first lt) (Follows-on b xs d)
      ]

    pub grow-IsGood :
        (fuel p : ℕ) (first : Entry) (others : List Entry)
        → Enough fuel p first others
        → Part p first others
        → All IsSpelt (first ∷ others)
        → Grows (grow has_values fuel p) first others
    unfolding Enough grow children
    grow-IsGood zero p first others enough part spelt i small = absurd enough
    grow-IsGood (suc fuel) p first others enough part spelt i small =
        let c = common_end p first others in
        let sub = grow has_values fuel c in
        let (up, stop) = common_end-Stop p first others part in
        let runs = children c first others in
        let labelled : AllRuns (Labelled sub c) runs =
          AllRuns-map _ (Labelled sub c) (λ e es h. grow-Labelled has_values fuel c e es h) runs
            enough in
        let spelt_runs : AllRuns (λ e es. All IsSpelt (e ∷ es)) runs =
          IsSpelt-children c first others spelt in
        let parts =
          both_runs _ _ runs spelt_runs
            (both_runs _ _ runs enough (children_parts c first others stop)) in
        let grows : AllRuns (Grows sub) runs =
          AllRuns-map _ (Grows sub) (λ e es (s, (n, (q, l))). grow-IsGood fuel c e es n q s) runs
            parts in
        let (ending, few, good) = follows sub c i first others stop small labelled grows in
        (
          All-slice (IsLabel info) first.key (c - p) p (omega (arith, up, stop.1)) spelt.0,
          ending,
          few,
          good,
        )
