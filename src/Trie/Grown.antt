-- ===== src/Trie/Grown.antt =====
-- src/core/encoder.c: the tree of sorted entries holds what the entries hold.
use mathlib.Core.Path.{subst}
use triepack.Base.{
  ℕ, zero, suc, ◌+◌, ◌<◌, ◌≡◌, refl, ap, sym, ◌∙◌, arith, ◌==◌, ==_iff, equal, if◌then◌else◌, Bool,
  true, false, Bool-cases, inl, inr, Option, none, some, List, [], ◌∷◌, length, drop, All,
}
use triepack.Encoder.{Entry}
use triepack.Encoder.Compare.{IsAscending}
use triepack.Trie.{common_end, has_terminal, children, runs_at}
use triepack.Trie.Tree.{
  Ending, no_key, Node, node, Kids, kid, ending_of, grow_kids, grow, AllRuns, AllRuns-map, Enough,
}
use triepack.Trie.Find.{strip, here_or, rest_of, find_kids, find}
use triepack.Trie.Order.{Chain, Part}
use triepack.Trie.Depth.{Stop, both_runs, children_parts, common_end-Stop, first_byte}
use triepack.Trie.Held.{
  held, Shares, Headed, Behind, held-none, held-some, held-Longer, held-front, held-back,
}
use triepack.Trie.Groups.{
  flat, Groups, flat-runs_at, runs_at-Groups, Chain-Longer, label, common_end-Shares, label-Headed,
}
use triepack.Trie.Agree.{IsAscending-Chain, Enough-whole}

-- A child's label begins with the byte that its keys share.
abbrev pub Labelled : (Entry → List Entry → ℕ → Node) → ℕ → Entry → List Entry → Type 0
Labelled sub c e es =
    (b i : ℕ)
    → Headed c b e
    → All (Headed c b) es
    → (more : List ℕ) × (end : Ending) × (ts : Kids) × (sub e es i ≡ node (b ∷ more) end ts)

pub drop_all : (c : ℕ) (key : List ℕ) → length key ≡ c → drop c key ≡ []
drop_all zero [] h = refl
drop_all zero (x ∷ key) h = absurd (omega arith)
drop_all (suc c) [] h = absurd (omega arith)
drop_all (suc c) (x ∷ key) h = drop_all c key (omega arith)

pub ends_here : (c : ℕ) (first : Entry) → length first.key ≡ c → has_terminal c first ≡ true
unfolding has_terminal
ends_here c first h = (==_iff _ _).1 h

pub goes_on : (c : ℕ) (first : Entry) → c < length first.key → has_terminal c first ≡ false
unfolding has_terminal
goes_on c first h = ground arith

module _ (has_values : Bool) where
  abbrev Finds : (Entry → List Entry → ℕ → Node) → ℕ → Entry → List Entry → Type 0
  Finds sub c e es =
      (i : ℕ) (key : List ℕ) → find (sub e es i) key ≡ held has_values c (e ∷ es) i key

  kid_hit :
      (b ch : ℕ) (more key : List ℕ) (end : Ending) (ts us : Kids)
      → (b == ch) ≡ true
      → find_kids (kid (node (b ∷ more) end ts) us) (ch ∷ key)
        ≡ find (node (b ∷ more) end ts) (ch ∷ key)
  unfolding find_kids find
  kid_hit b ch more key end ts us h = rw h refl

  kid_miss :
      (b ch : ℕ) (more key : List ℕ) (end : Ending) (ts us : Kids)
      → (b == ch) ≡ false
      → find_kids (kid (node (b ∷ more) end ts) us) (ch ∷ key) ≡ find_kids us (ch ∷ key)
  unfolding find_kids
  kid_miss b ch more key end ts us h = rw h refl

  -- The children hold what their entries hold.
  kids-held :
      (sub : Entry → List Entry → ℕ → Node) (c ch : ℕ) (key : List ℕ)
      (runs : List (Entry × List Entry)) (i : ℕ)
      → Groups c runs
      → AllRuns (Finds sub c) runs
      → AllRuns (Labelled sub c) runs
      → find_kids (grow_kids sub runs i) (ch ∷ key) ≡ held has_values c (flat runs) i (ch ∷ key)
  unfolding grow_kids flat
  kids-held sub c ch key [] i groups finds labelled = unfold find_kids in unfold held in refl
  kids-held sub c ch key ((e, es) ∷ runs) i ((b, headed, inside, behind), groups) finds labelled =
      let (more, end, ts, is) = labelled.0 b i headed inside in
      let us = grow_kids sub runs (i + suc (length es)) in
      let rest = kids-held sub c ch key runs (i + suc (length es)) groups finds.1 labelled.1 in
      ap (λ t. find_kids (kid t us) (ch ∷ key)) is ∙ elim (Bool-cases (b == ch)) [
        | inl t ↦
            kid_hit b ch more key end ts us t
            ∙ ap (λ n. find n (ch ∷ key)) (sym is)
            ∙ finds.0 i (ch ∷ key)
            ∙ sym (
                held-front has_values c ch key (e ∷ es) (flat runs) i
                  (subst (λ k. All (Behind c k) (flat runs)) ((==_iff b ch).0 t) behind))
        | inr t ↦
            kid_miss b ch more key end ts us t
            ∙ rest
            ∙ sym (held-back has_values c b ch key (e ∷ es) (flat runs) i t (headed, inside))
      ]

  pub grow-Labelled :
      (fuel c : ℕ) (e : Entry) (es : List Entry)
      → Enough fuel c e es
      → Labelled (grow has_values fuel c) c e es
  unfolding Enough grow
  grow-Labelled zero c e es enough b i headed inside = absurd enough
  grow-Labelled (suc fuel) c e es enough b i headed inside =
      let (more, is) = label-Headed e c b es headed inside in
      let c' = common_end c e es in
      let end = if has_terminal c' e then ending_of has_values e i else no_key in
      let ts =
        grow_kids (grow has_values fuel c') (children c' e es)
          (if has_terminal c' e then i + 1 else i) in
      (more, end, ts, ap (λ l. node l end ts) is)

  -- What `grow` puts at a node, by whether the first key ends there.
  abbrev pub end_at : Bool → Entry → ℕ → Ending
  end_at t first i = if t then ending_of has_values first i else no_key

  abbrev pub kids_at : (Entry → List Entry → ℕ → Node) → ℕ → Bool → Entry → List Entry → ℕ → Kids
  kids_at sub c t first others i =
      grow_kids sub (runs_at c (if t then others else first ∷ others)) (if t then i + 1 else i)

  pub Groups-others :
      (c : ℕ) (first : Entry) (others : List Entry)
      → Chain c first others
      → Groups c (runs_at c others)
  Groups-others c first [] h = unfold runs_at in tt
  Groups-others c first (f ∷ fs) h =
      let (y, ys, d) = (Chain-Longer c first (f ∷ fs) h).0 in
      runs_at-Groups c y ys f fs d (first_byte c y ys f.key d) h.1

  module _ (sub : Entry → List Entry → ℕ → Node) (c i : ℕ) (first : Entry) (others : List Entry)
      (stop : Stop c first others) where
    abbrev Holding : Bool → Type 0
    Holding t =
        AllRuns (Finds sub c) (runs_at c (if t then others else first ∷ others))
        → AllRuns (Labelled sub c) (runs_at c (if t then others else first ∷ others))
        → (end_at t first i ≡ held has_values c (first ∷ others) i [])
          × ((ch : ℕ) (key : List ℕ)
              → find_kids (kids_at sub c t first others i) (ch ∷ key)
                ≡ held has_values c (first ∷ others) i (ch ∷ key))

    Holding-end : length first.key ≡ c → Holding true
    unfolding held equal
    Holding-end h finds labelled =
        let d = drop_all c first.key h in
        let groups = Groups-others c first others stop.0 in
        (
          rw d refl,
          λ ch key.
              kids-held sub c ch key (runs_at c others) (i + 1) groups finds labelled
              ∙ rw (flat-runs_at c others, d) refl,
        )

    Holding-on : (b : ℕ) (xs : List ℕ) → drop c first.key ≡ b ∷ xs → Holding false
    Holding-on b xs d finds labelled =
        let groups = runs_at-Groups c b xs first others d (first_byte c b xs first.key d) stop.0 in
        (
          sym (
              held-Longer has_values c (first ∷ others) i
                ((b, xs, d), Chain-Longer c first others stop.0)),
          λ ch key.
              kids-held sub c ch key (runs_at c (first ∷ others)) i groups finds labelled
              ∙ rw (flat-runs_at c (first ∷ others)) refl,
        )

    holding : Holding (has_terminal c first)
    holding = elim stop.2 [
      | inl h ↦ rw (ends_here c first h) (Holding-end h)
      | inr (b, xs, d, lt, n) ↦ rw (goes_on c first lt) (Holding-on b xs d)
    ]

  at_node :
      (p c i : ℕ) (common key : List ℕ) (es : List Entry) (end : Ending) (ts : Kids)
      (left : Option (List ℕ))
      → strip common key ≡ left
      → All (Shares p c common) es
      → end ≡ held has_values c es i []
      → ((ch : ℕ) (key : List ℕ) → find_kids ts (ch ∷ key) ≡ held has_values c es i (ch ∷ key))
      → here_or end (find_kids ts (rest_of left)) left ≡ held has_values p es i key
  at_node p c i common key es end ts none s shares e k =
      sym (held-none has_values p c common key es i s shares)
  at_node p c i common key es end ts (some []) s shares e k =
      e ∙ sym (held-some has_values p c common key [] es i s shares)
  at_node p c i common key es end ts (some (ch ∷ rest)) s shares e k =
      k ch rest ∙ sym (held-some has_values p c common key (ch ∷ rest) es i s shares)

  grow-Finds :
      (fuel p : ℕ) (first : Entry) (others : List Entry)
      → Enough fuel p first others
      → Part p first others
      → Finds (grow has_values fuel p) p first others
  unfolding Enough grow find children
  grow-Finds zero p first others enough part i key = absurd enough
  grow-Finds (suc fuel) p first others enough part i key =
      let c = common_end p first others in
      let sub = grow has_values fuel c in
      let (up, stop) = common_end-Stop p first others part in
      let runs = children c first others in
      let parts = both_runs _ _ runs enough (children_parts c first others stop) in
      let finds : AllRuns (Finds sub c) runs =
        AllRuns-map _ (Finds sub c) (λ e es (n, (q, small)). grow-Finds fuel c e es n q) runs
          parts in
      let labelled : AllRuns (Labelled sub c) runs =
        AllRuns-map _ (Labelled sub c) (λ e es h. grow-Labelled fuel c e es h) runs enough in
      let (end, kids) = holding sub c i first others stop finds labelled in
      at_node p c i (label first p c) key (first ∷ others) _ _ _ refl
        (common_end-Shares first p others part.0) end kids

-- The tree of entries in ascending order, numbered from `i`, holds under every key what the entries
-- hold: where an entry has that key, the entry's number or that it has no value, else nothing.
pub find-grow :
    (has_values : Bool) (first : Entry) (others : List Entry) (i : ℕ) (key : List ℕ)
    → IsAscending (first ∷ others)
    → find (grow has_values (suc (length others)) 0 first others i) key
      ≡ held has_values 0 (first ∷ others) i key
find-grow has_values first others i key h =
    grow-Finds has_values (suc (length others)) 0 first others (Enough-whole first others h)
      (omega arith, IsAscending-Chain first others h) i key
