-- ===== src/Trie/Depth.antt =====
-- src/core/encoder.c: the recursion of `trie_subtree_size` and `trie_write` ends.
use mathlib.Core.Path.{subst}
use triepack.Base.{
  ℕ, zero, suc, ◌+◌, ◌≤◌, ◌<◌, ◌≡◌, refl, ap, sym, ◌∙◌, arith, ◌⊎◌, inl, inr, ◌==◌, ==_iff, ltb,
  ◌&&◌, Bool, true, false, Bool-cases, List, [], ◌∷◌, length, length-drop, drop,
}
use triepack.Encoder.{Entry}
use triepack.Encoder.Compare.{Less}
use triepack.Trie.{char_at, all_have, common_loop, common_end, has_terminal, children, runs_at}
use triepack.Trie.Tree.{AllRuns, AllRuns-map, Enough}
use triepack.Trie.Runs.{runs_length-runs_at}
use triepack.Trie.Order.{
  Less-below, Part, Part-runs, Chain, runs_small, runs_within, next_byte, two_runs,
}

pub drop_next : (c y : ℕ) (ys key : List ℕ) → drop c key ≡ y ∷ ys → drop (c + 1) key ≡ ys
drop_next c y ys key h = let e : c + 1 ≡ suc c = omega arith in rw e (go c key h)
  where
    go : (c : ℕ) (key : List ℕ) → drop c key ≡ y ∷ ys → drop (suc c) key ≡ ys
    go zero [] h = cc
    go zero (x ∷ xs) h = cc
    go (suc c) [] h = cc
    go (suc c) (x ∷ xs) h = go c xs h

and_parts : (a b c : Bool) → ((a && b) && c) ≡ true → (b ≡ true) × (c ≡ true)
and_parts true true true h = (refl, refl)
and_parts true true false h = cc
and_parts true false c h = cc
and_parts false b c h = cc

tails-Less : (ch y : ℕ) (xs ys : List ℕ) → y ≡ ch → Less (ch ∷ xs) (y ∷ ys) → Less xs ys
tails-Less ch y xs ys e (inl h) = absurd (omega arith)
tails-Less ch y xs ys e (inr h) = h.1

-- A byte that all keys share can be passed over.
Chain-next :
    (c ch : ℕ) (xs : List ℕ) (e : Entry) (es : List Entry)
    → drop c e.key ≡ ch ∷ xs
    → all_have c ch es ≡ true
    → Chain c e es
    → Chain (c + 1) e es
unfolding all_have
Chain-next c ch xs e [] d a h = tt
Chain-next c ch xs e (f ∷ fs) d a h =
    let (same, others) = and_parts (ltb c (length f.key)) (char_at f.key c == ch) _ a in
    let less : Less (ch ∷ xs) (drop c f.key) = subst (λ k. Less k (drop c f.key)) d h.0 in
    let (y, ys, d', a', l) = next_byte c ch xs f.key less in
    let y_is : y ≡ ch = sym a' ∙ (==_iff _ _).0 same in
    let less' : Less xs ys = tails-Less ch y xs ys y_is (subst (λ k. Less (ch ∷ xs) k) d' less) in
    (
      rw (drop_next c ch xs e.key d, drop_next c y ys f.key d') less',
      Chain-next c ch ys f fs (d' ∙ ap (λ z. z ∷ ys) y_is) others h.1,
    )

-- What holds where the loop of the common prefix stops: the first key ends there, or not all others go
-- on as it does.
abbrev pub Stop : ℕ → Entry → List Entry → Type 0
Stop c first others =
    Chain c first others
    × (c ≤ length first.key)
    × ((length first.key ≡ c)
        ⊎ ((ch : ℕ) × (xs : List ℕ) × (drop c first.key ≡ ch ∷ xs)
            × (c < length first.key)
            × (all_have c ch others ≡ false)))

common_loop-Stop :
    (left : List ℕ) (c : ℕ) (first : Entry) (others : List Entry)
    → drop c first.key ≡ left
    → c + length left ≡ length first.key
    → Chain c first others
    → (c ≤ common_loop left c others) × Stop (common_loop left c others) first others
unfolding common_loop
common_loop-Stop [] c first others d len h = (omega arith, (h, omega arith, inl (omega arith)))
common_loop-Stop (ch ∷ left) c first others d len h = elim (Bool-cases (all_have c ch others)) [
  | inl t ↦
      let (up, stop) =
        common_loop-Stop left (c + 1) first others (drop_next c ch left first.key d) (omega arith)
          (Chain-next c ch left first others d t h) in
      rw t (omega arith, stop)
  | inr t ↦ rw t (omega arith, (h, omega arith, inr (ch, left, d, omega arith, t)))
]

pub both_runs :
    (P Q : Entry → List Entry → Type 0) (runs : List (Entry × List Entry))
    → AllRuns P runs
    → AllRuns Q runs
    → AllRuns (λ e es. P e es × Q e es) runs
both_runs P Q [] h k = tt
both_runs P Q ((e, es) ∷ runs) h k = ((h.0, k.0), both_runs P Q runs h.1 k.1)

pub first_byte : (c ch : ℕ) (xs key : List ℕ) → drop c key ≡ ch ∷ xs → char_at key c ≡ ch
unfolding char_at
first_byte c ch xs [] d = absurd (nothing_left c ch xs d)
  where
    nothing_left : (c ch : ℕ) (xs : List ℕ) → drop c [] ≡ ch ∷ xs → ⊥
    nothing_left zero ch xs d = cc
    nothing_left (suc c) ch xs d = cc
first_byte zero ch xs (x ∷ key) d = cc
first_byte (suc c) ch xs (x ∷ key) d = first_byte c ch xs key d

-- The children of such a place: parts of the chain, each with fewer entries.
pub children_parts :
    (c : ℕ) (first : Entry) (others : List Entry)
    → Stop c first others
    → AllRuns (λ e es. Part c e es × (suc (length es) ≤ length others)) (children c first others)
unfolding children has_terminal
children_parts c first others (h, l, inl ends) = rw ((==_iff _ _).1 ends) (
    both_runs (Part c) (λ e es. suc (length es) ≤ length others) (runs_at c others) (go others h)
      (runs_within _ (length others) (omega (arith, runs_length-runs_at c others))))
  where
    go : (others : List Entry) → Chain c first others → AllRuns (Part c) (runs_at c others)
    go [] h = unfold runs_at in tt
    go (f ∷ fs) h = Part-runs c f fs (omega (arith, Less-below c _ f.key h.0)) h.1
children_parts c first others (h, l, inr (ch, xs, d, lt, n)) = rw (differ (length first.key) c lt) (
    both_runs (Part c) (λ e es. suc (length es) ≤ length others) (runs_at c (first ∷ others))
      (Part-runs c first others l h)
      (runs_small _ (length others) (
        omega (
          arith,
          runs_length-runs_at c (first ∷ others),
          two_runs c ch xs first others d (first_byte c ch xs first.key d) h n,
        ))))
  where
    differ : (a b : ℕ) → b < a → (a == b) ≡ false
    differ a b h = ground arith

pub common_end-Stop :
    (p : ℕ) (first : Entry) (others : List Entry)
    → Part p first others
    → (p ≤ common_end p first others) × Stop (common_end p first others) first others
unfolding common_end
common_end-Stop p first others (l, h) =
    common_loop-Stop (drop p first.key) p first others refl (omega (arith, length-drop p first.key))
      h

-- As many calls deep as there are entries is enough.
pub Enough_lem :
    (fuel p : ℕ) (first : Entry) (others : List Entry)
    → length others < fuel
    → Part p first others
    → Enough fuel p first others
unfolding Enough
Enough_lem zero p first others h part = absurd (omega arith)
Enough_lem (suc fuel) p first others h part =
    let c = common_end p first others in
    AllRuns-map (λ e es. Part c e es × (suc (length es) ≤ length others)) (Enough fuel c)
      (λ e es (q, small). Enough_lem fuel c e es (omega arith) q) (children c first others)
      (children_parts c first others (common_end-Stop p first others part).1)
