-- ===== src/Trie/Runs.antt =====
-- src/core/encoder.c: how many entries the runs of the children hold.
use triepack.Base.{
  ℕ, suc, ◌+◌, ◌≤◌, ◌≡◌, refl, ap, ◌∙◌, arith, if◌then◌else◌, Bool-cases, inl, inr, List, [], ◌∷◌,
  length, ◌==◌,
}
use triepack.Encoder.{Entry}
use triepack.Trie.{char_at, has_terminal, children, join, runs_at}
use triepack.Trie.Tree.{Node, count, runs_length, grow_kids}

-- The runs hold every entry once.
pub runs_length-runs_at : (c : ℕ) (es : List Entry) → runs_length (runs_at c es) ≡ length es
unfolding runs_at
runs_length-runs_at c [] = refl
runs_length-runs_at c (e ∷ es) = joined c e (runs_at c es) ∙ ap suc (runs_length-runs_at c es)
  where
    joined :
        (c : ℕ) (e : Entry) (runs : List (Entry × List Entry))
        → runs_length (join c e runs) ≡ suc (runs_length runs)
    joined c e [] = omega arith
    joined c e ((f, fs) ∷ runs) = elim (Bool-cases (char_at f.key c == char_at e.key c)) [
      | inl t ↦ rw t (omega arith)
      | inr t ↦ rw t (omega arith)
    ]

pub length-le-runs_length : (runs : List (Entry × List Entry)) → length runs ≤ runs_length runs
length-le-runs_length [] = omega arith
length-le-runs_length ((e, es) ∷ runs) = omega (arith, length-le-runs_length runs)

pub count-grow_kids :
    (sub : Entry → List Entry → ℕ → Node) (runs : List (Entry × List Entry)) (i : ℕ)
    → count (grow_kids sub runs i) ≡ length runs
unfolding grow_kids count
count-grow_kids sub [] i = refl
count-grow_kids sub ((e, es) ∷ runs) i = ap suc (count-grow_kids sub runs (i + suc (length es)))

-- How many entries are left for the children, and the number of the first of these.
pub runs_length-children :
    (c : ℕ) (first : Entry) (others : List Entry) (i : ℕ)
    → (if has_terminal c first then i + 1 else i) + runs_length (children c first others)
      ≡ i + suc (length others)
unfolding children
runs_length-children c first others i = elim (Bool-cases (has_terminal c first)) [
  | inl t ↦ rw t (omega (arith, runs_length-runs_at c others))
  | inr t ↦ rw t (omega (arith, runs_length-runs_at c (first ∷ others)))
]
