-- ===== src/Trie/Order.antt =====
-- src/core/encoder.c: entries in ascending order, and the runs that the loops over the children cut off.
use mathlib.Core.Path.{subst}
use triepack.Base.{
  ℕ, zero, suc, ◌+◌, ◌≤◌, ◌<◌, ◌≡◌, refl, ap, sym, ◌∙◌, arith, inl, inr, ◌==◌, ==_iff, lt→ltb,
  false, Bool-cases, List, [], ◌∷◌, length, drop,
}
use triepack.Encoder.{Entry}
use triepack.Encoder.Compare.{Less}
use triepack.Trie.{char_at, all_have, join, runs_at}
use triepack.Trie.Tree.{AllRuns, runs_length}
use triepack.Trie.Runs.{length-le-runs_length}

-- Behind their first `c` bytes the keys ascend.
abbrev pub Chain : ℕ → Entry → List Entry → Type 0
Chain c first [] = Unit {0}
Chain c first (e ∷ es) = Less (drop c first.key) (drop c e.key) × Chain c e es

-- The first run starts with the first entry.
pub first_run :
    (c : ℕ) (e : Entry) (es : List Entry)
    → (own : List Entry) × (more : List (Entry × List Entry)) × (runs_at c (e ∷ es)
        ≡ (e, own) ∷ more)
unfolding runs_at
first_run c e [] = ([], [], refl)
first_run c e (f ∷ fs) =
    let (own, more, h) = first_run c f fs in
    elim (Bool-cases (char_at f.key c == char_at e.key c)) [
      | inl t ↦ (f ∷ own, more, ap (join c e) h ∙ rw t refl)
      | inr t ↦ ([], (f, own) ∷ more, ap (join c e) h ∙ rw t refl)
    ]

pub Less-below : (c : ℕ) (xs key : List ℕ) → Less xs (drop c key) → c < length key
Less-below zero xs [] h = absurd h
Less-below zero xs (y ∷ ys) h = omega arith
Less-below (suc c) xs [] h = absurd h
Less-below (suc c) xs (y ∷ ys) h = omega (arith, Less-below c xs ys h)

abbrev pub Part : ℕ → Entry → List Entry → Type 0
Part c e es = (c ≤ length e.key) × Chain c e es

-- Each run is a part of the chain.
pub Part-runs :
    (c : ℕ) (e : Entry) (es : List Entry)
    → c ≤ length e.key
    → Chain c e es
    → AllRuns (Part c) (runs_at c (e ∷ es))
unfolding runs_at
Part-runs c e [] l h = ((l, tt), tt)
Part-runs c e (f ∷ fs) l h =
    let (own, more, run) = first_run c f fs in
    let within = Less-below c (drop c e.key) f.key h.0 in
    let rest : AllRuns (Part c) ((f, own) ∷ more) =
      subst (AllRuns (Part c)) run (Part-runs c f fs (omega arith) h.1) in
    rw run (go own more rest)
  where
    go :
        (own : List Entry) (more : List (Entry × List Entry))
        → AllRuns (Part c) ((f, own) ∷ more)
        → AllRuns (Part c) (join c e ((f, own) ∷ more))
    go own more rest = elim (Bool-cases (char_at f.key c == char_at e.key c)) [
      | inl t ↦ rw t ((l, (h.0, rest.0.1)), rest.1)
      | inr t ↦ rw t ((l, tt), rest)
    ]

-- With two runs or more each is smaller than the whole.
pub runs_small :
    (runs : List (Entry × List Entry)) (k : ℕ)
    → runs_length runs + 1 ≤ k + length runs
    → AllRuns (λ e es. suc (length es) ≤ k) runs
runs_small [] k h = tt
runs_small ((e, es) ∷ runs) k h =
    (omega (arith, length-le-runs_length runs), runs_small runs k (omega arith))

pub runs_within :
    (runs : List (Entry × List Entry)) (k : ℕ)
    → runs_length runs ≤ k
    → AllRuns (λ e es. suc (length es) ≤ k) runs
runs_within [] k h = tt
runs_within ((e, es) ∷ runs) k h = (omega arith, runs_within runs k (omega arith))

-- A key that comes behind one with a byte at `c` has a byte there, which is not smaller.
pub next_byte :
    (c ch : ℕ) (xs key : List ℕ)
    → Less (ch ∷ xs) (drop c key)
    → (y : ℕ) × (ys : List ℕ) × (drop c key ≡ y ∷ ys) × (char_at key c ≡ y) × (c < length key)
unfolding char_at
next_byte zero ch xs [] h = absurd h
next_byte zero ch xs (y ∷ ys) h = (y, ys, refl, refl, omega arith)
next_byte (suc c) ch xs [] h = absurd h
next_byte (suc c) ch xs (y ∷ ys) h =
    let (z, zs, d, e, l) = next_byte c ch xs ys h in (z, zs, d, e, omega arith)

-- Where not all keys go on with the byte of the first, there are two runs.
pub two_runs :
    (c ch : ℕ) (xs : List ℕ) (e : Entry) (es : List Entry)
    → drop c e.key ≡ ch ∷ xs
    → char_at e.key c ≡ ch
    → Chain c e es
    → all_have c ch es ≡ false
    → 2 ≤ length (runs_at c (e ∷ es))
unfolding runs_at all_have
two_runs c ch xs e [] d a h n = cc
two_runs c ch xs e (f ∷ fs) d a h n =
    let (own, more, run) = first_run c f fs in
    let (y, ys, d', a', l) = next_byte c ch xs f.key (subst (λ k. Less k (drop c f.key)) d h.0) in
    elim (Bool-cases (char_at f.key c == char_at e.key c)) [
      | inl t ↦
          let same : char_at f.key c ≡ ch = (==_iff _ _).0 t ∙ a in
          let others : all_have c ch fs ≡ false = rw (lt→ltb c _ l, (==_iff _ _).1 same) at n in
          let rest : 2 ≤ length (runs_at c (f ∷ fs)) =
            two_runs c ch ys f fs (d' ∙ ap (λ z. z ∷ ys) (sym a' ∙ same)) same h.1 others in
          let rest' : 2 ≤ length ((f, own) ∷ more) = subst (λ r. 2 ≤ length r) run rest in
          rw (run, t) (omega arith)
      | inr t ↦ rw (run, t) (omega arith)
    ]
