-- ===== src/Trie/Overrun.antt =====
-- src/core/encoder.c: the keys that lead on behind the last node of the entries' tree.
use mathlib.Core.Path.{subst}
use triepack.Base.{
  ℕ, zero, suc, ◌+◌, ◌≡◌, refl, ap, sym, ◌∙◌, arith, ◌==◌, ==_iff, if◌then◌else◌, Bool, true, false,
  Bool-cases, inl, inr, none, List, [], ◌∷◌, ◌++◌, append-nil, length, drop, All,
}
use triepack.Encoder.{Entry}
use triepack.Encoder.Compare.{IsAscending}
use triepack.Trie.{common_end, has_terminal, children, runs_at}
use triepack.Trie.Tree.{Node, node, Kids, nil, kid, grow, grow_kids, Enough, AllRuns, AllRuns-map}
use triepack.Trie.Find.{strip, starts, rest_of, goes_on, runs_off_kids, runs_off}
use triepack.Trie.Order.{Part}
use triepack.Trie.Depth.{both_runs, children_parts, common_end-Stop}
use triepack.Trie.Groups.{flat, label, flat-runs_at, common_end-Shares}
use triepack.Trie.Grown.{drop_all}
use triepack.Trie.Agree.{IsAscending-Chain, Enough-whole}

-- A key that begins with `xs` and is longer.
unfoldable pub extends : List ℕ → List ℕ → Bool
extends [] [] = false
extends [] (ch ∷ key) = true
extends (x ∷ xs) [] = false
extends (x ∷ xs) (ch ∷ key) = if x == ch then extends xs key else false

unfoldable pub last_key : List Entry → List ℕ
last_key [] = []
last_key (e ∷ []) = e.key
last_key (e ∷ f ∷ fs) = last_key (f ∷ fs)

last_key-append :
    (es : List Entry) (f : Entry) (fs : List Entry) → last_key (es ++ (f ∷ fs)) ≡ last_key (f ∷ fs)
unfolding last_key
last_key-append [] f fs = refl
last_key-append (e ∷ []) f fs = refl
last_key-append (e ∷ d ∷ es) f fs = last_key-append (d ∷ es) f fs

-- What holds of all keys holds of the last one.
All-last_key :
    (P : List ℕ → Type 0) (e : Entry) (es : List Entry)
    → All (λ e. P e.key) (e ∷ es)
    → P (last_key (e ∷ es))
unfolding last_key
All-last_key P e [] h = h.0
All-last_key P e (f ∷ fs) h = All-last_key P f fs h.1

extends-strip :
    (label xs key : List ℕ) (off : Bool)
    → ((ch : ℕ) (left : List ℕ)
        → rest_of (strip label key) ≡ ch ∷ left
        → off ≡ true
        → extends xs (ch ∷ left) ≡ true)
    → goes_on off (strip label key) ≡ true
    → extends (label ++ xs) key ≡ true
unfolding extends strip
extends-strip [] xs [] off h g = cc
extends-strip [] xs (ch ∷ key) off h g = h ch key refl g
extends-strip (x ∷ label) xs [] off h g = cc
extends-strip (x ∷ label) xs (ch ∷ key) off h g = elim (Bool-cases (x == ch)) [
  | inl t ↦ rw t (extends-strip label xs key off (rw t at h) (rw t at g))
  | inr t ↦ absurd (no_way (rw t at g))
]
  where
    no_way : goes_on off none ≡ true → ⊥
    no_way e = cc

runs_off_kids-next :
    (t u : Node) (us : Kids) (key : List ℕ)
    → runs_off_kids (kid t (kid u us)) key ≡ runs_off_kids (kid u us) key
unfolding runs_off_kids
runs_off_kids-next (node label e ts) u us key = refl

runs_off_kids-only :
    (t : Node) (key : List ℕ) → runs_off_kids (kid t nil) key ≡ true → runs_off t key ≡ true
unfolding runs_off_kids runs_off
runs_off_kids-only (node label e ts) key h = elim (Bool-cases (starts label key)) [
  | inl t ↦ rw t at h
  | inr t ↦ absurd (no_way (rw t at h))
]
  where
    no_way : false ≡ true → ⊥
    no_way e = cc

module _ (sub : Entry → List Entry → ℕ → Node) (c : ℕ) where
  -- A key that leads on behind a part's tree extends the part's last key.
  abbrev pub Overruns : Entry → List Entry → Type 0
  Overruns e es =
      (i : ℕ) (key : List ℕ)
      → runs_off (sub e es i) key ≡ true
      → extends (drop c (last_key (e ∷ es))) key ≡ true

  kids-Overruns :
      (e : Entry) (es : List Entry) (runs : List (Entry × List Entry)) (i : ℕ) (key : List ℕ)
      → AllRuns Overruns ((e, es) ∷ runs)
      → runs_off_kids (grow_kids sub ((e, es) ∷ runs) i) key ≡ true
      → extends (drop c (last_key (flat ((e, es) ∷ runs)))) key ≡ true
  unfolding grow_kids flat
  kids-Overruns e es [] i key h off =
      subst (λ l. extends (drop c (last_key (e ∷ l))) key ≡ true) (sym (append-nil es))
        (h.0 i key (runs_off_kids-only (sub e es i) key off))
  kids-Overruns e es ((f, fs) ∷ runs) i key h off =
      ap (λ k. extends (drop c k) key) (last_key-append (e ∷ es) f (fs ++ flat runs))
      ∙ kids-Overruns f fs runs (i + suc (length es)) key h.1
          (sym (runs_off_kids-next _ _ _ key) ∙ off)

  some-Overruns :
      (runs : List (Entry × List Entry)) (e : Entry) (es : List Entry) (i : ℕ) (key : List ℕ)
      → flat runs ≡ e ∷ es
      → AllRuns Overruns runs
      → runs_off_kids (grow_kids sub runs i) key ≡ true
      → extends (drop c (last_key (e ∷ es))) key ≡ true
  some-Overruns [] e es i key is h off = absurd (none_there (unfold flat in is))
    where
      none_there : ◌≡◌ {A = List Entry} [] (e ∷ es) → ⊥
      none_there e = cc
  some-Overruns ((f, fs) ∷ runs) e es i key is h off =
      subst (λ l. extends (drop c (last_key l)) key ≡ true) is (kids-Overruns f fs runs i key h off)

module _ (has_values : Bool) where
  -- Where the key leads on behind the children.
  below-Overruns :
      (sub : Entry → List Entry → ℕ → Node) (c : ℕ) (t : Bool) (first : Entry) (others : List Entry)
      (i ch : ℕ) (key : List ℕ)
      → (t ≡ true → length first.key ≡ c)
      → AllRuns (Overruns sub c) (runs_at c (if t then others else first ∷ others))
      → runs_off_kids
          (grow_kids sub (runs_at c (if t then others else first ∷ others)) i)
          (ch ∷ key)
        ≡ true
      → extends (drop c (last_key (first ∷ others))) (ch ∷ key) ≡ true
  unfolding last_key extends
  below-Overruns sub c true first [] i ch key ends h off =
      rw (drop_all c first.key (ends refl)) refl
  below-Overruns sub c true first (f ∷ fs) i ch key ends h off =
      some-Overruns sub c (runs_at c (f ∷ fs)) f fs i (ch ∷ key) (flat-runs_at c (f ∷ fs)) h off
  below-Overruns sub c false first others i ch key ends h off =
      some-Overruns sub c (runs_at c (first ∷ others)) first others i (ch ∷ key)
        (flat-runs_at c (first ∷ others)) h off

  grow-Overruns :
      (fuel p : ℕ) (first : Entry) (others : List Entry)
      → Enough fuel p first others
      → Part p first others
      → Overruns (grow has_values fuel p) p first others
  unfolding Enough grow runs_off children has_terminal
  grow-Overruns zero p first others enough part i key off = absurd enough
  grow-Overruns (suc fuel) p first others enough part i key off =
      let c = common_end p first others in
      let sub = grow has_values fuel c in
      let (up, stop) = common_end-Stop p first others part in
      let runs = children c first others in
      let j = if has_terminal c first then i + 1 else i in
      let parts = both_runs _ _ runs enough (children_parts c first others stop) in
      let below : AllRuns (Overruns sub c) runs =
        AllRuns-map _ (Overruns sub c) (λ e es (n, (q, small)). grow-Overruns fuel c e es n q) runs
          parts in
      let whole =
        All-last_key (λ k. drop p k ≡ label first p c ++ drop c k) first others
          (common_end-Shares first p others part.0) in
      ap (λ k. extends k key) whole
      ∙ extends-strip (label first p c) (drop c (last_key (first ∷ others))) key _
          (λ ch left is h.
            below-Overruns sub c (has_terminal c first) first others j ch left
              (λ t. (==_iff (length first.key) c).0 t) below
              (subst (λ k. runs_off_kids (grow_kids sub runs j) k ≡ true) is h))
          off

-- The keys that lead on behind the tree of entries in ascending order extend the last entry's key.
pub runs_off-grow :
    (has_values : Bool) (first : Entry) (others : List Entry) (i : ℕ) (key : List ℕ)
    → IsAscending (first ∷ others)
    → runs_off (grow has_values (suc (length others)) 0 first others i) key ≡ true
    → extends (last_key (first ∷ others)) key ≡ true
runs_off-grow has_values first others i key h =
    grow-Overruns has_values (suc (length others)) 0 first others (Enough-whole first others h)
      (omega arith, IsAscending-Chain first others h) i key
