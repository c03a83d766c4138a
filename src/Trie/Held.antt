-- ===== src/Trie/Held.antt =====
-- What a list of entries holds under a key, and how labels and runs split it.
use triepack.Base.{
  equal, ℕ, ◌+◌, ◌<◌, ◌≡◌, refl, ap, ◌∙◌, arith, ◌==◌, if◌then◌else◌, Bool, false, Bool-cases, inl,
  inr, Option, none, some, List, [], ◌∷◌, ◌++◌, length, drop, All,
}
use triepack.Encoder.{Entry}
use triepack.Trie.Tree.{Ending, no_key, ending_of}
use triepack.Trie.Find.{strip}

-- What the first entry holds whose key is `key` behind its first `p` bytes; the entries are numbered
-- from `i`.
unfoldable pub held : Bool → ℕ → List Entry → ℕ → List ℕ → Ending
held has_values p [] i key = no_key
held has_values p (e ∷ es) i key =
    let others = held has_values p es (i + 1) key in
    if equal (drop p e.key) key then ending_of has_values e i else others

abbrev in_rest : List ℕ → Option (List ℕ) → Bool
in_rest xs none = false
in_rest xs (some key) = equal xs key

equal-strip : (label xs key : List ℕ) → equal (label ++ xs) key ≡ in_rest xs (strip label key)
unfolding equal strip
equal-strip [] xs key = refl
equal-strip (x ∷ label) xs [] = refl
equal-strip (x ∷ label) xs (ch ∷ key) = elim (Bool-cases (x == ch)) [
  | inl t ↦ rw t (equal-strip label xs key)
  | inr t ↦ rw t refl
]

abbrev pub Shares : ℕ → ℕ → List ℕ → Entry → Type 0
Shares p c label e = drop p e.key ≡ label ++ drop c e.key

-- Behind an entry's first `c` bytes comes the byte `b`; or a greater one.
abbrev pub Headed : ℕ → ℕ → Entry → Type 0
Headed c b e = (xs : List ℕ) × (drop c e.key ≡ b ∷ xs)

abbrev pub Behind : ℕ → ℕ → Entry → Type 0
Behind c b e = (y : ℕ) × (ys : List ℕ) × (drop c e.key ≡ y ∷ ys) × (b < y)

abbrev pub Longer : ℕ → Entry → Type 0
Longer c e = (y : ℕ) × (ys : List ℕ) × (drop c e.key ≡ y ∷ ys)

differ_lt : (a b : ℕ) → b < a → (a == b) ≡ false
differ_lt a b h = ground arith

module _ (has_values : Bool) where
  -- Behind a label that all keys share.
  pub held-none :
      (p c : ℕ) (label key : List ℕ) (es : List Entry) (i : ℕ)
      → strip label key ≡ none
      → All (Shares p c label) es
      → held has_values p es i key ≡ no_key
  unfolding held
  held-none p c label key [] i h shares = refl
  held-none p c label key (e ∷ es) i h shares =
      rw (shares.0, equal-strip label (drop c e.key) key, h)
        (held-none p c label key es (i + 1) h shares.1)

  pub held-some :
      (p c : ℕ) (label key left : List ℕ) (es : List Entry) (i : ℕ)
      → strip label key ≡ some left
      → All (Shares p c label) es
      → held has_values p es i key ≡ held has_values c es i left
  unfolding held
  held-some p c label key left [] i h shares = refl
  held-some p c label key left (e ∷ es) i h shares =
      rw
        (
          shares.0,
          equal-strip label (drop c e.key) key,
          h,
          held-some p c label key left es (i + 1) h shares.1,
        )
        refl

  pub held-Longer :
      (c : ℕ) (es : List Entry) (i : ℕ) → All (Longer c) es → held has_values c es i [] ≡ no_key
  unfolding held equal
  held-Longer c [] i h = refl
  held-Longer c (e ∷ es) i h = let (y, ys, d) = h.0 in rw d (held-Longer c es (i + 1) h.1)

  held-Behind :
      (c ch : ℕ) (key : List ℕ) (es : List Entry) (i : ℕ)
      → All (Behind c ch) es
      → held has_values c es i (ch ∷ key) ≡ no_key
  unfolding held equal
  held-Behind c ch key [] i h = refl
  held-Behind c ch key (e ∷ es) i h =
      let (y, ys, d, lt) = h.0 in rw (d, differ_lt y ch lt) (held-Behind c ch key es (i + 1) h.1)

  -- The run of the key's first byte decides.
  pub held-front :
      (c ch : ℕ) (key : List ℕ) (es later : List Entry) (i : ℕ)
      → All (Behind c ch) later
      → held has_values c (es ++ later) i (ch ∷ key) ≡ held has_values c es i (ch ∷ key)
  unfolding held
  held-front c ch key [] later i h = held-Behind c ch key later i h
  held-front c ch key (e ∷ es) later i h = rw (held-front c ch key es later (i + 1) h) refl

  pub held-back :
      (c b ch : ℕ) (key : List ℕ) (es later : List Entry) (i : ℕ)
      → (b == ch) ≡ false
      → All (Headed c b) es
      → held has_values c (es ++ later) i (ch ∷ key)
        ≡ held has_values c later (i + length es) (ch ∷ key)
  unfolding held equal
  held-back c b ch key [] later i n h = ap (λ k. held has_values c later k (ch ∷ key)) (omega arith)
  held-back c b ch key (e ∷ es) later i n h =
      let (xs, d) = h.0 in
      rw (d, n)
        (held-back c b ch key es later (i + 1) n h.1
          ∙ ap (λ k. held has_values c later k (ch ∷ key)) (omega arith))
