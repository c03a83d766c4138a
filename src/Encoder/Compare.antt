-- ===== src/Encoder/Compare.antt =====
-- src/core/encoder.c: the order of the entries, `entry_cmp`.
use Prim.Native.Nat.{compare, Ordering}
use Prim.Native.Nat.Ordering.{lt, eq, gt}
use mathlib.Core.Path.{ap₂, subst}
use triepack.Base.{
  sym, Bool-cases, ltb→lt, ltb→le, ℕ, zero, suc, ◌<◌, ◌≡◌, ◌≢◌, ◌↔◌, ◌⊎◌, inl, inr, refl, arith,
  ltb, if◌then◌else◌, List, [], ◌∷◌, length,
}
use triepack.Encoder.{Entry}

-- The sign of C's `memcmp` over `n` bytes of each. It is never asked for more bytes than there are.
unfoldable pub compare_bytes : ℕ → List ℕ → List ℕ → Ordering
compare_bytes zero xs ys = eq
compare_bytes (suc n) [] ys = eq
compare_bytes (suc n) (x ∷ xs) [] = eq
compare_bytes (suc n) (x ∷ xs) (y ∷ ys) = elim (compare x y) [
  | lt ↦ lt
  | eq ↦ compare_bytes n xs ys
  | gt ↦ gt
]

-- The sign of `entry_cmp`.
unfoldable pub compare_keys : List ℕ → List ℕ → Ordering
compare_keys xs ys =
    let min_len = if ltb (length xs) (length ys) then length xs else length ys in
    elim (compare_bytes min_len xs ys) [
      | lt ↦ lt
      | gt ↦ gt
      | eq ↦
          if ltb (length xs) (length ys) then lt else if ltb (length ys) (length xs) then gt else eq
    ]

unfoldable pub entry_cmp : Entry → Entry → Ordering
entry_cmp a b = compare_keys a.key b.key

-- The lexicographic order: a key comes before its extensions.
abbrev pub Less : List ℕ → List ℕ → Type 0
Less xs [] = ⊥
Less [] (y ∷ ys) = Unit {0}
Less (x ∷ xs) (y ∷ ys) = (x < y) ⊎ ((x ≡ y) × Less xs ys)

pub Less-irrefl : (xs : List ℕ) → ¬ Less xs xs
Less-irrefl [] h = absurd h
Less-irrefl (x ∷ xs) (inl h) = absurd (omega arith)
Less-irrefl (x ∷ xs) (inr (e, h)) = Less-irrefl xs h

pub Less-trans : (xs ys zs : List ℕ) → Less xs ys → Less ys zs → Less xs zs
Less-trans xs [] zs h k = absurd h
Less-trans xs (y ∷ ys) [] h k = absurd k
Less-trans [] (y ∷ ys) (z ∷ zs) h k = tt
Less-trans (x ∷ xs) (y ∷ ys) (z ∷ zs) (inl h) (inl k) = inl (omega arith)
Less-trans (x ∷ xs) (y ∷ ys) (z ∷ zs) (inl h) (inr (e, k)) = inl (omega arith)
Less-trans (x ∷ xs) (y ∷ ys) (z ∷ zs) (inr (d, h)) (inl k) = inl (omega arith)
Less-trans (x ∷ xs) (y ∷ ys) (z ∷ zs) (inr (d, h)) (inr (e, k)) =
    inr (omega arith, Less-trans xs ys zs h k)

-- What each sign says.
abbrev pub Verdict : List ℕ → List ℕ → Ordering → Type 0
Verdict xs ys lt = Less xs ys
Verdict xs ys eq = xs ≡ ys
Verdict xs ys gt = Less ys xs

compare_keys_cons :
    (x y : ℕ) (xs ys : List ℕ)
    → compare_keys (x ∷ xs) (y ∷ ys)
      ≡ elim (compare x y) [ lt ↦ lt | eq ↦ compare_keys xs ys | gt ↦ gt ]
unfolding compare_keys compare_bytes
compare_keys_cons x y xs ys = ground arith

Verdict-cons :
    (x y : ℕ) (xs ys : List ℕ) (o : Ordering)
    → x ≡ y
    → Verdict xs ys o
    → Verdict (x ∷ xs) (y ∷ ys) o
Verdict-cons x y xs ys lt e h = inr (e, h)
Verdict-cons x y xs ys eq e h = ap₂ ◌∷◌ e h
Verdict-cons x y xs ys gt e h = inr (sym e, h)

ltb_or : (x y : ℕ) → (x < y) ⊎ ((x ≡ y) ⊎ (y < x))
ltb_or x y = elim (Bool-cases (ltb x y)) [
  | inl h ↦ inl (ltb→lt x y h)
  | inr h ↦ elim (Bool-cases (ltb y x)) [
    | inl k ↦ inr (inr (ltb→lt y x k))
    | inr k ↦ inr (inl (omega (arith, ltb→le x y h, ltb→le y x k)))
  ]
]

compare_none : compare_keys [] [] ≡ eq
unfolding compare_keys compare_bytes
compare_none = ground arith

compare_left : (y : ℕ) (ys : List ℕ) → compare_keys [] (y ∷ ys) ≡ lt
unfolding compare_keys compare_bytes
compare_left y ys = ground arith

compare_right : (x : ℕ) (xs : List ℕ) → compare_keys (x ∷ xs) [] ≡ gt
unfolding compare_keys compare_bytes
compare_right x xs = ground arith

compare-lt : (x y : ℕ) → x < y → compare x y ≡ lt
compare-lt x y h = ground arith

compare-eq : (x y : ℕ) → x ≡ y → compare x y ≡ eq
compare-eq x y h = ground arith

compare-gt : (x y : ℕ) → y < x → compare x y ≡ gt
compare-gt x y h = ground arith

pub compare_keys_sound : (xs ys : List ℕ) → Verdict xs ys (compare_keys xs ys)
compare_keys_sound [] [] = rw compare_none refl
compare_keys_sound [] (y ∷ ys) = rw (compare_left y ys) tt
compare_keys_sound (x ∷ xs) [] = rw (compare_right x xs) tt
compare_keys_sound (x ∷ xs) (y ∷ ys) =
    rw (compare_keys_cons x y xs ys) (go (ltb_or x y) (compare_keys_sound xs ys))
  where
    go :
        (x < y) ⊎ ((x ≡ y) ⊎ (y < x))
        → Verdict xs ys (compare_keys xs ys)
        → Verdict
            (x ∷ xs)
            (y ∷ ys)
            (elim (compare x y) [ lt ↦ lt | eq ↦ compare_keys xs ys | gt ↦ gt ])
    go (inl h) v = rw (compare-lt x y h) (inl h)
    go (inr (inl h)) v = rw (compare-eq x y h) (Verdict-cons x y xs ys (compare_keys xs ys) h v)
    go (inr (inr h)) v = rw (compare-gt x y h) (inl h)

decided :
    (xs ys : List ℕ) (o : Ordering)
    → Verdict xs ys o
    → ((o ≡ lt) ↔ Less xs ys) × ((o ≡ eq) ↔ (xs ≡ ys)) × ((o ≡ gt) ↔ Less ys xs)
decided xs ys lt v = (
  (λ e. v, λ h. refl),
  (λ e. cc, λ h. absurd (Less-irrefl ys (subst (λ k. Less k ys) h v))),
  (λ e. cc, λ h. absurd (Less-irrefl xs (Less-trans xs ys xs v h))),
)
decided xs ys eq v = (
  (λ e. cc, λ h. absurd (Less-irrefl ys (subst (λ k. Less k ys) v h))),
  (λ e. v, λ h. refl),
  (λ e. cc, λ h. absurd (Less-irrefl ys (subst (λ k. Less ys k) v h))),
)
decided xs ys gt v = (
  (λ e. cc, λ h. absurd (Less-irrefl xs (Less-trans xs ys xs h v))),
  (λ e. cc, λ h. absurd (Less-irrefl ys (subst (λ k. Less ys k) h v))),
  (λ e. v, λ h. refl),
)

-- `entry_cmp` decides the lexicographic order of the keys' bytes, in which a key comes before its
-- extensions: its result is negative, zero or positive exactly when the first key comes first, when
-- the keys are equal, or when the second key comes first.
pub entry_cmp_lem :
    (a b : Entry)
    → ((entry_cmp a b ≡ lt) ↔ Less a.key b.key)
      × ((entry_cmp a b ≡ eq) ↔ (a.key ≡ b.key))
      × ((entry_cmp a b ≡ gt) ↔ Less b.key a.key)
unfolding entry_cmp
entry_cmp_lem a b = decided a.key b.key (compare_keys a.key b.key) (compare_keys_sound a.key b.key)

-- Each key comes before the next one.
abbrev pub IsAscending : List Entry → Type 0
IsAscending [] = Unit {0}
IsAscending (e ∷ []) = Unit {0}
IsAscending (e ∷ f ∷ es) = (entry_cmp e f ≡ lt) × IsAscending (f ∷ es)

-- No key comes after the next one: what `qsort` leaves.
abbrev pub IsSorted : List Entry → Type 0
IsSorted [] = Unit {0}
IsSorted (e ∷ []) = Unit {0}
IsSorted (e ∷ f ∷ es) = (entry_cmp e f ≢ gt) × IsSorted (f ∷ es)
