-- ===== src/Encoder/Dedup.antt =====
-- src/core/encoder.c: which entries `dedup_entries` keeps.
use mathlib.Core.Path.{ap₂}
use triepack.Base.{
  ℕ, ◌≡◌, refl, sym, ap, ◌∙◌, arith, Bool, true, false, Bool-cases, inl, inr, ◌==◌, ==_iff, equal,
  ◌&&◌, if◌then◌else◌, Option, none, some, List, [], ◌∷◌, length,
}
use triepack.Value.{Value}
use triepack.Encoder.{Entry, same_bytes, same_key, dedup_entries}

-- The value of the last entry with a key, by equality of the keys as lists.
abbrev later : List ℕ → Entry → Option Value → Option Value
later key e (some v) = some v
later key e none = if equal key e.key then some e.val else none

unfoldable pub last_value : List ℕ → List Entry → Option Value
last_value key [] = none
last_value key (e ∷ es) = later key e (last_value key es)

and_left : (a b : Bool) → (a && b) ≡ true → a ≡ true
and_left true b h = refl
and_left false b h = cc

and_right : (a b : Bool) → (a && b) ≡ true → b ≡ true
and_right true b h = h
and_right false b h = cc

same_bytes_sound :
    (xs ys : List ℕ) → length xs ≡ length ys → same_bytes (length xs) xs ys ≡ true → xs ≡ ys
unfolding same_bytes
same_bytes_sound [] [] e h = refl
same_bytes_sound [] (y ∷ ys) e h = absurd (omega arith)
same_bytes_sound (x ∷ xs) [] e h = absurd (omega arith)
same_bytes_sound (x ∷ xs) (y ∷ ys) e h =
    ap₂ ◌∷◌ ((==_iff x y).0 (and_left (x == y) _ h))
      (same_bytes_sound xs ys (omega arith) (and_right (x == y) _ h))

pub same_key_sound : (xs ys : List ℕ) → same_key xs ys ≡ true → xs ≡ ys
unfolding same_key
same_key_sound xs ys h =
    same_bytes_sound xs ys ((==_iff _ _).0 (and_left (length xs == length ys) _ h))
      (and_right (length xs == length ys) _ h)

-- An entry in front of a later one with its key does not count.
hidden :
    (key : List ℕ) (e next : Entry) (o : Option Value)
    → e.key ≡ next.key
    → later key e (later key next o) ≡ later key next o
hidden key e next (some v) same = refl
hidden key e next none same = elim (Bool-cases (equal key next.key)) [
  | inl t ↦ rw t refl
  | inr t ↦ rw (t, same, t) refl
]

-- Under every key `dedup_entries` keeps the value of the last entry with it, in whatever order the
-- entries stand.
pub dedup_entries_lem :
    (key : List ℕ) (es : List Entry) → last_value key (dedup_entries es) ≡ last_value key es
unfolding last_value dedup_entries
dedup_entries_lem key [] = refl
dedup_entries_lem key (e ∷ []) = refl
dedup_entries_lem key (e ∷ next ∷ rest) = elim (Bool-cases (same_key e.key next.key)) [
  | inl t ↦ rw t (
      dedup_entries_lem key (next ∷ rest)
      ∙ sym (hidden key e next (last_value key rest) (same_key_sound e.key next.key t)))
  | inr t ↦ rw t (ap (later key e) (dedup_entries_lem key (next ∷ rest)))
]
