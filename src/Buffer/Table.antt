-- ===== src/Buffer/Table.antt =====
-- Changing one bit of a byte, checked on every byte and every bit position by evaluation.
use triepack.Base.{
  ℕ, zero, suc, ◌-◌, ◌<◌, ◌≡◌, refl, arith, ◌==◌, ==_iff, all_below, all_below_sound, ◌&&◌, Bool,
  true, false, List, [], ◌∷◌, set,
}
use mathlib.Core.Path.{ap₂}
use triepack.Bits.{all_bits, IsByte, IsBit}
use triepack.Buffer.{put_bit}

same : List ℕ → List ℕ → Bool
same [] [] = true
same (x ∷ xs) (y ∷ ys) = x == y && same xs ys
same _ _ = false

and_true : (a b : Bool) → (a && b) ≡ true → (a ≡ true) × (b ≡ true)
and_true a b h = ground arith

same_sound : (xs ys : List ℕ) → same xs ys ≡ true → xs ≡ ys
unfolding same
same_sound [] [] h = refl
same_sound (x ∷ xs) (y ∷ ys) h =
    let (p, q) = and_true (x == y) (same xs ys) h in ap₂ ◌∷◌ ((==_iff x y).0 p) (same_sound xs ys q)
same_sound [] (y ∷ ys) h = cc
same_sound (x ∷ xs) [] h = cc

-- Position `k` of a byte counts from its top bit.
abbrev changes : ℕ → ℕ → ℕ → Bool
changes v k x = same (all_bits (put_bit x (7 - k) v ∷ [])) (set (all_bits (x ∷ [])) k v)

put_bit_table :
    (all_below 8 (λ k. all_below 256 (changes 0 k)) ≡ true)
    × (all_below 8 (λ k. all_below 256 (changes 1 k)) ≡ true)
unfolding all_below same
put_bit_table = (refl, refl)

pub put_bit_lem :
    (v k x : ℕ)
    → IsBit v
    → k < 8
    → IsByte x
    → all_bits (put_bit x (7 - k) v ∷ []) ≡ set (all_bits (x ∷ [])) k v
put_bit_lem zero k x hv hk hx = same_sound _ _ (
    all_below_sound (changes 0 k) 256 x hx
      (all_below_sound (λ k. all_below 256 (changes 0 k)) 8 k hk put_bit_table.0))
put_bit_lem (suc zero) k x hv hk hx = same_sound _ _ (
    all_below_sound (changes 1 k) 256 x hx
      (all_below_sound (λ k. all_below 256 (changes 1 k)) 8 k hk put_bit_table.1))
put_bit_lem (suc (suc v)) k x hv hk hx = absurd (omega arith)
