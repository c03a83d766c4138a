-- ===== src/Bits/Codes.antt =====
-- A field of `n` bits: writing a number's bits and reading them back.
use native.Mathlib.Nat.{pow-suc, div-add-mod, div-div-eq-div-mul}
use mathlib.Core.Path.{ap₂, sym}
use triepack.Base.{
  ℕ, zero, suc, ◌+◌, ◌*◌, ◌/◌, ◌%◌, ◌^◌, ◌<◌, ◌≡◌, refl, ap, arith, List, [], ◌∷◌, ◌++◌, length,
  All,
}
use triepack.Bits.{IsBit, to_bits, of_bits, all_bits}

pub length-to_bits : (n v : ℕ) → length (to_bits n v) ≡ n
length-to_bits zero v = refl
length-to_bits (suc n) v = ap suc (length-to_bits n v)

pub to_bits-IsBit : (n v : ℕ) → All IsBit (to_bits n v)
to_bits-IsBit zero v = tt
to_bits-IsBit (suc n) v = (omega arith, to_bits-IsBit n v)

split_top : (n v : ℕ) → v % 2 ^ suc n ≡ v / 2 ^ n % 2 * 2 ^ n + v % 2 ^ n
split_top n v =
    let p = 2 ^ n in
    let q = v / p in
    let halves : q ≡ q / 2 * 2 + q % 2 = omega arith in
    let whole : v / 2 ^ suc n ≡ q / 2 = rw (pow-suc 2 n) (sym (div-div-eq-div-mul v p 2)) in
    omega (
      arith,
      div-add-mod v (2 ^ suc n),
      div-add-mod v p,
      ap₂ ◌*◌ (pow-suc 2 n) whole,
      ap (λ (t : ℕ). p * t) halves,
    )

pub of_bits-to_bits : (n v acc : ℕ) → of_bits acc (to_bits n v) ≡ acc * 2 ^ n + v % 2 ^ n
of_bits-to_bits zero v acc = omega arith
of_bits-to_bits (suc n) v acc = ground (
  arith,
  of_bits-to_bits n v (acc * 2 + v / 2 ^ n % 2),
  split_top n v,
  ap (λ (t : ℕ). acc * t) (pow-suc 2 n),
)

pub of_bits-append :
    (xs ys : List ℕ) (acc : ℕ) → of_bits acc (xs ++ ys) ≡ of_bits (of_bits acc xs) ys
of_bits-append [] ys acc = refl
of_bits-append (x ∷ xs) ys acc = of_bits-append xs ys (acc * 2 + x)

pub of_bits-lt :
    (xs : List ℕ) (acc k : ℕ) → All IsBit xs → acc < k → of_bits acc xs < k * 2 ^ length xs
of_bits-lt [] acc k h p = omega arith
of_bits-lt (x ∷ xs) acc k h p =
    ground
      (arith, of_bits-lt xs (acc * 2 + x) (k * 2), ap (λ (t : ℕ). k * t) (pow-suc 2 (length xs)))

-- The eight bits of a byte as a field.
pub byte-bits : (b : ℕ) (bs : List ℕ) → to_bits 8 b ++ all_bits bs ≡ all_bits (b ∷ bs)
byte-bits b bs =
    ap
      (λ k.
        (b / 128 % 2)
        ∷ (b / 64 % 2)
        ∷ (b / 32 % 2)
        ∷ (b / 16 % 2)
        ∷ (b / 8 % 2)
        ∷ (b / 4 % 2)
        ∷ (b / 2 % 2)
        ∷ k
        ∷ all_bits bs)
      last
  where
    last : b / 1 % 2 ≡ b % 2
    last = omega arith
