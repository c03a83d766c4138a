-- ===== src/Bits/Xor.antt =====
-- The laws of `^`.
use Prim.Native.Nat.{differ}
use triepack.Base.{
  ℕ, zero, suc, ◌+◌, ◌*◌, ◌/◌, ◌%◌, ◌^◌, ◌≤◌, ◌<◌, ◌≡◌, refl, sym, ap, ◌∙◌, arith, bit_xor,
}
use mathlib.Core.Path.{ap₂}
use native.Mathlib.Nat.{pow-suc, div-div-eq-div-mul}
use triepack.Bits.Masks.{bit_xor-zero, twice-shift}
use triepack.Bits.Step.{bit_xor-digit}

differ-bits : (x y : ℕ) → x < 2 → y < 2 → differ x y ≡ (x + y) % 2
differ-bits zero zero h k = refl
differ-bits zero (suc zero) h k = refl
differ-bits (suc zero) zero h k = refl
differ-bits (suc zero) (suc zero) h k = refl
differ-bits (suc (suc x)) y h k = absurd (omega arith)
differ-bits zero (suc (suc y)) h k = absurd (omega arith)
differ-bits (suc zero) (suc (suc y)) h k = absurd (omega arith)

pub xor_step : (a b : ℕ) → bit_xor a b ≡ bit_xor (a / 2) (b / 2) * 2 + (a + b) % 2
xor_step a b =
    omega (arith, bit_xor-digit a b, differ-bits (a % 2) (b % 2) (omega arith) (omega arith))

pub xor-div_two : (a b : ℕ) → bit_xor a b / 2 ≡ bit_xor (a / 2) (b / 2)
xor-div_two a b = omega (arith, xor_step a b)

pub xor-mod_two : (a b : ℕ) → bit_xor a b % 2 ≡ (a + b) % 2
xor-mod_two a b = omega (arith, xor_step a b)

comm_fuel : (n a b : ℕ) → a ≤ n → b ≤ n → bit_xor a b ≡ bit_xor b a
comm_fuel zero zero zero p q = refl
comm_fuel zero zero (suc b) p q = absurd (omega arith)
comm_fuel zero (suc a) b p q = absurd (omega arith)
comm_fuel (suc n) a b p q =
    omega
      (arith, xor_step a b, xor_step b a, comm_fuel n (a / 2) (b / 2) (omega arith) (omega arith))

pub xor_comm : (a b : ℕ) → bit_xor a b ≡ bit_xor b a
xor_comm a b = comm_fuel (a + b) a b (omega arith) (omega arith)

assoc_fuel :
    (n a b c : ℕ) → a ≤ n → b ≤ n → c ≤ n → bit_xor (bit_xor a b) c ≡ bit_xor a (bit_xor b c)
assoc_fuel zero zero zero zero p q r = refl
assoc_fuel zero zero zero (suc c) p q r = absurd (omega arith)
assoc_fuel zero zero (suc b) c p q r = absurd (omega arith)
assoc_fuel zero (suc a) b c p q r = absurd (omega arith)
assoc_fuel (suc n) a b c p q r =
    let left : bit_xor (bit_xor a b / 2) (c / 2) ≡ bit_xor (bit_xor (a / 2) (b / 2)) (c / 2) =
      ap (λ t. bit_xor t (c / 2)) (xor-div_two a b) in
    let right : bit_xor (a / 2) (bit_xor b c / 2) ≡ bit_xor (a / 2) (bit_xor (b / 2) (c / 2)) =
      ap (bit_xor (a / 2)) (xor-div_two b c) in
    omega (
      arith,
      xor_step (bit_xor a b) c,
      xor_step a (bit_xor b c),
      xor-mod_two a b,
      xor-mod_two b c,
      left,
      right,
      assoc_fuel n (a / 2) (b / 2) (c / 2) (omega arith) (omega arith) (omega arith),
    )

pub xor_assoc : (a b c : ℕ) → bit_xor (bit_xor a b) c ≡ bit_xor a (bit_xor b c)
xor_assoc a b c = assoc_fuel (a + b + c) a b c (omega arith) (omega arith) (omega arith)

self_fuel : (n a : ℕ) → a ≤ n → bit_xor a a ≡ 0
self_fuel zero zero p = refl
self_fuel zero (suc a) p = absurd (omega arith)
self_fuel (suc n) a p = omega (arith, xor_step a a, self_fuel n (a / 2) (omega arith))

pub xor_self : (a : ℕ) → bit_xor a a ≡ 0
xor_self a = self_fuel a a (omega arith)

-- Shifting right by `k`.
pub xor-div : (k a b : ℕ) → bit_xor a b / 2 ^ k ≡ bit_xor (a / 2 ^ k) (b / 2 ^ k)
xor-div zero a b = one_div (bit_xor a b) ∙ ap₂ bit_xor (sym (one_div a)) (sym (one_div b))
  where
    one_div : (x : ℕ) → x / 2 ^ 0 ≡ x
    one_div x = omega arith
xor-div (suc k) a b =
    halve (bit_xor a b)
    ∙ ap (λ t. t / 2 ^ k) (xor-div_two a b)
    ∙ xor-div k (a / 2) (b / 2)
    ∙ ap₂ bit_xor (sym (halve a)) (sym (halve b))
  where
    halve : (x : ℕ) → x / 2 ^ suc k ≡ x / 2 / 2 ^ k
    halve x = ap (λ t. x / t) (omega (arith, pow-suc 2 k)) ∙ sym (div-div-eq-div-mul x 2 (2 ^ k))

-- `^` of disjoint fields is a sum.
pub xor-fields : (k q r : ℕ) → r < 2 ^ k → bit_xor r (q * 2 ^ k) ≡ r + q * 2 ^ k
xor-fields zero q r fits = ground (arith, xor_comm r q, bit_xor-zero q)
xor-fields (suc k) q r fits = ground (
  arith,
  xor_step r (q * 2 ^ suc k),
  twice-shift q k,
  pow-suc 2 k,
  xor-fields k q (r / 2) (omega arith),
)
