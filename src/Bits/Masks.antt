-- ===== src/Bits/Masks.antt =====
-- `|` of disjoint fields, `&` with a mask of low bits, as arithmetic, at every width.
use Prim.Native.Nat.add
use Prim.Native.Nat.{differ}
use native.Mathlib.Nat.{div-div-eq-div-mul, pow-suc, one-le-pow}
use triepack.Base.{
  ℕ, zero, suc, ◌+◌, ◌-◌, ◌*◌, ◌/◌, ◌%◌, ◌^◌, ◌≤◌, ◌<◌, ◌≡◌, refl, ap, ◌∙◌, arith, bit_and, bit_or,
  bit_xor,
}
use triepack.Bits.Step.{by_halves, bit_or-digit, bit_and-digit, bit_xor-digit}

pub bit_or-zero : (a : ℕ) → bit_or a 0 ≡ a
bit_or-zero =
    by_halves (λ a. bit_or a 0 ≡ a) refl (λ a half. omega (arith, bit_or-digit (suc a) 0, half))

pub zero-bit_or : (a : ℕ) → bit_or 0 a ≡ a
zero-bit_or =
    by_halves (λ a. bit_or 0 a ≡ a) refl (λ a half. omega (arith, bit_or-digit 0 (suc a), half))

bit_and-zero : (a : ℕ) → bit_and a 0 ≡ 0
bit_and-zero =
    by_halves (λ a. bit_and a 0 ≡ 0) refl (λ a half. omega (arith, bit_and-digit (suc a) 0, half))

pub bit_and-one : (a : ℕ) → bit_and a 1 ≡ a % 2
bit_and-one a = omega (arith, bit_and-digit a 1, bit_and-zero (a / 2))

pub twice-shift : (q k : ℕ) → 2 * (q * 2 ^ k) ≡ q * 2 ^ suc k
twice-shift q k = let power : 2 ^ suc k ≡ 2 ^ k * 2 = pow-suc 2 k in rw power (omega arith)

-- `r | (q << k)` is a sum when `r` fits below bit `k`.
pub bit_or-fields : (k q r : ℕ) → r < 2 ^ k → bit_or r (q * 2 ^ k) ≡ r + q * 2 ^ k
bit_or-fields zero q r fits = ground (arith, zero-bit_or q)
bit_or-fields (suc k) q r fits = ground (
  arith,
  bit_or-digit r (q * 2 ^ suc k),
  twice-shift q k,
  pow-suc 2 k,
  bit_or-fields k q (r / 2) (omega arith),
)

-- `(v << 1) | b` appends the bit `b`.
pub bit_or-low : (v b : ℕ) → b < 2 → bit_or (v * 2) b ≡ v * 2 + b
bit_or-low v b h = ground (arith, bit_or-digit (v * 2) b, bit_or-zero v)

bit_and-fields : (k q r : ℕ) → r < 2 ^ k → bit_and (q * 2 ^ k + r) (2 ^ k - 1) ≡ r
bit_and-fields zero q r fits = rw bit_and-zero (omega arith)
bit_and-fields (suc k) q r fits = ground (
  arith,
  bit_and-digit (q * 2 ^ suc k + r) (2 ^ suc k - 1),
  twice-shift q k,
  pow-suc 2 k,
  bit_and-fields k q (r / 2) (omega arith),
)

-- `a & ((1 << k) - 1)` keeps the low `k` bits.
pub bit_and-mask : (k a : ℕ) → bit_and a (2 ^ k - 1) ≡ a % 2 ^ k
bit_and-mask k a = ground (arith, one-le-pow k 2, bit_and-fields k (a / 2 ^ k) (a % 2 ^ k))

differ-zero : (x : ℕ) → differ x 0 ≡ x
differ-zero zero = refl
differ-zero (suc x) = refl

differ-one : (x : ℕ) → x < 2 → differ x 1 ≡ 1 - x
differ-one zero h = refl
differ-one (suc zero) h = refl
differ-one (suc (suc x)) h = absurd (omega arith)

bit_xor-zero_fuel : (n a : ℕ) → a ≤ n → bit_xor a 0 ≡ a
bit_xor-zero_fuel n zero h = refl
bit_xor-zero_fuel zero (suc a) h = absurd (omega arith)
bit_xor-zero_fuel (suc n) (suc a) h = ground (
  arith,
  bit_xor-digit (suc a) 0,
  differ-zero (suc a % 2),
  bit_xor-zero_fuel n (suc a / 2) (omega arith),
)

pub bit_xor-zero : (a : ℕ) → bit_xor a 0 ≡ a
bit_xor-zero a = bit_xor-zero_fuel a a (omega arith)

-- `x ^ ~0` is the complement in `k` bits.
pub bit_xor-ones : (k x : ℕ) → x < 2 ^ k → bit_xor x (2 ^ k - 1) ≡ 2 ^ k - 1 - x
bit_xor-ones zero x h = ground (arith, bit_xor-zero x)
bit_xor-ones (suc k) x h = ground (
  arith,
  bit_xor-digit x (2 ^ suc k - 1),
  ap (differ (x % 2)) odd,
  differ-one (x % 2) (omega arith),
  one-le-pow k 2,
  pow-suc 2 k,
  bit_xor-ones k (x / 2) (omega (arith, pow-suc 2 k)),
)
  where
    odd : (2 ^ suc k - 1) % 2 ≡ 1
    odd = omega (arith, pow-suc 2 k, one-le-pow k 2 (omega arith))

one_times : (x : ℕ) → x ≡ 2 ^ 0 * x
one_times x = omega arith

-- 2 ^ (a + b), as a product.
pub two_pow-add : (a b : ℕ) → 2 ^ (a + b) ≡ 2 ^ a * 2 ^ b
two_pow-add zero b = ap (λ k. 2 ^ k) (add.zero b) ∙ one_times (2 ^ b)
two_pow-add (suc a) b =
    omega (arith, next, pow-suc 2 (a + b), two_pow-add a b, ap (λ (t : ℕ). t * 2 ^ b) (pow-suc 2 a))
  where
    next : 2 ^ (suc a + b) ≡ 2 ^ suc (a + b)
    next = ap (λ k. 2 ^ k) (omega arith)

-- `raw & (1 << m)` is the bit `m` in its place.
pub bit_and-single : (m x : ℕ) → bit_and x (2 ^ m) ≡ x / 2 ^ m % 2 * 2 ^ m
bit_and-single zero x = omega (arith, bit_and-one x)
bit_and-single (suc m) x = ground (
  arith,
  bit_and-digit x (2 ^ suc m),
  pow-suc 2 m,
  bit_and-single m (x / 2),
  deeper,
  ap (λ (t : ℕ). x / 2 ^ suc m % 2 * t) (pow-suc 2 m),
)
  where
    deeper : x / 2 / 2 ^ m ≡ x / 2 ^ suc m
    deeper = div-div-eq-div-mul x 2 (2 ^ m) ∙ ap (λ t. x / t) (omega (arith, pow-suc 2 m))

-- `(q << k) | r`, the fields the other way round.
pub fields-bit_or : (k q r : ℕ) → r < 2 ^ k → bit_or (q * 2 ^ k) r ≡ q * 2 ^ k + r
fields-bit_or zero q r fits = ground (arith, bit_or-zero q)
fields-bit_or (suc k) q r fits = ground (
  arith,
  bit_or-digit (q * 2 ^ suc k) r,
  twice-shift q k,
  pow-suc 2 k,
  fields-bit_or k q (r / 2) (omega arith),
)
