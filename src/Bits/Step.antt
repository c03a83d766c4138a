-- ===== src/Bits/Step.antt =====
-- `bit_or`, `bit_and` and `bit_xor` digit by digit: one equation for the lowest digit of each.
use Prim.Native.Nat.{min, max, differ, digits, bitwise}
use Prim.Native.Nat.{bit_and-bitwise, bit_or-bitwise, bit_xor-bitwise}
use triepack.Base.{
  ℕ, zero, suc, ◌+◌, ◌*◌, ◌/◌, ◌%◌, ◌≤◌, ◌≡◌, refl, arith, bit_and, bit_or, bit_xor,
}

below_bound :
    (P : ℕ → Type 0) → P 0 → ((a : ℕ) → P (suc a / 2) → P (suc a)) → (bound a : ℕ) → a ≤ bound → P a
below_bound P base step bound zero h = base
below_bound P base step zero (suc a) h = absurd (omega arith)
below_bound P base step (suc bound) (suc a) h =
    step a (below_bound P base step bound (suc a / 2) (omega arith))

-- Induction on the binary digits of a number.
pub by_halves : (P : ℕ → Type 0) → P 0 → ((a : ℕ) → P (suc a / 2) → P (suc a)) → (a : ℕ) → P a
by_halves P base step a = below_bound P base step a a (omega arith)

module _ (z : ℕ → ℕ) (f : ℕ → ℕ → ℕ) where
  -- Rounds beyond the number itself change nothing.
  abbrev Settled : ℕ → Type 0
  Settled a = (rounds b : ℕ) → a ≤ rounds → digits z f rounds a b ≡ digits z f a a b

  Settled-zero : Settled 0
  Settled-zero zero b h = refl
  Settled-zero (suc rounds) b h = refl

  Settled-suc : (a : ℕ) → Settled (suc a / 2) → Settled (suc a)
  Settled-suc a half zero b h = absurd (omega arith)
  Settled-suc a half (suc rounds) b h =
      omega (arith, half rounds (b / 2) (omega arith), half a (b / 2) (omega arith))

  lowest :
      (a b : ℕ)
      → bitwise z f (suc a) b ≡ 2 * bitwise z f (suc a / 2) (b / 2) + f (suc a % 2) (b % 2)
  lowest a b =
      omega (arith, by_halves Settled Settled-zero Settled-suc (suc a / 2) a (b / 2) (omega arith))

pub bit_or-digit : (a b : ℕ) → bit_or a b ≡ 2 * bit_or (a / 2) (b / 2) + max (a % 2) (b % 2)
bit_or-digit zero b = simp bit_or-bitwise (omega arith)
bit_or-digit (suc a) b = simp bit_or-bitwise (lowest (λ y. y) max a b)

pub bit_and-digit : (a b : ℕ) → bit_and a b ≡ 2 * bit_and (a / 2) (b / 2) + min (a % 2) (b % 2)
bit_and-digit zero b = simp bit_and-bitwise (omega arith)
bit_and-digit (suc a) b = simp bit_and-bitwise (lowest (λ y. 0) min a b)

pub bit_xor-digit : (a b : ℕ) → bit_xor a b ≡ 2 * bit_xor (a / 2) (b / 2) + differ (a % 2) (b % 2)
bit_xor-digit zero b = simp bit_xor-bitwise (omega arith)
bit_xor-digit (suc a) b = simp bit_xor-bitwise (lowest (λ y. y) differ a b)
