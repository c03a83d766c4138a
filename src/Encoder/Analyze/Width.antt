-- ===== src/Encoder/Analyze/Width.antt =====
-- src/core/encoder.c: `analyze_symbols` finds the least width for the symbols.
use triepack.Base.{
  ℕ, zero, suc, ◌+◌, ◌^◌, ◌≤◌, ◌<◌, ◌≡◌, refl, arith, Bool-cases, inl, inr, ltb, ltb→lt, ltb→le,
  some,
}
use triepack.Encoder.Analyze.{width_loop}

not_top : (bps top total : ℕ) → 2 ^ bps < total → bps ≤ top → total ≤ 2 ^ top → bps + 1 ≤ top
not_top bps top total h le fits = elim (Bool-cases (ltb bps top)) [
  | inl t ↦ omega (arith, ltb→lt bps top t)
  | inr t ↦
      let same : top ≡ bps = omega (arith, ltb→le bps top t) in
      let fits' : total ≤ 2 ^ bps = rw same at fits in absurd (omega arith)
]

one_more :
    (bps total k : ℕ)
    → ((k : ℕ) → 1 ≤ k → k < bps → 2 ^ k < total)
    → 2 ^ bps < total
    → 1 ≤ k
    → k < bps + 1
    → 2 ^ k < total
one_more bps total k below h lo hi = elim (Bool-cases (ltb k bps)) [
  | inl t ↦ below k lo (ltb→lt k bps t)
  | inr t ↦ let same : k ≡ bps = omega (arith, ltb→le k bps t) in rw same h
]

-- The loop finds the least width, from `bps` on, for the symbols.
pub width_loop_lem :
    (fuel total bps top : ℕ)
    → bps ≤ top
    → top < bps + fuel
    → total ≤ 2 ^ top
    → ((k : ℕ) → 1 ≤ k → k < bps → 2 ^ k < total)
    → (r : ℕ) × (width_loop fuel total bps ≡ some r)
      × (bps ≤ r)
      × (total ≤ 2 ^ r)
      × ((k : ℕ) → 1 ≤ k → k < r → 2 ^ k < total)
unfolding width_loop
width_loop_lem zero total bps top h up fits below = absurd (omega arith)
width_loop_lem (suc fuel) total bps top h up fits below = elim (Bool-cases (ltb (2 ^ bps) total)) [
  | inl t ↦
      let more = ltb→lt (2 ^ bps) total t in
      let lower = not_top bps top total more h fits in
      let (r, run, low, wide, least) =
        width_loop_lem fuel total (bps + 1) top lower (omega arith) fits
          (λ k lo hi. one_more bps total k below more lo hi) in
      rw t (r, run, omega arith, wide, least)
  | inr t ↦ rw t (bps, refl, omega arith, ltb→le (2 ^ bps) total t, below)
]
