-- ===== src/V2/BitVec/Louds.antt =====
-- src/v2/v2_bitvec.c: the LOUDS steps.
use triepack.Base.{
  ℕ, zero, suc, ◌+◌, ◌-◌, ◌*◌, ◌^◌, ◌≤◌, ◌<◌, ◌≡◌, refl, ap, ◌∙◌, arith, List, length, false,
  Bool-cases, inl, inr, ltb, ltb→lt, ltb→le, ◌==◌, u64,
}
use native.Mathlib.Nat.{mod-eq_of_lt}
use triepack.Outcome.{ok}
use triepack.V2.BitVec.{BitVec, select, child_begin, child_count}
use triepack.V2.BitVec.Rank.{IsIndexed, count-le}
use triepack.V2.BitVec.Select.{tally, select-finds, next_bit}

zeros-grow :
    (bits : List ℕ) (a n : ℕ)
    → a + n ≤ 8 * length bits
    → tally false bits a ≤ tally false bits (a + n)
zeros-grow bits a zero h = omega (arith, ap (tally false bits) (more a))
  where
    more : (a : ℕ) → a + 0 ≡ a
    more a = omega arith
zeros-grow bits a (suc n) h =
    let next : a + suc n ≡ suc (a + n) = omega arith in
    omega (
      arith,
      zeros-grow bits a n (omega arith),
      next_bit bits (a + n) (omega arith),
      ap (tally false bits) next,
      count-le bits (a + n),
    )

-- The position behind the zero that ends the block of the node before.
begin_behind :
    (bv : BitVec) (v p : ℕ)
    → select false bv v ≡ ok p tt
    → p < 2 ^ 63
    → child_begin bv (suc v) ≡ ok (p + 1) tt
unfolding child_begin
begin_behind bv v p found small =
    let back : suc v - 1 ≡ v = omega arith in
    let not_root : (suc v == 0) ≡ false = ground arith in
    let word : u64 (p + 1) ≡ p + 1 = mod-eq_of_lt {n = p + 1} {m = 2 ^ 64} (omega arith) in
    rw (not_root, back, found, word) refl

count_between :
    (bv : BitVec) (v first last : ℕ)
    → child_begin bv v ≡ ok first tt
    → select false bv v ≡ ok last tt
    → first ≤ last
    → child_count bv v ≡ ok (last - first) tt
unfolding child_count
count_between bv v first last start found le = elim (Bool-cases (ltb first last)) [
  | inl t ↦ rw (start, found, t) refl
  | inr t ↦
      let none_between : last - first ≡ 0 = omega (arith, ltb→le _ _ t) in
      rw (start, found, t, none_between) refl
]

root_begin : (bv : BitVec) → child_begin bv 0 ≡ ok 0 tt
unfolding child_begin
root_begin bv = refl

-- Over a right index the children's blocks of the LOUDS nodes lie one behind the other, one zero bit
-- apart: the block of node `v + 1` begins behind the block of `v` and the zero that ends it, for every
-- `v` whose zero is there.
pub blocks_adjoin :
    (bv : BitVec) (v : ℕ)
    → IsIndexed bv
    → v < tally false bv.bits bv.nbits
    → (first : ℕ) × (many : ℕ) × (child_begin bv v ≡ ok first tt)
      × (child_count bv v ≡ ok many tt)
      × (child_begin bv (suc v) ≡ ok (first + many + 1) tt)
blocks_adjoin bv zero x h =
    let (q, found, inside, _, _) = select-finds false bv 0 x h in
    let sum : q + 1 ≡ 0 + (q - 0) + 1 = omega arith in
    (
      0,
      q - 0,
      root_begin bv,
      count_between bv 0 0 q (root_begin bv) found (omega arith),
      begin_behind bv 0 q found (omega (arith, x.word)) ∙ ap (λ n. ok n tt) sum,
    )
blocks_adjoin bv (suc v) x h =
    let (p, before, below_p, at_p, _) = select-finds false bv v x (omega arith) in
    let (q, found, below_q, at_q, _) = select-finds false bv (suc v) x h in
    let start = begin_behind bv v p before (omega (arith, x.word)) in
    let later : p + 1 ≤ q = elim (Bool-cases (ltb p q)) [
      | inl t ↦ omega (arith, ltb→lt _ _ t)
      | inr t ↦
          let place : q + (p - q) ≡ p = omega (arith, ltb→le _ _ t) in
          let grown = zeros-grow bv.bits q (p - q) (omega (arith, x.stored, ltb→le _ _ t)) in
          absurd (omega (arith, grown, at_p, at_q, ap (tally false bv.bits) place))
    ] in
    let sum : q + 1 ≡ p + 1 + (q - (p + 1)) + 1 = omega arith in
    (
      p + 1,
      q - (p + 1),
      start,
      count_between bv (suc v) (p + 1) q start found later,
      begin_behind bv (suc v) q found (omega (arith, x.word)) ∙ ap (λ n. ok n tt) sum,
    )
