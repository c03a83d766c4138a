-- ===== src/V2/BitVec/Select.antt =====
-- src/v2/v2_bitvec.c: the binary search of `tp2_bv_select1` and `tp2_bv_select0`.
use native.Mathlib.Nat.{pow-suc}
use native.Mathlib.Decide.{ℕ_discrete}
use mathlib.Core.Path.{subst}
use triepack.Base.{
  ℕ, zero, suc, ◌+◌, ◌-◌, ◌*◌, ◌/◌, ◌^◌, ◌≤◌, ◌<◌, ◌≡◌, refl, ap, ◌∙◌, arith, List, length,
  get_elem?-some, All-get_elem?, Bool, true, false, Bool-cases, inl, inr, leb, ltb, leb→le, leb→lt,
  ltb→lt, ltb→le, le→ltb, ◌==◌,
}
use triepack.Outcome.{Out, ok, and_then}
use triepack.Bits.{all_bits, IsBit}
use triepack.Buffer.Laws.{length-all_bits, all_bits-IsBit}
use triepack.V2.BitVec.{BitVec, rank1, rank0, rank, clamp, search_loop, select}
use triepack.V2.BitVec.Count.{count, count-suc}
use triepack.V2.BitVec.Rank.{IsIndexed, rank1_lem, count-le}

-- The bits among the first `n` that are 1, or that are 0.
abbrev pub tally : Bool → List ℕ → ℕ → ℕ
tally true bits n = count bits n
tally false bits n = n - count bits n

clamped : (bv : BitVec) (i : ℕ) → i ≤ bv.nbits → clamp bv i ≡ i
clamped bv i h = rw (le→ltb bv.nbits i h) refl

rank_lem :
    (want : Bool) (bv : BitVec) (i : ℕ)
    → IsIndexed bv
    → i ≤ bv.nbits
    → rank want bv i ≡ ok (tally want bv.bits i) tt
unfolding rank0
rank_lem true bv i x h = rank1_lem bv i x ∙ ap (λ t. ok (count bv.bits t) tt) (clamped bv i h)
rank_lem false bv i x h =
    let same = clamped bv i h in
    let counted : rank1 bv i ≡ ok (count bv.bits i) tt =
      rank1_lem bv i x ∙ ap (λ t. ok (count bv.bits t) tt) same in
    ap (λ j. and_then (rank1 bv j) (λ r u. ok (j - r) u)) same ∙ rw counted refl

tally-le : (want : Bool) (bits : List ℕ) (n : ℕ) → tally want bits n ≤ n
tally-le true bits n = count-le bits n
tally-le false bits n = omega arith

too_few : (a b : ℕ) → b < a → leb a b ≡ false
too_few a b h = ground arith

positive : (n : ℕ) → 0 < n → (n == 0) ≡ false
positive n h = ground arith

pub next_bit :
    (bits : List ℕ) (i : ℕ)
    → i < 8 * length bits
    → (count bits i ≤ count bits (suc i)) × (count bits (suc i) ≤ suc (count bits i))
next_bit bits i h =
    let (bit, found) = get_elem?-some (all_bits bits) i (omega (arith, length-all_bits bits)) in
    let small : IsBit bit = All-get_elem? IsBit (all_bits bits) i bit (all_bits-IsBit bits) found in
    omega (arith, count-suc (all_bits bits) i bit found, small)

-- One position more counts at most one bit more.
tally-suc :
    (want : Bool) (bits : List ℕ) (i : ℕ)
    → i < 8 * length bits
    → tally want bits (suc i) ≤ suc (tally want bits i)
tally-suc true bits i h = omega (arith, next_bit bits i h)
tally-suc false bits i h = omega (arith, next_bit bits i h)

module _ (want : Bool) (bv : BitVec) (k : ℕ) (x : IsIndexed bv)
    (some_left : k < tally want bv.bits bv.nbits) where
  abbrev Finds : Out (Unit {0}) ℕ → Type 0
  Finds o =
      (p : ℕ) × (o ≡ ok p tt)
      × (p < bv.nbits)
      × (tally want bv.bits p ≡ k)
      × (tally want bv.bits (suc p) ≡ suc k)

  ends :
      (p : ℕ)
      → p ≤ bv.nbits
      → tally want bv.bits p ≤ k
      → (p < bv.nbits → k < tally want bv.bits (suc p))
      → Finds (ok p tt)
  ends p top low high = elim (ℕ_discrete p bv.nbits) [
    | yes e ↦ absurd (omega (arith, ap (tally want bv.bits) e))
    | no e ↦
        let before : p < bv.nbits = omega arith in
        let step = tally-suc want bv.bits p (omega (arith, x.stored)) in
        (p, refl, before, omega (arith, step, high before), omega (arith, step, high before))
  ]

  met_ends :
      (lo hi : ℕ)
      → hi ≡ lo
      → hi ≤ bv.nbits
      → tally want bv.bits lo ≤ k
      → (hi < bv.nbits → k < tally want bv.bits (suc hi))
      → Finds (ok lo tt)
  met_ends lo hi met top low high =
      ends lo (omega arith) low
        (λ b. subst (λ h. k < tally want bv.bits (suc h)) met (high (omega arith)))

  search_loop-Finds :
      (f lo hi : ℕ)
      → lo ≤ hi
      → hi ≤ bv.nbits
      → hi - lo < 2 ^ f
      → tally want bv.bits lo ≤ k
      → (hi < bv.nbits → k < tally want bv.bits (suc hi))
      → Finds (search_loop bv k want (suc f) lo hi)
  unfolding search_loop
  search_loop-Finds zero lo hi le top size low high =
      let closed : ltb lo hi ≡ false = le→ltb lo hi (omega arith) in
      rw closed (met_ends lo hi (omega arith) top low high)
  search_loop-Finds (suc f) lo hi le top size low high = elim (Bool-cases (ltb lo hi)) [
    | inr t ↦ rw t (met_ends lo hi (omega (arith, ltb→le _ _ t)) top low high)
    | inl t ↦
        let open_ = ltb→lt lo hi t in
        let mid = lo + (hi - lo) / 2 in
        let inside : mid + 1 ≤ hi = omega arith in
        let half = pow-suc 2 f in
        let seen = rank_lem want bv (mid + 1) x (omega arith) in
        elim (Bool-cases (leb (tally want bv.bits (mid + 1)) k)) [
          | inl u ↦
              rw (t, seen, u)
                (search_loop-Finds f (mid + 1) hi inside top (omega (arith, half)) (leb→le _ _ u)
                  high)
          | inr u ↦
              rw (t, seen, u)
                (search_loop-Finds f lo mid (omega arith) (omega arith) (omega (arith, half)) low
                  (λ _. subst (λ n. k < tally want bv.bits n) (next mid) (leb→lt _ _ u)))
        ]
  ]
    where
      next : (n : ℕ) → n + 1 ≡ suc n
      next n = omega arith

-- Over a right index `tp2_bv_select1` (`want` is true) and `tp2_bv_select0` find the position of the
-- bit of their kind that has `k` of its kind before it, wherever there are more than `k`; the binary
-- search ends.
pub select-finds :
    (want : Bool) (bv : BitVec) (k : ℕ)
    → IsIndexed bv
    → k < tally want bv.bits bv.nbits
    → (p : ℕ) × (select want bv k ≡ ok p tt)
      × (p < bv.nbits)
      × (tally want bv.bits p ≡ k)
      × (tally want bv.bits (suc p) ≡ suc k)
unfolding select
select-finds want bv k x some_left =
    let available = rank_lem want bv bv.nbits x (omega arith) in
    let not_empty : (bv.nbits == 0) ≡ false =
      positive bv.nbits (omega (arith, tally-le want bv.bits bv.nbits)) in
    let enough : leb (tally want bv.bits bv.nbits) k ≡ false =
      too_few (tally want bv.bits bv.nbits) k some_left in
    rw (not_empty, available, enough)
      (search_loop-Finds want bv k x some_left 64 0 bv.nbits (omega arith) (omega arith)
        (omega (arith, x.word)) (omega (arith, tally-le want bv.bits 0))
        (λ h. absurd (omega arith)))
