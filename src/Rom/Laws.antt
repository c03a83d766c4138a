-- ===== src/Rom/Laws.antt =====
-- What the stateless functions return, on the bits of the buffer.
use native.Mathlib.Nat.{
  mod-eq_of_lt, mul-le-mul_left, mul-le-mul_right, pow-suc, one-le-pow, pow-le-pow_right,
}
use mathlib.Core.Path.{subst}
use triepack.Base.{
  ℕ, suc, ◌+◌, ◌*◌, ◌^◌, ◌≤◌, ◌<◌, ◌≡◌, refl, sym, ap, ◌∙◌, arith, bit_or, some, List, [], ◌∷◌,
  ◌++◌, append_assoc, length, length-append, get_elem?, get_elem?-middle, All, u64,
}
use triepack.Outcome.{ok}
use triepack.Bits.{all_bits, of_bits, IsBit}
use triepack.Bits.Masks.{bit_or-low}
use triepack.Buffer.{read_bit_msb}
use triepack.Buffer.Laws.{read_bit_msb_lem}
use triepack.Rom.{read_loop, read_bits_at}

-- The bits `bs` stand in the buffer from position `p` on.
pub record Stands (buf : List ℕ) (p : ℕ) (bs : List ℕ) : Type 0 where
  pub front : List ℕ
  pub rest : List ℕ
  pub whole : all_bits buf ≡ front ++ (bs ++ rest)
  pub start : length front ≡ p

pub Stands-first :
    {buf : List ℕ} {p b : ℕ} {bs : List ℕ}
    → Stands buf p (b ∷ bs)
    → get_elem? (all_bits buf) p ≡ some b
Stands-first {p} {b} {bs} s = rw s.whole (get_elem?-middle s.front (bs ++ s.rest) p b s.start)

pub Stands-append :
    {buf : List ℕ} {p : ℕ} (bs cs : List ℕ)
    → Stands buf p (bs ++ cs)
    → Stands buf p bs × Stands buf (p + length bs) cs
Stands-append bs cs s = (
  record {
    front = s.front;
    rest = cs ++ s.rest;
    whole = s.whole ∙ ap (λ t. s.front ++ t) (append_assoc bs cs s.rest);
    start = s.start;
  },
  record {
    front = s.front ++ bs;
    rest = s.rest;
    whole =
        s.whole
        ∙ ap (λ t. s.front ++ t) (append_assoc bs cs s.rest)
        ∙ sym (append_assoc s.front bs (cs ++ s.rest));
    start = length-append s.front bs ∙ ap (λ t. t + length bs) s.start;
  },
)

pub Stands-at : {buf : List ℕ} {p q : ℕ} {bs : List ℕ} → p ≡ q → Stands buf p bs → Stands buf q bs
Stands-at {buf} {bs} e s = subst (λ k. Stands buf k bs) e s

-- A value of `k` bits leaves room for `64 - k` more.
le_one : (val b : ℕ) → b < 2 → val * 2 + b + 1 ≤ val * 2 + 2
le_one val b h = omega arith

shift_fits :
    (val b l : ℕ)
    → b < 2
    → (val + 1) * 2 ^ suc l ≤ 2 ^ 64
    → (val * 2 < 2 ^ 64) × ((val * 2 + b + 1) * 2 ^ l ≤ 2 ^ 64)
shift_fits val b l hb h =
    let both : (val + 1) * 2 ^ suc l ≡ (val * 2 + 2) * 2 ^ l =
      omega (arith, ap (λ (t : ℕ). (val + 1) * t) (pow-suc 2 l)) in
    (
      omega (arith, both, mul-le-mul_left (val * 2 + 2) (one-le-pow l 2 (omega arith))),
      omega (arith, both, mul-le-mul_right (2 ^ l) (le_one val b hb)),
    )

pub read_loop_lem :
    (buf : List ℕ) (bit_pos : ℕ) (bs : List ℕ) (i val : ℕ)
    → Stands buf (bit_pos + i) bs
    → All IsBit bs
    → bit_pos + i + length bs ≤ 2 ^ 64
    → (val + 1) * 2 ^ length bs ≤ 2 ^ 64
    → read_loop buf bit_pos (length bs) i val ≡ some (of_bits val bs)
unfolding read_loop
read_loop_lem buf bit_pos [] i val s hb hp hv = refl
read_loop_lem buf bit_pos (b ∷ bs) i val s hb hp hv =
    let here : u64 (bit_pos + i) ≡ bit_pos + i = mod-eq_of_lt (omega arith) in
    let bit : read_bit_msb buf (u64 (bit_pos + i)) ≡ some b =
      rw here (read_bit_msb_lem buf (bit_pos + i) ∙ Stands-first s) in
    let (small, fits) = shift_fits val b (length bs) hb.0 hv in
    let next : bit_or (u64 (val * 2)) b ≡ val * 2 + b =
      rw (mod-eq_of_lt {n = val * 2} small) (bit_or-low val b hb.0) in
    rw (bit, read_loop, next)
      (read_loop_lem buf bit_pos bs (i + 1) (val * 2 + b)
        (Stands-at (omega arith) (Stands-append (b ∷ []) bs s).1) hb.1 (omega arith) fits)

-- `tp_bs_read_bits_at` returns the number that the next `n` bits spell.
pub read_bits_at_lem :
    (buf : List ℕ) (bit_pos n : ℕ) (bs : List ℕ)
    → Stands buf bit_pos bs
    → All IsBit bs
    → length bs ≡ n
    → 0 < n
    → n ≤ 64
    → bit_pos + n ≤ 2 ^ 64
    → read_bits_at buf bit_pos n ≡ ok (of_bits 0 bs) tt
unfolding read_bits_at
read_bits_at_lem buf bit_pos n bs s hb hn lo hi hp =
    let zero_first : bit_pos ≡ bit_pos + 0 = omega arith in
    let fits : (0 + 1) * 2 ^ length bs ≤ 2 ^ 64 =
      rw hn (omega (arith, pow-le-pow_right {n = 2} (omega arith) hi)) in
    let loop = read_loop_lem buf bit_pos bs 0 0 (Stands-at zero_first s) hb (omega arith) fits in
    ground (arith, hn, loop)
