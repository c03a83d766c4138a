-- ===== src/Rom/Signed.antt =====
-- Signed fields: the mask that the writer applies, and the sign extension that the reader does.
use native.Mathlib.Nat.{
  pow-suc, pow-le-pow_right, one-le-pow, mod-eq_of_lt, div-eq_of_lt, add-mul-mod_self_right,
  div-eq_of_lt-le,
}
use native.Mathlib.Decide.{ℕ_discrete}
use triepack.Base.{
  ℕ, zero, suc, ◌+◌, ◌-◌, ◌*◌, ◌/◌, ◌%◌, ◌^◌, ◌≤◌, ◌<◌, ◌≡◌, sym, ap, ◌∙◌, arith, ℤ, pos, negsuc,
  as_i64, as_u64, FitsSigned, u64,
}
use triepack.Bits.Masks.{bit_and-single, bit_or-fields, two_pow-add}
use triepack.Rom.{sign_extend}

-- A number below the sign bit is kept.
extend_low : (m x : ℕ) → suc m ≤ 64 → x < 2 ^ m → sign_extend (suc m) x ≡ x
unfolding sign_extend
extend_low m x hm h = ground (arith, bit_and-single m x, small)
  where
    small : x / 2 ^ m ≡ 0
    small = div-eq_of_lt {n = x} {m = 2 ^ m} h

below : (m : ℕ) → suc m ≤ 64 → 2 ^ m ≤ 2 ^ 63
below m h = pow-le-pow_right {n = 2} (omega arith) {i = m} {j = 63} (omega arith)

below_word : (m : ℕ) → suc m ≤ 64 → 2 ^ suc m ≤ 2 ^ 64
below_word m h = pow-le-pow_right {n = 2} (omega arith) {i = suc m} {j = 64} h

split : (m : ℕ) → suc m ≤ 64 → 2 ^ (63 - m) * 2 ^ suc m ≡ 2 ^ 64
split m h = sym (two_pow-add (63 - m) (suc m)) ∙ ap (λ k. 2 ^ k) all
  where
    all : 63 - m + suc m ≡ 64
    all = omega arith

one_less : (a b : ℕ) → (a - 1) * b ≡ a * b - b
one_less zero b = omega arith
one_less (suc a) b = let back : suc a - 1 ≡ a = omega arith in ap (λ t. t * b) back ∙ omega arith

times_less : (m : ℕ) → suc m ≤ 64 → (2 ^ (63 - m) - 1) * 2 ^ suc m ≡ 2 ^ 64 - 2 ^ suc m
times_less m h = one_less (2 ^ (63 - m)) (2 ^ suc m) ∙ ap (λ t. t - 2 ^ suc m) (split m h)

-- The low bits of a negative number.
low_of_negative :
    (m k : ℕ) → suc m ≤ 64 → k < 2 ^ m → (2 ^ 64 - 1 - k) % 2 ^ suc m ≡ 2 ^ suc m - 1 - k
low_of_negative m k hm h =
    ap (λ x. x % 2 ^ suc m) parts
    ∙ add-mul-mod_self_right (2 ^ suc m - 1 - k) (2 ^ (63 - m) - 1) (2 ^ suc m)
    ∙ mod-eq_of_lt {n = 2 ^ suc m - 1 - k} {m = 2 ^ suc m} (omega (arith, pow-suc 2 m))
  where
    parts : 2 ^ 64 - 1 - k ≡ 2 ^ suc m - 1 - k + (2 ^ (63 - m) - 1) * 2 ^ suc m
    parts = omega (arith, times_less m hm, pow-suc 2 m, below m hm)

-- A number with the sign bit gets ones in front, up to 64 bits.
extend_high :
    (m x : ℕ)
    → suc m < 64
    → 2 ^ m ≤ x
    → x < 2 ^ suc m
    → sign_extend (suc m) x ≡ x + (2 ^ 64 - 2 ^ suc m)
unfolding sign_extend
extend_high m x hm lo hi = ground (
  arith,
  bit_and-single m x,
  top,
  one-le-pow m 2,
  mask,
  bit_or-fields (suc m) (2 ^ (63 - m) - 1) x hi,
)
  where
    top : x / 2 ^ m ≡ 1
    top = div-eq_of_lt-le {k = 1} (2 ^ m) (omega arith) (omega (arith, pow-suc 2 m))

    mask : 2 ^ 64 - 1 - (2 ^ suc m - 1) ≡ (2 ^ (63 - m) - 1) * 2 ^ suc m
    mask = omega (arith, times_less m (omega arith), one-le-pow (suc m) 2)

last : (k : ℕ) → k < 2 ^ 63 → as_i64 (sign_extend 64 (as_u64 (negsuc k) % 2 ^ 64)) ≡ negsuc k
unfolding sign_extend
last k h = ground arith

-- What the writer keeps of an integer of `m + 1` bits, the reader extends to that integer.
pub extend-field :
    (m : ℕ) (z : ℤ)
    → suc m ≤ 64
    → FitsSigned m z
    → as_i64 (sign_extend (suc m) (as_u64 z % 2 ^ suc m)) ≡ z
extend-field m (pos k) hm h =
    let small : k < 2 ^ 63 = omega (arith, below m hm) in
    let kept : u64 k % 2 ^ suc m ≡ k =
      ap (λ x. x % 2 ^ suc m) (mod-eq_of_lt {n = k} {m = 2 ^ 64} (omega arith))
      ∙ mod-eq_of_lt {n = k} {m = 2 ^ suc m} (omega (arith, pow-suc 2 m)) in
    ap (λ x. as_i64 (sign_extend (suc m) x)) kept ∙ ap as_i64 (extend_low m k hm h) ∙ ground arith
extend-field m (negsuc k) hm h = elim (ℕ_discrete m 63) [
  | yes e ↦ rw e (last k (rw e at h))
  | no e ↦
      let small : k < 2 ^ 63 = omega (arith, below m hm) in
      let word : u64 k ≡ k = mod-eq_of_lt {n = k} {m = 2 ^ 64} (omega arith) in
      let kept : (2 ^ 64 - 1 - u64 k) % 2 ^ suc m ≡ 2 ^ suc m - 1 - k =
        ap (λ x. (2 ^ 64 - 1 - x) % 2 ^ suc m) word ∙ low_of_negative m k hm h in
      let n = 2 ^ suc m - 1 - k in
      let wide : sign_extend (suc m) n ≡ 2 ^ 64 - 1 - k =
        extend_high m (2 ^ suc m - 1 - k) (omega arith) (omega (arith, pow-suc 2 m))
          (omega (arith, one-le-pow (suc m) 2))
        ∙ omega (arith, pow-suc 2 m, below_word m hm) in
      ap (λ x. as_i64 (sign_extend (suc m) x)) kept ∙ ap as_i64 wide ∙ ground arith
]
