-- ===== src/V2/BitVec/Count.antt =====
-- Counting the bits of a buffer that are 1, by bytes and by words.
use mathlib.Core.Option.{some-injective}
use native.Mathlib.Nat.{pow-le-pow_right, div-div-eq-div-mul, mod-eq_of_lt}
use triepack.Base.{
  ℕ, zero, suc, ◌+◌, ◌*◌, ◌/◌, ◌%◌, ◌^◌, ◌≤◌, ◌<◌, ◌≡◌, refl, sym, ap, ◌∙◌, arith, bit_or, some,
  List, [], ◌∷◌, length, get_elem?, get_elem?-some, take, All, All-get_elem?, u64,
}
use triepack.Bits.{all_bits, to_bits, IsByte}
use triepack.Bits.Masks.{fields-bit_or, two_pow-add}
use triepack.V2.BitVec.{ones, word_at}

-- The bits that are 1 among the first `n`.
abbrev pub count : List ℕ → ℕ → ℕ
count bits n = ones (take n (all_bits bits))

-- One bit more.
pub count-suc :
    (xs : List ℕ) (i b : ℕ)
    → get_elem? xs i ≡ some b
    → ones (take (suc i) xs) ≡ ones (take i xs) + b
count-suc [] i b e = cc
count-suc (x ∷ xs) zero b e = omega (arith, some-injective _ _ e)
count-suc (x ∷ xs) (suc i) b e = omega (arith, count-suc xs i b e)

abbrev eight_more : ℕ → ℕ
eight_more n = suc (suc (suc (suc (suc (suc (suc (suc n)))))))

count-cons :
    (x : ℕ) (bits : List ℕ) (k n : ℕ)
    → n ≡ eight_more k
    → count (x ∷ bits) n ≡ ones (to_bits 8 x) + count bits k
count-cons x bits k n e = rw e (omega arith)

-- One byte more.
pub count-byte :
    (bits : List ℕ) (idx byte : ℕ)
    → get_elem? bits idx ≡ some byte
    → count bits (8 * suc idx) ≡ count bits (8 * idx) + ones (to_bits 8 byte)
count-byte [] idx byte e = cc
count-byte (x ∷ bits) zero byte e = omega (arith, some-injective _ _ e)
count-byte (x ∷ bits) (suc idx) byte e = omega (
  arith,
  count-cons x bits (8 * suc idx) (8 * suc (suc idx)) (omega arith),
  count-cons x bits (8 * idx) (8 * suc idx) (omega arith),
  count-byte bits idx byte e,
)

-- A word shifted by a byte.
ones-shift :
    (n w byte : ℕ)
    → IsByte byte
    → ones (to_bits (n + 8) (w * 256 + byte)) ≡ ones (to_bits n w) + ones (to_bits 8 byte)
ones-shift zero w byte h = omega arith
ones-shift (suc n) w byte h =
    let longer : suc n + 8 ≡ suc (n + 8) = omega arith in
    let power : 2 ^ (n + 8) ≡ 256 * 2 ^ n = omega (arith, two_pow-add n 8) in
    let front : (w * 256 + byte) / 256 ≡ w = omega arith in
    let top : (w * 256 + byte) / 2 ^ (n + 8) ≡ w / 2 ^ n =
      ap (λ t. (w * 256 + byte) / t) power
      ∙ sym (div-div-eq-div-mul (w * 256 + byte) 256 (2 ^ n))
      ∙ ap (λ t. t / 2 ^ n) front in
    ap (λ k. ones (to_bits k (w * 256 + byte))) longer
    ∙ ap (λ t. t % 2 + ones (to_bits (n + 8) (w * 256 + byte))) top
    ∙ ap (λ t. w / 2 ^ n % 2 + t) (ones-shift n w byte h)
    ∙ omega arith

wider : (m : ℕ) → 2 ^ (m + 8) ≡ 256 * 2 ^ m
wider m = omega (arith, two_pow-add m 8)

push_fits : (m w byte : ℕ) → IsByte byte → w < 2 ^ m → w * 256 + byte < 2 ^ (m + 8)
push_fits m w byte h small = omega (arith, wider m)

push_byte :
    (m w byte : ℕ)
    → IsByte byte
    → w < 2 ^ m
    → m + 8 ≤ 64
    → bit_or (u64 (w * 256)) byte ≡ w * 256 + byte
push_byte m w byte h small fits =
    let word : 2 ^ (m + 8) ≤ 2 ^ 64 =
      pow-le-pow_right {n = 2} (omega arith) {i = m + 8} {j = 64} fits in
    ap (λ t. bit_or t byte)
      (mod-eq_of_lt {n = w * 256} {m = 2 ^ 64} (omega (arith, push_fits m w byte h small)))
    ∙ fields-bit_or 8 w byte h

regroup :
    (bits : List ℕ) (left m idx w w' byte : ℕ)
    → get_elem? bits idx ≡ some byte
    → ones (to_bits (m + 8) (w * 256 + byte)) ≡ ones (to_bits m w) + ones (to_bits 8 byte)
    → ones (to_bits (m + 8 + 8 * left) w') + count bits (8 * (idx + 1))
      ≡ ones (to_bits (m + 8) (w * 256 + byte)) + count bits (8 * (idx + 1 + left))
    → ones (to_bits (m + 8 * suc left) w') + count bits (8 * idx)
      ≡ ones (to_bits m w) + count bits (8 * (idx + suc left))
regroup bits left m idx w w' byte found shifted same =
    let one : m + 8 * suc left ≡ m + 8 + 8 * left = omega arith in
    let two : 8 * (idx + 1) ≡ 8 * suc idx = omega arith in
    let three : 8 * (idx + suc left) ≡ 8 * (idx + 1 + left) = omega arith in
    omega (
      arith,
      same,
      shifted,
      count-byte bits idx byte found,
      ap (λ t. ones (to_bits t w')) one,
      ap (count bits) two,
      ap (count bits) three,
    )

-- The rounds that assemble a word.
pub word_at-count :
    (bits : List ℕ) (left m idx w : ℕ)
    → All IsByte bits
    → w < 2 ^ m
    → m + 8 * left ≤ 64
    → idx + left ≤ length bits
    → (w' : ℕ) × (word_at bits left idx w ≡ some w')
      × (ones (to_bits (m + 8 * left) w') + count bits (8 * idx)
          ≡ ones (to_bits m w) + count bits (8 * (idx + left)))
unfolding word_at
word_at-count bits zero m idx w hb small fits inside = (
  w,
  refl,
  ap (λ t. ones (to_bits t w) + count bits (8 * idx)) (omega arith)
      ∙ ap (λ t. ones (to_bits m w) + count bits (8 * t)) (omega arith),
)
word_at-count bits (suc left) m idx w hb small fits inside =
    let (byte, found) = get_elem?-some bits idx (omega arith) in
    let wide : IsByte byte = All-get_elem? IsByte bits idx byte hb found in
    let next = push_byte m w byte wide small (omega arith) in
    let (w', run, same) =
      word_at-count bits left (m + 8) (idx + 1) (w * 256 + byte) hb (push_fits m w byte wide small)
        (omega arith) (omega arith) in
    (
      w',
      rw (found, word_at) (ap (word_at bits left (idx + 1)) next ∙ run),
      regroup bits left m idx w w' byte found (ones-shift m w byte wide) same,
    )
