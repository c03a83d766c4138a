-- ===== src/Header/Bytes.antt =====
-- The fields of a file header as numbers made of the file's bytes.
use native.Mathlib.Nat.{pow-suc, div-div-eq-div-mul}
use mathlib.Core.Path.{ap₂, sym}
use triepack.Base.{
  ℕ, zero, suc, ◌+◌, ◌*◌, ◌/◌, ◌%◌, ◌^◌, ◌<◌, ◌≤◌, ◌≡◌, refl, ap, ◌∙◌, arith, List, [], ◌∷◌, ◌++◌,
  append_assoc, length, length-drop, take, drop, take-append-drop, All, All-split,
}
use triepack.Bits.{IsByte, to_bits, all_bits}
use triepack.Bits.Codes.{byte-bits}
use triepack.Header.{Header}
use triepack.Header.Fields.{field_bits}
use triepack.Header.RoundTrip.{layout}

-- The first byte is the highest.
abbrev pub number : ℕ → List ℕ → ℕ
number acc [] = acc
number acc (b ∷ bs) = number (acc * 256 + b) bs

-- `n` bytes from byte `o` on.
abbrev pub number_at : ℕ → ℕ → List ℕ → ℕ
number_at o n buf = number 0 (take n (drop o buf))

-- The header that stands in the first 32 bytes.
abbrev pub header_in : List ℕ → Header
header_in buf = record {
  magic_0 = number_at 0 1 buf;
  magic_1 = number_at 1 1 buf;
  magic_2 = number_at 2 1 buf;
  magic_3 = number_at 3 1 buf;
  version_major = number_at 4 1 buf;
  version_minor = number_at 5 1 buf;
  flags = number_at 6 2 buf;
  num_keys = number_at 8 4 buf;
  trie_data_offset = number_at 12 4 buf;
  value_store_offset = number_at 16 4 buf;
  suffix_table_offset = number_at 20 4 buf;
  total_data_bits = number_at 24 4 buf;
  reserved = number_at 28 4 buf;
}

low_byte : (v b : ℕ) → b < 256 → to_bits 8 (v * 256 + b) ≡ to_bits 8 b
low_byte v b h =
    let x = v * 256 + b in
    let e7 : x / 128 % 2 ≡ b / 128 % 2 = omega arith in
    let e6 : x / 64 % 2 ≡ b / 64 % 2 = omega arith in
    let e5 : x / 32 % 2 ≡ b / 32 % 2 = omega arith in
    let e4 : x / 16 % 2 ≡ b / 16 % 2 = omega arith in
    let e3 : x / 8 % 2 ≡ b / 8 % 2 = omega arith in
    let e2 : x / 4 % 2 ≡ b / 4 % 2 = omega arith in
    let e1 : x / 2 % 2 ≡ b / 2 % 2 = omega arith in
    let e0 : x / 1 % 2 ≡ b / 1 % 2 = omega arith in
    ap₂ ◌∷◌ e7 (
      ap₂ ◌∷◌ e6 (ap₂ ◌∷◌ e5 (ap₂ ◌∷◌ e4 (ap₂ ◌∷◌ e3 (ap₂ ◌∷◌ e2 (ap₂ ◌∷◌ e1 (ap₂ ◌∷◌ e0 refl)))))))

pow_eight : (m : ℕ) → 2 ^ (m + 8) ≡ 256 * 2 ^ m
pow_eight zero = omega arith
pow_eight (suc m) =
    let e : suc m + 8 ≡ suc (m + 8) = omega arith in
    rw e (omega (arith, pow-suc 2 (m + 8), pow-suc 2 m, pow_eight m))

high_bit : (m v b : ℕ) → b < 256 → (v * 256 + b) / 2 ^ (m + 8) ≡ v / 2 ^ m
high_bit m v b h =
    let power : 2 ^ (m + 8) ≡ 256 * 2 ^ m = pow_eight m in
    let top : (v * 256 + b) / 256 ≡ v = omega arith in
    ap (λ k. (v * 256 + b) / k) power
    ∙ sym (div-div-eq-div-mul (v * 256 + b) 256 (2 ^ m))
    ∙ ap (λ k. k / 2 ^ m) top

-- A byte behind the bits of a number.
next_byte : (m v b : ℕ) → b < 256 → to_bits (m + 8) (v * 256 + b) ≡ to_bits m v ++ to_bits 8 b
next_byte zero v b h = low_byte v b h
next_byte (suc m) v b h =
    let e : suc m + 8 ≡ suc (m + 8) = omega arith in
    ap (λ k. to_bits k (v * 256 + b)) e
    ∙ ap₂ ◌∷◌ (ap (λ k. k % 2) (high_bit m v b h)) (next_byte m v b h)

number-bits :
    (k acc n : ℕ) (bs : List ℕ)
    → All IsByte bs
    → n ≤ length bs
    → to_bits k acc ++ all_bits bs
      ≡ to_bits (k + 8 * n) (number acc (take n bs)) ++ all_bits (drop n bs)
number-bits k acc zero bs h l = ap (λ j. to_bits j acc ++ all_bits bs) (omega arith)
number-bits k acc (suc n) [] h l = absurd (omega arith)
number-bits k acc (suc n) (b ∷ bs) h l =
    ap (λ t. to_bits k acc ++ t) (sym (byte-bits b bs))
    ∙ sym (append_assoc (to_bits k acc) (to_bits 8 b) (all_bits bs))
    ∙ ap (λ t. t ++ all_bits bs) (sym (next_byte k acc b h.0))
    ∙ number-bits (k + 8) (acc * 256 + b) n bs h.1 (omega arith)
    ∙ ap (λ j. to_bits j (number (acc * 256 + b) (take n bs)) ++ all_bits (drop n bs)) (omega arith)

number-lt :
    (k acc n : ℕ) (bs : List ℕ)
    → All IsByte bs
    → n ≤ length bs
    → acc < 2 ^ k
    → number acc (take n bs) < 2 ^ (k + 8 * n)
number-lt k acc zero bs h n_le l = let e : k + 8 * 0 ≡ k = omega arith in rw e l
number-lt k acc (suc n) [] h n_le l = absurd (omega arith)
number-lt k acc (suc n) (b ∷ bs) h n_le l =
    let more : acc * 256 + b < 2 ^ (k + 8) = omega (arith, pow_eight k, h.0) in
    let e : k + 8 * suc n ≡ k + 8 + 8 * n = omega arith in
    rw e (number-lt (k + 8) (acc * 256 + b) n bs h.1 (omega arith) more)

abbrev pub fields : List ℕ → ℕ → List ℕ → List (ℕ × ℕ)
fields [] o buf = []
fields (n ∷ ns) o buf = (8 * n, number_at o n buf) ∷ fields ns (o + n) buf

abbrev pub total : List ℕ → ℕ
total [] = 0
total (n ∷ ns) = n + total ns

drop_none : (n : ℕ) → drop {A = ℕ} n [] ≡ []
drop_none zero = refl
drop_none (suc n) = refl

drop-drop : (o n : ℕ) (buf : List ℕ) → drop n (drop o buf) ≡ drop (o + n) buf
drop-drop zero n buf = ap (λ k. drop k buf) (omega arith)
drop-drop (suc o) n [] = drop_none n ∙ sym (drop_none (suc o + n))
drop-drop (suc o) n (b ∷ buf) =
    let e : suc o + n ≡ suc (o + n) = omega arith in rw e (drop-drop o n buf)

drop-IsByte : (o : ℕ) (buf : List ℕ) → All IsByte buf → All IsByte (drop o buf)
drop-IsByte o buf h = (All-split IsByte (take o buf) (drop o buf) (rw (take-append-drop o buf) h)).1

pub fields-bits :
    (ns : List ℕ) (o : ℕ) (buf : List ℕ)
    → All IsByte buf
    → o + total ns ≤ length buf
    → all_bits (drop o buf) ≡ field_bits (fields ns o buf) ++ all_bits (drop (o + total ns) buf)
unfolding field_bits
fields-bits [] o buf h l = ap (λ k. all_bits (drop k buf)) (omega arith)
fields-bits (n ∷ ns) o buf h l =
    let first = to_bits (8 * n) (number_at o n buf) in
    let rest = field_bits (fields ns (o + n) buf) in
    number-bits 0 0 n (drop o buf) (drop-IsByte o buf h) (omega (arith, length-drop o buf))
    ∙ ap (λ j. to_bits j (number_at o n buf) ++ all_bits (drop n (drop o buf))) (omega arith)
    ∙ ap (λ t. first ++ all_bits t) (drop-drop o n buf)
    ∙ ap (λ t. first ++ t) (fields-bits ns (o + n) buf h (omega arith))
    ∙ sym (append_assoc first rest _)
    ∙ ap (λ k. (first ++ rest) ++ all_bits (drop k buf)) (omega arith)

-- Any 32 bytes are the layout of the header that stands in them.
pub layout-header_in :
    (buf : List ℕ)
    → All IsByte buf
    → 32 ≤ length buf
    → all_bits buf ≡ field_bits (layout (header_in buf)) ++ all_bits (drop 32 buf)
layout-header_in buf h l =
    fields-bits (1 ∷ 1 ∷ 1 ∷ 1 ∷ 1 ∷ 1 ∷ 2 ∷ 4 ∷ 4 ∷ 4 ∷ 4 ∷ 4 ∷ 4 ∷ []) 0 buf h (omega arith)

pub number_at-lt :
    (o n : ℕ) (buf : List ℕ) → All IsByte buf → o + n ≤ length buf → number_at o n buf < 2 ^ (8 * n)
number_at-lt o n buf h l =
    let e : 8 * n ≡ 0 + 8 * n = omega arith in
    rw e (
      number-lt 0 0 n (drop o buf) (drop-IsByte o buf h) (omega (arith, length-drop o buf))
        (omega arith))
