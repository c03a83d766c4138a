-- ===== src/Crc/Bitwise.antt =====
-- The table against the definition of the checksum, one bit at a time.
use triepack.Base.{
  ℕ, zero, suc, ◌+◌, ◌*◌, ◌/◌, ◌%◌, ◌^◌, ◌<◌, ◌≡◌, refl, sym, ap, ◌∙◌, arith, bit_xor, bit_and,
  List, [], ◌∷◌, Option, none, some, get_elem?, Bool, true, false, all_below, all_below_sound, ◌==◌,
  ==_iff, All,
}
use mathlib.Core.Path.{ap₂}
use triepack.Bits.{IsByte}
use triepack.Bits.Masks.{bit_and-mask, bit_xor-zero, twice-shift}
use triepack.Bits.Xor.{xor-div_two, xor-mod_two, xor_comm, xor_assoc, xor-div, xor-fields}
use triepack.Crc.{crc32_table, crc_round, crc_loop, crc32}

-- One bit of the checksum: the reversed polynomial is 0xEDB88320.
abbrev pub crc_bit : ℕ → ℕ
crc_bit c = bit_xor (c / 2) (c % 2 * 0xedb8_8320)

abbrev pub repeat : ℕ → ℕ → ℕ
repeat zero c = c
repeat (suc n) c = repeat n (crc_bit c)

-- The checksum of the bytes behind `c`, bit by bit, low bit first.
unfoldable pub crc_bitwise : ℕ → List ℕ → ℕ
crc_bitwise c [] = c
crc_bitwise c (byte ∷ bytes) = crc_bitwise (repeat 8 (bit_xor c byte)) bytes

abbrev entry_is : ℕ → Bool
entry_is n = elim (get_elem? crc32_table n) [ none ↦ false | some e ↦ e == repeat 8 n ]

table_is_right : all_below 256 entry_is ≡ true
unfolding all_below
table_is_right = refl

table_entry : (n : ℕ) → n < 256 → get_elem? crc32_table n ≡ some (repeat 8 n)
table_entry n h = found (get_elem? crc32_table n) (all_below_sound entry_is 256 n h table_is_right)
  where
    found :
        (o : Option ℕ)
        → (elim o [ none ↦ false | some e ↦ e == repeat 8 n ]) ≡ true
        → o ≡ some (repeat 8 n)
    found none e = cc
    found (some x) e = ap some ((==_iff x (repeat 8 n)).0 e)

swap_middle :
    (a b c d : ℕ) → bit_xor (bit_xor a b) (bit_xor c d) ≡ bit_xor (bit_xor a c) (bit_xor b d)
swap_middle a b c d =
    xor_assoc a b (bit_xor c d)
    ∙ ap (bit_xor a)
        (sym (xor_assoc b c d) ∙ ap (λ t. bit_xor t d) (xor_comm b c) ∙ xor_assoc c b d)
    ∙ sym (xor_assoc a c (bit_xor b d))

poly_parts :
    (x y : ℕ)
    → x < 2
    → y < 2
    → (x + y) % 2 * 0xedb8_8320 ≡ bit_xor (x * 0xedb8_8320) (y * 0xedb8_8320)
poly_parts zero zero h k = refl
poly_parts zero (suc zero) h k = refl
poly_parts (suc zero) zero h k = refl
poly_parts (suc zero) (suc zero) h k = refl
poly_parts (suc (suc x)) y h k = absurd (omega arith)
poly_parts zero (suc (suc y)) h k = absurd (omega arith)
poly_parts (suc zero) (suc (suc y)) h k = absurd (omega arith)

-- Each step is linear over `^`.
crc_bit-xor : (a b : ℕ) → crc_bit (bit_xor a b) ≡ bit_xor (crc_bit a) (crc_bit b)
crc_bit-xor a b =
    ap₂ bit_xor (xor-div_two a b) (
      ap (λ t. t * 0xedb8_8320) (xor-mod_two a b ∙ parity)
      ∙ poly_parts (a % 2) (b % 2) (omega arith) (omega arith))
    ∙ swap_middle (a / 2) (b / 2) (a % 2 * 0xedb8_8320) (b % 2 * 0xedb8_8320)
  where
    parity : (a + b) % 2 ≡ (a % 2 + b % 2) % 2
    parity = omega arith

repeat-xor : (n a b : ℕ) → repeat n (bit_xor a b) ≡ bit_xor (repeat n a) (repeat n b)
repeat-xor zero a b = refl
repeat-xor (suc n) a b = ap (repeat n) (crc_bit-xor a b) ∙ repeat-xor n (crc_bit a) (crc_bit b)

-- High bits only move down.
repeat-high : (n q : ℕ) → repeat n (q * 2 ^ n) ≡ q
repeat-high zero q = omega arith
repeat-high (suc n) q = ap (repeat n) step ∙ repeat-high n q
  where
    step : crc_bit (q * 2 ^ suc n) ≡ q * 2 ^ n
    step = rw (even, half) (bit_xor-zero (q * 2 ^ n))
      where
        even : q * 2 ^ suc n % 2 ≡ 0
        even = omega (arith, twice-shift q n)

        half : q * 2 ^ suc n / 2 ≡ q * 2 ^ n
        half = omega (arith, twice-shift q n)

-- A table entry and a shift do the work of eight bits.
eight_bits : (x : ℕ) → bit_xor (repeat 8 (x % 256)) (x / 256) ≡ repeat 8 x
eight_bits x =
    ap (bit_xor (repeat 8 (x % 256))) (sym (repeat-high 8 (x / 256)))
    ∙ sym (repeat-xor 8 (x % 256) (x / 256 * 2 ^ 8))
    ∙ ap (repeat 8) (xor-fields 8 (x / 256) (x % 256) (omega arith) ∙ omega arith)

crc_round_lem :
    (crc byte : ℕ) → IsByte byte → crc_round crc byte ≡ some (repeat 8 (bit_xor crc byte))
unfolding crc_round
crc_round_lem crc byte h =
    let x = bit_xor crc byte in
    let index : get_elem? crc32_table (bit_and x 0xff) ≡ some (repeat 8 (x % 256)) =
      ap (get_elem? crc32_table) (bit_and-mask 8 x) ∙ table_entry (x % 256) (omega arith) in
    let high : crc / 2 ^ 8 ≡ x / 256 =
      sym (xor-div 8 crc byte ∙ ap (bit_xor (crc / 2 ^ 8)) no_high ∙ bit_xor-zero (crc / 2 ^ 8)) in
    rw (index, crc_round) (ap some (ap (bit_xor (repeat 8 (x % 256))) high ∙ eight_bits x))
  where
    no_high : byte / 2 ^ 8 ≡ 0
    no_high = omega arith

crc_loop_lem :
    (bytes : List ℕ) (crc : ℕ)
    → All IsByte bytes
    → crc_loop crc bytes ≡ some (crc_bitwise crc bytes)
unfolding crc_loop crc_bitwise
crc_loop_lem [] crc h = refl
crc_loop_lem (byte ∷ bytes) crc h =
    rw (crc_round_lem crc byte h.0, crc_loop) (crc_loop_lem bytes (repeat 8 (bit_xor crc byte)) h.1)

-- On bytes the table-driven `tp_crc32` never leaves its table, and is the CRC-32 taken one bit at a
-- time, of the reversed polynomial 0xEDB88320, with both complements.
pub crc32_lem :
    (bytes : List ℕ)
    → All IsByte bytes
    → crc32 bytes ≡ some (bit_xor (crc_bitwise 0xffff_ffff bytes) 0xffff_ffff)
unfolding crc32
crc32_lem bytes h = rw (crc_loop_lem bytes 0xffff_ffff h, crc32)
