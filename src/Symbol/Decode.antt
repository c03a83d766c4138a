-- ===== src/Symbol/Decode.antt =====
-- `read_utf8` on the bytes of a code point.
use native.Mathlib.Nat.{mod-eq_of_lt}
use triepack.Base.{
  length, ℕ, suc, ◌+◌, ◌*◌, ◌/◌, ◌%◌, ◌^◌, ◌≤◌, ◌<◌, ◌≡◌, refl, arith, bit_and, bit_or, List, [],
  ◌∷◌, Bool, true, false, Bool-cases, inl, inr, ltb, ltb→lt, ltb→le, ◌==◌, not, ◌&&◌, all_below,
  all_below_sound, u32,
}
use triepack.Outcome.{ok, pure, err, invalid_utf8, ◌>>=◌}
use triepack.Bits.{all_bits}
use triepack.Bits.Masks.{fields-bit_or}
use triepack.Reader.{Reader, read_u8}
use triepack.Reader.Ahead.{Ahead, moved, Reads, Reads-pure}
use triepack.Reader.Bytes.{read_byte}
use triepack.Writer.{Writer}
use triepack.Symbol.{is_surrogate, check_utf8, read_continuation, read_from, read_utf8, write_utf8}
use triepack.Symbol.Utf8.{utf8_bytes, tail_one, tail_two, tail_three}

-- How the first byte is classified, for every byte of each kind.
abbrev is_two : ℕ → Bool
is_two x =
    let b = 0xc0 + x in
    not (bit_and b 0x80 == 0) && (bit_and b 0xe0 == 0xc0) && (bit_and b 0x1f == x)

abbrev is_three : ℕ → Bool
is_three x =
    let b = 0xe0 + x in
    not (bit_and b 0x80 == 0)
    && not (bit_and b 0xe0 == 0xc0)
    && (bit_and b 0xf0 == 0xe0)
    && (bit_and b 0x0f == x)

abbrev is_four : ℕ → Bool
is_four x =
    let b = 0xf0 + x in
    not (bit_and b 0x80 == 0)
    && not (bit_and b 0xe0 == 0xc0)
    && not (bit_and b 0xf0 == 0xe0)
    && (bit_and b 0xf8 == 0xf0)
    && (bit_and b 0x07 == x)

abbrev is_more : ℕ → Bool
is_more x = let b = 0x80 + x in (bit_and b 0xc0 == 0x80) && (bit_and b 0x3f == x)

first_bytes :
    (all_below 128 (λ x. bit_and x 0x80 == 0) ≡ true)
    × (all_below 32 is_two ≡ true)
    × (all_below 16 is_three ≡ true)
    × (all_below 8 is_four ≡ true)
    × (all_below 64 is_more ≡ true)
unfolding all_below
first_bytes = (refl, refl, refl, refl, refl)

from_one : (x : ℕ) → x < 128 → read_from x ≡ pure x
unfolding read_from
from_one x h = rw (all_below_sound (λ x. bit_and x 0x80 == 0) 128 x h first_bytes.0)

from_two : (x : ℕ) → x < 32 → read_from (0xc0 + x) ≡ read_continuation 1 1 x
unfolding read_from
from_two x h = ground (arith, all_below_sound is_two 32 x h first_bytes.1)

from_three : (x : ℕ) → x < 16 → read_from (0xe0 + x) ≡ read_continuation 2 2 x
unfolding read_from
from_three x h = ground (arith, all_below_sound is_three 16 x h first_bytes.2)

from_four : (x : ℕ) → x < 8 → read_from (0xf0 + x) ≡ read_continuation 3 3 x
unfolding read_from
from_four x h = ground (arith, all_below_sound is_four 8 x h first_bytes.3)

-- One round: six more bits.
more_byte :
    (cont left cp x v : ℕ) (bs : List ℕ)
    → x < 64
    → cp < 2 ^ 26
    → Reads (all_bits bs) v (read_continuation cont left (cp * 64 + x))
    → Reads (all_bits ((0x80 + x) ∷ bs)) v (read_continuation cont (suc left) cp)
unfolding read_continuation
more_byte cont left cp x v bs hx hc h =
    read_byte (0x80 + x) bs v _ (omega arith) (rw (marked, payload, joined) h)
  where
    both : is_more x ≡ true
    both = all_below_sound is_more 64 x hx first_bytes.4

    marked : (bit_and (0x80 + x) 0xc0 == 0x80) ≡ true
    marked = ground (arith, both)

    payload : bit_and (0x80 + x) 0x3f ≡ x
    payload = ground (arith, both)

    joined : bit_or (u32 (cp * 64)) x ≡ cp * 64 + x
    joined = rw (mod-eq_of_lt {n = cp * 64} {m = 2 ^ 32} (omega arith)) (fields-bit_or 6 cp x hx)

check_passes :
    (cont cp : ℕ)
    → (cont ≡ 1 → 0x80 ≤ cp)
    → (cont ≡ 2 → 0x800 ≤ cp)
    → (cont ≡ 3 → 0x10000 ≤ cp)
    → is_surrogate cp ≡ false
    → check_utf8 cont cp ≡ pure cp
unfolding check_utf8
check_passes cont cp h1 h2 h3 s = ground arith

-- The end of the bytes: all of the code point is there.
ends :
    (cont cp v : ℕ)
    → cp ≡ v
    → (cont ≡ 1 → 0x80 ≤ v)
    → (cont ≡ 2 → 0x800 ≤ v)
    → (cont ≡ 3 → 0x10000 ≤ v)
    → is_surrogate v ≡ false
    → Reads [] v (read_continuation cont 0 cp)
unfolding read_continuation
ends cont cp v e h1 h2 h3 s = rw (e, check_passes cont v h1 h2 h3 s) (Reads-pure v)

-- `tp_bs_read_utf8` reads back the bytes of every number below 2 ^ 21 that is no surrogate.
pub read_utf8-Reads :
    (cp : ℕ) → cp < 2 ^ 21 → is_surrogate cp ≡ false → Reads (all_bits (utf8_bytes cp)) cp read_utf8
unfolding read_utf8 utf8_bytes
read_utf8-Reads cp h s = elim (Bool-cases (ltb cp 0x80)) [
  | inl e ↦
      let small = ltb→lt cp 0x80 e in
      rw e (read_byte cp [] cp read_from (omega arith) (rw (from_one cp small) (Reads-pure cp)))
  | inr e ↦ rw e (elim (Bool-cases (ltb cp 0x800)) [
    | inl f ↦ rw f (two (ltb→le cp 0x80 e) (ltb→lt cp 0x800 f))
    | inr f ↦ rw f (elim (Bool-cases (ltb cp 0x10000)) [
      | inl g ↦ rw g (three (ltb→le cp 0x800 f) (ltb→lt cp 0x10000 g))
      | inr g ↦ rw g (four (ltb→le cp 0x10000 g))
    ])
  ])
]
  where
    two :
        0x80 ≤ cp
        → cp < 0x800
        → Reads (all_bits ((0xc0 + cp / 64) ∷ tail_one cp)) cp (read_u8 >>= read_from)
    two lo hi = read_byte (0xc0 + cp / 64) (tail_one cp) cp read_from (omega arith) (
        rw (from_two (cp / 64) (omega arith)) (
          more_byte 1 0 (cp / 64) (cp % 64) cp [] (omega arith) (omega arith)
            (ends 1 (cp / 64 * 64 + cp % 64) cp (omega arith) (λ _. lo) (λ x. cc) (λ x. cc) s)))

    three :
        0x800 ≤ cp
        → cp < 0x10000
        → Reads (all_bits ((0xe0 + cp / 4096) ∷ tail_two cp)) cp (read_u8 >>= read_from)
    three lo hi = read_byte (0xe0 + cp / 4096) (tail_two cp) cp read_from (omega arith) (
        rw (from_three (cp / 4096) (omega arith)) (
          more_byte 2 1 (cp / 4096) (cp / 64 % 64) cp (tail_one cp) (omega arith) (omega arith) (
            more_byte 2 0 (cp / 4096 * 64 + cp / 64 % 64) (cp % 64) cp [] (omega arith)
              (omega arith)
              (ends 2 ((cp / 4096 * 64 + cp / 64 % 64) * 64 + cp % 64) cp (omega arith) (λ x. cc)
                (λ _. lo) (λ x. cc) s))))

    four :
        0x10000 ≤ cp
        → Reads (all_bits ((0xf0 + cp / 262144) ∷ tail_three cp)) cp (read_u8 >>= read_from)
    four lo = read_byte (0xf0 + cp / 262144) (tail_three cp) cp read_from (omega arith) (
        rw (from_four (cp / 262144) (omega arith)) (
          more_byte 3 2 (cp / 262144) (cp / 4096 % 64) cp (tail_two cp) (omega arith) (omega arith)
            (more_byte 3 1 (cp / 262144 * 64 + cp / 4096 % 64) (cp / 64 % 64) cp (tail_one cp)
              (omega arith) (omega arith)
              (more_byte 3 0 ((cp / 262144 * 64 + cp / 4096 % 64) * 64 + cp / 64 % 64) (cp % 64) cp
                [] (omega arith) (omega arith)
                (ends 3 (((cp / 262144 * 64 + cp / 4096 % 64) * 64 + cp / 64 % 64) * 64 + cp % 64)
                  cp (omega arith) (λ x. cc) (λ x. cc) (λ _. lo) s)))))

-- Above U+10FFFF and below 2 ^ 21, `tp_bs_read_utf8` reads the four bytes of a number as a code point
-- and stands behind them; `tp_bs_write_utf8` refuses the same number.
pub read_utf8-too_large :
    (cp : ℕ)
    → 0x10ffff < cp
    → cp < 2 ^ 21
    → (grants : ℕ → Bool) (w : Writer) (r : Reader) → Ahead r (all_bits (utf8_bytes cp))
    → (read_utf8 r ≡ ok cp (moved r (length (all_bits (utf8_bytes cp)))))
      × (write_utf8 grants cp w ≡ err invalid_utf8 w)
unfolding write_utf8
read_utf8-too_large cp lo hi grants w r h =
    (read_utf8-Reads cp hi (ground arith) r h, refused grants w cp lo)
  where
    refused :
        (grants : ℕ → Bool) (w : Writer) (cp : ℕ)
        → 0x10ffff < cp
        → write_utf8 grants cp w ≡ err invalid_utf8 w
    refused grants w cp lo = ground arith
