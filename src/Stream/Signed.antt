-- ===== src/Stream/Signed.antt =====
-- Signed fields: bitstream_write.c, `tp_bs_write_bits_signed`, and bitstream_read.c,
-- `tp_bs_read_bits_signed`.
use triepack.Base.{
  ℕ, suc, ◌+◌, ◌-◌, ◌%◌, ◌^◌, ◌≤◌, ◌<◌, ◌≡◌, refl, ap, ◌∙◌, arith, bit_and, List, length, Bool,
  true, Bool-cases, inl, inr, ltb, if◌then◌else◌, ℤ, as_i64, as_u64, FitsSigned,
}
use mathlib.Core.Path.{subst}
use native.Mathlib.Nat.{mod-eq_of_lt, mod-mod}
use triepack.Bits.{to_bits, of_bits}
use triepack.Bits.Masks.{bit_and-mask}
use triepack.Bits.Codes.{to_bits-IsBit, length-to_bits, of_bits-to_bits}
use triepack.Rom.{sign_extend}
use triepack.Rom.Laws.{read_bits_at_lem}
use triepack.Rom.Signed.{extend-field}
use triepack.Reader.{read_bits_signed}
use triepack.Reader.Ahead.{Reads}
use triepack.Reader.Robust.{signed_at_total}
use triepack.Writer.{Writer, write_bits_signed}
use triepack.Writer.Holds.{Holds}
use triepack.Writer.Writes.{Writes, write_bits-Writes, guard_passes}
use triepack.Stream.{ReadBack, round_trip}

read_bits_signed-Reads :
    (n : ℕ) (bs : List ℕ)
    → length bs ≡ n
    → 0 < n
    → n ≤ 64
    → Reads bs (as_i64 (sign_extend n (of_bits 0 bs))) (read_bits_signed n)
unfolding read_bits_signed
read_bits_signed-Reads n bs hn lo hi r h =
    let fits : r.pos + n < 2 ^ 64 = omega (arith, h.within, h.word) in
    let value = read_bits_at_lem r.buf r.pos n bs h.stands h.binary hn lo hi (omega arith) in
    let signed = signed_at_total r.buf r.pos n (of_bits 0 bs) lo hi value in
    ground (arith, hn, signed, h.within, mod-eq_of_lt {n = r.pos + n} fits)

-- The value that is written has the low bits of the integer.
masked : ℤ → ℕ → ℕ
masked z n = if ltb n 64 then bit_and (as_u64 z) (2 ^ n - 1) else as_u64 z

masked_lem : (z : ℤ) (n : ℕ) → n ≤ 64 → masked z n % 2 ^ n ≡ as_u64 z % 2 ^ n
unfolding masked
masked_lem z n h = elim (Bool-cases (ltb n 64)) [
  | inl e ↦ rw e (ap (λ x. x % 2 ^ n) (bit_and-mask n (as_u64 z)) ∙ mod-mod (as_u64 z) (2 ^ n))
  | inr e ↦ rw e refl
]

write_bits_signed-Writes :
    (grants : ℕ → Bool) (z : ℤ) (n : ℕ)
    → 0 < n
    → n ≤ 64
    → Writes grants (to_bits n (masked z n)) (write_bits_signed grants z n)
unfolding write_bits_signed masked
write_bits_signed-Writes grants z n lo hi =
    rw (guard_passes n lo hi) (write_bits-Writes grants (masked z n) n lo hi)

-- Where memory is granted, an integer of `m + 1` bits, at most 64, survives `tp_bs_write_bits_signed`
-- and `tp_bs_read_bits_signed` of that width.
pub read_bits_signed-write_bits_signed :
    (grants : ℕ → Bool) (m : ℕ) (z : ℤ)
    → suc m ≤ 64
    → FitsSigned m z
    → ((k : ℕ) → grants k ≡ true)
    → (w : Writer) (pre : List ℕ) → Holds w pre
    → length pre + suc m + 7 < 2 ^ 64
    → (new : List ℕ) × (length new ≡ suc m)
      × ReadBack w pre new z (write_bits_signed grants z (suc m)) (read_bits_signed (suc m))
read_bits_signed-write_bits_signed grants m z hm hz g w pre h fits =
    let new = to_bits (suc m) (masked z (suc m)) in
    let low : of_bits 0 new ≡ as_u64 z % 2 ^ suc m =
      omega (arith, of_bits-to_bits (suc m) (masked z (suc m)) 0, masked_lem z (suc m) hm) in
    let value : as_i64 (sign_extend (suc m) (of_bits 0 new)) ≡ z =
      ap (λ x. as_i64 (sign_extend (suc m) x)) low ∙ extend-field m z hm hz in
    (
      new,
      length-to_bits (suc m) (masked z (suc m)),
      round_trip grants new z (write_bits_signed grants z (suc m)) (read_bits_signed (suc m))
          (write_bits_signed-Writes grants z (suc m) (omega arith) hm)
          (subst (λ x. Reads new x (read_bits_signed (suc m))) value
            (read_bits_signed-Reads (suc m) new (length-to_bits (suc m) (masked z (suc m)))
              (omega arith) hm))
          (to_bits-IsBit (suc m) (masked z (suc m))) g w pre h
          (omega (arith, length-to_bits (suc m) (masked z (suc m)))),
    )
