-- ===== src/Varint/Zigzag.antt =====
-- src/bitstream/bitstream_varint.c: the zigzag map and the signed VarInt.
use mathlib.Core.Path.{subst}
use native.Mathlib.Decide.{ℕ_discrete}
use triepack.Base.{
  ℕ, ◌+◌, ◌*◌, ◌/◌, ◌%◌, ◌^◌, ◌<◌, ◌≡◌, ◌∙◌, arith, ℤ, pos, negsuc, FitsSigned, Bool,
}
use triepack.Bits.{all_bits}
use triepack.Bits.Masks.{bit_xor-zero, bit_xor-ones, bit_and-one}
use triepack.Reader.Ahead.{Reads, Reads-map}
use triepack.Writer.Writes.{Writes}
use triepack.Varint.{zigzag, unzigzag, read_varint_u, read_varint_s, write_varint_s}
use triepack.Varint.Groups.{varint_bytes, write_varint_u-Writes}
use triepack.Varint.Reading.{read_varint_u-Reads}

-- The number that an integer is stored as.
pub zigzag_lem :
    (z : ℤ) → FitsSigned 63 z → zigzag z ≡ elim z [ pos n ↦ 2 * n | negsuc n ↦ 2 * n + 1 ]
unfolding zigzag
zigzag_lem (pos n) h = bit_xor-zero _ ∙ omega arith
zigzag_lem (negsuc n) h = bit_xor-ones 64 _ (omega arith) ∙ omega arith

pub zigzag-lt : (z : ℤ) → FitsSigned 63 z → zigzag z < 2 ^ 64
zigzag-lt (pos n) h = omega (arith, zigzag_lem (pos n) h)
zigzag-lt (negsuc n) h = omega (arith, zigzag_lem (negsuc n) h)

pub unzigzag-zigzag : (z : ℤ) → FitsSigned 63 z → unzigzag (zigzag z) ≡ z
unfolding unzigzag
unzigzag-zigzag (pos n) h = rw (zigzag_lem (pos n) h) (ground (arith, bit_and-one (2 * n)))
unzigzag-zigzag (negsuc n) h =
    rw (zigzag_lem (negsuc n) h) (ground (arith, bit_and-one (2 * n + 1)))

unzigzag-even : (raw : ℕ) → raw < 2 ^ 64 → raw % 2 ≡ 0 → unzigzag raw ≡ pos (raw / 2)
unfolding unzigzag
unzigzag-even raw h e = ground (arith, bit_and-one raw)

unzigzag-odd : (raw : ℕ) → raw % 2 ≡ 1 → unzigzag raw ≡ negsuc (raw / 2)
unfolding unzigzag
unzigzag-odd raw e = ground (arith, bit_and-one raw)

-- From any raw 64-bit number `unzigzag` gives an `int64_t`, whose zigzag is that number again.
pub zigzag-unzigzag :
    (raw : ℕ) → raw < 2 ^ 64 → (zigzag (unzigzag raw) ≡ raw) × FitsSigned 63 (unzigzag raw)
zigzag-unzigzag raw h = elim (ℕ_discrete (raw % 2) 0) [
  | yes e ↦
      let small : FitsSigned 63 (pos (raw / 2)) = omega arith in
      rw (unzigzag-even raw h e) ((zigzag_lem (pos (raw / 2)) small ∙ omega arith, small))
  | no e ↦
      let small : FitsSigned 63 (negsuc (raw / 2)) = omega arith in
      rw (unzigzag-odd raw (omega arith))
        ((zigzag_lem (negsuc (raw / 2)) small ∙ omega arith, small))
]

module _ (grants : ℕ → Bool) where
  -- `tp_bs_write_varint_s` appends the bytes of the zigzag number.
  pub write_varint_s-Writes :
      (z : ℤ)
      → FitsSigned 63 z
      → Writes grants (all_bits (varint_bytes 9 (zigzag z))) (write_varint_s grants z)
  unfolding write_varint_s
  write_varint_s-Writes z h = write_varint_u-Writes grants (zigzag z) (zigzag-lt z h)

-- `tp_bs_read_varint_s` reads back the bytes of an integer.
pub read_varint_s-Reads :
    (z : ℤ) → FitsSigned 63 z → Reads (all_bits (varint_bytes 9 (zigzag z))) z read_varint_s
unfolding read_varint_s
read_varint_s-Reads z h =
    subst (λ x. Reads (all_bits (varint_bytes 9 (zigzag z))) x read_varint_s) (unzigzag-zigzag z h)
      (Reads-map (all_bits (varint_bytes 9 (zigzag z))) (zigzag z) unzigzag read_varint_u
        (read_varint_u-Reads (zigzag z) (zigzag-lt z h)))
