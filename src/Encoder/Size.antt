-- ===== src/Encoder/Size.antt =====
-- src/core/encoder.c: `varint_bits` against what `tp_bs_write_varint_u` writes.
use native.Mathlib.Nat.{pow-suc}
use triepack.Base.{
  ℕ, zero, suc, ◌+◌, ◌*◌, ◌/◌, ◌^◌, ◌<◌, ◌≡◌, refl, ap, ◌∙◌, arith, some, length, ltb, ltb→lt,
  ltb→le, Bool-cases, inl, inr,
}
use triepack.Bits.{all_bits}
use triepack.Buffer.Laws.{length-all_bits}
use triepack.Varint.Groups.{varint_bytes, no_rest, a_rest}
use triepack.Encoder.{size_loop, varint_bits}

size_loop-bytes :
    (k fuel v bits : ℕ)
    → k < fuel
    → v < 128 ^ suc k
    → size_loop fuel v bits ≡ some (bits + 8 * length (varint_bytes k v))
unfolding size_loop varint_bytes
size_loop-bytes k zero v bits hk hv = elim hk [ ]
size_loop-bytes zero (suc fuel) v bits hk hv = rw (no_rest v (omega arith)) refl
size_loop-bytes (suc k) (suc fuel) v bits hk hv = elim (Bool-cases (ltb v 128)) [
  | inl e ↦ rw (e, no_rest v (ltb→lt v 128 e)) refl
  | inr e ↦
      let sum : bits + 8 + 8 * length (varint_bytes k (v / 128))
          ≡ bits + 8 * suc (length (varint_bytes k (v / 128))) =
        omega arith in
      rw (e, a_rest v (ltb→le v 128 e))
        (size_loop-bytes k fuel (v / 128) (bits + 8) (omega arith)
            (omega (arith, pow-suc 128 (suc k)))
          ∙ ap some sum)
]

-- For every 64-bit number `varint_bits` is the number of bits that `tp_bs_write_varint_u` appends for
-- it.
pub varint_bits_lem :
    (v : ℕ) → v < 2 ^ 64 → varint_bits v ≡ some (length (all_bits (varint_bytes 9 v)))
unfolding varint_bits
varint_bits_lem v h =
    let sum : 0 + 8 * length (varint_bytes 9 v) ≡ length (all_bits (varint_bytes 9 v)) =
      omega (arith, length-all_bits (varint_bytes 9 v)) in
    size_loop-bytes 9 10 v 0 (omega arith) (omega arith) ∙ ap some sum
