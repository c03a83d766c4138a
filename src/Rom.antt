-- ===== src/Rom.antt =====
-- src/bitstream/bitstream_read.c: the functions that read a buffer at a given bit position,
-- without a reader.
pub mod Laws
pub mod Signed
use triepack.Base.{
  ℕ, zero, suc, ◌+◌, ◌-◌, ◌*◌, ◌^◌, bit_and, bit_or, ◌==◌, ltb, not, ◌&&◌, ◌||◌, if◌then◌else◌,
  Option, none, some, List, u64, ℤ, as_i64,
}
use triepack.Outcome.{Out, ok, err, fault, hang, invalid_param, overflow, ◌>>=◌}
use triepack.Buffer.{read_bit_msb}

-- The rounds `i` to `i + left - 1`. `none` is a read outside the buffer.
unfoldable pub read_loop : List ℕ → ℕ → ℕ → ℕ → ℕ → Option ℕ
read_loop buf bit_pos zero i val = some val
read_loop buf bit_pos (suc left) i val = elim (read_bit_msb buf (u64 (bit_pos + i))) [
  | none ↦ none
  | some bit ↦ read_loop buf bit_pos left (i + 1) (bit_or (u64 (val * 2)) bit)
]

abbrev pub found : Option ℕ → Out (Unit {0}) ℕ
found none = fault
found (some val) = ok val tt

unfoldable pub read_bits_at : List ℕ → ℕ → ℕ → Out (Unit {0}) ℕ
read_bits_at buf bit_pos n =
    if n == 0 || ltb 64 n then err invalid_param tt else found (read_loop buf bit_pos n 0 0)

-- The complement is that of `uint64_t`.
unfoldable pub sign_extend : ℕ → ℕ → ℕ
sign_extend n raw =
    if ltb n 64 && not (bit_and raw (2 ^ (n - 1)) == 0)
    then bit_or raw (2 ^ 64 - 1 - (2 ^ n - 1))
    else raw

unfoldable pub read_bits_signed_at : List ℕ → ℕ → ℕ → Out (Unit {0}) ℤ
read_bits_signed_at buf bit_pos n =
    if n == 0 || ltb 64 n
    then err invalid_param tt
    else (do raw ← (λ (u : Unit {0}). read_bits_at buf bit_pos n); ok (as_i64 (sign_extend n raw)))
        tt

-- `val |= (byte_val & 0x7F) << shift`
abbrev pub add_group : ℕ → ℕ → ℕ → ℕ
add_group val byte_val shift = bit_or val (u64 (bit_and byte_val 0x7f * 2 ^ shift))

-- The rounds that `TP_VARINT_MAX_GROUPS` leaves; the value comes with the bits read.
varint_at_loop : List ℕ → ℕ → ℕ → ℕ → ℕ → ℕ → Out (Unit {0}) (ℕ × ℕ)
varint_at_loop buf bit_pos zero val shift total_bits = err overflow tt
varint_at_loop buf bit_pos (suc groups) val shift total_bits =
    elim (read_bits_at buf (u64 (bit_pos + total_bits)) 8) [
      | ok byte_val u ↦
          let val' = add_group val byte_val shift in
          let rest = varint_at_loop buf bit_pos groups val' (shift + 7) (total_bits + 8) in
          if bit_and byte_val 0x80 == 0 then ok (val', total_bits + 8) tt else rest
      | err e u ↦ err e tt
      | fault ↦ fault
      | hang ↦ hang
    ]

unfoldable pub read_varint_u_at : List ℕ → ℕ → Out (Unit {0}) (ℕ × ℕ)
unfolding varint_at_loop
read_varint_u_at buf bit_pos = varint_at_loop buf bit_pos 10 0 0 0
